-- ===== src/Emergencies/Alerts/Told.antt =====
-- Who is told along a call for help.
use mathlib.Core.Path.{subst, subst⁻¹}
use motogram.Prelude.{
  ℕ, ◌≡◌, ◌⊎◌, refl, true, is_some, List, ◌∷◌, In, inl, inr, arith, ◌==◌, ==_iff, Bool-cases,
}
use motogram.Emergencies.Schema.{Signal, Tables, Store}
use motogram.Emergencies.Alerts.{Rider, Requester, CreateAlert, new_responder, create_alert}
use motogram.Emergencies.Alerts.Recipients.{IsSpared, IsTold}
use motogram.Emergencies.Alerts.Recipients.Calls.{create_alert-keeps}

module _ (Place : Type 0) (T : Tables Place) (user_id : ℕ) (s : Store Place T) (alert_id : ℕ) where
  -- What the service has done so far: who was told of an alert, and who is a responder.
  abbrev pub IsHeard : Store Place T → Type 0
  IsHeard t =
      (t.blocks ≡ s.blocks)
      × ((m : Signal) → In m t.signals → In m s.signals ⊎ IsTold Place T user_id s m)
      × ((j : ℕ)
          → is_some (T.responder.find_unique (alert_id, j) t.responders) ≡ true
          → (is_some (T.responder.find_unique (alert_id, j) s.responders) ≡ true)
            ⊎ IsSpared Place T user_id s j)

  IsHeard-signal :
      (m : Signal) (t : Store Place T)
      → IsTold Place T user_id s m
      → IsHeard t
      → IsHeard (record t { signals = m ∷ t.signals })
  IsHeard-signal m t told h = (
    h.0,
    (λ n there. elim there [
      | inl e ↦ inr (subst⁻¹ (IsTold Place T user_id s) e told)
      | inr later ↦ h.1 n later
    ]),
    h.2,
  )

  IsHeard-responder :
      (now : ℕ) (r : Rider) (t : Store Place T)
      → IsSpared Place T user_id s r.user_id
      → IsHeard t
      → IsHeard (record t {
        responders = T.responder.write (alert_id, r.user_id) (new_responder now r) t.responders;
      })
  IsHeard-responder now r t spared h = (
    h.0,
    h.1,
    λ j there. elim (Bool-cases (r.user_id == j)) [
      | inl same ↦ inr (subst (IsSpared Place T user_id s) ((==_iff r.user_id j).0 same) spared)
      | inr differs ↦ h.2 j (
          ground (
            arith,
            T.responder.find-write (alert_id, j) (alert_id, r.user_id) (new_responder now r)
                t.responders,
          ))
    ],
  )

  -- Whatever riders the location service names, a call for help leaves the blocks as they are;
  -- every new notification, push and message goes to users other than the caller with whom there
  -- is no block in either direction, the only other new signal being an entry of the audit log;
  -- and so do the new responder rows of the alert.
  pub create_alert-IsHeard :
      (now : ℕ) (dto : CreateAlert Place) (u : Requester) (nearby : List Rider)
      → IsHeard (create_alert Place T alert_id now user_id dto u nearby s).1
  create_alert-IsHeard now dto u nearby =
      create_alert-keeps Place T user_id s alert_id IsHeard (λ t h. h.0) IsHeard-signal
        (λ now r t new. IsHeard-responder now r t) (λ n t a found h. h) (λ n t h. h) (λ t h. h)
        (λ a t new h. h) now dto u nearby (refl, (λ m there. inl there), λ j there. inl there)
