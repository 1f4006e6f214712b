-- ===== src/Emergencies/Answers/Experience.antt =====
-- How often an acknowledgement is worth experience.
use mathlib.Core.Path.{subst⁻¹}
use motogram.Emergencies.Alerts.{Rider, Requester, CreateAlert, new_responder, create_alert}
use motogram.Emergencies.Alerts.Recipients.{IsTold}
use motogram.Emergencies.Alerts.Recipients.Calls.{create_alert-keeps}
use motogram.Prelude.{
  ◌||◌, ℕ, ◌+◌, ◌≡◌, ◌≤◌, refl, false, Option, none, some, is_some, not, List, [], ◌∷◌, ◌⊎◌,
  pair_eq, inl, inr, arith, ◌==◌, pair_eq_iff, ◌&&◌, bit, if◌then◌else◌, Bool-cases, Option-cases,
}
use motogram.Prelude.Queries.{find_first-row_if}
use motogram.Prelude.History.{run, run_inv}
use motogram.Emergencies.Schema.{
  Alert, Responder, Signal, nearby_notice, nearby_push, nearby_message, rate_limit_entry,
  resolved_message, acknowledged_trigger, responder_message, coming_notice, Tables, Store,
}
use motogram.Emergencies.Answers.{
  Resolution, Answer, is_on_my_way, is_closed, has_acknowledged, answered, uncalled, save_answer,
  respond, resolve,
}

-- A call of the emergency service.
pub data Call (Place : Type 0) : Type 0 where
  create_call :
      (alert_id now user_id : ℕ)
      → CreateAlert Place
      → Requester
      → (nearby : List Rider) → Call Place
  respond_call : (now responder_id alert_id : ℕ) → Answer → (eta : Option ℕ) → Call Place
  resolve_call : (now user_id alert_id : ℕ) → Resolution → Call Place

-- The triggers for a user and an alert.
abbrev triggers : (alert_id user_id : ℕ) → List Signal → ℕ
triggers alert_id user_id [] = 0
triggers alert_id user_id (acknowledged_trigger u a ∷ ms) =
    bit (a == alert_id && u == user_id) + triggers alert_id user_id ms
triggers alert_id user_id (_ ∷ ms) = triggers alert_id user_id ms

module _ (Place : Type 0) (T : Tables Place) where
  -- At most one trigger for a user and an alert, and none before the user has acknowledged it.
  abbrev pub IsTriggeredOnce : Store Place T → Type 0
  IsTriggeredOnce s =
      (alert_id user_id : ℕ)
      → triggers alert_id user_id s.signals
        ≤ bit (has_acknowledged (T.responder.find_unique (alert_id, user_id) s.responders))

  abbrev pub step : Store Place T → Call Place → Store Place T
  step s (create_call alert_id now user_id dto u nearby) =
      (create_alert Place T alert_id now user_id dto u nearby s).1
  step s (respond_call now responder_id alert_id answer eta) =
      (respond Place T now responder_id alert_id answer eta s).1
  step s (resolve_call now user_id alert_id how) = (resolve Place T now user_id alert_id how s).1

  module _ (s : Store Place T) (now responder_id alert_id : ℕ) (answer : Answer)
      (eta : Option ℕ) where
    abbrev saved : Option Responder → Responder
    saved none = answered answer now eta (uncalled now)
    saved (some r) = answered answer now eta r

    -- What an answer sends, the latest first.
    abbrev sent : Alert Place → Option Responder → List Signal
    sent a old =
        if is_on_my_way answer && not (has_acknowledged old)
        then coming_notice a.user_id alert_id responder_id
          ∷ acknowledged_trigger responder_id alert_id
          ∷ responder_message alert_id a.user_id responder_id (saved old)
          ∷ s.signals
        else responder_message alert_id a.user_id responder_id (saved old) ∷ s.signals

    save_answer-rows :
        (a : Alert Place)
        → T.alert.find_unique alert_id s.alerts ≡ some a
        → let old = T.responder.find_unique (alert_id, responder_id) s.responders in
          let s' = (save_answer Place T now responder_id alert_id answer eta a s).1 in
          (s'.signals ≡ sent a old)
          × (s'.responders ≡ T.responder.write (alert_id, responder_id) (saved old) s.responders)
    unfolding save_answer
    save_answer-rows a found =
        elim (Option-cases (T.responder.find_unique (alert_id, responder_id) s.responders)) [
          | inl new ↦ ground arith
          | inr (r, there) ↦ ground arith
        ]

    save_answer-IsTriggeredOnce :
        (a : Alert Place)
        → T.alert.find_unique alert_id s.alerts ≡ some a
        → IsTriggeredOnce s
        → IsTriggeredOnce (save_answer Place T now responder_id alert_id answer eta a s).1
    save_answer-IsTriggeredOnce a found h j k =
        let (signals, responders) = save_answer-rows a found in
        rw (signals, responders)
          (rw
            (T.responder.find-write (j, k) (alert_id, responder_id)
              (saved (T.responder.find_unique (alert_id, responder_id) s.responders)) s.responders)
            (one (Option-cases (T.responder.find_unique (alert_id, responder_id) s.responders))))
      where
        one :
            ((T.responder.find_unique (alert_id, responder_id) s.responders ≡ none)
              ⊎ ((r : Responder) × (T.responder.find_unique (alert_id, responder_id) s.responders
                    ≡ some r)))
            → let old = T.responder.find_unique (alert_id, responder_id) s.responders in
              triggers j k (sent a old)
              ≤ bit (
                  has_acknowledged (
                    if pair_eq (alert_id, responder_id) (j, k)
                    then some (saved old)
                    else T.responder.find_unique (j, k) s.responders))
        one (inl new) = ground (arith, h j k, pair_eq_iff (alert_id, responder_id) (j, k))
        one (inr (r, there)) = ground (arith, h j k, pair_eq_iff (alert_id, responder_id) (j, k))

    respond-IsTriggeredOnce :
        IsTriggeredOnce s
        → IsTriggeredOnce (respond Place T now responder_id alert_id answer eta s).1
    unfolding respond
    respond-IsTriggeredOnce h = elim (Option-cases (T.alert.find_unique alert_id s.alerts)) [
      | inl gone ↦ refused (
          ground
            (arith, find_first-row_if T.alert alert_id (λ v. not (is_some v.deleted_at)) s.alerts))
      | inr (a, found) ↦
          elim (Bool-cases
            (is_some a.deleted_at || (a.user_id == responder_id || is_closed a.status))) [
              | inl shut ↦ refused (
                  ground (
                    arith,
                    find_first-row_if T.alert alert_id (λ v. not (is_some v.deleted_at)) s.alerts,
                  ))
              | inr free ↦
                  subst⁻¹ IsTriggeredOnce (saves a found free)
                    (save_answer-IsTriggeredOnce a found h)
            ]
    ]
      where
        refused :
            (respond Place T now responder_id alert_id answer eta s).1 ≡ s
            → IsTriggeredOnce (respond Place T now responder_id alert_id answer eta s).1
        refused e = subst⁻¹ IsTriggeredOnce e h

        saves :
            (a : Alert Place)
            → T.alert.find_unique alert_id s.alerts ≡ some a
            → (is_some a.deleted_at || (a.user_id == responder_id || is_closed a.status)) ≡ false
            → (respond Place T now responder_id alert_id answer eta s).1
              ≡ (save_answer Place T now responder_id alert_id answer eta a s).1
        saves a found free =
            ground
              (arith, find_first-row_if T.alert alert_id (λ v. not (is_some v.deleted_at)) s.alerts)

  resolve-IsTriggeredOnce :
      (s : Store Place T) (now user_id alert_id : ℕ) (how : Resolution)
      → IsTriggeredOnce s
      → IsTriggeredOnce (resolve Place T now user_id alert_id how s).1
  unfolding resolve
  resolve-IsTriggeredOnce s now user_id alert_id how h j k =
      elim (Option-cases (T.alert.find_unique alert_id s.alerts)) [
        | inl gone ↦ ground (
          arith,
          h j k,
          find_first-row_if T.alert alert_id (λ v. not (is_some v.deleted_at)) s.alerts,
        )
        | inr (a, found) ↦ ground (
          arith,
          h j k,
          find_first-row_if T.alert alert_id (λ v. not (is_some v.deleted_at)) s.alerts,
        )
      ]

  -- A call for help sends no trigger, and adds nobody who has acknowledged.
  create-IsTriggeredOnce :
      (s : Store Place T) (alert_id now user_id : ℕ) (dto : CreateAlert Place) (u : Requester)
      (nearby : List Rider)
      → IsTriggeredOnce s
      → IsTriggeredOnce (create_alert Place T alert_id now user_id dto u nearby s).1
  create-IsTriggeredOnce s alert_id now user_id dto u nearby h =
      (create_alert-keeps Place T user_id s alert_id
        (λ t. (t.blocks ≡ s.blocks) × IsTriggeredOnce t) (λ t q. q.0)
        (λ m t told q. (q.0, quiet m t told q.1))
        (λ at r t new spared q. (
          q.0,
          λ j k. ground (
            arith,
            q.1 j k,
            pair_eq_iff (alert_id, r.user_id) (j, k),
            T.responder.find-write (j, k) (alert_id, r.user_id) (new_responder at r) t.responders,
          ),
        ))
        (λ n t a found q. q) (λ n t q. q) (λ t q. q) (λ a t new q. q) now dto u nearby (refl, h)).1
    where
      quiet :
          (m : Signal) (t : Store Place T)
          → IsTold Place T user_id s m
          → IsTriggeredOnce t
          → IsTriggeredOnce (record t { signals = m ∷ t.signals })
      quiet (nearby_notice _ _ _ _) t told q = q
      quiet (nearby_push _ _ _) t told q = q
      quiet (nearby_message _ _ _ _ _ _) t told q = q
      quiet (rate_limit_entry _ _) t told q = q
      quiet (responder_message _ _ _ _) t told q = absurd told
      quiet (resolved_message _ _ _) t told q = absurd told
      quiet (acknowledged_trigger _ _) t told q = absurd told
      quiet (coming_notice _ _ _) t told q = absurd told

  -- If for every alert and user at most one experience trigger was sent, and none unless the
  -- user's responder row has an acknowledgement, then the same holds after any history of calls
  -- for help, answers and resolutions.
  pub run-IsTriggeredOnce :
      (s : Store Place T) (calls : List (Call Place))
      → IsTriggeredOnce s
      → IsTriggeredOnce (run step s calls)
  run-IsTriggeredOnce = run_inv step IsTriggeredOnce (λ s c h.
      elim c as (λ k. IsTriggeredOnce (step s k)) [
        | create_call alert_id now user_id dto u nearby ↦
            create-IsTriggeredOnce s alert_id now user_id dto u nearby h
        | respond_call now responder_id alert_id answer eta ↦
            respond-IsTriggeredOnce s now responder_id alert_id answer eta h
        | resolve_call now user_id alert_id how ↦
            resolve-IsTriggeredOnce s now user_id alert_id how h
      ])
