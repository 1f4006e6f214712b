-- ===== src/Emergencies/Answers/Closing.antt =====
-- Answers to an alert that its owner has closed.
use motogram.Prelude.{
  ℕ, ◌≡◌, ◌≢◌, refl, true, false, Option, none, some, is_some, not, In, inl, inr, arith, ==_iff,
  Option-cases,
}
use motogram.Prelude.Queries.{find_first-row_if}
use motogram.Prelude.Action.{is_ok, IsRefused}
use motogram.Emergencies.Schema.{Alert, acknowledged_trigger, Tables, Store}
use motogram.Emergencies.Answers.{
  Resolution, resolved, cancelled, was_false, Answer, on_my_way, has_acknowledged, is_closed, close,
  save_answer, respond, resolve,
}

module _ (Place : Type 0) (T : Tables Place) (responder_id alert_id : ℕ) where
  -- What an answer to an alert meets, by how it was closed.
  abbrev pub IsMet : Resolution → Store Place T → Type 0
  IsMet resolved t =
      (later : ℕ) (answer : Answer) (eta : Option ℕ)
      → IsRefused (respond Place T later responder_id alert_id answer eta) t
  IsMet cancelled t =
      (later : ℕ) (answer : Answer) (eta : Option ℕ)
      → IsRefused (respond Place T later responder_id alert_id answer eta) t
  IsMet was_false t =
      (later : ℕ) (eta : Option ℕ)
      → let (r, t') = respond Place T later responder_id alert_id on_my_way eta t in
        (is_ok r ≡ true) × In (acknowledged_trigger responder_id alert_id) t'.signals

module _ (Place : Type 0) (T : Tables Place) (s : Store Place T)
    (now owner responder_id alert_id : ℕ) (a : Alert Place)
    (found : T.alert.find_unique alert_id s.alerts ≡ some a) (live : a.deleted_at ≡ none)
    (owned : a.user_id ≡ owner) (other : owner ≢ responder_id) where
  resolved_row :
      (how : Resolution)
      → (T.alert.find_unique alert_id (resolve Place T now owner alert_id how s).1.alerts
          ≡ some (close Place how now a))
        × ((resolve Place T now owner alert_id how s).1.responders ≡ s.responders)
        × (is_ok (resolve Place T now owner alert_id how s).0 ≡ true)
  unfolding resolve
  resolved_row how = ground (
    arith,
    ==_iff a.user_id owner,
    ==_iff alert_id alert_id,
    find_first-row_if T.alert alert_id (λ v. not (is_some v.deleted_at)) s.alerts,
    T.alert.find-write alert_id alert_id (close Place how now a) s.alerts,
  )

  answer_too_late :
      (how : Resolution) (t : Store Place T)
      → T.alert.find_unique alert_id t.alerts ≡ some (close Place how now a)
      → is_closed (close Place how now a).status ≡ true
      → (later : ℕ) (answer : Answer) (eta : Option ℕ)
      → IsRefused (respond Place T later responder_id alert_id answer eta) t
  unfolding respond
  answer_too_late how t row over later answer eta = ground (
    arith,
    ==_iff alert_id alert_id,
    ==_iff a.user_id responder_id,
    find_first-row_if T.alert alert_id (λ v. not (is_some v.deleted_at)) t.alerts,
  )

  answered_row :
      (t : Store Place T)
      → T.alert.find_unique alert_id t.alerts ≡ some (close Place was_false now a)
      → has_acknowledged (T.responder.find_unique (alert_id, responder_id) t.responders) ≡ false
      → (later : ℕ) (eta : Option ℕ)
      → let (r, t') = respond Place T later responder_id alert_id on_my_way eta t in
        (is_ok r ≡ true) × In (acknowledged_trigger responder_id alert_id) t'.signals
  unfolding respond save_answer
  answered_row t row fresh later eta =
      elim (Option-cases (T.responder.find_unique (alert_id, responder_id) t.responders)) [
        | inl new ↦ ground (
          arith,
          ==_iff alert_id alert_id,
          ==_iff a.user_id responder_id,
          find_first-row_if T.alert alert_id (λ v. not (is_some v.deleted_at)) t.alerts,
        )
        | inr (r, old) ↦ ground (
          arith,
          ==_iff alert_id alert_id,
          ==_iff a.user_id responder_id,
          find_first-row_if T.alert alert_id (λ v. not (is_some v.deleted_at)) t.alerts,
        )
      ]

  -- The owner of an alert that is not deleted can always close it. For a user other than the
  -- owner who has not acknowledged it, an answer to the alert on the store that the closing
  -- leaves, at any time, throws and changes nothing if the alert was resolved or cancelled; if it
  -- was closed as a false alarm, an acknowledgement returns and sends an experience trigger.
  pub resolve-IsMet :
      (how : Resolution)
      → has_acknowledged (T.responder.find_unique (alert_id, responder_id) s.responders) ≡ false
      → let (r, t) = resolve Place T now owner alert_id how s in
        (is_ok r ≡ true) × IsMet Place T responder_id alert_id how t
  resolve-IsMet resolved fresh =
      ((resolved_row resolved).2, answer_too_late resolved _ (resolved_row resolved).0 refl)
  resolve-IsMet cancelled fresh =
      ((resolved_row cancelled).2, answer_too_late cancelled _ (resolved_row cancelled).0 refl)
  resolve-IsMet was_false fresh = (
    (resolved_row was_false).2,
    λ later eta.
        answered_row _ (resolved_row was_false).0 (rw (resolved_row was_false).1 fresh) later eta,
  )
