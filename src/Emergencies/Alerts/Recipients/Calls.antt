-- ===== src/Emergencies/Alerts/Recipients/Calls.antt =====
-- What a call for help keeps, from its guards to its end.
use motogram.Prelude.{ℕ, ◌+◌, ltb, ◌≡◌, none, some, List, ◌∷◌, inl, inr, Bool-cases, Option-cases}
use motogram.Prelude.Keeps.{keeps_bind}
use motogram.Prelude.Action.{raise, raise_if, forbidden, bad_request, create, ◌>>◌, ◌>>=◌}
use motogram.Emergencies.Schema.{Alert, Signal, rate_limit_entry, Tables, Store, alert}
use motogram.Emergencies.Alerts.{
  Rider, Requester, CreateAlert, candidates, new_responder, or_zero, max_alerts, is_short,
  new_alert, count_notified, flag_false_alarm, check_rate, call_nearby, create_alert,
}
use motogram.Emergencies.Alerts.Recipients.{IsSpared, IsTold, call_nearby-keeps}

module _ (Place : Type 0) (T : Tables Place) (user_id : ℕ) (s : Store Place T) (alert_id : ℕ)
    (Q : Store Place T → Type 0) (same : (t : Store Place T) → Q t → t.blocks ≡ s.blocks)
    (on_signal : (m : Signal) (t : Store Place T)
      → IsTold Place T user_id s m
      → Q t
      → Q (record t { signals = m ∷ t.signals }))
    (on_responder : (now : ℕ) (r : Rider) (t : Store Place T)
      → T.responder.find_unique (alert_id, r.user_id) t.responders ≡ none
      → IsSpared Place T user_id s r.user_id
      → Q t
      → Q (record t {
        responders = T.responder.write (alert_id, r.user_id) (new_responder now r) t.responders;
      }))
    (on_alert : (n : ℕ) (t : Store Place T) (a : Alert Place)
      → T.alert.find_unique alert_id t.alerts ≡ some a
      → Q t
      → Q (record t { alerts = T.alert.write alert_id (count_notified Place n a) t.alerts }))
    (on_rate : (n : ℕ) (t : Store Place T)
      → Q t
      → Q (record t { rates = T.rate.write user_id n t.rates }))
    (on_lock : (t : Store Place T) → Q t → Q (record t { locks = T.lock.write user_id tt t.locks }))
    (on_new : (a : Alert Place) (t : Store Place T)
      → T.alert.find_unique alert_id t.alerts ≡ none
      → Q t
      → Q (record t { alerts = T.alert.write alert_id a t.alerts })) where
  flag-keeps : (n : ℕ) (t : Store Place T) → Q t → Q (flag_false_alarm Place T user_id n t).1
  unfolding flag_false_alarm
  flag-keeps n t h = elim (Option-cases (T.lock.find_unique user_id t.locks)) [
    | inl free ↦ rw free (
        on_signal (rate_limit_entry user_id n)
          (record t { locks = T.lock.write user_id tt t.locks }) tt (on_lock t h))
    | inr (l, held) ↦ rw held h
  ]

  check_rate-keeps : (t : Store Place T) → Q t → Q (check_rate Place T user_id t).1
  unfolding check_rate
  check_rate-keeps t h =
      let n = or_zero (T.rate.find_unique user_id t.rates) + 1 in
      let t' = record t { rates = T.rate.write user_id n t.rates } in
      elim (Bool-cases (ltb max_alerts n)) [
        | inl over ↦ rw over (
            keeps_bind Q (flag_false_alarm Place T user_id n)
              (λ _. raise (forbidden "sos_rate_limit")) t' (flag-keeps n t' (on_rate n t h))
              (λ _ t2 e h2. h2))
        | inr under ↦ rw under (on_rate n t h)
      ]

  create-keeps :
      (a : Alert Place) (t : Store Place T) → Q t → Q (create (alert Place T) alert_id a t).1
  create-keeps a t h = elim (Option-cases (T.alert.find_unique alert_id t.alerts)) [
    | inl free ↦ rw free (on_new a t free h)
    | inr (b, found) ↦ rw found h
  ]

  pub create_alert-keeps :
      (now : ℕ) (dto : CreateAlert Place) (u : Requester) (nearby : List Rider)
      → Q s
      → Q (create_alert Place T alert_id now user_id dto u nearby s).1
  unfolding create_alert
  create_alert-keeps now dto u nearby start =
      let call = λ (a : Alert Place).
        call_nearby Place T alert_id user_id now u.username a (candidates user_id nearby) in
      let row = create (alert Place T) alert_id (new_alert Place now user_id u dto) in
      keeps_bind Q (raise_if u.is_banned (forbidden "user_banned"))
        (λ _.
          raise_if (is_short dto.hold_duration_ms) (bad_request "hold_too_short")
          >> (check_rate Place T user_id >> (row >>= call)))
        s start
        (λ _ t1 e1 h1.
          keeps_bind Q (raise_if (is_short dto.hold_duration_ms) (bad_request "hold_too_short"))
            (λ _. check_rate Place T user_id >> (row >>= call)) t1 h1
            (λ _ t2 e2 h2.
              keeps_bind Q (check_rate Place T user_id) (λ _. row >>= call) t2
                (check_rate-keeps t2 h2)
                (λ _ t3 e3 h3. keeps_bind Q row call t3 (create-keeps _ t3 h3) (λ a t4 e4 h4.
                  call_nearby-keeps Place T user_id s alert_id Q same on_signal on_responder
                    on_alert now u.username a nearby t4 h4))))
