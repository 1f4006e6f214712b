-- ===== src/Emergencies/Alerts/Limit.antt =====
-- How many alerts a user gets through while the counter lives.
use motogram.Prelude.{
  ℕ, ◌+◌, ◌-◌, ◌≡◌, ◌≤◌, ◌⊎◌, refl, true, false, List, [], ◌∷◌, ltb, inl, inr, arith, ◌==◌, ==_iff,
  ◌&&◌, bit, Bool-cases, Option-cases,
}
use motogram.Prelude.Keeps.{keeps_bind}
use motogram.Prelude.Action.{create, is_ok, ok, ◌>>=◌}
use motogram.Emergencies.Schema.{Tables, Store, alert}
use motogram.Emergencies.Alerts.{
  Rider, Requester, CreateAlert, candidates, is_short, or_zero, max_alerts, new_alert,
  flag_false_alarm, check_rate, call_nearby, create_alert,
}
use motogram.Emergencies.Alerts.Recipients.{call_nearby-keeps}

-- A call for help, by a user and with what the location service answers.
pub record Call (Place : Type 0) : Type 0 where
  pub alert_id : ℕ
  pub now : ℕ
  pub user_id : ℕ
  pub dto : CreateAlert Place
  pub requester : Requester
  pub nearby : List Rider

module _ (Place : Type 0) (T : Tables Place) where
  abbrev pub counter : ℕ → Store Place T → ℕ
  counter user_id s = or_zero (T.rate.find_unique user_id s.rates)

  -- How many of the calls of a user return.
  abbrev pub granted : ℕ → Store Place T → List (Call Place) → ℕ
  granted user_id s [] = 0
  granted user_id s (c ∷ cs) =
      let (r, s') = create_alert Place T c.alert_id c.now c.user_id c.dto c.requester c.nearby s in
      bit (is_ok r && c.user_id == user_id) + granted user_id s' cs

  module _ (alert_id now user_id : ℕ) (dto : CreateAlert Place) (u : Requester)
      (nearby : List Rider) (s : Store Place T) where
    abbrev counted : Store Place T
    counted = record s { rates = T.rate.write user_id (counter user_id s + 1) s.rates }

    abbrev IsLeft : Store Place T → Type 0
    IsLeft t = (t.blocks ≡ s.blocks) × (t.rates ≡ counted.rates)

    check_rate_over :
        ltb max_alerts (counter user_id s + 1) ≡ true
        → (is_ok (check_rate Place T user_id s).0 ≡ false)
          × ((check_rate Place T user_id s).1.rates ≡ counted.rates)
    unfolding check_rate flag_false_alarm
    check_rate_over over = elim (Option-cases (T.lock.find_unique user_id s.locks)) [
      | inl free ↦ ground arith
      | inr (l, held) ↦ ground arith
    ]

    check_rate_under :
        ltb max_alerts (counter user_id s + 1) ≡ false
        → check_rate Place T user_id s ≡ (ok tt, counted)
    unfolding check_rate
    check_rate_under under = ground arith

    -- The call once the counter is up: no counter changes.
    granted-rates :
        ((create (alert Place T) alert_id (new_alert Place now user_id u dto) >>= (λ a.
            call_nearby Place T alert_id user_id now u.username a (candidates user_id nearby)))
          counted).1.rates
        ≡ counted.rates
    granted-rates =
        (keeps_bind IsLeft (create (alert Place T) alert_id (new_alert Place now user_id u dto))
          (λ a. call_nearby Place T alert_id user_id now u.username a (candidates user_id nearby))
          counted created
          (λ a t e h.
            call_nearby-keeps Place T user_id s alert_id IsLeft (λ t h. h.0) (λ m t told h. h)
              (λ now r t e spared h. h) (λ n t a e h. h) now u.username a nearby t h)).1
      where
        created :
            IsLeft (create (alert Place T) alert_id (new_alert Place now user_id u dto) counted).1
        created = elim (Option-cases (T.alert.find_unique alert_id s.alerts)) [
          | inl free ↦ rw free (refl, refl)
          | inr (b, found) ↦ rw found (refl, refl)
        ]

    -- A call leaves the counter of the user alone and fails, or adds one to it, and returns only if
    -- the limit is not passed.
    create_alert-rates :
        let (r, s') = create_alert Place T alert_id now user_id dto u nearby s in
        ((is_ok r ≡ false) × (s'.rates ≡ s.rates))
        ⊎ ((s'.rates ≡ counted.rates) × ((is_ok r ≡ false) ⊎ (counter user_id s + 1 ≤ max_alerts)))
    unfolding create_alert
    create_alert-rates = elim (Bool-cases u.is_banned) [
      | inl banned ↦ inl (ground arith)
      | inr free ↦ elim (Bool-cases (is_short dto.hold_duration_ms)) [
        | inl short ↦ inl (ground arith)
        | inr held ↦ elim (Bool-cases (ltb max_alerts (counter user_id s + 1))) [
          | inl over ↦
              inr (ground (arith, check_rate_over over), inl (ground (arith, check_rate_over over)))
          | inr under ↦
              inr (ground (arith, check_rate_under under, granted-rates), inr (ground arith))
        ]
      ]
    ]

  -- What a call does to the counter of any user.
  counter-create_alert :
      (user_id : ℕ) (c : Call Place) (s : Store Place T)
      → let (r, s') =
          create_alert Place T c.alert_id c.now c.user_id c.dto c.requester c.nearby s in
        bit (is_ok r && c.user_id == user_id) + (max_alerts - counter user_id s')
        ≤ max_alerts - counter user_id s
  counter-create_alert user_id c s =
      elim (create_alert-rates c.alert_id c.now c.user_id c.dto c.requester c.nearby s) [
        | inl (failed, same) ↦ rw (failed, same) (omega arith)
        | inr (counts, inl failed) ↦
            rw (failed, counts) ground
              (
                arith,
                ==_iff c.user_id user_id,
                T.rate.find-write user_id c.user_id (counter c.user_id s + 1) s.rates,
              )
        | inr (counts, inr few) ↦ rw counts ground (
          arith,
          ==_iff c.user_id user_id,
          T.rate.find-write user_id c.user_id (counter c.user_id s + 1) s.rates,
        )
      ]

  -- In any sequence of calls for help by any users while the counters live, the calls of one user
  -- that return are at most three less the user's counter at the start.
  pub granted_few :
      (user_id : ℕ) (s : Store Place T) (calls : List (Call Place))
      → granted user_id s calls ≤ max_alerts - counter user_id s
  granted_few user_id s [] = omega arith
  granted_few user_id s (c ∷ calls) =
      let (r, s') = create_alert Place T c.alert_id c.now c.user_id c.dto c.requester c.nearby s in
      omega (arith, granted_few user_id s' calls, counter-create_alert user_id c s)
