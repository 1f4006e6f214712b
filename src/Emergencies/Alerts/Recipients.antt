-- ===== src/Emergencies/Alerts/Recipients.antt =====
-- Who is told of an alert.
pub mod Calls
use mathlib.Core.Path.{subst, subst⁻¹}
use motogram.Prelude.{
  ℕ, ◌+◌, ltb, ◌≡◌, ◌≢◌, ◌⊎◌, refl, Bool, true, false, Option, none, some, is_some, String, List,
  [], ◌∷◌, All, In, map, any, filter, length, inl, inr, arith, ◌==◌, ==_iff, not, ◌||◌, pair_eq_iff,
  Bool-cases, Option-cases,
}
use motogram.Prelude.Queries.{In-filter, any-of_In}
use motogram.Prelude.Keeps.{keeps_bind}
use motogram.Prelude.Action.{
  do_if, pure, raise, raise_if, forbidden, bad_request, create, write, update, ◌>>◌, ◌>>=◌,
}
use motogram.Social.Schema.{Block}
use motogram.Emergencies.Schema.{
  Alert, Signal, nearby_notice, nearby_push, nearby_message, rate_limit_entry, Tables, Store,
  Responder, responder, alert, emit,
}
use motogram.Emergencies.Alerts.{
  Rider, Requester, CreateAlert, candidates, is_between, unblocked, new_responder, add_responders,
  notify_each, message_each, dispatch_nearby, dispatch, reach, or_zero, max_alerts, is_short,
  new_alert, count_notified, flag_false_alarm, check_rate, call_nearby, create_alert,
}

module _ (Place : Type 0) (T : Tables Place) (user_id : ℕ) (s : Store Place T) where
  -- Another rider, with no block either way.
  abbrev pub IsSpared : ℕ → Type 0
  IsSpared j =
      (j ≢ user_id)
      × (T.block.find_unique (user_id, j) s.blocks ≡ none)
      × (T.block.find_unique (j, user_id) s.blocks ≡ none)

  -- What a call for help sends out.
  abbrev pub IsTold : Signal → Type 0
  IsTold (nearby_notice to _ _ _) = IsSpared to
  IsTold (nearby_push to _ _) = All IsSpared to
  IsTold (nearby_message to _ _ _ _ _) = IsSpared to
  IsTold (rate_limit_entry _ _) = Unit
  IsTold _ = ⊥

  -- What a recipient tells of the blocks.
  recipient-unblocked :
      (cs : List Rider) (r : Rider) (k : ℕ × ℕ)
      → In r cs
      → any
          (λ b. b.0.0 == r.user_id || b.0.1 == r.user_id)
          (T.block.find_many (is_between user_id cs) s.blocks)
        ≡ false
      → (k ≡ (user_id, r.user_id)) ⊎ (k ≡ (r.user_id, user_id))
      → T.block.find_unique k s.blocks ≡ none
  recipient-unblocked cs r k m clear side = elim (Option-cases (T.block.find_unique k s.blocks)) [
    | inl gone ↦ gone
    | inr (b, found) ↦
        let hit : any (λ c. c.user_id == r.user_id) cs ≡ true =
          any-of_In (λ c. c.user_id == r.user_id) r cs m
            (ground (arith, ==_iff r.user_id r.user_id)) in
        let listed =
          T.block.find_many_complete (is_between user_id cs) k b s.blocks found (between hit b) in
        absurd (
          ground (
            arith,
            any-of_In (λ b. b.0.0 == r.user_id || b.0.1 == r.user_id) (k, b) _ listed,
            touches b,
          ))
  ]
    where
      between :
          any (λ c. c.user_id == r.user_id) cs ≡ true
          → (b : Block) → is_between user_id cs k b ≡ true
      between hit b = elim side [
        | inl e ↦ rw e (ground (arith, ==_iff user_id user_id))
        | inr e ↦ rw e (ground (arith, ==_iff user_id user_id))
      ]

      touches : (b : Block) → (k.0 == r.user_id || k.1 == r.user_id) ≡ true
      touches b = elim side [
        | inl e ↦ rw e (ground (arith, ==_iff r.user_id r.user_id))
        | inr e ↦ rw e (ground (arith, ==_iff r.user_id r.user_id))
      ]

  recipient-IsSpared :
      (riders : List Rider) (r : Rider)
      → let cs = candidates user_id riders in
        In r (unblocked (T.block.find_many (is_between user_id cs) s.blocks) cs)
        → IsSpared r.user_id
  recipient-IsSpared riders r m =
      let (there, clear) = In-filter _ r (candidates user_id riders) m in
      let (_, other) = In-filter (λ r. not (r.user_id == user_id)) r riders there in
      let free = not-true _ clear in
      (
        ground (arith, ==_iff r.user_id user_id),
        recipient-unblocked (candidates user_id riders) r _ there free (inl refl),
        recipient-unblocked (candidates user_id riders) r _ there free (inr refl),
      )
    where
      not-true : (b : Bool) → not b ≡ true → b ≡ false
      not-true b h = ground arith

  -- A property that a call for help keeps: it does not depend on the responders that are added, the
  -- signals that are sent and the number that is noted.
  module _ (alert_id : ℕ) (Q : Store Place T → Type 0)
      (same : (t : Store Place T) → Q t → t.blocks ≡ s.blocks)
      (on_signal : (m : Signal) (t : Store Place T)
        → IsTold m
        → Q t
        → Q (record t { signals = m ∷ t.signals }))
      (on_responder : (now : ℕ) (r : Rider) (t : Store Place T)
        → T.responder.find_unique (alert_id, r.user_id) t.responders ≡ none
        → IsSpared r.user_id
        → Q t
        → Q (record t {
          responders = T.responder.write (alert_id, r.user_id) (new_responder now r) t.responders;
        }))
      (on_alert : (n : ℕ) (t : Store Place T) (a : Alert Place)
        → T.alert.find_unique alert_id t.alerts ≡ some a
        → Q t
        → Q (record t {
          alerts = T.alert.write alert_id (count_notified Place n a) t.alerts;
        })) where
    notify_each-keeps :
        (rs : List Rider) (t : Store Place T)
        → ((r : Rider) → In r rs → IsSpared r.user_id)
        → Q t
        → Q (notify_each Place T alert_id user_id rs t).1
    unfolding notify_each
    notify_each-keeps [] t spared h = h
    notify_each-keeps (r ∷ rs) t spared h =
        notify_each-keeps rs _ (λ q m. spared q (inr m)) (on_signal _ t (spared r (inl refl)) h)

    message_each-keeps :
        (now : ℕ) (username : String) (rs : List Rider) (t : Store Place T)
        → ((r : Rider) → In r rs → IsSpared r.user_id)
        → Q t
        → Q (message_each Place T alert_id user_id now username rs t).1
    unfolding message_each
    message_each-keeps now username [] t spared h = h
    message_each-keeps now username (r ∷ rs) t spared h =
        message_each-keeps now username rs _ (λ q m. spared q (inr m))
          (on_signal _ t (spared r (inl refl)) h)

    All-IsSpared :
        (rs : List Rider)
        → ((r : Rider) → In r rs → IsSpared r.user_id)
        → All IsSpared (map (λ r. r.user_id) rs)
    All-IsSpared [] spared = tt
    All-IsSpared (r ∷ rs) spared = (spared r (inl refl), All-IsSpared rs (λ q m. spared q (inr m)))

    dispatch-keeps :
        (now : ℕ) (username : String) (rs : List Rider) (t : Store Place T)
        → ((r : Rider) → In r rs → IsSpared r.user_id)
        → Q t
        → Q (dispatch Place T alert_id user_id now username rs t).1
    unfolding dispatch_nearby
    dispatch-keeps now username [] t spared h = h
    dispatch-keeps now username (r ∷ rs) t spared h =
        keeps_bind Q (notify_each Place T alert_id user_id (r ∷ rs))
          (λ _.
            emit Place T (nearby_push (map (λ r. r.user_id) (r ∷ rs)) alert_id user_id)
            >> message_each Place T alert_id user_id now username (r ∷ rs))
          t (notify_each-keeps (r ∷ rs) t spared h)
          (λ _ t' e h'. message_each-keeps now username (r ∷ rs) _ spared (
            on_signal (nearby_push (map (λ r. r.user_id) (r ∷ rs)) alert_id user_id) t'
              (All-IsSpared (r ∷ rs) spared) h'))

    -- A missing responder is added.
    add_one-keeps :
        (now : ℕ) (r : Rider) (t : Store Place T) (old : Option Responder)
        → T.responder.find_unique (alert_id, r.user_id) t.responders ≡ old
        → IsSpared r.user_id
        → Q t
        → Q
            (do_if
              (not (is_some old))
              (write (responder Place T) (alert_id, r.user_id) (new_responder now r) >> pure tt)
              t).1
    add_one-keeps now r t (some v) e spared h = h
    add_one-keeps now r t none e spared h = on_responder now r t e spared h

    add_responders-keeps :
        (now : ℕ) (rs : List Rider) (t : Store Place T)
        → ((r : Rider) → In r rs → IsSpared r.user_id)
        → Q t
        → Q (add_responders Place T alert_id now rs t).1
    unfolding add_responders
    add_responders-keeps now [] t spared h = h
    add_responders-keeps now (r ∷ rs) t spared h =
        let old = T.responder.find_unique (alert_id, r.user_id) t.responders in
        keeps_bind Q
          (do_if (not (is_some old))
            (write (responder Place T) (alert_id, r.user_id) (new_responder now r) >> pure tt))
          (λ _. add_responders Place T alert_id now rs) t
          (add_one-keeps now r t old refl (spared r (inl refl)) h)
          (λ _ t' e h'. add_responders-keeps now rs t' (λ q m. spared q (inr m)) h')

    update-keeps :
        (n : ℕ) (t : Store Place T)
        → Q t
        → Q (update (alert Place T) alert_id (count_notified Place n) t).1
    update-keeps n t h = elim (Option-cases (T.alert.find_unique alert_id t.alerts)) [
      | inl gone ↦ rw gone h
      | inr (a, found) ↦ rw found (on_alert n t a found h)
    ]

    reach-keeps :
        (now : ℕ) (username : String) (a : Alert Place) (rs : List Rider) (t : Store Place T)
        → ((r : Rider) → In r rs → IsSpared r.user_id)
        → Q t
        → Q (reach Place T alert_id user_id now username a rs t).1
    unfolding reach
    reach-keeps now username a rs t spared h =
        let answer = pure (count_notified Place (length rs) a) in
        let last = dispatch Place T alert_id user_id now username rs >> answer in
        let rest = update (alert Place T) alert_id (count_notified Place (length rs)) >> last in
        keeps_bind Q (add_responders Place T alert_id now rs) (λ _. rest) t
          (add_responders-keeps now rs t spared h)
          (λ _ t1 e1 h1.
            keeps_bind Q (update (alert Place T) alert_id (count_notified Place (length rs)))
              (λ _. last) t1 (update-keeps (length rs) t1 h1)
              (λ _ t2 e2 h2.
                keeps_bind Q (dispatch Place T alert_id user_id now username rs) (λ _. answer) t2
                  (dispatch-keeps now username rs t2 spared h2) (λ _ t3 e3 h3. h3)))

    -- What follows the creation of the row.
    pub call_nearby-keeps :
        (now : ℕ) (username : String) (a : Alert Place) (riders : List Rider) (t : Store Place T)
        → Q t
        → Q (call_nearby Place T alert_id user_id now username a (candidates user_id riders) t).1
    call_nearby-keeps now username a riders t h =
        elim (candidates user_id riders)
            as (λ cs.
              ((r : Rider)
                → In r (unblocked (T.block.find_many (is_between user_id cs) s.blocks) cs)
                → IsSpared r.user_id)
              → Q (call_nearby Place T alert_id user_id now username a cs t).1) [
                | [] ↦ λ spared. h
                | c ∷ cs ↦ λ spared.
                    reach-keeps now username a _ t
                      (λ r m. spared r (
                        subst
                          (λ b. In r (
                            unblocked (T.block.find_many (is_between user_id (c ∷ cs)) b) (c ∷ cs)))
                          (same t h) m))
                      h
              ]
          (recipient-IsSpared riders)
