-- ===== src/Gamification/Quests/Once.antt =====
-- Experience against what the quests of a user are still worth.
use mathlib.Core.Path.{subst⁻¹}
use motogram.Prelude.{
  sym, ap, ◌∙◌, ℕ, ◌+◌, ◌≡◌, ◌≢◌, refl, true, false, some, List, [], ◌∷◌, ◌++◌, In, All, inl, inr,
  arith, ◌==◌, ==_iff, pair_eq_iff, Bool-cases, if_cases,
}
use motogram.Prelude.Action.{pure, ◌>>=◌}
use motogram.Prelude.Keeps.{keeps_bind}
use motogram.Prelude.History.{run, run_inv_all}
use motogram.Gamification.Schema.{Trigger, Quest, Player, Tables, Store}
use motogram.Gamification.Levels.{level_for}
use motogram.Gamification.Quests.{
  is_triggered, is_done, reward, advance, trigger_each, trigger_quest, on_trigger,
}
use motogram.Gamification.Quests.Reward.{
  reward-store, row_of, saved, advance-store, advance-quests, step,
}
use motogram.Gamification.Quests.Worth.{
  Different, unearned, unearned_same, unearned-write, open-worth,
}

module _ (T : Tables) (j : ℕ) where
  -- The user's experience and what the quests are still worth make up the total.
  abbrev pub IsBalanced : (total : ℕ) → List ℕ → Store T → Type 0
  IsBalanced total ks s =
      (u : Player) × (T.player.find_unique j s.players ≡ some u)
      × (u.xp + unearned T j s.quests s.progresses ks ≡ total)

  -- A trigger of the user concerns quests of the list only, which are paid once.
  abbrev PaysOnce : T.quest.Rows → List ℕ → ℕ × ℕ × ℕ × Trigger → Type 0
  PaysOnce quests ks (now, user_id, increment, trigger) =
      (k : ℕ) (q : Quest)
      → T.quest.find_unique k quests ≡ some q
      → is_triggered trigger k q ≡ true
      → user_id ≡ j
      → (q.repeatable ≡ false) × In k ks

  module _ (next_month : ℕ → ℕ) (total : ℕ) (ks : List ℕ) (different : Different ks) where
    module _ (now user_id increment : ℕ) where
      -- Another user's turn.
      -- The rows of the user and of their progress are as they were.
      same-IsBalanced :
          (s t : Store T)
          → T.player.find_unique j t.players ≡ T.player.find_unique j s.players
          → t.quests ≡ s.quests
          → ((k : ℕ)
              → T.progress.find_unique (j, k) t.progresses
                ≡ T.progress.find_unique (j, k) s.progresses)
          → IsBalanced total ks s
          → IsBalanced total ks t
      same-IsBalanced s t player quests rows (u, there, sum) = (
        u,
        player ∙ there,
        (rw quests (
            ap (λ n. u.xp + n)
              (unearned_same T j s.quests s.progresses t.progresses ks (λ k m. rows k))
            ∙ sum)),
      )

      other-IsBalanced :
          (quest_id : ℕ) (q : Quest) (s : Store T)
          → user_id ≢ j
          → IsBalanced total ks s
          → IsBalanced total ks
              (advance T next_month now user_id increment quest_id q
                (T.progress.find_unique (user_id, quest_id) s.progresses)
                s).1
      other-IsBalanced quest_id q s differ h =
          let old = T.progress.find_unique (user_id, quest_id) s.progresses in
          let row = row_of T next_month now user_id increment q old in
          let kept = saved T next_month now user_id increment quest_id row s in
          let (quests, rows, players) = reward-store T now user_id quest_id q kept j in
          subst⁻¹ (IsBalanced total ks)
            (advance-store T next_month now user_id increment quest_id q s)
            (if_cases (IsBalanced total ks) (is_done q old) (λ done. h)
              (λ open_quest.
                if_cases (IsBalanced total ks) row.completed
                  (λ reached.
                    same-IsBalanced s (reward T now user_id quest_id q kept).1
                      (ground (arith, players, ==_iff user_id j)) quests
                      (λ k. ground (
                        arith,
                        rows,
                        pair_eq_iff (user_id, quest_id) (j, k),
                        T.progress.find-write (j, k) (user_id, quest_id) row s.progresses,
                      ))
                      h)
                  (λ short.
                    same-IsBalanced s kept refl refl
                      (λ k. ground (
                        arith,
                        pair_eq_iff (user_id, quest_id) (j, k),
                        T.progress.find-write (j, k) (user_id, quest_id) row s.progresses,
                      ))
                      h)))

    module _ (now increment : ℕ) where
      own-IsBalanced :
          (quest_id : ℕ) (q : Quest) (s : Store T)
          → T.quest.find_unique quest_id s.quests ≡ some q
          → q.repeatable ≡ false
          → In quest_id ks
          → IsBalanced total ks s
          → IsBalanced total ks
              (advance T next_month now j increment quest_id q
                (T.progress.find_unique (j, quest_id) s.progresses)
                s).1
      own-IsBalanced quest_id q s found once listed (u, there, sum) =
          let old = T.progress.find_unique (j, quest_id) s.progresses in
          let row = row_of T next_month now j increment q old in
          let kept = saved T next_month now j increment quest_id row s in
          let (quests, rows, players) = reward-store T now j quest_id q kept j in
          let left = unearned-write T j s.quests s.progresses quest_id row ks different listed in
          subst⁻¹ (IsBalanced total ks) (advance-store T next_month now j increment quest_id q s) (
            if_cases (IsBalanced total ks) (is_done q old) (λ done. (u, there, sum))
              (λ open_quest.
                if_cases (IsBalanced total ks) row.completed
                  (λ reached. (
                    record { xp = u.xp + q.xp_reward; level = level_for (u.xp + q.xp_reward) },
                    ground (arith, players, there, ==_iff j j),
                    (rw quests (
                        rw rows (
                          ground (
                            arith,
                            left,
                            found,
                            once,
                            reached,
                            sum,
                            open-worth q old once open_quest,
                          )))),
                  ))
                  (λ short. (
                    u,
                    there,
                    ground (arith, left, found, once, short, sum, open-worth q old once open_quest),
                  ))))

    advance-IsBalanced :
        (now user_id increment quest_id : ℕ) (q : Quest) (s : Store T)
        → T.quest.find_unique quest_id s.quests ≡ some q
        → (user_id ≡ j → (q.repeatable ≡ false) × In quest_id ks)
        → IsBalanced total ks s
        → IsBalanced total ks
            (advance T next_month now user_id increment quest_id q
              (T.progress.find_unique (user_id, quest_id) s.progresses)
              s).1
    advance-IsBalanced now user_id increment quest_id q s found once h =
        elim (Bool-cases (user_id == j)) [
          | inr other ↦
              other-IsBalanced now user_id increment quest_id q s
                (ground (arith, other, ==_iff user_id j)) h
          | inl self ↦
              let same = (==_iff user_id j).0 self in
              let (paid_once, listed) = once same in
              subst⁻¹
                (λ i.
                  IsBalanced total ks
                    (advance T next_month now i increment quest_id q
                      (T.progress.find_unique (i, quest_id) s.progresses) s).1)
                same (own-IsBalanced now increment quest_id q s found paid_once listed h)
        ]

    -- The same, with the quests as at the start.
    abbrev IsBalancedFrom : T.quest.Rows → Store T → Type 0
    IsBalancedFrom quests s = IsBalanced total ks s × (s.quests ≡ quests)

    trigger_each-IsBalancedFrom :
        (now user_id increment : ℕ) (quests : T.quest.Rows) (qs : List (ℕ × Quest)) (s : Store T)
        → ((k : ℕ) (q : Quest) → In (k, q) qs → T.quest.find_unique k quests ≡ some q)
        → ((k : ℕ) (q : Quest) → In (k, q) qs → user_id ≡ j → (q.repeatable ≡ false) × In k ks)
        → IsBalancedFrom quests s
        → IsBalancedFrom quests (trigger_each T next_month now user_id increment qs s).1
    unfolding trigger_each
    trigger_each-IsBalancedFrom now user_id increment quests [] s rows once h = h
    trigger_each-IsBalancedFrom now user_id increment quests ((k, q) ∷ qs) s rows once (h, same) =
        let old = T.progress.find_unique (user_id, k) s.progresses in
        let found = ap (T.quest.find_unique k) same ∙ rows k q (inl refl) in
        keeps_bind (IsBalancedFrom quests) (advance T next_month now user_id increment k q old)
          (λ done.
            trigger_each T next_month now user_id increment qs >>= λ rest. pure (done ++ rest))
          s
          (
            advance-IsBalanced now user_id increment k q s found (once k q (inl refl)) h,
            advance-quests T next_month now user_id increment k q s ∙ same,
          )
          (λ done t e h'.
            keeps_bind (IsBalancedFrom quests) (trigger_each T next_month now user_id increment qs)
              (λ rest. pure (done ++ rest)) t
              (trigger_each-IsBalancedFrom now user_id increment quests qs t
                (λ i r m. rows i r (inr m)) (λ i r m. once i r (inr m)) h')
              (λ rest t' e' h''. h''))

    on_trigger-IsBalancedFrom :
        (quests : T.quest.Rows) (s : Store T) (c : ℕ × ℕ × ℕ × Trigger)
        → PaysOnce quests ks c
        → IsBalancedFrom quests s
        → IsBalancedFrom quests (step T next_month s c)
    unfolding on_trigger trigger_quest
    on_trigger-IsBalancedFrom quests s (now, user_id, increment, trigger) once h =
        let listed = T.quest.find_many_sound (is_triggered trigger) in
        trigger_each-IsBalancedFrom now user_id increment quests
          (T.quest.find_many (is_triggered trigger) s.quests) s
          (λ k q m. ap (T.quest.find_unique k) (sym h.1) ∙ (listed k q s.quests m).0)
          (λ k q m.
            once k q (ap (T.quest.find_unique k) (sym h.1) ∙ (listed k q s.quests m).0)
              (listed k q s.quests m).1)
          h

    -- Take a user, a list of different quests, and a history of triggers of any users in which
    -- every quest that a trigger of this user concerns is on the list and not repeatable. If at
    -- the start the user is there, and the user's experience together with what the quests on the
    -- list are still worth (the reward of each that is not repeatable and that the user has not
    -- completed) is a total, then the same holds at the end for the same total.
    pub run-IsBalanced :
        (s : Store T) (calls : List (ℕ × ℕ × ℕ × Trigger))
        → All (PaysOnce s.quests ks) calls
        → IsBalanced total ks s
        → IsBalanced total ks (run (step T next_month) s calls)
    run-IsBalanced s calls once h =
        (run_inv_all (step T next_month) (IsBalancedFrom s.quests) (PaysOnce s.quests ks)
          (λ t c q k. on_trigger-IsBalancedFrom s.quests t c q k) s calls once (h, refl)).0
