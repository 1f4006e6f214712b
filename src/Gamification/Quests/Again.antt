-- ===== src/Gamification/Quests/Again.antt =====
-- Triggers of a repeatable quest after its completion.
use mathlib.Core.Path.{subst⁻¹}
use motogram.Prelude.{
  ℕ, ◌+◌, ◌≡◌, ◌≢◌, ◌≤◌, ◌∙◌, sym, refl, ap, true, false, Option, some, List, [], ◌∷◌, ◌++◌, In,
  arith, ◌==◌, ==_iff, pair_eq_iff, Option-cases, Bool-cases, if_cases, inl, inr,
}
use motogram.Prelude.Action.{Result, ok, err, is_ok, pure, ◌>>=◌}
use motogram.Prelude.Keeps.{keeps_bind, bind_ok}
use motogram.Gamification.Schema.{Trigger, Quest, Progress, Player, Tables, Store}
use motogram.Gamification.Levels.{level_for}
use motogram.Gamification.Quests.{
  is_triggered, is_done, is_over, reward, advance, trigger_each, trigger_quest, on_trigger,
}
use motogram.Gamification.Quests.Reward.{reward-store, row_of, saved, advance-store}

returns : {A S : Type 0} (x : Result A × S) → is_ok x.0 ≡ true → (a : A) × (x ≡ (ok a, x.1))
returns (ok a, s) e = (a, refl)
returns (err w, s) e = absurd (ground (arith, e))

module _ (T : Tables) (next_month : ℕ → ℕ) (now user_id increment : ℕ) where
  -- The user is there, with this experience or more.
  abbrev pub HasXp : ℕ → Store T → Type 0
  HasXp n s = (u : Player) × (T.player.find_unique user_id s.players ≡ some u) × (n ≤ u.xp)

  abbrev old_row : ℕ → Store T → Option Progress
  old_row k s = T.progress.find_unique (user_id, k) s.progresses

  reward-HasXp :
      (k n : ℕ) (q : Quest) (s : Store T)
      → HasXp n s
      → HasXp (n + q.xp_reward) (reward T now user_id k q s).1
  reward-HasXp k n q s (u, there, enough) = (
    record { xp = u.xp + q.xp_reward; level = level_for (u.xp + q.xp_reward) },
    ground (arith, (reward-store T now user_id k q s user_id).2, there, ==_iff user_id user_id),
    omega (arith, enough),
  )

  weaken : (n m : ℕ) (s : Store T) → HasXp (n + m) s → HasXp n s
  weaken n m s (u, there, enough) = (u, there, omega (arith, enough))

  advance-HasXp :
      (k n : ℕ) (q : Quest) (s : Store T)
      → HasXp n s
      → HasXp n (advance T next_month now user_id increment k q (old_row k s) s).1
  advance-HasXp k n q s h =
      let row = row_of T next_month now user_id increment q (old_row k s) in
      subst⁻¹ (HasXp n) (advance-store T next_month now user_id increment k q s) (
        if_cases (HasXp n) (is_done q (old_row k s)) (λ done. h)
          (λ open_quest.
            if_cases (HasXp n) row.completed
              (λ reached.
                weaken n q.xp_reward
                  (reward T now user_id k q (saved T next_month now user_id increment k row s)).1
                  (reward-HasXp k n q (saved T next_month now user_id increment k row s) h))
              (λ short. h)))

  advance-row :
      (k i : ℕ) (q : Quest) (s : Store T)
      → i ≢ k
      → old_row k (advance T next_month now user_id increment i q (old_row i s) s).1 ≡ old_row k s
  advance-row k i q s differ =
      let row = row_of T next_month now user_id increment q (old_row i s) in
      let kept = saved T next_month now user_id increment i row s in
      ground (
        arith,
        advance-store T next_month now user_id increment i q s,
        (reward-store T now user_id i q kept 0).1,
        pair_eq_iff (user_id, i) (user_id, k),
        T.progress.find-write (user_id, k) (user_id, i) row s.progresses,
      )

  -- With the user there, a reward and a turn of the loop return.
  reward_ok :
      (k n : ℕ) (q : Quest) (s : Store T) → HasXp n s → is_ok (reward T now user_id k q s).0 ≡ true
  unfolding reward
  reward_ok k n q s (u, there, enough) =
      let found =
        T.player.find-write user_id user_id (record u { xp = u.xp + q.xp_reward }) s.players in
      elim (Option-cases q.badge_id) [
        | inl plain ↦ ground (arith, there, plain, ==_iff user_id user_id, found)
        | inr (b, prize) ↦
            elim (Option-cases (T.user_badge.find_unique (user_id, b) s.user_badges)) [
              | inl new ↦ ground (arith, there, prize, ==_iff user_id user_id, found)
              | inr (w, old) ↦ ground (arith, there, prize, ==_iff user_id user_id, found)
            ]
      ]

  advance_ok :
      (k n : ℕ) (q : Quest) (s : Store T)
      → HasXp n s
      → is_ok (advance T next_month now user_id increment k q (old_row k s) s).0 ≡ true
  unfolding advance
  advance_ok k n q s h =
      let row = row_of T next_month now user_id increment q (old_row k s) in
      let paid = reward_ok k n q (saved T next_month now user_id increment k row s) h in
      elim (Option-cases (old_row k s)) [
        | inl fresh ↦ ground (arith, paid, fresh)
        | inr (p, found) ↦ ground (arith, paid, found)
      ]

  -- The row of the quest pays once more.
  abbrev Pays : ℕ → Quest → Store T → Type 0
  Pays k q s =
      (p : Progress) × (old_row k s ≡ some p)
      × (is_over now p.reset_at ≡ false)
      × (q.target_value ≤ p.progress)

  advance-paid :
      (k n : ℕ) (q : Quest) (s : Store T)
      → q.repeatable ≡ true
      → Pays k q s
      → HasXp n s
      → HasXp (n + q.xp_reward) (advance T next_month now user_id increment k q (old_row k s) s).1
  advance-paid k n q s again (p, row, running, reached) h =
      let paid =
        reward-HasXp k n q
          (saved T next_month now user_id increment k
            (row_of T next_month now user_id increment q (old_row k s)) s)
          h in
      subst⁻¹ (HasXp (n + q.xp_reward)) (advance-store T next_month now user_id increment k q s) (
        if_cases (HasXp (n + q.xp_reward)) (is_done q (old_row k s))
          (λ done. absurd (ground (arith, done, row, again)))
          (λ open_quest.
            if_cases (HasXp (n + q.xp_reward))
              (row_of T next_month now user_id increment q (old_row k s)).completed (λ paying. paid)
              (λ short. absurd (ground (arith, short, row, again, running, reached)))))

  trigger_each-HasXp :
      (n : ℕ) (qs : List (ℕ × Quest)) (s : Store T)
      → HasXp n s
      → HasXp n (trigger_each T next_month now user_id increment qs s).1
  unfolding trigger_each
  trigger_each-HasXp n [] s h = h
  trigger_each-HasXp n ((k, q) ∷ qs) s h =
      keeps_bind (HasXp n) (advance T next_month now user_id increment k q (old_row k s))
        (λ done. trigger_each T next_month now user_id increment qs >>= λ rest. pure (done ++ rest))
        s (advance-HasXp k n q s h)
        (λ done t e h'.
          keeps_bind (HasXp n) (trigger_each T next_month now user_id increment qs)
            (λ rest. pure (done ++ rest)) t (trigger_each-HasXp n qs t h') (λ rest t' e' h''. h''))

  -- A turn of the loop that returns, and what follows it.
  each-cons :
      (k n : ℕ) (q : Quest) (qs : List (ℕ × Quest)) (s : Store T)
      → HasXp n s
      → (trigger_each T next_month now user_id increment ((k, q) ∷ qs) s).1
        ≡ (trigger_each T next_month now user_id increment qs
            (advance T next_month now user_id increment k q (old_row k s) s).1).1
  unfolding trigger_each
  each-cons k n q qs s h =
      let (done, returned) =
        returns (advance T next_month now user_id increment k q (old_row k s) s)
          (advance_ok k n q s h) in
      let t = (advance T next_month now user_id increment k q (old_row k s) s).1 in
      ap (λ r. r.1)
        (bind_ok (advance T next_month now user_id increment k q (old_row k s))
          (λ done.
            trigger_each T next_month now user_id increment qs >>= λ rest. pure (done ++ rest))
          s t done returned)
      ∙ keeps_bind (λ x. x ≡ (trigger_each T next_month now user_id increment qs t).1)
          (trigger_each T next_month now user_id increment qs) (λ rest. pure (done ++ rest)) t refl
          (λ rest t' e e'. e')

  trigger_each-paid :
      (k n : ℕ) (q : Quest) (quests : T.quest.Rows) (qs : List (ℕ × Quest)) (s : Store T)
      → q.repeatable ≡ true
      → T.quest.find_unique k quests ≡ some q
      → ((i : ℕ) (r : Quest) → In (i, r) qs → T.quest.find_unique i quests ≡ some r)
      → In (k, q) qs
      → Pays k q s
      → HasXp n s
      → HasXp (n + q.xp_reward) (trigger_each T next_month now user_id increment qs s).1
  trigger_each-paid k n q quests [] s again found rows m pays h = absurd m
  trigger_each-paid k n q quests ((i, r) ∷ qs) s again found rows m pays h =
      let t = (advance T next_month now user_id increment i r (old_row i s) s).1 in
      subst⁻¹ (HasXp (n + q.xp_reward)) (each-cons i n r qs s h) (elim (Bool-cases (i == k)) [
        | inl same ↦
            let i_k = (==_iff i k).0 same in
            let self : ◌≡◌ {A = ℕ × Quest} (i, r) (k, q) =
              ground (arith, i_k, found, rows i r (inl refl)) in
            trigger_each-HasXp (n + q.xp_reward) qs t (
              subst⁻¹
                (λ x.
                  HasXp (n + q.xp_reward)
                    (advance T next_month now user_id increment x.0 x.1 (old_row x.0 s) s).1)
                self (advance-paid k n q s again pays h))
        | inr other ↦
            let differ : i ≢ k = ground (arith, other, ==_iff i k) in
            let (p, row, running, reached) = pays in
            trigger_each-paid k n q quests qs t again found (λ j w l. rows j w (inr l))
              (elim m [ inl e ↦ absurd (differ (sym (ap (λ x. x.0) e))) | inr l ↦ l ])
              (p, (advance-row k i r s differ ∙ row), running, reached) (advance-HasXp i n r s h)
      ])

  -- When a trigger that an active repeatable quest waits for comes from a user that is there,
  -- whose row of the quest has reached the target and whose time for a new start has not come,
  -- the user's experience after the trigger is at least the experience before it and the reward
  -- of the quest.
  pub repeatable_paid_again :
      (quest_id : ℕ) (q : Quest) (p : Progress) (u : Player) (trigger : Trigger) (s : Store T)
      → T.quest.find_unique quest_id s.quests ≡ some q
      → is_triggered trigger quest_id q ≡ true
      → q.repeatable ≡ true
      → T.progress.find_unique (user_id, quest_id) s.progresses ≡ some p
      → is_over now p.reset_at ≡ false
      → q.target_value ≤ p.progress
      → T.player.find_unique user_id s.players ≡ some u
      → HasXp (u.xp + q.xp_reward) (on_trigger T next_month now user_id increment trigger s).1
  unfolding on_trigger trigger_quest
  repeatable_paid_again quest_id q p u trigger s found triggered again row running reached there =
      trigger_each-paid quest_id u.xp q s.quests (T.quest.find_many (is_triggered trigger) s.quests)
        s again found (λ i r m. (T.quest.find_many_sound (is_triggered trigger) i r s.quests m).0)
        (T.quest.find_many_complete (is_triggered trigger) quest_id q s.quests found triggered)
        (p, row, running, reached) (u, there, omega arith)
