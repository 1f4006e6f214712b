-- ===== src/Gamification/Quests/Levelled.antt =====
-- The level that goes with the experience.
use mathlib.Core.Path.{subst⁻¹}
use motogram.Prelude.{ℕ, ◌≡◌, some, List, [], ◌∷◌, ◌++◌, inl, inr, arith, Option-cases, if_cases}
use motogram.Prelude.Keeps.{keeps_bind}
use motogram.Prelude.History.{run, run_inv}
use motogram.Prelude.Action.{pure, ◌>>=◌}
use motogram.Gamification.Schema.{Trigger, Quest, Player, Tables, Store}
use motogram.Gamification.Levels.{level_for}
use motogram.Gamification.Quests.{
  is_triggered, is_done, reward, advance, trigger_each, trigger_quest, on_trigger,
}
use motogram.Gamification.Quests.Reward.{step, reward-store, advance-store, saved, row_of}

module _ (T : Tables) where
  -- Every user has the level of their experience.
  abbrev pub IsLevelled : Store T → Type 0
  IsLevelled s =
      (user_id : ℕ) (u : Player)
      → T.player.find_unique user_id s.players ≡ some u
      → u.level ≡ level_for u.xp

  reward-IsLevelled :
      (now user_id quest_id : ℕ) (q : Quest) (s : Store T)
      → IsLevelled s
      → IsLevelled (reward T now user_id quest_id q s).1
  reward-IsLevelled now user_id quest_id q s h j v there =
      let players = (reward-store T now user_id quest_id q s j).2 in
      elim (Option-cases (T.player.find_unique j s.players)) [
        | inl gone ↦ ground (arith, there, players, gone, h j v)
        | inr (u, found) ↦ ground (arith, there, players, found, h j u)
      ]

  module _ (next_month : ℕ → ℕ) (now user_id increment : ℕ) where
    trigger_each-IsLevelled :
        (qs : List (ℕ × Quest)) (s : Store T)
        → IsLevelled s
        → IsLevelled (trigger_each T next_month now user_id increment qs s).1
    unfolding trigger_each
    trigger_each-IsLevelled [] s h = h
    trigger_each-IsLevelled ((k, q) ∷ qs) s h =
        let old = T.progress.find_unique (user_id, k) s.progresses in
        let row = row_of T next_month now user_id increment q old in
        keeps_bind IsLevelled (advance T next_month now user_id increment k q old)
          (λ done.
            trigger_each T next_month now user_id increment qs >>= λ rest. pure (done ++ rest))
          s
          (subst⁻¹ IsLevelled (advance-store T next_month now user_id increment k q s) (
            if_cases IsLevelled (is_done q old) (λ done. h)
              (λ open_quest.
                if_cases IsLevelled row.completed
                  (λ reached.
                    reward-IsLevelled now user_id k q
                      (saved T next_month now user_id increment k row s) h)
                  (λ short. h))))
          (λ done t e h'.
            keeps_bind IsLevelled (trigger_each T next_month now user_id increment qs)
              (λ rest. pure (done ++ rest)) t (trigger_each-IsLevelled qs t h')
              (λ rest t' e' h''. h''))

    on_trigger-IsLevelled :
        (trigger : Trigger) (s : Store T)
        → IsLevelled s
        → IsLevelled (on_trigger T next_month now user_id increment trigger s).1
    unfolding on_trigger trigger_quest
    on_trigger-IsLevelled trigger s h =
        trigger_each-IsLevelled (T.quest.find_many (is_triggered trigger) s.quests) s h

  -- If every user has the level that goes with their experience, then every user has after any
  -- history of triggers.
  pub run-IsLevelled :
      (next_month : ℕ → ℕ) (s : Store T) (calls : List (ℕ × ℕ × ℕ × Trigger))
      → IsLevelled s
      → IsLevelled (run (step T next_month) s calls)
  run-IsLevelled next_month =
      run_inv (step T next_month) IsLevelled
        (λ s c h. on_trigger-IsLevelled next_month c.0 c.1 c.2 c.3 s h)
