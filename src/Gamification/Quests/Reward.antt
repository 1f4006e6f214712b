-- ===== src/Gamification/Quests/Reward.antt =====
-- What a completion and one turn of the loop of `triggerQuest` change.
use motogram.Prelude.{
  ℕ, ◌+◌, ◌≡◌, Option, none, some, inl, inr, arith, ◌==◌, ==_iff, if◌then◌else◌, Option-cases,
}
use motogram.Gamification.Schema.{Trigger, Quest, Progress, Player, Tables, Store}
use motogram.Gamification.Levels.{level_for}
use motogram.Gamification.Quests.{is_done, next_progress, next_row, reward, advance, on_trigger}

-- The player's row after the reward.
abbrev gained : ℕ → Option Player → Option Player
gained xp none = none
gained xp (some u) = some (record { xp = u.xp + xp; level = level_for (u.xp + xp) })

module _ (T : Tables) where
  -- The two updates of a player.
  paid-row :
      (user_id xp j : ℕ) (u : Player) (t : T.player.Rows)
      → T.player.find_unique user_id t ≡ some u
      → T.player.find_unique j (
          T.player.write user_id
            (record { xp = u.xp + xp; level = level_for (u.xp + xp) })
            (T.player.write user_id (record u { xp = u.xp + xp }) t))
        ≡ (if user_id == j then gained xp (T.player.find_unique j t) else T.player.find_unique j t)
  paid-row user_id xp j u t found = ground (
    arith,
    ==_iff user_id j,
    T.player.find-write j user_id (record u { xp = u.xp + xp }) t,
    T.player.find-write j user_id (record { xp = u.xp + xp; level = level_for (u.xp + xp) })
        (T.player.write user_id (record u { xp = u.xp + xp }) t),
  )

  pub reward-store :
      (now user_id quest_id : ℕ) (q : Quest) (s : Store T) (j : ℕ)
      → let s' = (reward T now user_id quest_id q s).1 in
        (s'.quests ≡ s.quests)
        × (s'.progresses ≡ s.progresses)
        × (T.player.find_unique j s'.players ≡ (
            if user_id == j
            then gained q.xp_reward (T.player.find_unique j s.players)
            else T.player.find_unique j s.players))
  unfolding reward
  reward-store now user_id quest_id q s j =
      elim (Option-cases (T.player.find_unique user_id s.players)) [
        | inl gone ↦ ground (arith, ==_iff user_id j)
        | inr (u, found) ↦ elim (Option-cases q.badge_id) [
          | inl plain ↦ ground (
            arith,
            ==_iff user_id user_id,
            T.player.find-write user_id user_id (record u { xp = u.xp + q.xp_reward }) s.players,
            paid-row user_id q.xp_reward j u s.players found,
          )
          | inr (b, prize) ↦ ground (
            arith,
            ==_iff user_id user_id,
            T.player.find-write user_id user_id (record u { xp = u.xp + q.xp_reward }) s.players,
            paid-row user_id q.xp_reward j u s.players found,
          )
        ]
      ]

  module _ (next_month : ℕ → ℕ) (now user_id increment : ℕ) where
    abbrev pub row_of : Quest → Option Progress → Progress
    row_of q old = next_row now q old (next_progress next_month now increment q old)

    abbrev pub saved : ℕ → Progress → Store T → Store T
    saved quest_id p s = record s {
      progresses = T.progress.write (user_id, quest_id) p s.progresses;
    }

    pub advance-store :
        (quest_id : ℕ) (q : Quest) (s : Store T)
        → let old = T.progress.find_unique (user_id, quest_id) s.progresses in
          (advance T next_month now user_id increment quest_id q old s).1 ≡ (
            if is_done q old
            then s
            else if (row_of q old).completed
            then (reward T now user_id quest_id q (saved quest_id (row_of q old) s)).1
            else saved quest_id (row_of q old) s)
    unfolding advance
    advance-store quest_id q s =
        elim (Option-cases (T.progress.find_unique (user_id, quest_id) s.progresses)) [
          | inl fresh ↦ ground arith
          | inr (p, found) ↦ ground arith
        ]

    pub advance-quests :
        (quest_id : ℕ) (q : Quest) (s : Store T)
        → (advance T next_month now user_id increment quest_id q
            (T.progress.find_unique (user_id, quest_id) s.progresses)
            s).1.quests
          ≡ s.quests
    advance-quests quest_id q s =
        let old = T.progress.find_unique (user_id, quest_id) s.progresses in
        ground (
          arith,
          advance-store quest_id q s,
          reward-store now user_id quest_id q (saved quest_id (row_of q old) s) 0,
        )

  -- A trigger, at its time.
  abbrev pub step : (ℕ → ℕ) → Store T → ℕ × ℕ × ℕ × Trigger → Store T
  step next_month s (now, user_id, increment, trigger) =
      (on_trigger T next_month now user_id increment trigger s).1
