-- ===== src/Gamification/Quests.antt =====
-- Quests: `triggerQuest`, `onTrigger` and `nextResetAt` in apps/api/src/modules/gamification/gamification.service.ts.
-- Notifications and pushes are always sent, and the gateway of the socket messages is registered. The first of the next month is JavaScript's, an argument.
pub mod Reward
pub mod Worth
pub mod Once
pub mod Again
pub mod Levelled
use motogram.Prelude.{
  ℕ, suc, zero, ◌+◌, ◌-◌, ◌*◌, ◌/◌, ◌%◌, Bool, true, false, Option, none, some, is_some, not, leb,
  ◌==◌, ◌&&◌, ◌||◌, List, [], ◌∷◌, ◌++◌, if◌then◌else◌,
}
use motogram.Prelude.Action.{
  ⊤, Action, ok, pure, do_if, ◌>>=◌, ◌>>◌, find_unique, find_many, upsert, update,
}
use motogram.Gamification.Schema.{
  Trigger, ResetPeriod, never, daily, weekly, monthly, Quest, Progress, Player, UserBadge,
  quest_notice, badge_notice, quest_push, quest_message, badge_message, Tables, Store, quest,
  progress_row, player, user_badge, emit,
}
use motogram.Gamification.Levels.{level_for}

abbrev pub day_ms : ℕ
day_ms = 24 * 3600 * 1000

-- `getUTCDay`: 0 is Sunday, and the first day of the count is a Thursday.
abbrev weekday : ℕ → ℕ
weekday t = (t / day_ms + 4) % 7

-- `(7 - day) % 7 || 7`
abbrev days_to_sunday : ℕ → ℕ
days_to_sunday zero = 7
days_to_sunday (suc d) = (7 - suc d) % 7

-- `nextResetAt`
unfoldable pub next_reset_at : (next_month : ℕ → ℕ) → ℕ → ResetPeriod → Option ℕ
next_reset_at next_month t daily = some ((t / day_ms + 1) * day_ms)
next_reset_at next_month t weekly = some ((t / day_ms + days_to_sunday (weekday t)) * day_ms)
next_reset_at next_month t monthly = some (next_month t)
next_reset_at next_month t never = none

-- The equality of triggers, by their places.
abbrev place_of : Trigger → ℕ
place_of Trigger.post_created = 0
place_of Trigger.story_created = 1
place_of Trigger.follow_gained = 2
place_of Trigger.event_joined = 3
place_of Trigger.event_hosted = 4
place_of Trigger.party_completed = 5
place_of Trigger.party_lead = 6
place_of Trigger.route_created = 7
place_of Trigger.emergency_acknowledged = 8
place_of Trigger.profile_completed = 9
place_of Trigger.bike_added = 10
place_of Trigger.community_joined = 11

-- `where` of the quests
abbrev pub is_triggered : Trigger → ℕ → Quest → Bool
is_triggered t k q = (place_of q.trigger == place_of t) && q.is_active

-- `existing.resetAt && existing.resetAt <= now`
abbrev pub is_over : ℕ → Option ℕ → Bool
is_over now none = false
is_over now (some t) = leb t now

-- `progress` and `resetAt` of the next row.
abbrev pub next_progress :
    (next_month : ℕ → ℕ) → (now increment : ℕ) → Quest → Option Progress → ℕ × Option ℕ
next_progress next_month now increment q none =
    (increment, if q.repeatable then next_reset_at next_month now q.reset_period else none)
next_progress next_month now increment q (some p) =
    if q.repeatable && is_over now p.reset_at
    then (increment, next_reset_at next_month now q.reset_period)
    else (p.progress + increment, p.reset_at)

-- `wasAlreadyCompleted`
abbrev pub is_done : Quest → Option Progress → Bool
is_done q none = false
is_done q (some p) = p.completed && not q.repeatable

abbrev completed_before : Option Progress → Option ℕ
completed_before none = none
completed_before (some p) = p.completed_at

abbrev pub next_row : (now : ℕ) → Quest → Option Progress → ℕ × Option ℕ → Progress
next_row now q old (n, reset_at) = record {
  progress = n;
  completed = leb q.target_value n;
  completed_at = if leb q.target_value n then some now else completed_before old;
  reset_at = reset_at;
}

-- `QuestCompletedDto`, with the identifiers of the quest and the badge.
pub record QuestCompleted : Type 0 where
  pub quest_id : ℕ
  pub xp_awarded : ℕ
  pub new_user_level : ℕ
  pub new_user_xp : ℕ
  pub badge_unlocked : Option ℕ

module _ (T : Tables) where
  abbrev unlock_badge : (now user_id quest_id : ℕ) → Option ℕ → Action (Store T) ⊤
  unlock_badge now user_id quest_id none = pure tt
  unlock_badge now user_id quest_id (some badge_id) = do
    upsert (user_badge T) (user_id, badge_id)
        (record { source = some quest_id; showcased = false; earned_at = now }) (λ b. b)
    pure tt

  abbrev tell_badge : ℕ → Option ℕ → Action (Store T) ⊤
  tell_badge user_id none = pure tt
  tell_badge user_id (some badge_id) = emit T (badge_notice user_id badge_id)

  abbrev send_badge : ℕ → Option ℕ → Action (Store T) ⊤
  send_badge user_id none = pure tt
  send_badge user_id (some badge_id) = emit T (badge_message user_id badge_id)

  -- What a completion is worth: experience, level, badge, and the signals.
  unfoldable pub reward : (now user_id quest_id : ℕ) → Quest → Action (Store T) QuestCompleted
  reward now user_id quest_id q = do
    u ← update (player T) user_id (λ u. record u { xp = u.xp + q.xp_reward })
    update (player T) user_id (λ v. record v { level = level_for u.xp })
    unlock_badge now user_id quest_id q.badge_id
    emit T (quest_notice user_id quest_id q.xp_reward)
    tell_badge user_id q.badge_id
    emit T (quest_push user_id quest_id)
    emit T (quest_message user_id quest_id)
    send_badge user_id q.badge_id
    pure (record {
      quest_id = quest_id;
      xp_awarded = q.xp_reward;
      new_user_level = level_for u.xp;
      new_user_xp = u.xp;
      badge_unlocked = q.badge_id;
    })

  abbrev reward_if :
      Bool → (now user_id quest_id : ℕ) → Quest → Action (Store T) (List QuestCompleted)
  reward_if false now user_id quest_id q = pure []
  reward_if true now user_id quest_id q = do c ← reward now user_id quest_id q; pure (c ∷ [])

  -- The body of the loop, after the row of the user was read.
  unfoldable pub advance :
      (next_month : ℕ → ℕ) (now user_id increment quest_id : ℕ)
      → Quest
      → Option Progress
      → Action (Store T) (List QuestCompleted)
  advance next_month now user_id increment quest_id q old =
      let row = next_row now q old (next_progress next_month now increment q old) in
      if is_done q old then pure [] else (do
        upsert (progress_row T) (user_id, quest_id) row (λ _. row)
        reward_if row.completed now user_id quest_id q)

  unfoldable pub trigger_each :
      (next_month : ℕ → ℕ) (now user_id increment : ℕ)
      → List (ℕ × Quest)
      → Action (Store T) (List QuestCompleted)
  trigger_each next_month now user_id increment [] = pure []
  trigger_each next_month now user_id increment (q ∷ qs) = do
    old ← find_unique (progress_row T) (user_id, q.0)
    done ← advance next_month now user_id increment q.0 q.1 old
    rest ← trigger_each next_month now user_id increment qs
    pure (done ++ rest)

  unfoldable pub trigger_quest :
      (next_month : ℕ → ℕ) (now user_id increment : ℕ)
      → Trigger
      → Action (Store T) (List QuestCompleted)
  trigger_quest next_month now user_id increment trigger = do
    quests ← find_many (quest T) (is_triggered trigger)
    trigger_each next_month now user_id increment quests

  -- The listener: an error is logged only.
  unfoldable pub on_trigger :
      (next_month : ℕ → ℕ) (now user_id increment : ℕ) → Trigger → Action (Store T) ⊤
  on_trigger next_month now user_id increment trigger s =
      (ok tt, (trigger_quest next_month now user_id increment trigger s).1)
