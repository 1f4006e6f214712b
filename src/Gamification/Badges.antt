-- ===== src/Gamification/Badges.antt =====
-- What a user sees: `listUserBadges`, `toggleShowcase` and `listUserQuests` in
-- apps/api/src/modules/gamification/gamification.service.ts.
use motogram.Prelude.{ℕ, Bool, false, Option, none, some, leb, ◌==◌, ◌&&◌, List, map, sort}
use motogram.Prelude.Action.{
  plain_error, Action, pure, or_raise, ◌>>=◌, ◌>>◌, find_unique, find_many, update,
}
use motogram.Gamification.Schema.{
  Quest, Progress, UserBadge, Badge, Tables, Store, quest, user_badge,
}

-- `QuestProgressDto`
pub record QuestView : Type 0 where
  pub quest_id : ℕ
  pub progress : ℕ
  pub completed : Bool
  pub completed_at : Option ℕ
  pub reset_at : Option ℕ

abbrev pub later : (ℕ × ℕ) × UserBadge → (ℕ × ℕ) × UserBadge → Bool
later a b = leb b.1.earned_at a.1.earned_at

abbrev pub older : ℕ × Quest → ℕ × Quest → Bool
older a b = leb a.1.created_at b.1.created_at

abbrev is_shown : Option Badge → Bool
is_shown none = false
is_shown (some b) = b.is_active

abbrev view : ℕ → Option Progress → QuestView
view id none = record {
  quest_id = id;
  progress = 0;
  completed = false;
  completed_at = none;
  reset_at = none;
}
view id (some p) = record {
  quest_id = id;
  progress = p.progress;
  completed = p.completed;
  completed_at = p.completed_at;
  reset_at = p.reset_at;
}

module _ (T : Tables) where
  unfoldable pub list_user_badges : ℕ → Action (Store T) (List ((ℕ × ℕ) × UserBadge))
  list_user_badges user_id s =
      (do
        rows ←
            find_many (user_badge T)
              (λ k b. k.0 == user_id && is_shown (T.badge.find_unique k.1 s.badges))
        pure (sort later rows))
        s

  unfoldable pub toggle_showcase : (user_id badge_id : ℕ) → Bool → Action (Store T) UserBadge
  toggle_showcase user_id badge_id showcased = do
    existing ← find_unique (user_badge T) (user_id, badge_id)
    or_raise existing (plain_error "badge_not_owned")
    update (user_badge T) (user_id, badge_id) (λ b. record b { showcased = showcased })

  unfoldable pub list_user_quests : ℕ → Action (Store T) (List QuestView)
  list_user_quests user_id s =
      (do
        quests ← find_many (quest T) (λ k q. q.is_active)
        pure (
            map (λ q. view q.0 (T.progress.find_unique (user_id, q.0) s.progresses))
              (sort older quests)))
        s
