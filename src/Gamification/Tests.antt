-- ===== src/Gamification/Tests.antt =====
-- Quests on which the service runs: posting twice (once), and following twice each day.
use motogram.Prelude.{In, ℕ, ◌*◌, ◌≡◌, refl, true, false, none, some, List, [], ◌∷◌, arith}
use motogram.Prelude.Assoc.{id_table, pair_table}
use motogram.Prelude.History.{run}
use motogram.Gamification.Schema.{
  Trigger, Quest, Progress, Player, UserBadge, Badge, never, daily, weekly, Tables, Store,
}
use motogram.Gamification.Levels.{level_for}
use motogram.Gamification.Quests.{
  is_triggered, advance, on_trigger, trigger_quest, trigger_each, reward, next_reset_at,
}
use motogram.Gamification.Badges.{toggle_showcase, list_user_badges, list_user_quests}
use motogram.Prelude.Action.{ok, err, plain_error}
use motogram.Gamification.Quests.Once.{IsBalanced, run-IsBalanced}
use motogram.Gamification.Quests.Reward.{step}
use motogram.Gamification.Quests.Levelled.{IsLevelled, run-IsLevelled}
use motogram.Gamification.Quests.Again.{HasXp, repeatable_paid_again}

abbrev tables : Tables
tables = record {
  quest = id_table Quest;
  progress = pair_table Progress;
  player = id_table Player;
  user_badge = pair_table UserBadge;
  badge = id_table Badge;
}

abbrev posts : Quest
posts = record {
  trigger = Trigger.post_created;
  target_value = 2;
  xp_reward = 60;
  badge_id = some 9;
  repeatable = false;
  reset_period = never;
  is_active = true;
  created_at = 1;
}

abbrev follows : Quest
follows = record {
  trigger = Trigger.follow_gained;
  target_value = 2;
  xp_reward = 10;
  badge_id = none;
  repeatable = true;
  reset_period = daily;
  is_active = true;
  created_at = 2;
}

abbrev two_follows : Progress
two_follows = record {
  progress = 2;
  completed = true;
  completed_at = some 50;
  reset_at = some 86400000;
}

abbrev board : Store tables
board = record {
  quests = ((1, posts) ∷ (2, follows) ∷ [], (refl, (refl, tt)));
  progresses = (((7, 2), two_follows) ∷ [], (refl, tt));
  players = ((7, record { xp = 10; level = 1 }) ∷ [], (refl, tt));
  user_badges = ([], tt);
  badges = ([], tt);
  signals = [];
}

abbrev clicks : List (ℕ × ℕ × ℕ × Trigger)
clicks =
    (100, 7, 1, Trigger.post_created)
    ∷ (200, 7, 1, Trigger.post_created)
    ∷ (300, 7, 1, Trigger.post_created)
    ∷ []

posts_only :
    (user_id k : ℕ) (q : Quest)
    → tables.quest.find_unique k board.quests ≡ some q
    → is_triggered Trigger.post_created k q ≡ true
    → user_id ≡ 7
    → (q.repeatable ≡ false) × In k (1 ∷ [])
posts_only user_id k q found triggered same = ground (arith, found, triggered)

run-IsBalanced_example : IsBalanced tables 7 70 (1 ∷ []) (run (step tables (λ t. t)) board clicks)
run-IsBalanced_example =
    run-IsBalanced tables 7 (λ t. t) 70 (1 ∷ []) ((λ m. m), tt) board clicks
      (posts_only 7, (posts_only 7, (posts_only 7, tt))) (record { xp = 10; level = 1 }, refl, refl)

board-IsLevelled : IsLevelled tables board
unfolding level_for motogram.Gamification.Levels.root
board-IsLevelled user_id u found = ground arith

run-IsLevelled_example : IsLevelled tables (run (step tables (λ t. t)) board clicks)
run-IsLevelled_example = run-IsLevelled tables (λ t. t) board clicks board-IsLevelled

repeatable_paid_again_example :
    HasXp tables
      (λ t. t)
      100
      7
      1
      20
      (on_trigger tables (λ t. t) 100 7 1 Trigger.follow_gained board).1
repeatable_paid_again_example =
    repeatable_paid_again tables (λ t. t) 100 7 1 2 follows two_follows
      (record { xp = 10; level = 1 }) Trigger.follow_gained board refl refl refl refl refl
      (omega arith) refl

earned :
    tables.player.find_unique 7
      (on_trigger tables (λ t. t) 200 7 2 Trigger.post_created board).1.players
    ≡ some (record { xp = 70; level = 2 })
unfolding on_trigger trigger_quest trigger_each advance reward level_for
    motogram.Gamification.Levels.root
earned = refl

-- The first full day of the count is a Thursday; the next Sunday begins three days later.
next_sunday : next_reset_at (λ t. t) 5 weekly ≡ some (3 * 86400000)
unfolding next_reset_at
next_sunday = refl

no_badge : (toggle_showcase tables 7 9 true board).0 ≡ err (plain_error "badge_not_owned")
unfolding toggle_showcase
no_badge = refl

no_badges : (list_user_badges tables 7 board).0 ≡ ok []
unfolding list_user_badges
no_badges = refl

two_quests :
    (list_user_quests tables 7 board).0
    ≡ ok (
        record {
          quest_id = 1;
          progress = 0;
          completed = false;
          completed_at = none;
          reset_at = none;
        }
        ∷ record {
          quest_id = 2;
          progress = 2;
          completed = true;
          completed_at = some 50;
          reset_at = some 86400000;
        }
        ∷ [])
unfolding list_user_quests
two_quests = refl
