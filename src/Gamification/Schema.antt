-- ===== src/Gamification/Schema.antt =====
-- The tables of the gamification (apps/api/prisma/schema.prisma): the columns that decide something. Names,
-- texts and icons, which the service only copies into its answers, are left out.
use motogram.Prelude.{ℕ, Bool, Option, List, ◌∷◌, ◌==◌, pair_eq}
use motogram.Prelude.Table.{Table}
use motogram.Prelude.Action.{⊤, Action, Model, modify}

-- `QuestTrigger`
pub data Trigger : Type 0 where
  post_created story_created follow_gained event_joined event_hosted party_completed : Trigger
  party_lead route_created emergency_acknowledged profile_completed bike_added community_joined :
      Trigger

-- `QuestResetPeriod`
pub data ResetPeriod : Type 0 where
  never daily weekly monthly : ResetPeriod

pub record Quest : Type 0 where
  pub trigger : Trigger
  pub target_value : ℕ
  pub xp_reward : ℕ
  pub badge_id : Option ℕ
  pub repeatable : Bool
  pub reset_period : ResetPeriod
  pub is_active : Bool
  pub created_at : ℕ

-- `QuestProgress`, keyed by `userId_questId`.
pub record Progress : Type 0 where
  pub progress : ℕ
  pub completed : Bool
  pub completed_at : Option ℕ
  pub reset_at : Option ℕ

-- The columns of `User`.
pub record Player : Type 0 where
  pub xp : ℕ
  pub level : ℕ

-- `UserBadge`, keyed by `userId_badgeId`; its source is a quest.
pub record UserBadge : Type 0 where
  pub source : Option ℕ
  pub showcased : Bool
  pub earned_at : ℕ

pub record Badge : Type 0 where
  pub is_active : Bool

-- What a completion sends: the notifications, the push and the socket messages.
pub data Signal : Type 0 where
  quest_notice : (user_id quest_id xp : ℕ) → Signal
  badge_notice : (user_id badge_id : ℕ) → Signal
  quest_push : (user_id quest_id : ℕ) → Signal
  quest_message : (user_id quest_id : ℕ) → Signal
  badge_message : (user_id badge_id : ℕ) → Signal

pub record Tables : Type 1 where
  pub quest : Table ◌==◌ Quest
  pub progress : Table pair_eq Progress
  pub player : Table ◌==◌ Player
  pub user_badge : Table pair_eq UserBadge
  pub badge : Table ◌==◌ Badge

pub record Store (T : Tables) : Type 0 where
  pub quests : T.quest.Rows
  pub progresses : T.progress.Rows
  pub players : T.player.Rows
  pub user_badges : T.user_badge.Rows
  pub badges : T.badge.Rows
  pub signals : List Signal

module _ (T : Tables) where
  abbrev pub quest : Model (Store T) ◌==◌ Quest
  quest = record { table = T.quest; get = λ s. s.quests; put = λ t s. record s { quests = t } }

  abbrev pub progress_row : Model (Store T) pair_eq Progress
  progress_row = record {
    table = T.progress;
    get = λ s. s.progresses;
    put = λ t s. record s { progresses = t };
  }

  abbrev pub player : Model (Store T) ◌==◌ Player
  player = record { table = T.player; get = λ s. s.players; put = λ t s. record s { players = t } }

  abbrev pub user_badge : Model (Store T) pair_eq UserBadge
  user_badge = record {
    table = T.user_badge;
    get = λ s. s.user_badges;
    put = λ t s. record s { user_badges = t };
  }

  abbrev pub badge : Model (Store T) ◌==◌ Badge
  badge = record { table = T.badge; get = λ s. s.badges; put = λ t s. record s { badges = t } }

  abbrev pub emit : Signal → Action (Store T) ⊤
  emit m = modify (λ s. record s { signals = m ∷ s.signals })
