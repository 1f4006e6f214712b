-- ===== src/Social/Schema.antt =====
-- The tables of the social services (apps/api/prisma/schema.prisma), with the columns that their
-- code reads or writes. Identifiers are numbers, since they are only compared for equality.
use motogram.Prelude.{List, ◌∷◌, ℕ, Bool, Option, String, ◌==◌, pair_eq}
use motogram.Prelude.Int.{ℤ}
use motogram.Prelude.Table.{Table}
use motogram.Prelude.Action.{⊤, Action, modify, Model}

pub record User : Type 0 where
  pub is_private : Bool
  pub is_banned : Bool
  pub deleted_at : Option ℕ
  pub followers_count : ℤ
  pub following_count : ℤ
  pub posts_count : ℤ

pub record Post : Type 0 where
  pub user_id : ℕ
  pub caption : Option String
  pub hashtags : List String
  pub likes_count : ℤ
  pub comments_count : ℤ
  pub deleted_at : Option ℕ

pub record Like : Type 0 where
  pub created_at : ℕ

pub record Comment : Type 0 where
  pub post_id : ℕ
  pub user_id : ℕ
  pub content : String
  pub deleted_at : Option ℕ

pub data FollowStatus : Type 0 where
  pending accepted blocked : FollowStatus

pub record Follow : Type 0 where
  pub status : FollowStatus

pub record Block : Type 0 where
  pub created_at : ℕ

-- `gamification.trigger` events, as the services emit them.
pub data Trigger : Type 0 where
  follow_gained : (user_id follower_id : ℕ) → Trigger
  post_created : (user_id post_id : ℕ) → Trigger

-- The tables, as the Prisma client offers them. Compound keys are those of the unique indexes:
-- `postId_userId`, `followerId_followingId` and `initiatorId_targetId`.
pub record Tables : Type 1 where
  pub user : Table ◌==◌ User
  pub post : Table ◌==◌ Post
  pub like : Table pair_eq Like
  pub comment : Table ◌==◌ Comment
  pub follow : Table pair_eq Follow
  pub block : Table pair_eq Block

-- What the tables hold, and the events emitted so far, the latest first.
pub record Store (T : Tables) : Type 0 where
  pub users : T.user.Rows
  pub posts : T.post.Rows
  pub likes : T.like.Rows
  pub comments : T.comment.Rows
  pub follows : T.follow.Rows
  pub blocks : T.block.Rows
  pub events : List Trigger

module _ (T : Tables) where
  abbrev pub user : Model (Store T) ◌==◌ User
  user = record { table = T.user; get = λ s. s.users; put = λ t s. record s { users = t } }

  abbrev pub post : Model (Store T) ◌==◌ Post
  post = record { table = T.post; get = λ s. s.posts; put = λ t s. record s { posts = t } }

  abbrev pub like_row : Model (Store T) pair_eq Like
  like_row = record { table = T.like; get = λ s. s.likes; put = λ t s. record s { likes = t } }

  abbrev pub comment : Model (Store T) ◌==◌ Comment
  comment = record {
    table = T.comment;
    get = λ s. s.comments;
    put = λ t s. record s { comments = t };
  }

  abbrev pub follow_row : Model (Store T) pair_eq Follow
  follow_row = record {
    table = T.follow;
    get = λ s. s.follows;
    put = λ t s. record s { follows = t };
  }

  abbrev pub block_row : Model (Store T) pair_eq Block
  block_row = record { table = T.block; get = λ s. s.blocks; put = λ t s. record s { blocks = t } }

  -- `events.emit('gamification.trigger', ...)`
  abbrev pub emit : Trigger → Action (Store T) ⊤
  emit e = modify (λ s. record s { events = e ∷ s.events })
