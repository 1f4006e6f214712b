-- ===== src/Social/Likes.antt =====
-- apps/api/src/modules/likes/likes.service.ts. `now` is the default of the column `createdAt`.
pub mod Counter
pub mod Laws
use motogram.Prelude.{ℕ, Bool, true, false, Option, none, some, is_some, not, ◌&&◌, ◌==◌}
use motogram.Prelude.Int.{ℤ, pos, ◌+ℤ◌, ◌-ℤ◌}
use motogram.Prelude.Action.{
  ⊤, Error, not_found, Action, pure, raise, transaction, or_raise, ◌>>=◌, ◌>>◌, find_unique,
  find_first, create, update, delete,
}
use motogram.Social.Schema.{Post, Like, Tables, Store, post, like_row}

-- The answer of both calls: `{ liked, likesCount }`.
pub record LikeResult : Type 0 where
  pub liked : Bool
  pub likes_count : ℤ

-- `current?.likesCount ?? 0`
abbrev likes_or_0 : Option Post → ℤ
likes_or_0 none = pos 0
likes_or_0 (some p) = p.likes_count

abbrev pub add_like : Post → Post
add_like p = record p { likes_count = p.likes_count +ℤ pos 1 }

abbrev pub drop_like : Post → Post
drop_like p = record p { likes_count = p.likes_count -ℤ pos 1 }

module _ (T : Tables) where
  like_body : ℕ → ℕ → ℕ → Option Like → Action (Store T) ℤ
  like_body now user_id post_id (some existing) = do
    current ← find_unique (post T) post_id
    pure (likes_or_0 current)
  like_body now user_id post_id none = do
    create (like_row T) (post_id, user_id) (record { created_at = now })
    updated ← update (post T) post_id add_like
    pure updated.likes_count

  unfoldable pub like : ℕ → ℕ → ℕ → Action (Store T) LikeResult
  unfolding like_body
  like now user_id post_id = do
    found ← find_first (post T) (λ id p. id == post_id && not (is_some p.deleted_at))
    or_raise found (not_found "post_not_found")
    likes_count ← transaction (do
      existing ← find_unique (like_row T) (post_id, user_id)
      like_body now user_id post_id existing)
    pure (record { liked = true; likes_count = likes_count })

  unlike_body : ℕ → ℕ → Option Like → Action (Store T) ℤ
  unlike_body user_id post_id none = do
    current ← find_unique (post T) post_id
    pure (likes_or_0 current)
  unlike_body user_id post_id (some existing) = do
    delete (like_row T) (post_id, user_id)
    updated ← update (post T) post_id drop_like
    pure updated.likes_count

  unfoldable pub unlike : ℕ → ℕ → Action (Store T) LikeResult
  unfolding unlike_body
  unlike user_id post_id = do
    likes_count ← transaction (do
      existing ← find_unique (like_row T) (post_id, user_id)
      unlike_body user_id post_id existing)
    pure (record { liked = false; likes_count = likes_count })
