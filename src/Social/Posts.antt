-- ===== src/Social/Posts.antt =====
-- apps/api/src/modules/posts/posts.service.ts: creating, reading, changing and removing one post.
-- The identifier of a new post is generated by the database, so it is an argument.
pub mod Counter
pub mod Visibility
use motogram.Prelude.{
  ℕ, String, Bool, true, false, Option, none, some, is_some, not, any, ◌&&◌, ◌||◌, ◌==◌, List, [],
  ◌∷◌, if◌then◌else◌,
}
use motogram.Prelude.Int.{ℤ, pos, ◌+ℤ◌, ◌-ℤ◌}
use motogram.Prelude.Action.{
  ⊤, not_found, forbidden, Action, pure, transaction, raise_if, or_raise, ◌>>=◌, ◌>>◌, find_first,
  find_many, create, update,
}
use motogram.Social.Schema.{
  User, Post, Like, Tables, Store, post_created, user, post, like_row, emit,
}
use motogram.Social.Blocks.{peers_blocked_either_way}

-- A post with the viewer's `likedByMe`.
pub record ViewedPost : Type 0 where
  pub id : ℕ
  pub row : Post
  pub liked_by_me : Bool

abbrev pub add_post : User → User
add_post u = record u { posts_count = u.posts_count +ℤ pos 1 }

abbrev pub drop_post : User → User
drop_post u = record u { posts_count = u.posts_count -ℤ pos 1 }

-- What `data: dto` does: a field that the request leaves out stays.
abbrev pub or_keep : {A : Type 0} → Option A → A → A
or_keep none old = old
or_keep (some new) old = new

abbrev caption_of : Option String → Option (Option String)
caption_of none = none
caption_of (some c) = some (some c)

module _ (T : Tables) where
  -- `attachLikedByMe` on one row.
  pub attach_liked_by_me : (viewer_id id : ℕ) → Post → Action (Store T) ViewedPost
  attach_liked_by_me viewer_id id p = do
    likes ← find_many (like_row T) (λ k _. k.1 == viewer_id && k.0 == id)
    pure (record { id = id; row = p; liked_by_me = any (λ l. l.0.0 == id) likes })

  -- `create`
  pub create_post : (id user_id : ℕ) → Option String → List String → Action (Store T) ViewedPost
  create_post id user_id caption hashtags = do
    p ← transaction (do
      made ← create (post T) id (record {
        user_id = user_id;
        caption = caption;
        hashtags = hashtags;
        likes_count = pos 0;
        comments_count = pos 0;
        deleted_at = none;
      })
      update (user T) user_id add_post
      pure made)
    emit T (post_created user_id id)
    attach_liked_by_me user_id id p

  -- `findById`: posts of users on either side of a block are refused.
  pub find_by_id : (id viewer_id : ℕ) → Action (Store T) ViewedPost
  find_by_id id viewer_id = do
    found ← find_first (post T) (λ k p. k == id && not (is_some p.deleted_at))
    p ← or_raise found (not_found "post_not_found")
    peers ← peers_blocked_either_way T viewer_id
    raise_if (not (p.1.user_id == viewer_id) && any (λ x. x == p.1.user_id) peers)
        (forbidden "blocked")
    attach_liked_by_me viewer_id id p.1

  -- `update`, with the fields of `UpdatePostDto`.
  pub update_post :
      (user_id id : ℕ) → Option String → Option (List String) → Action (Store T) ViewedPost
  update_post user_id id caption hashtags = do
    p ← find_by_id id user_id
    raise_if (not (p.row.user_id == user_id)) (forbidden "forbidden")
    updated ← update (post T) id (λ p. record p {
      caption = or_keep (caption_of caption) p.caption;
      hashtags = or_keep hashtags p.hashtags;
    })
    attach_liked_by_me user_id id updated

  -- `remove`
  pub remove_post : (now user_id id : ℕ) → Action (Store T) ⊤
  remove_post now user_id id = do
    found ← find_first (post T) (λ k p. k == id && not (is_some p.deleted_at))
    p ← or_raise found (not_found "post_not_found")
    raise_if (not (p.1.user_id == user_id)) (forbidden "forbidden")
    transaction (do
      update (post T) id (λ p. record p { deleted_at = some now })
      update (user T) user_id drop_post
      pure tt)
