-- ===== src/Social/Comments.antt =====
-- apps/api/src/modules/comments/comments.service.ts, the calls that change state. The identifier of
-- a new comment is generated by the database, so it is an argument.
pub mod Counter
use motogram.Prelude.{
  ℕ, String, Bool, true, false, Option, none, some, is_some, not, ◌&&◌, ◌||◌, ◌==◌,
}
use motogram.Prelude.Int.{pos, ◌+ℤ◌, ◌-ℤ◌}
use motogram.Prelude.Action.{
  ⊤, not_found, forbidden, Action, pure, transaction, raise_if, or_raise, ◌>>=◌, ◌>>◌, find_unique,
  find_first, create, update,
}
use motogram.Social.Schema.{Post, Comment, Tables, Store, post, comment}

abbrev pub add_comment : Post → Post
add_comment p = record p { comments_count = p.comments_count +ℤ pos 1 }

abbrev pub drop_comment : Post → Post
drop_comment p = record p { comments_count = p.comments_count -ℤ pos 1 }

module _ (T : Tables) where
  -- `create`
  pub create_comment : (id user_id post_id : ℕ) → String → Action (Store T) Comment
  create_comment id user_id post_id content = do
    found ← find_first (post T) (λ k p. k == post_id && not (is_some p.deleted_at))
    or_raise found (not_found "post_not_found")
    transaction (do
      made ←
          create (comment T) id
            (record { post_id = post_id; user_id = user_id; content = content; deleted_at = none })
      update (post T) post_id add_comment
      pure made)

  -- The guards that `update` and `remove` share: the row is there, live, and the caller's own.
  abbrev own_comment : ℕ → Option Comment → Action (Store T) Comment
  own_comment user_id none s = or_raise none (not_found "comment_not_found") s
  own_comment user_id (some c) s =
      (do
        raise_if (is_some c.deleted_at) (not_found "comment_not_found")
        raise_if (not (c.user_id == user_id)) (forbidden "forbidden")
        pure c)
        s

  -- `update`
  pub update_comment : (user_id id : ℕ) → String → Action (Store T) Comment
  update_comment user_id id content = do
    c ← find_unique (comment T) id
    own_comment user_id c
    update (comment T) id (λ c. record c { content = content })

  -- `remove`
  pub remove_comment : (now user_id id : ℕ) → Action (Store T) ⊤
  remove_comment now user_id id = do
    found ← find_unique (comment T) id
    c ← own_comment user_id found
    transaction (do
      update (comment T) id (λ c. record c { deleted_at = some now })
      update (post T) c.post_id drop_comment
      pure tt)
