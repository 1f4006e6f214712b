-- ===== src/Social/Comments/Counter.antt =====
-- `commentsCount` against the comments that are not deleted.
use motogram.Prelude.{
  List, ℕ, ◌≡◌, Bool, none, some, is_some, not, inl, inr, arith, ◌==◌, ◌&&◌, Option-cases, String,
}
use motogram.Prelude.Int.{pos, pos-+ℤ, pos_pred}
use motogram.Prelude.History.{run, run_inv}
use motogram.Social.Schema.{Post, Comment, Tables, Store}
use motogram.Social.Comments.{
  create_comment, update_comment, remove_comment, add_comment, drop_comment,
}

abbrev is_comment_of : ℕ → ℕ → Comment → Bool
is_comment_of post_id k c = c.post_id == post_id && not (is_some c.deleted_at)

pub data Call : Type 0 where
  creates : (id user_id post_id : ℕ) → String → Call
  updates : (user_id id : ℕ) → String → Call
  removes : (now user_id id : ℕ) → Call

module _ (T : Tables) where
  abbrev comments_of : ℕ → Store T → ℕ
  comments_of post_id s = T.comment.count (is_comment_of post_id) s.comments

  abbrev pub IsCommentsCounted : Store T → Type 0
  IsCommentsCounted s =
      (post_id : ℕ) (p : Post)
      → T.post.find_unique post_id s.posts ≡ some p
      → p.comments_count ≡ pos (comments_of post_id s)

  module _ (s : Store T) (h : IsCommentsCounted s) where
    create_comment-IsCommentsCounted :
        (id user_id post_id : ℕ) (content : String)
        → IsCommentsCounted (create_comment T id user_id post_id content s).1
    unfolding create_comment
    create_comment-IsCommentsCounted id u q content post_id p e =
        elim (Option-cases (T.post.find_unique q s.posts)) [
          | inl gone ↦ ground (arith, h post_id p)
          | inr (row, found) ↦ ground (
            arith,
            h post_id p,
            h post_id row,
            T.post.find-write post_id q (add_comment row) s.posts,
            T.comment.count-write (is_comment_of post_id) id
                (record { post_id = q; user_id = u; content = content; deleted_at = none })
                s.comments,
            pos-+ℤ (comments_of post_id s) 1,
          )
        ]

    update_comment-IsCommentsCounted :
        (user_id id : ℕ) (content : String)
        → IsCommentsCounted (update_comment T user_id id content s).1
    unfolding update_comment
    update_comment-IsCommentsCounted u id content post_id p e =
        elim (Option-cases (T.comment.find_unique id s.comments)) [
          | inl gone ↦ ground (arith, h post_id p)
          | inr (c, found) ↦ ground (
            arith,
            h post_id p,
            T.comment.count-write (is_comment_of post_id) id (record c { content = content })
                s.comments,
          )
        ]

    remove_comment-IsCommentsCounted :
        (now user_id id : ℕ) → IsCommentsCounted (remove_comment T now user_id id s).1
    unfolding remove_comment
    remove_comment-IsCommentsCounted now u id post_id p e =
        elim (Option-cases (T.comment.find_unique id s.comments)) [
          | inl gone ↦ ground (arith, h post_id p)
          | inr (c, found) ↦ elim (Option-cases (T.post.find_unique c.post_id s.posts)) [
            | inl lost ↦ ground (arith, h post_id p)
            | inr (row, there) ↦ ground (
              arith,
              h post_id p,
              h post_id row,
              T.post.find-write post_id c.post_id (drop_comment row) s.posts,
              T.comment.count-write (is_comment_of post_id) id (record c { deleted_at = some now })
                  s.comments,
              pos_pred (
                  T.comment.count (is_comment_of post_id)
                    (T.comment.write id (record c { deleted_at = some now }) s.comments)),
            )
          ]
        ]

  unfoldable pub step : Store T → Call → Store T
  step s (creates id u q content) = (create_comment T id u q content s).1
  step s (updates u id content) = (update_comment T u id content s).1
  step s (removes now u id) = (remove_comment T now u id s).1

  step-IsCommentsCounted :
      (s : Store T) (c : Call) → IsCommentsCounted s → IsCommentsCounted (step s c)
  unfolding step
  step-IsCommentsCounted s (creates id u q content) h =
      create_comment-IsCommentsCounted s h id u q content
  step-IsCommentsCounted s (updates u id content) h =
      update_comment-IsCommentsCounted s h u id content
  step-IsCommentsCounted s (removes now u id) h = remove_comment-IsCommentsCounted s h now u id

  -- If the commentsCount of every post is the number of its comments that are not deleted, it
  -- still is after any history of comments made, changed and removed.
  pub run-IsCommentsCounted :
      (s : Store T) (cs : List Call) → IsCommentsCounted s → IsCommentsCounted (run step s cs)
  run-IsCommentsCounted = run_inv step IsCommentsCounted step-IsCommentsCounted
