-- ===== src/Social/Posts/Counter.antt =====
-- `postsCount` against the posts of a user that are not deleted.
use motogram.Prelude.{
  ℕ, ◌≡◌, Bool, Option, none, some, is_some, not, inl, inr, arith, ◌==◌, ◌&&◌, Option-cases, String,
  List,
}
use motogram.Prelude.Int.{pos, pos-+ℤ, pos_pred}
use motogram.Prelude.Queries.{find_first-row_if}
use motogram.Prelude.History.{run, run_inv}
use motogram.Social.Blocks.Laws.{peers_blocked_either_way_lem}
use motogram.Social.Schema.{User, Post, Tables, Store}
use motogram.Social.Posts.{
  find_by_id, or_keep, caption_of, create_post, attach_liked_by_me, remove_post, update_post,
  add_post, drop_post,
}

abbrev is_post_of : ℕ → ℕ → Post → Bool
is_post_of user_id k p = p.user_id == user_id && not (is_some p.deleted_at)

pub data Call : Type 0 where
  creates : (id user_id : ℕ) → Option String → List String → Call
  updates : (user_id id : ℕ) → Option String → Option (List String) → Call
  removes : (now user_id id : ℕ) → Call

module _ (T : Tables) where
  abbrev posts_of : ℕ → Store T → ℕ
  posts_of user_id s = T.post.count (is_post_of user_id) s.posts

  abbrev pub IsPostsCounted : Store T → Type 0
  IsPostsCounted s =
      (user_id : ℕ) (u : User)
      → T.user.find_unique user_id s.users ≡ some u
      → u.posts_count ≡ pos (posts_of user_id s)

  module _ (s : Store T) (h : IsPostsCounted s) where
    create_post-IsPostsCounted :
        (id user_id : ℕ) (caption : Option String) (hashtags : List String)
        → IsPostsCounted (create_post T id user_id caption hashtags s).1
    unfolding create_post attach_liked_by_me
    create_post-IsPostsCounted id q caption hashtags user_id u e =
        elim (Option-cases (T.user.find_unique q s.users)) [
          | inl gone ↦ ground (arith, h user_id u)
          | inr (row, found) ↦ ground (
            arith,
            h user_id u,
            h user_id row,
            T.user.find-write user_id q (add_post row) s.users,
            T.post.count-write (is_post_of user_id) id
                (record {
                  user_id = q;
                  caption = caption;
                  hashtags = hashtags;
                  likes_count = pos 0;
                  comments_count = pos 0;
                  deleted_at = none;
                })
                s.posts,
            pos-+ℤ (posts_of user_id s) 1,
          )
        ]

    remove_post-IsPostsCounted :
        (now user_id id : ℕ) → IsPostsCounted (remove_post T now user_id id s).1
    unfolding remove_post
    remove_post-IsPostsCounted now q id user_id u e =
        elim (Option-cases (T.post.find_unique id s.posts)) [
          | inl gone ↦ ground (
            arith,
            h user_id u,
            find_first-row_if T.post id (λ p. not (is_some p.deleted_at)) s.posts,
          )
          | inr (p, found) ↦ elim (Option-cases (T.user.find_unique q s.users)) [
            | inl lost ↦ ground (
              arith,
              h user_id u,
              find_first-row_if T.post id (λ p. not (is_some p.deleted_at)) s.posts,
            )
            | inr (row, there) ↦ ground (
              arith,
              h user_id u,
              h user_id row,
              find_first-row_if T.post id (λ p. not (is_some p.deleted_at)) s.posts,
              T.user.find-write user_id q (drop_post row) s.users,
              T.post.count-write (is_post_of user_id) id (record p { deleted_at = some now })
                  s.posts,
              pos_pred (
                  T.post.count (is_post_of user_id)
                    (T.post.write id (record p { deleted_at = some now }) s.posts)),
            )
          ]
        ]

    update_post-IsPostsCounted :
        (user_id id : ℕ) (caption : Option String) (hashtags : Option (List String))
        → IsPostsCounted (update_post T user_id id caption hashtags s).1
    unfolding update_post find_by_id attach_liked_by_me
    update_post-IsPostsCounted q id caption hashtags user_id u e =
        elim (Option-cases (T.post.find_unique id s.posts)) [
          | inl gone ↦ ground (
            arith,
            h user_id u,
            peers_blocked_either_way_lem T s q,
            find_first-row_if T.post id (λ p. not (is_some p.deleted_at)) s.posts,
          )
          | inr (p, found) ↦ ground (
            arith,
            h user_id u,
            peers_blocked_either_way_lem T s q,
            find_first-row_if T.post id (λ p. not (is_some p.deleted_at)) s.posts,
            T.post.count-write (is_post_of user_id) id
                (record p {
                  caption = or_keep (caption_of caption) p.caption;
                  hashtags = or_keep hashtags p.hashtags;
                })
                s.posts,
          )
        ]

  unfoldable pub step : Store T → Call → Store T
  step s (creates id u caption hashtags) = (create_post T id u caption hashtags s).1
  step s (updates u id caption hashtags) = (update_post T u id caption hashtags s).1
  step s (removes now u id) = (remove_post T now u id s).1

  step-IsPostsCounted : (s : Store T) (c : Call) → IsPostsCounted s → IsPostsCounted (step s c)
  unfolding step
  step-IsPostsCounted s (creates id u caption hashtags) h =
      create_post-IsPostsCounted s h id u caption hashtags
  step-IsPostsCounted s (updates u id caption hashtags) h =
      update_post-IsPostsCounted s h u id caption hashtags
  step-IsPostsCounted s (removes now u id) h = remove_post-IsPostsCounted s h now u id

  -- If the postsCount of every user is the number of their posts that are not deleted, it still
  -- is after any history of posts made, changed and removed.
  pub run-IsPostsCounted :
      (s : Store T) (cs : List Call) → IsPostsCounted s → IsPostsCounted (run step s cs)
  run-IsPostsCounted = run_inv step IsPostsCounted step-IsPostsCounted
