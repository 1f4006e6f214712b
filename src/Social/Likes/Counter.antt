-- ===== src/Social/Likes/Counter.antt =====
-- `likesCount`, which is kept beside the rows that it counts.
use motogram.Prelude.{List, ℕ, ◌≡◌, some, inl, inr, arith, ◌==◌, Option-cases}
use motogram.Prelude.Int.{pos, ◌+ℤ◌, ◌-ℤ◌, pos-+ℤ, pos_pred}
use motogram.Prelude.History.{run, run_inv}
use motogram.Social.Schema.{Post, Tables, Store}
use motogram.Social.Likes.{like, unlike}

pub data Call : Type 0 where
  likes : (now user_id post_id : ℕ) → Call
  unlikes : (user_id post_id : ℕ) → Call

module _ (T : Tables) where
  -- The number of rows in `likes` for a post.
  abbrev pub likes_of : ℕ → Store T → ℕ
  likes_of post_id s = T.like.count (λ k _. k.0 == post_id) s.likes

  abbrev pub IsLikesCounted : Store T → Type 0
  IsLikesCounted s =
      (post_id : ℕ) (p : Post)
      → T.post.find_unique post_id s.posts ≡ some p
      → p.likes_count ≡ pos (likes_of post_id s)

  unlike-IsLikesCounted :
      (s : Store T) (user_id post_id : ℕ)
      → IsLikesCounted s
      → IsLikesCounted (unlike T user_id post_id s).1
  unfolding unlike
  unlike-IsLikesCounted s u q h post_id p e = elim (Option-cases (T.post.find_unique q s.posts)) [
    | inl gone ↦ ground (arith, h post_id p)
    | inr (row, found) ↦ ground (
      arith,
      h post_id p,
      h post_id row,
      T.post.find-write post_id q (record row { likes_count = row.likes_count -ℤ pos 1 }) s.posts,
      T.like.count-delete (λ k _. k.0 == post_id) (q, u) s.likes,
      pos_pred (T.like.count (λ k _. k.0 == post_id) (T.like.delete (q, u) s.likes)),
    )
  ]

  like-IsLikesCounted :
      (s : Store T) (now user_id post_id : ℕ)
      → IsLikesCounted s
      → IsLikesCounted (like T now user_id post_id s).1
  unfolding like
  like-IsLikesCounted s now u q h post_id p e = elim (Option-cases (T.post.find_unique q s.posts)) [
    | inl gone ↦ ground (arith, h post_id p)
    | inr (row, found) ↦ ground (
      arith,
      h post_id p,
      h post_id row,
      T.post.find-write post_id q (record row { likes_count = row.likes_count +ℤ pos 1 }) s.posts,
      T.like.count-write (λ k _. k.0 == post_id) (q, u) (record { created_at = now }) s.likes,
      pos-+ℤ (T.like.count (λ k _. k.0 == post_id) s.likes) 1,
    )
  ]

  -- A call that throws leaves what it leaves: the history goes on from there.
  unfoldable pub step : Store T → Call → Store T
  step s (likes now u q) = (like T now u q s).1
  step s (unlikes u q) = (unlike T u q s).1

  step-IsLikesCounted : (s : Store T) (c : Call) → IsLikesCounted s → IsLikesCounted (step s c)
  unfolding step
  step-IsLikesCounted s (likes now u q) h = like-IsLikesCounted s now u q h
  step-IsLikesCounted s (unlikes u q) h = unlike-IsLikesCounted s u q h

  -- If the likesCount of every post is the number of its like rows, it still is after any history
  -- of likes and unlikes, calls that throw included.
  pub run-IsLikesCounted :
      (s : Store T) (cs : List Call) → IsLikesCounted s → IsLikesCounted (run step s cs)
  run-IsLikesCounted = run_inv step IsLikesCounted step-IsLikesCounted
