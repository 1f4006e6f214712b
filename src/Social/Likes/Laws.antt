-- ===== src/Social/Likes/Laws.antt =====
-- What `like` and `unlike` answer and leave behind.
use motogram.Prelude.{
  ℕ, ◌≡◌, Bool, true, false, none, some, is_some, not, inl, inr, arith, ◌==◌, ==_iff, pair_eq_iff,
  Option-cases,
}
use motogram.Prelude.Int.{pos, pos-+ℤ, pos_pred, sub-add}
use motogram.Prelude.Action.{ok, err, not_found}
use motogram.Prelude.Queries.{find_first-row_if, row_if}
use motogram.Social.Schema.{Post, Like, Tables, Store}
use motogram.Social.Likes.{add_like, drop_like, like, unlike}
use motogram.Social.Likes.Counter.{likes_of, IsLikesCounted}

abbrev is_live : Post → Bool
is_live p = not (is_some p.deleted_at)

module _ (T : Tables) (s : Store T) (now user_id post_id : ℕ) where
  -- On a post that is not deleted, in a store whose counters are right, a like succeeds, answers
  -- with the number of like rows that it leaves, and its row is there afterwards, whether or not
  -- it was there before.
  like_live :
      (p : Post)
      → IsLikesCounted T s
      → T.post.find_unique post_id s.posts ≡ some p
      → p.deleted_at ≡ none
      → let (r, s') = like T now user_id post_id s in
        (r ≡ ok (record { liked = true; likes_count = pos (likes_of T post_id s') }))
        × (is_some (T.like.find_unique (post_id, user_id) s'.likes) ≡ true)
  unfolding like
  like_live p h found live = ground (
    arith,
    find_first-row_if T.post post_id is_live s.posts,
    h post_id p found,
    T.like.count-write (λ k _. k.0 == post_id) (post_id, user_id) (record { created_at = now })
        s.likes,
    T.like.find-write (post_id, user_id) (post_id, user_id) (record { created_at = now }) s.likes,
    ==_iff post_id post_id,
    ==_iff user_id user_id,
    pos-+ℤ (likes_of T post_id s) 1,
  )

  like_gone :
      row_if post_id is_live (T.post.find_unique post_id s.posts) ≡ none
      → like T now user_id post_id s ≡ (err (not_found "post_not_found"), s)
  unfolding like
  like_gone gone = ground (arith, find_first-row_if T.post post_id is_live s.posts)

  like_liked :
      is_some (T.like.find_unique (post_id, user_id) s.likes) ≡ true
      → (like T now user_id post_id s).1 ≡ s
  unfolding like
  like_liked there = ground arith

  -- A call that succeeds leaves the row behind.
  like-find :
      (p : Post)
      → row_if post_id is_live (T.post.find_unique post_id s.posts) ≡ some (post_id, p)
      → is_some (T.like.find_unique (post_id, user_id) (like T now user_id post_id s).1.likes)
        ≡ true
  unfolding like
  like-find p live = ground (
    arith,
    find_first-row_if T.post post_id is_live s.posts,
    T.like.find-write (post_id, user_id) (post_id, user_id) (record { created_at = now }) s.likes,
    ==_iff post_id post_id,
    ==_iff user_id user_id,
  )

  unlike_missing :
      T.like.find_unique (post_id, user_id) s.likes ≡ none → (unlike T user_id post_id s).1 ≡ s
  unfolding unlike
  unlike_missing gone = ground arith

  -- On a post that is there, in a store whose counters are right, an unlike succeeds, answers
  -- with the number of like rows that it leaves, and its row is not there afterwards.
  unlike_lem :
      (p : Post)
      → IsLikesCounted T s
      → T.post.find_unique post_id s.posts ≡ some p
      → let (r, s') = unlike T user_id post_id s in
        (r ≡ ok (record { liked = false; likes_count = pos (likes_of T post_id s') }))
        × (T.like.find_unique (post_id, user_id) s'.likes ≡ none)
  unfolding unlike
  unlike_lem p h found = ground (
    arith,
    h post_id p found,
    T.like.count-delete (λ k _. k.0 == post_id) (post_id, user_id) s.likes,
    T.like.find-delete (post_id, user_id) (post_id, user_id) s.likes,
    ==_iff post_id post_id,
    ==_iff user_id user_id,
    pos_pred (likes_of T post_id (record s { likes = T.like.delete (post_id, user_id) s.likes })),
  )

module _ (T : Tables) (s : Store T) (now user_id post_id : ℕ) where
  -- A like that follows a like of the same user and post changes nothing, whatever the first one
  -- met.
  like_twice :
      (later : ℕ)
      → let s' = (like T now user_id post_id s).1 in (like T later user_id post_id s').1 ≡ s'
  like_twice later =
      elim (Option-cases (row_if post_id is_live (T.post.find_unique post_id s.posts))) [
        | inl gone ↦ ground (
          arith,
          like_gone T s now user_id post_id gone,
          like_gone T s later user_id post_id gone,
        )
        | inr ((k, p), live) ↦
            like_liked T (like T now user_id post_id s).1 later user_id post_id
              (like-find T s now user_id post_id p (ground arith))
      ]

module _ (T : Tables) (s : Store T) (user_id post_id : ℕ) where
  -- The store that a first like leaves.
  abbrev liked_store : ℕ → Post → Store T
  liked_store now p = record s {
    likes = T.like.write (post_id, user_id) (record { created_at = now }) s.likes;
    posts = T.post.write post_id (add_like p) s.posts;
  }

  like_fresh :
      (now : ℕ) (p : Post)
      → T.post.find_unique post_id s.posts ≡ some p
      → p.deleted_at ≡ none
      → T.like.find_unique (post_id, user_id) s.likes ≡ none
      → (like T now user_id post_id s).1 ≡ liked_store now p
  unfolding like
  like_fresh now p found live fresh =
      ground (arith, find_first-row_if T.post post_id is_live s.posts)

  unlike_present :
      (l : Like) (p : Post)
      → T.post.find_unique post_id s.posts ≡ some p
      → T.like.find_unique (post_id, user_id) s.likes ≡ some l
      → (unlike T user_id post_id s).1 ≡ record s {
        likes = T.like.delete (post_id, user_id) s.likes;
        posts = T.post.write post_id (drop_like p) s.posts;
      }
  unfolding unlike
  unlike_present l p found there = ground arith

drop-add : (p : Post) → drop_like (add_like p) ≡ p
drop-add p = ground (arith, sub-add p.likes_count)

module _ (T : Tables) (s : Store T) (now user_id post_id : ℕ) where
  -- An unlike after a first like of a post that is not deleted brings every like row and every
  -- post row back to what it was.
  pub unlike-like :
      (p : Post)
      → T.post.find_unique post_id s.posts ≡ some p
      → p.deleted_at ≡ none
      → T.like.find_unique (post_id, user_id) s.likes ≡ none
      → (k : ℕ × ℕ) (q : ℕ)
      → let s' = (unlike T user_id post_id (like T now user_id post_id s).1).1 in
        (T.like.find_unique k s'.likes ≡ T.like.find_unique k s.likes)
        × (T.post.find_unique q s'.posts ≡ T.post.find_unique q s.posts)
  unlike-like p found live fresh k q = rw (like_fresh T s user_id post_id now p found live fresh) (
      rw
        (unlike_present T (liked_store T s user_id post_id now p) user_id post_id
          (record { created_at = now }) (add_like p)
          (ground
            (arith, T.post.find-write post_id post_id (add_like p) s.posts, ==_iff post_id post_id))
          (ground (
            arith,
            T.like.find-write (post_id, user_id) (post_id, user_id) (record { created_at = now })
                s.likes,
            ==_iff post_id post_id,
            ==_iff user_id user_id,
          )))
        (ground (
          arith,
          drop-add p,
          pair_eq_iff (post_id, user_id) k,
          ==_iff post_id q,
          T.like.find-write k (post_id, user_id) (record { created_at = now }) s.likes,
          T.like.find-delete k (post_id, user_id)
              (T.like.write (post_id, user_id) (record { created_at = now }) s.likes),
          T.post.find-write q post_id (add_like p) s.posts,
          T.post.find-write q post_id (drop_like (add_like p))
              (T.post.write post_id (add_like p) s.posts),
        )))
