-- ===== src/Social/Follows/Counters.antt =====
-- `followersCount` and `followingCount` against the ACCEPTED rows that they count.
use motogram.Prelude.{
  ℕ, ◌≡◌, refl, true, false, some, inl, inr, arith, ◌==◌, ==_iff, ◌&&◌, if◌then◌else◌, Option-cases,
  Bool-cases,
}
use mathlib.Core.Option
use motogram.Prelude.Int.{ℤ, pos, pos-+ℤ, pos_pred}
use motogram.Prelude.Action.{⊤, Result, ok, err}
use motogram.Social.Schema.{User, Follow, FollowStatus, accepted, pending, Tables, Store}
use motogram.Social.Follows.{
  follow, unfollow, change_counts, follow_body, is_accepted, accepts, increment, decrement,
  add_followers, add_following,
}

module _ (T : Tables) where
  abbrev pub followers_of : ℕ → Store T → ℕ
  followers_of id s = T.follow.count (λ k f. k.1 == id && is_accepted f.status) s.follows

  abbrev following_of : ℕ → Store T → ℕ
  following_of id s = T.follow.count (λ k f. k.0 == id && is_accepted f.status) s.follows

  abbrev pub IsFollowsCounted : Store T → Type 0
  IsFollowsCounted s =
      (id : ℕ) (u : User)
      → T.user.find_unique id s.users ≡ some u
      → (u.followers_count ≡ pos (followers_of id s))
        × (u.following_count ≡ pos (following_of id s))

  -- The two updates on the row of one user.
  abbrev recount : (ℤ → ℤ) → (follower_id following_id id : ℕ) → User → User
  recount change a b id u =
      let v = if b == id then add_followers change u else u in
      if a == id then add_following change v else v

  -- A call of `change_counts` fails or changes the rows of its two users, and nothing else.
  abbrev Recounted :
      (ℤ → ℤ) → (follower_id following_id : ℕ) → Store T → Result ⊤ × Store T → Type 0
  Recounted change a b s (err e, s') = Unit
  Recounted change a b s (ok _, s') =
      (s' ≡ record s { users = s'.users })
      × ((id : ℕ)
          → T.user.find_unique id s'.users
            ≡ Option.map (recount change a b id) (T.user.find_unique id s.users))

  module _ (change : ℤ → ℤ) (a b : ℕ) (s : Store T) (ua ub : User) where
    abbrev pub once : T.user.Rows
    once = T.user.write b (add_followers change ub) s.users

    abbrev pub recounted : Store T
    recounted = record s { users = T.user.write a (add_following change ua) once }

    pub change_counts_done :
        T.user.find_unique b s.users ≡ some ub
        → T.user.find_unique a once ≡ some ua
        → change_counts T change a b s ≡ (ok tt, recounted)
    unfolding change_counts
    change_counts_done found there = ground arith

    pub find-recounted :
        (id : ℕ)
        → T.user.find_unique b s.users ≡ some ub
        → T.user.find_unique a once ≡ some ua
        → T.user.find_unique id recounted.users
          ≡ Option.map (recount change a b id) (T.user.find_unique id s.users)
    find-recounted id found there = ground (
      arith,
      ==_iff a id,
      ==_iff b id,
      ==_iff b a,
      T.user.find-write id a (add_following change ua) once,
      T.user.find-write id b (add_followers change ub) s.users,
      T.user.find-write a b (add_followers change ub) s.users,
    )

  change_counts-Recounted :
      (change : ℤ → ℤ) (a b : ℕ) (s : Store T)
      → Recounted change a b s (change_counts T change a b s)
  unfolding change_counts
  change_counts-Recounted change a b s = elim (Option-cases (T.user.find_unique b s.users)) [
    | inl gone ↦ ground arith
    | inr (ub, found) ↦ elim (Option-cases (T.user.find_unique a (once change a b s ub ub))) [
      | inl gone ↦ ground arith
      | inr (ua, there) ↦
          rw (change_counts_done change a b s ua ub found there)
            (refl, λ id. find-recounted change a b s ua ub id found there)
    ]
  ]

  -- The store once the row of a follow relation has changed.
  abbrev pub with_follows : Store T → T.follow.Rows → Store T
  with_follows s t = record s { follows = t }

  -- What a transaction on `s` leaves, by how its body ended.
  abbrev settle : Store T → Result ⊤ × Store T → Store T
  settle s (ok _, s') = s'
  settle s (err e, s') = s

  -- The counters of a user agree with the rows of `t`.
  abbrev CountsIn : T.follow.Rows → ℕ → User → Type 0
  CountsIn t id u =
      (u.followers_count ≡ pos (T.follow.count (λ k f. k.1 == id && is_accepted f.status) t))
      × (u.following_count ≡ pos (T.follow.count (λ k f. k.0 == id && is_accepted f.status) t))

  settle-IsFollowsCounted :
      (change : ℤ → ℤ) (a b : ℕ) (s : Store T) (t : T.follow.Rows) (r : Result ⊤ × Store T)
      → Recounted change a b (with_follows s t) r
      → IsFollowsCounted s
      → ((id : ℕ) (u : User)
          → T.user.find_unique id s.users ≡ some u
          → CountsIn t id (recount change a b id u))
      → IsFollowsCounted (settle s r)
  settle-IsFollowsCounted change a b s t (err e, s') c h k id u found = h id u found
  settle-IsFollowsCounted change a b s t (ok _, s') (same, users) h k id u e =
      elim (Option-cases (T.user.find_unique id s.users)) [
        | inl gone ↦ ground (arith, users id)
        | inr (old, found) ↦ ground (arith, users id, k id old found)
      ]

  unfollow-settle :
      (a b : ℕ) (s : Store T) (f : Follow)
      → T.follow.find_unique (a, b) s.follows ≡ some f
      → is_accepted f.status ≡ true
      → (unfollow T a b s).1
        ≡ settle s
            (change_counts T decrement a b (with_follows s (T.follow.delete (a, b) s.follows)))
  unfolding unfollow
  unfollow-settle a b s f found acc = ground arith

  -- If followersCount and followingCount of every user are the numbers of accepted follow rows to
  -- and from them, they still are after any unfollow.
  unfollow-IsFollowsCounted :
      (s : Store T) (follower_id following_id : ℕ)
      → IsFollowsCounted s
      → IsFollowsCounted (unfollow T follower_id following_id s).1
  unfolding unfollow
  unfollow-IsFollowsCounted s a b h = elim (Option-cases (T.follow.find_unique (a, b) s.follows)) [
    | inl gone ↦ (λ id u e. ground (arith, h id u))
    | inr (f, found) ↦ elim (Bool-cases (is_accepted f.status)) [
      | inr waiting ↦ (λ id u e. ground (
        arith,
        h id u,
        T.follow.count-delete (λ k f. k.1 == id && is_accepted f.status) (a, b) s.follows,
        T.follow.count-delete (λ k f. k.0 == id && is_accepted f.status) (a, b) s.follows,
      ))
      | inl acc ↦ rw (unfollow-settle a b s f found acc) (
          settle-IsFollowsCounted decrement a b s (T.follow.delete (a, b) s.follows) _
            (change_counts-Recounted decrement a b
              (with_follows s (T.follow.delete (a, b) s.follows)))
            h
            (λ id u e. ground (
              arith,
              h id u e,
              T.follow.count-delete (λ k f. k.1 == id && is_accepted f.status) (a, b) s.follows,
              T.follow.count-delete (λ k f. k.0 == id && is_accepted f.status) (a, b) s.follows,
              pos_pred (
                  T.follow.count (λ k f. k.1 == id && is_accepted f.status)
                    (T.follow.delete (a, b) s.follows)),
              pos_pred (
                  T.follow.count (λ k f. k.0 == id && is_accepted f.status)
                    (T.follow.delete (a, b) s.follows)),
            )))
    ]
  ]

  -- The follow rows once `(a, b)` has a status.
  abbrev pub with_status : FollowStatus → (follower_id following_id : ℕ) → Store T → T.follow.Rows
  with_status status a b s = T.follow.write (a, b) (record { status = status }) s.follows

  follow_body-settle :
      (a b : ℕ) (s : Store T)
      → (follow_body T accepted a b s).1
        ≡ settle s (change_counts T increment a b (with_follows s (with_status accepted a b s)))
  unfolding follow_body
  follow_body-settle a b s = ground arith

  follow_body-IsFollowsCounted :
      (status : FollowStatus) (s : Store T) (a b : ℕ)
      → accepts (T.follow.find_unique (a, b) s.follows) ≡ false
      → IsFollowsCounted s
      → IsFollowsCounted (follow_body T status a b s).1
  unfolding follow_body
  follow_body-IsFollowsCounted accepted s a b new h id u = rw (follow_body-settle a b s) (
      settle-IsFollowsCounted increment a b s (with_status accepted a b s) _
        (change_counts-Recounted increment a b (with_follows s (with_status accepted a b s))) h
        (λ id u e. ground (
          arith,
          h id u e,
          T.follow.count-write (λ k f. k.1 == id && is_accepted f.status) (a, b)
              (record { status = accepted }) s.follows,
          T.follow.count-write (λ k f. k.0 == id && is_accepted f.status) (a, b)
              (record { status = accepted }) s.follows,
          pos-+ℤ (followers_of id s) 1,
          pos-+ℤ (following_of id s) 1,
        ))
        id u)
  follow_body-IsFollowsCounted status s a b new h id u = ground (
    arith,
    h id u,
    T.follow.count-write (λ k f. k.1 == id && is_accepted f.status) (a, b)
        (record { status = status }) s.follows,
    T.follow.count-write (λ k f. k.0 == id && is_accepted f.status) (a, b)
        (record { status = status }) s.follows,
  )

  -- If followersCount and followingCount of every user are the numbers of accepted follow rows to
  -- and from them, they still are after a follow, provided that no accepted row from the follower
  -- to the target was there before.
  pub follow-IsFollowsCounted :
      (s : Store T) (follower_id following_id : ℕ)
      → accepts (T.follow.find_unique (follower_id, following_id) s.follows) ≡ false
      → IsFollowsCounted s
      → IsFollowsCounted (follow T follower_id following_id s).1
  unfolding follow
  follow-IsFollowsCounted s a b new h id u = ground (
    arith,
    h id u,
    follow_body-IsFollowsCounted accepted s a b new h id u,
    follow_body-IsFollowsCounted pending s a b new h id u,
  )
