-- ===== src/Social/Follows/Guards.antt =====
-- When following is refused, and what unfollowing does to the follow rows.
use motogram.Prelude.{
  ℕ, ◌≡◌, refl, true, none, some, is_some, ◌⊎◌, inl, inr, arith, ==_iff, pair_eq, pair_eq_iff,
  if◌then◌else◌, Option-cases, Bool-cases, head?,
}
use motogram.Prelude.Action.{ok, IsRefused}
use motogram.Prelude.Queries.{head?-find_many-none}
use motogram.Social.Schema.{User, Follow, Tables, Store}
use motogram.Social.Follows.{
  follow, unfollow, is_accepted, decrement, is_between, add_followers, add_following,
}
use motogram.Social.Follows.Counters.{with_follows, recounted, once, change_counts_done}

-- A block in either direction.
abbrev pub IsBlocked : (T : Tables) → Store T → (a b : ℕ) → Type 0
IsBlocked T s a b =
    (is_some (T.block.find_unique (a, b) s.blocks) ≡ true)
    ⊎ (is_some (T.block.find_unique (b, a) s.blocks) ≡ true)

module _ (T : Tables) (s : Store T) (a b : ℕ) where
  find-between :
      IsBlocked T s a b → is_some (head? (T.block.find_many (is_between a b) s.blocks)) ≡ true
  find-between (inl there) = elim (Option-cases (T.block.find_unique (a, b) s.blocks)) [
    | inl gone ↦ ground arith
    | inr (row, e) ↦ ground (
      arith,
      ==_iff a a,
      ==_iff b b,
      head?-find_many-none T.block (is_between a b) (a, b) row s.blocks,
    )
  ]
  find-between (inr there) = elim (Option-cases (T.block.find_unique (b, a) s.blocks)) [
    | inl gone ↦ ground arith
    | inr (row, e) ↦ ground (
      arith,
      ==_iff a a,
      ==_iff b b,
      head?-find_many-none T.block (is_between a b) (b, a) row s.blocks,
    )
  ]

  -- A follow between two users throws and changes nothing as long as either of them has blocked
  -- the other.
  pub follow_blocked : IsBlocked T s a b → IsRefused (follow T a b) s
  unfolding follow
  follow_blocked h = ground (arith, find-between h)

  -- What `unfollow` leaves when both users exist.
  pub record Unfollowed (s' : Store T) : Type 0 where
    pub same_blocks : s'.blocks ≡ s.blocks
    pub rows :
        (k : ℕ × ℕ)
        → T.follow.find_unique k s'.follows
          ≡ (if pair_eq (a, b) k then none else T.follow.find_unique k s.follows)
    pub users :
        (id : ℕ)
        → is_some (T.user.find_unique id s'.users) ≡ is_some (T.user.find_unique id s.users)

  abbrev without : Store T
  without = with_follows T s (T.follow.delete (a, b) s.follows)

  unfollow_accepted :
      (f : Follow) (ua ub : User)
      → T.follow.find_unique (a, b) s.follows ≡ some f
      → is_accepted f.status ≡ true
      → T.user.find_unique b s.users ≡ some ub
      → T.user.find_unique a (once T decrement a b s ub ub) ≡ some ua
      → unfollow T a b s ≡ (ok tt, recounted T decrement a b without ua ub)
  unfolding unfollow
  unfollow_accepted f ua ub found acc hb ha =
      ground (arith, change_counts_done T decrement a b without ua ub)

  unfollow_accepted-Unfollowed :
      (f : Follow) (ua ub : User)
      → T.follow.find_unique (a, b) s.follows ≡ some f
      → is_accepted f.status ≡ true
      → T.user.find_unique b s.users ≡ some ub
      → T.user.find_unique a (once T decrement a b s ub ub) ≡ some ua
      → ((unfollow T a b s).0 ≡ ok tt) × Unfollowed (unfollow T a b s).1
  unfollow_accepted-Unfollowed f ua ub found acc hb ha =
      rw (unfollow_accepted f ua ub found acc hb ha) (
        refl,
        record {
          same_blocks = refl;
          rows = λ k. T.follow.find-delete k (a, b) s.follows;
          users = λ id. ground (
            arith,
            ==_iff a id,
            ==_iff b id,
            ==_iff b a,
            T.user.find-write id a (add_following decrement ua) (once T decrement a b s ua ub),
            T.user.find-write id b (add_followers decrement ub) s.users,
            T.user.find-write a b (add_followers decrement ub) s.users,
          );
        },
      )

  pub unfollow_done :
      is_some (T.user.find_unique a s.users) ≡ true
      → is_some (T.user.find_unique b s.users) ≡ true
      → ((unfollow T a b s).0 ≡ ok tt) × Unfollowed (unfollow T a b s).1
  unfolding unfollow
  unfollow_done ha hb = elim (Option-cases (T.follow.find_unique (a, b) s.follows)) [
    | inl gone ↦ (
      ground arith,
      record {
        same_blocks = ground arith;
        rows = λ k. ground (arith, pair_eq_iff (a, b) k);
        users = λ id. ground arith;
      },
    )
    | inr (f, found) ↦ elim (Bool-cases (is_accepted f.status)) [
      | inr waiting ↦ (
        ground arith,
        record {
          same_blocks = ground arith;
          rows = λ k. ground (arith, T.follow.find-delete k (a, b) s.follows);
          users = λ id. ground arith;
        },
      )
      | inl acc ↦ elim (Option-cases (T.user.find_unique b s.users)) [
        | inl gone ↦ ground arith
        | inr (ub, eb) ↦ elim (Option-cases (T.user.find_unique a (once T decrement a b s ub ub))) [
          | inl gone ↦ ground (arith, T.user.find-write a b (add_followers decrement ub) s.users)
          | inr (ua, ea) ↦ unfollow_accepted-Unfollowed f ua ub found acc eb ea
        ]
      ]
    ]
  ]
