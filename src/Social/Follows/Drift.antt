-- ===== src/Social/Follows/Drift.antt =====
-- A second follow of a user that is followed already.
use motogram.Prelude.{head?, ◌∷◌, ℕ, ◌≡◌, ◌≢◌, true, false, none, some, arith, ◌==◌, ==_iff, ◌&&◌}
use motogram.Prelude.Int.{pos-+ℤ}
use motogram.Prelude.Action.{ok}
use motogram.Prelude.Queries.{find_first-row_if}
use motogram.Social.Schema.{User, accepted, Tables, Store, follow_gained}
use motogram.Social.Follows.Counters.{
  IsFollowsCounted, followers_of, with_follows, recounted, with_status, change_counts_done,
  find-recounted,
}
use motogram.Social.Follows.{
  follow, follow_body, is_accepted, accepts, is_active_user, increment, is_between, add_followers,
}

module _ (T : Tables) where
  -- A second follow of a public user.
  module _ (s : Store T) (follower_id following_id : ℕ) (target follower : User)
      (found : T.user.find_unique following_id s.users ≡ some target)
      (there : T.user.find_unique follower_id s.users ≡ some follower)
      (differ : follower_id ≢ following_id)
      (open_target : (is_active_user target ≡ true) × (target.is_private ≡ false))
      (unblocked : head? (T.block.find_many (is_between follower_id following_id) s.blocks) ≡ none)
      (already : accepts (T.follow.find_unique (follower_id, following_id) s.follows) ≡ true) where
    abbrev rows : T.follow.Rows
    rows = with_status T accepted follower_id following_id s

    -- What the call writes: the row once more, both counters one up, and the event.
    refollow_store : follow T follower_id following_id s ≡ (
      ok accepted,
      record s {
        users =
            (recounted T increment follower_id following_id
              (with_follows T s rows)
              follower
              target).users;
        follows = rows;
        events = follow_gained following_id follower_id ∷ s.events;
      },
    )
    unfolding follow follow_body
    refollow_store = ground (
      arith,
      ==_iff follower_id following_id,
      ==_iff following_id follower_id,
      find_first-row_if T.user following_id is_active_user s.users,
      T.user.find-write follower_id following_id (add_followers increment target) s.users,
      change_counts_done T increment follower_id following_id (with_follows T s rows) follower
          target,
    )

    -- If the counters of all users are right and a user follows another one, public, active and
    -- with no block between them, whom they follow already, then the counters are wrong
    -- afterwards.
    pub refollow_drifts :
        IsFollowsCounted T s → ¬ IsFollowsCounted T (follow T follower_id following_id s).1
    refollow_drifts h after = ground (
      arith,
      refollow_store,
      ==_iff following_id following_id,
      ==_iff follower_id following_id,
      h following_id target found,
      after following_id (add_followers increment target),
      T.user.find-write follower_id following_id (add_followers increment target) s.users,
      find-recounted T increment follower_id following_id (with_follows T s rows) follower target
          following_id,
      T.follow.count-write (λ k f. k.1 == following_id && is_accepted f.status)
          (follower_id, following_id) (record { status = accepted }) s.follows,
      pos-+ℤ (followers_of T following_id s) 1,
    )
