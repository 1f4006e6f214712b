-- ===== src/Social/Follows.antt =====
-- apps/api/src/modules/follows/follows.service.ts: following and unfollowing.
pub mod Counters
pub mod Drift
pub mod Guards
pub mod Severed
use motogram.Prelude.{
  ℕ, Bool, true, false, Option, none, some, is_some, not, ◌&&◌, ◌||◌, ◌==◌, if◌then◌else◌,
}
use motogram.Prelude.Int.{ℤ, pos, ◌+ℤ◌, ◌-ℤ◌}
use motogram.Prelude.Action.{
  ⊤, bad_request, not_found, Action, pure, transaction, raise_if, or_raise, do_if, ◌>>=◌, ◌>>◌,
  find_unique, find_first, update, upsert, delete,
}
use motogram.Social.Schema.{
  User, FollowStatus, pending, accepted, blocked, Follow, Block, Tables, Store, follow_gained, user,
  follow_row, block_row, emit,
}

abbrev pub is_accepted : FollowStatus → Bool
is_accepted accepted = true
is_accepted _ = false

-- `f?.status === 'ACCEPTED'`
abbrev pub accepts : Option Follow → Bool
accepts none = false
accepts (some f) = is_accepted f.status

abbrev pub add_followers : (ℤ → ℤ) → User → User
add_followers change u = record u { followers_count = change u.followers_count }

abbrev pub add_following : (ℤ → ℤ) → User → User
add_following change u = record u { following_count = change u.following_count }

-- `{ increment: 1 }` and `{ decrement: 1 }`
abbrev pub increment : ℤ → ℤ
increment n = n +ℤ pos 1

abbrev pub decrement : ℤ → ℤ
decrement n = n -ℤ pos 1

-- A user that can be followed: `where: { id, deletedAt: null, isBanned: false }`.
abbrev pub is_active_user : User → Bool
is_active_user u = not (is_some u.deleted_at) && not u.is_banned

-- `OR: [{ initiatorId: a, targetId: b }, { initiatorId: b, targetId: a }]`
abbrev pub is_between : ℕ → ℕ → ℕ × ℕ → Block → Bool
is_between a b k _ = (k.0 == a && k.1 == b) || (k.0 == b && k.1 == a)

module _ (T : Tables) where
  -- The two counter updates that follow an ACCEPTED row, in the order of the code.
  pub change_counts : (ℤ → ℤ) → (follower_id following_id : ℕ) → Action (Store T) ⊤
  change_counts change follower_id following_id = do
    update (user T) following_id (add_followers change)
    update (user T) follower_id (add_following change)
    pure tt

  pub follow_body : FollowStatus → (follower_id following_id : ℕ) → Action (Store T) ⊤
  follow_body status follower_id following_id = transaction (do
    upsert (follow_row T) (follower_id, following_id) (record { status = status })
        (λ f. record f { status = status })
    do_if (is_accepted status) (change_counts increment follower_id following_id))

  pub follow : (follower_id following_id : ℕ) → Action (Store T) FollowStatus
  follow follower_id following_id = do
    raise_if (follower_id == following_id) (bad_request "cannot_follow_self")
    found ← find_first (user T) (λ id u. id == following_id && is_active_user u)
    target ← or_raise found (not_found "user_not_found")
    block ← find_first (block_row T) (is_between follower_id following_id)
    raise_if (is_some block) (bad_request "blocked")
    let status = if target.1.is_private then pending else accepted
    follow_body status follower_id following_id
    do_if (is_accepted status) (emit T (follow_gained following_id follower_id))
    pure status

  unfollow_body : (follower_id following_id : ℕ) → Option Follow → Action (Store T) ⊤
  unfollow_body follower_id following_id none = pure tt
  unfollow_body follower_id following_id (some f) = transaction (do
    delete (follow_row T) (follower_id, following_id)
    do_if (is_accepted f.status) (change_counts decrement follower_id following_id))

  pub unfollow : (follower_id following_id : ℕ) → Action (Store T) ⊤
  unfolding unfollow_body
  unfollow follower_id following_id = do
    existing ← find_unique (follow_row T) (follower_id, following_id)
    unfollow_body follower_id following_id existing

  is_following : (follower_id following_id : ℕ) → Action (Store T) Bool
  is_following follower_id following_id = do
    f ← find_unique (follow_row T) (follower_id, following_id)
    pure (accepts f)
