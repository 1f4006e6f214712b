-- ===== src/Social/Blocks/Severed.antt =====
-- Two users, one of whom has blocked the other, along a history of calls.
use motogram.Prelude.{
  ℕ, ◌≡◌, ◌≢◌, true, false, none, some, is_some, inl, inr, arith, ◌==◌, pair_eq, Bool-cases,
  Option-cases, List, All, head?, ◌&&◌,
}
use motogram.Prelude.Action.{⊤, is_ok, IsRefused, pure, ◌>>=◌, ◌>>◌, upsert}
use motogram.Prelude.Keeps.{keeps_bind}
use motogram.Prelude.History.{run, run_inv_all}
use motogram.Social.Schema.{User, Tables, Store, block_row}
use motogram.Social.Follows.{follow, unfollow, is_active_user}
use motogram.Social.Follows.Guards.{follow_blocked}
use motogram.Social.Follows.Severed.{IsSevered, follow-IsSevered, unfollow-IsSevered}
use motogram.Social.Blocks.{block_user, unblock_user}
use motogram.Social.Blocks.Laws.{block_user_done}

-- A call of the follows or the blocks service.
pub data Call : Type 0 where
  follow_call unfollow_call unblock_call : (caller_id other_id : ℕ) → Call
  block_call : (now caller_id other_id : ℕ) → Call

-- The call does not undo the block.
abbrev IsKept : (a b : ℕ) → Call → Type 0
IsKept a b (unblock_call x y) = pair_eq (x, y) (a, b) ≡ false
IsKept a b _ = ⊤

module _ (T : Tables) where
  abbrev pub step : Store T → Call → Store T
  step s (follow_call x y) = (follow T x y s).1
  step s (unfollow_call x y) = (unfollow T x y s).1
  step s (unblock_call x y) = (unblock_user T x y s).1
  step s (block_call now x y) = (block_user T now x y s).1

  module _ (a b : ℕ) where
    upsert-IsSevered :
        (now x y : ℕ) (s : Store T)
        → IsSevered T a b s
        → IsSevered T a b (upsert (block_row T) (x, y) (record { created_at = now }) (λ r. r) s).1
    upsert-IsSevered now x y s h = elim (Option-cases (T.block.find_unique (x, y) s.blocks)) [
      | inl new ↦ rw new (
        ground (arith, h, T.block.find-write (a, b) (x, y) (record { created_at = now }) s.blocks),
        h.1,
        h.2,
      )
      | inr (r, old) ↦
          rw old (ground (arith, h, T.block.find-write (a, b) (x, y) r s.blocks), h.1, h.2)
    ]

    block_user-IsSevered :
        (now x y : ℕ) (s : Store T) → IsSevered T a b s → IsSevered T a b (block_user T now x y s).1
    unfolding block_user
    block_user-IsSevered now x y s h = elim (Bool-cases (x == y)) [
      | inl self ↦ rw self h
      | inr differ ↦
          rw differ
            (elim (Option-cases
              (head? (T.user.find_many (λ id u. id == y && is_active_user u) s.users))) [
                | inl gone ↦ rw gone (rw gone h)
                | inr (target, found) ↦ rw found (
                    rw found (
                      keeps_bind (IsSevered T a b) (unfollow T x y)
                        (λ _.
                          unfollow T y x
                          >> (upsert (block_row T) (x, y) (record { created_at = now }) (λ r. r)
                              >>= λ row. pure (y, row.created_at)))
                        s (unfollow-IsSevered T a b x y s h)
                        (λ r t e k.
                          keeps_bind (IsSevered T a b) (unfollow T y x)
                            (λ _.
                              upsert (block_row T) (x, y) (record { created_at = now }) (λ r. r)
                              >>= λ row. pure (y, row.created_at))
                            t (unfollow-IsSevered T a b y x t k)
                            (λ r' t' e' k'.
                              keeps_bind (IsSevered T a b)
                                (upsert (block_row T) (x, y) (record { created_at = now }) (λ r. r))
                                (λ row. pure (y, row.created_at)) t'
                                (upsert-IsSevered now x y t' k') (λ row t'' e'' k''. k'')))))
              ])
    ]

    unblock_user-IsSevered :
        (x y : ℕ) (s : Store T)
        → pair_eq (x, y) (a, b) ≡ false
        → IsSevered T a b s
        → IsSevered T a b (unblock_user T x y s).1
    unfolding unblock_user
    unblock_user-IsSevered x y s other h =
        (ground (arith, other, h, T.block.find-delete (a, b) (x, y) s.blocks), h.1, h.2)

    step-IsSevered :
        (s : Store T) (c : Call) → IsKept a b c → IsSevered T a b s → IsSevered T a b (step s c)
    step-IsSevered s (follow_call x y) kept h = follow-IsSevered T a b x y s h
    step-IsSevered s (unfollow_call x y) kept h = unfollow-IsSevered T a b x y s h
    step-IsSevered s (unblock_call x y) kept h = unblock_user-IsSevered x y s kept h
    step-IsSevered s (block_call now x y) kept h = block_user-IsSevered now x y s h

    -- When a user that is there blocks another one that is active, the call succeeds, and after
    -- any history of follows, unfollows, blocks and unblocks of any users, as long as no call
    -- undoes this block, there is no follow row between the two in either direction, and a follow
    -- of either by the other throws and changes nothing.
    pub block_user_severs :
        (s : Store T) (now : ℕ) (target : User) (calls : List Call)
        → a ≢ b
        → T.user.find_unique b s.users ≡ some target
        → is_active_user target ≡ true
        → is_some (T.user.find_unique a s.users) ≡ true
        → All (IsKept a b) calls
        → let s' = run step (block_user T now a b s).1 calls in
          (is_ok (block_user T now a b s).0 ≡ true)
          × (T.follow.find_unique (a, b) s'.follows ≡ none)
          × (T.follow.find_unique (b, a) s'.follows ≡ none)
          × IsRefused (follow T a b) s'
          × IsRefused (follow T b a) s'
    block_user_severs s now target calls differ found active there kept =
        let (done, severed) = block_user_done T s now a b target differ found active there in
        let h =
          run_inv_all step (IsSevered T a b) (IsKept a b) step-IsSevered (block_user T now a b s).1
            calls kept severed in
        let s' = run step (block_user T now a b s).1 calls in
        (done, h.1, h.2, follow_blocked T s' a b (inl h.0), follow_blocked T s' b a (inr h.0))
