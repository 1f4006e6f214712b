-- ===== src/Social/Tests/Follows.antt =====
-- Follows and blocks: the theorems at concrete inputs.
use motogram.Prelude.{◌≡◌, ◌↔◌, refl, arith, none, true, false, List, [], ◌∷◌, ℕ, ◌≢◌}
use motogram.Prelude.Action.{ok, is_ok, IsRefused}
use motogram.Social.Follows.{follow}
use motogram.Social.Follows.Counters.{IsFollowsCounted, follow-IsFollowsCounted}
use motogram.Social.Follows.Drift.{refollow_drifts}
use motogram.Social.Follows.Guards.{IsBlocked}
use motogram.Social.Blocks.{block_user, unblock_user, peers_blocked_either_way}
use motogram.Social.Blocks.Laws.{has, peers_blocked_either_way_iff}
use motogram.Social.Blocks.Severed.{follow_call, unblock_call, step, block_user_severs}
use motogram.Prelude.History.{run}
use motogram.Social.Tests.{tables, town, member}

town-IsFollowsCounted : IsFollowsCounted tables town
town-IsFollowsCounted id u e = ground arith

follow-IsFollowsCounted_example : IsFollowsCounted tables (follow tables 3 1 town).1
follow-IsFollowsCounted_example = follow-IsFollowsCounted tables town 3 1 refl town-IsFollowsCounted

refollow_drifts_example : ¬ IsFollowsCounted tables (follow tables 2 1 town).1
refollow_drifts_example =
    refollow_drifts tables town 2 1 (member false 1 0 1) (member false 0 1 0) refl refl
      (ground arith) (refl, refl) refl refl town-IsFollowsCounted

block_user_severs_example :
    let s' =
      run
        (step tables)
        (block_user tables 9 1 2 town).1
        (follow_call 1 2 ∷ unblock_call 2 1 ∷ follow_call 2 1 ∷ []) in
    (is_ok (block_user tables 9 1 2 town).0 ≡ true)
    × (tables.follow.find_unique (1, 2) s'.follows ≡ none)
    × (tables.follow.find_unique (2, 1) s'.follows ≡ none)
    × IsRefused (follow tables 1 2) s'
    × IsRefused (follow tables 2 1) s'
block_user_severs_example =
    block_user_severs tables 1 2 town 9 (member false 0 1 0)
      (follow_call 1 2 ∷ unblock_call 2 1 ∷ follow_call 2 1 ∷ []) (ground arith) refl refl refl
      (tt, (refl, (tt, tt)))

peers_blocked_either_way_iff_example :
    (l : List ℕ) × (peers_blocked_either_way tables 1 town ≡ (ok l, town))
    × ((x : ℕ) → x ≢ 1 → (has x l ≡ true) ↔ IsBlocked tables town 1 x)
peers_blocked_either_way_iff_example = peers_blocked_either_way_iff tables town 1

-- A block is undone.
unblock_user_run : (unblock_user tables 4 1 town).1.blocks ≡ ([], tt)
unfolding unblock_user
unblock_user_run = refl
