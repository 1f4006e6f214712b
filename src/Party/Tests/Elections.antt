-- ===== src/Party/Tests/Elections.antt =====
-- Elections: the theorems at concrete inputs.
use motogram.Prelude.{◌≡◌, refl, true, some, [], ◌∷◌}
use motogram.Prelude.Action.{ok}
use motogram.Party.Election.{
  Candidate, picked_co_leader, oldest_member, pick_next_leader, elect, release, holds,
}
use motogram.Party.Election.Choice.{IsPick, pick_next_leader-IsPick}
use motogram.Party.Election.Lock.{lost_race, elect_exclusive}
use motogram.Party.Tests.{tables, road}

abbrev ann : Candidate
ann = record { user_id = 2; joined_at = 9; is_online = true }

abbrev bea : Candidate
bea = record { user_id = 3; joined_at = 4; is_online = true }

picks_oldest : pick_next_leader [] (ann ∷ bea ∷ []) ≡ (some 3, oldest_member)
unfolding pick_next_leader motogram.Party.Election.first_co_leader
picks_oldest = refl

picks_co_leader : pick_next_leader (7 ∷ 2 ∷ []) (bea ∷ ann ∷ []) ≡ (some 2, picked_co_leader)
unfolding pick_next_leader motogram.Party.Election.first_co_leader
picks_co_leader = refl

picks_ann : pick_next_leader (2 ∷ []) (ann ∷ []) ≡ (some 2, picked_co_leader)
unfolding pick_next_leader motogram.Party.Election.first_co_leader
picks_ann = refl

pick_next_leader-IsPick_example :
    IsPick (7 ∷ 2 ∷ []) (bea ∷ ann ∷ []) (pick_next_leader (7 ∷ 2 ∷ []) (bea ∷ ann ∷ []))
pick_next_leader-IsPick_example = pick_next_leader-IsPick (7 ∷ 2 ∷ []) (bea ∷ ann ∷ [])

elect_exclusive_example :
    let s' = (elect tables 1 [] (ann ∷ bea ∷ []) road).1 in
    ((elect tables 1 (2 ∷ []) (ann ∷ []) s').0 ≡ ok lost_race)
    × ((elect tables 1 (2 ∷ []) (ann ∷ []) (release tables 1 3 s').1).0
        ≡ ok (record { new_leader_id = some 2; locked = true; reason = picked_co_leader }))
elect_exclusive_example =
    elect_exclusive tables road 1 [] (2 ∷ []) (ann ∷ bea ∷ []) (ann ∷ []) 3 2 oldest_member
      picked_co_leader picks_oldest picks_ann refl
