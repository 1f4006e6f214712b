-- ===== src/Party/Tests/Runs.antt =====
-- Parties: a run of the service and the theorems at concrete inputs.
use motogram.Prelude.{refl, true, none, arith, List, [], ◌∷◌}
use motogram.Prelude.Action.{IsRefused}
use motogram.Prelude.History.{run}
use motogram.Party.Schema.{left, manual, stop}
use motogram.Party.Members.{CreateParty, join_party}
use motogram.Party.Members.Joining.{rejoin_fails}
use motogram.Party.Invariant.{Sound}
use motogram.Party.Invariant.Runs.{
  Call, create, join, leave, close, invite, respond, signal, lose, find, sweep, step, run-Sound,
}
use motogram.Party.Tests.{tables, road}

road-Sound : Sound tables road
road-Sound = record {
  mirrored = λ k. ground arith;
  bounded = λ id p found op. ground arith;
  single = λ u p q ap op aq oq. ground arith;
  known = λ k there. ground arith;
}

abbrev trip : CreateParty
trip = record {
  name = "trip";
  co_leader_ids = [];
  route_id = none;
  event_id = none;
  is_private = true;
  max_members = 2;
}

abbrev calls : List Call
calls =
    join 3 1 10
    ∷ create 2 5 11 trip
    ∷ invite 30 5 2 (6 ∷ 7 ∷ [])
    ∷ respond 6 30 12 true
    ∷ signal 1 3 stop
    ∷ lose 3 1 13
    ∷ leave 1 1 14 left
    ∷ sweep 99999
    ∷ find 2 1 15
    ∷ close 2 16 manual
    ∷ []

run-Sound_example : Sound tables (run (step tables) road calls)
run-Sound_example = run-Sound tables road calls (ground arith) road-Sound

rejoin_fails_example : IsRefused (join_party tables 4 1 20) road
rejoin_fails_example = rejoin_fails tables road 4 1 20 refl
