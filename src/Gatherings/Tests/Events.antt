-- ===== src/Gatherings/Tests/Events.antt =====
-- Events: runs and the theorems at concrete inputs.
use motogram.Prelude.{Bool, true}
use motogram.Gatherings.Schema.{Event, Store, private}
use motogram.Prelude.{◌≤◌, ◌≡◌, refl, none, some, arith, List, [], ◌∷◌}
use motogram.Prelude.Action.{ok}
use motogram.Prelude.History.{run}
use motogram.Gatherings.Schema.{public, going, interested, not_going, waitlist}
use motogram.Gatherings.Events.{CreateEvent, UpdateEvent, get_detail, rsvp}
use motogram.Gatherings.Events.Counter.{IsGoingCounted}
use motogram.Gatherings.Events.Counter.Runs.{
  Call, creates, updates, answers, deletes, step, run-IsGoingCounted,
}
use motogram.Gatherings.Events.Capacity.{going_at, rsvp-within_limit}
use motogram.Gatherings.Tests.{tables, world, meet}

detail_run :
    (get_detail tables 8 2 world).0
    ≡ ok (record { id = 8; row = meet; viewer_rsvp = some waitlist })
unfolding get_detail
detail_run = refl

world-IsGoingCounted : IsGoingCounted tables world
world-IsGoingCounted = record { counted = λ id e f. ground arith; known = λ k there. ground arith }

abbrev ride_out : CreateEvent
ride_out = record {
  title = "ride out";
  community_id = none;
  co_host_ids = [];
  start_time = 50;
  end_time = some 60;
  visibility = public;
  max_participants = some 2;
}

abbrev bigger : UpdateEvent
bigger = record {
  title = none;
  community_id = none;
  co_host_ids = none;
  start_time = none;
  end_time = none;
  visibility = none;
  max_participants = some 2;
}

abbrev calls : List Call
calls =
    answers 1 8 10 not_going
    ∷ answers 2 8 11 going
    ∷ updates 1 8 bigger
    ∷ answers 2 8 12 going
    ∷ creates 9 4 13 ride_out
    ∷ answers 5 9 14 interested
    ∷ deletes 4 9 15
    ∷ []

run-IsGoingCounted_example : IsGoingCounted tables (run (step tables) world calls)
run-IsGoingCounted_example = run-IsGoingCounted tables world calls world-IsGoingCounted

rsvp-within_limit_example : going_at tables 8 (rsvp tables 4 8 20 going world).1 ≤ 1
rsvp-within_limit_example =
    rsvp-within_limit tables world 4 8 20 going meet 1 refl refl (omega arith) (ground arith)

abbrev any_text : Event → Bool
any_text e = true

-- The same event, private.
abbrev closed : Store tables
closed = record world { events = ((8, record meet { visibility = private }) ∷ [], (refl, tt)) }
