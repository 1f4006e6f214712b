-- ===== src/Gatherings/Tests/Communities.antt =====
-- Communities: runs and the theorems at concrete inputs.
use motogram.Prelude.{Bool}
use motogram.Gatherings.Schema.{Community, Store}
use motogram.Prelude.{◌≡◌, refl, true, none, some, arith, List, [], ◌∷◌}
use motogram.Prelude.Action.{ok}
use motogram.Prelude.History.{run}
use motogram.Gatherings.Schema.{admin, owner, active, open_to_all, hidden}
use motogram.Gatherings.Communities.{get_community_detail}
use motogram.Gatherings.Communities.Counter.{IsMembersCounted}
use motogram.Gatherings.Communities.Counter.Runs.{
  Call, creates, updates, joins, responds, leaves, ranks, step, run-IsMembersCounted,
}
use motogram.Gatherings.Tests.{tables, world, club}

-- A member sees their role.
detail_run :
    (get_community_detail tables 5 (some 1) world).0
    ≡ ok (record { id = 5; row = club; viewer_role = some owner; viewer_status = some active })
unfolding get_community_detail
detail_run = refl

world-IsMembersCounted : IsMembersCounted tables world
world-IsMembersCounted = record {
  counted = λ id c e. ground arith;
  known = λ k there. ground arith;
}

abbrev calls : List Call
calls =
    responds 1 5 2 10 true
    ∷ joins 3 5 11
    ∷ creates 6 3 12 (record { name = "riders"; visibility = open_to_all })
    ∷ joins 2 6 13
    ∷ ranks 3 6 2 admin
    ∷ updates 2 6 (record { name = none; visibility = some hidden })
    ∷ leaves 2 5
    ∷ leaves 1 5
    ∷ []

run-IsMembersCounted_example : IsMembersCounted tables (run (step tables) world calls)
run-IsMembersCounted_example = run-IsMembersCounted tables world calls world-IsMembersCounted

abbrev any_text : Community → Bool
any_text c = true

-- The same community, hidden.
abbrev shade : Store tables
shade = record world { communities = ((5, record club { visibility = hidden }) ∷ [], (refl, tt)) }
