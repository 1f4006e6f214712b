-- ===== src/Social/Tests/Posts.antt =====
-- Posts: a run and the theorems at concrete inputs.
use motogram.Prelude.{refl, arith, none, some, inl, inr, List, [], ◌∷◌}
use motogram.Prelude.Action.{IsRefused}
use motogram.Prelude.History.{run}
use motogram.Social.Follows.Guards.{IsBlocked}
use motogram.Social.Posts.{find_by_id}
use motogram.Social.Posts.Counter.{
  IsPostsCounted, Call, creates, updates, removes, step, run-IsPostsCounted,
}
use motogram.Social.Posts.Visibility.{find_by_id_blocked}
use motogram.Social.Tests.{tables, town, ride}

town-IsPostsCounted : IsPostsCounted tables town
town-IsPostsCounted id u e = ground arith

abbrev calls : List Call
calls =
    creates 11 2 (some "hills") ("alps" ∷ [])
    ∷ updates 1 10 none none
    ∷ removes 8 1 10
    ∷ removes 9 1 10
    ∷ []

run-IsPostsCounted_example : IsPostsCounted tables (run (step tables) town calls)
run-IsPostsCounted_example = run-IsPostsCounted tables town calls town-IsPostsCounted

find_by_id_blocked_example : IsRefused (find_by_id tables 10 4) town
find_by_id_blocked_example = find_by_id_blocked tables town 4 10 ride refl (ground arith) (inl refl)

strangers : ¬ IsBlocked tables town 2 1
strangers (inl e) = ground arith
strangers (inr e) = ground arith
