-- ===== src/Social/Tests/Comments.antt =====
-- Comments: a run and the theorem at a concrete input.
use motogram.Prelude.{arith, List, [], ◌∷◌}
use motogram.Prelude.History.{run}
use motogram.Social.Comments.Counter.{
  IsCommentsCounted, Call, creates, updates, removes, step, run-IsCommentsCounted,
}
use motogram.Social.Tests.{tables, town}

town-IsCommentsCounted : IsCommentsCounted tables town
town-IsCommentsCounted id p e = ground arith

abbrev calls : List Call
calls =
    creates 21 3 10 "where was that?"
    ∷ updates 2 20 "very nice"
    ∷ removes 8 2 20
    ∷ removes 9 2 20
    ∷ []

run-IsCommentsCounted_example : IsCommentsCounted tables (run (step tables) town calls)
run-IsCommentsCounted_example = run-IsCommentsCounted tables town calls town-IsCommentsCounted
