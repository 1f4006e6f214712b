-- ===== src/Social/Tests/Likes.antt =====
-- Likes: runs and the theorems at concrete inputs.
use motogram.Prelude.{
  ℕ, ◌≡◌, refl, Bool, true, false, Option, none, some, is_some, arith, List, [], ◌∷◌,
}
use motogram.Prelude.Int.{pos}
use motogram.Prelude.Action.{ok, err, not_found}
use motogram.Prelude.History.{run}
use motogram.Social.Likes.{like, unlike}
use motogram.Social.Likes.Counter.{IsLikesCounted, Call, likes, unlikes, step, run-IsLikesCounted}
use motogram.Social.Likes.Laws.{unlike-like}
use motogram.Social.Tests.{tables, town, ride}

town-IsLikesCounted : IsLikesCounted tables town
town-IsLikesCounted id p e = ground arith

-- The second of two likes in a row changes nothing; a like of a post that is not there throws.
like_again : (like tables 8 2 10 town).0 ≡ ok (record { liked = true; likes_count = pos 1 })
unfolding like
like_again = refl

like_lost : (like tables 8 2 11 town).0 ≡ err (not_found "post_not_found")
unfolding like
like_lost = refl

unlike_last : (unlike tables 2 10 town).0 ≡ ok (record { liked = false; likes_count = pos 0 })
unfolding unlike motogram.Prelude.Int.◌-ℤ◌
unlike_last = refl

abbrev calls : List Call
calls = likes 7 3 10 ∷ likes 8 3 10 ∷ likes 9 3 99 ∷ unlikes 2 10 ∷ []

run-IsLikesCounted_example : IsLikesCounted tables (run (step tables) town calls)
run-IsLikesCounted_example = run-IsLikesCounted tables town calls town-IsLikesCounted

unlike-like_example :
    let s' = (unlike tables 3 10 (like tables 7 3 10 town).1).1 in
    (tables.like.find_unique (10, 2) s'.likes ≡ tables.like.find_unique (10, 2) town.likes)
    × (tables.post.find_unique 10 s'.posts ≡ tables.post.find_unique 10 town.posts)
unlike-like_example = unlike-like tables town 7 3 10 ride refl refl refl (10, 2) 10
