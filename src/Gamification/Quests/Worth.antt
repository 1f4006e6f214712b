-- ===== src/Gamification/Quests/Worth.antt =====
-- What the quests of a user are worth in all.
use mathlib.Core.Path.{subst⁻¹}
use motogram.Prelude.{
  ℕ, ◌+◌, ◌≡◌, ◌≢◌, refl, Bool, false, Option, none, some, List, [], ◌∷◌, In, inl, inr, arith,
  pair_eq_iff, ◌||◌, if◌then◌else◌,
}
use motogram.Prelude.Action.{⊤}
use motogram.Gamification.Schema.{Quest, Progress, Tables}
use motogram.Gamification.Quests.{is_done}

abbrev has_completed : Option Progress → Bool
has_completed none = false
has_completed (some p) = p.completed

-- What a quest that is paid once is still worth to a user.
abbrev worth : Option Quest → Option Progress → ℕ
worth none old = 0
worth (some q) old = if q.repeatable || has_completed old then 0 else q.xp_reward

pub open-worth :
    (q : Quest) (old : Option Progress)
    → q.repeatable ≡ false
    → is_done q old ≡ false
    → worth (some q) old ≡ q.xp_reward
open-worth q none once unfinished = ground (arith, once)
open-worth q (some p) once unfinished = ground (arith, once, unfinished)

abbrev pub Different : List ℕ → Type 0
Different [] = ⊤
Different (k ∷ ks) = (¬ In k ks) × Different ks

differs_from : (i k : ℕ) (ks : List ℕ) → ¬ In i ks → In k ks → i ≢ k
differs_from i k ks away m e = away (subst⁻¹ (λ x. In x ks) e m)

module _ (T : Tables) (j : ℕ) where
  -- What the quests of the list are still worth to the user.
  abbrev pub unearned : T.quest.Rows → T.progress.Rows → List ℕ → ℕ
  unearned quests rows [] = 0
  unearned quests rows (k ∷ ks) =
      worth (T.quest.find_unique k quests) (T.progress.find_unique (j, k) rows)
      + unearned quests rows ks

  pub unearned_same :
      (quests : T.quest.Rows) (rows rows' : T.progress.Rows) (ks : List ℕ)
      → ((k : ℕ)
          → In k ks
          → T.progress.find_unique (j, k) rows' ≡ T.progress.find_unique (j, k) rows)
      → unearned quests rows' ks ≡ unearned quests rows ks
  unearned_same quests rows rows' [] same = refl
  unearned_same quests rows rows' (k ∷ ks) same =
      ground (arith, same k (inl refl), unearned_same quests rows rows' ks (λ i m. same i (inr m)))

  pub unearned-write :
      (quests : T.quest.Rows) (rows : T.progress.Rows) (k : ℕ) (p : Progress) (ks : List ℕ)
      → Different ks
      → In k ks
      → unearned quests (T.progress.write (j, k) p rows) ks
          + worth (T.quest.find_unique k quests) (T.progress.find_unique (j, k) rows)
        ≡ unearned quests rows ks + worth (T.quest.find_unique k quests) (some p)
  unearned-write quests rows k p [] d m = absurd m
  unearned-write quests rows k p (i ∷ ks) (away, d) (inl same) = ground (
    arith,
    T.progress.find-write (j, i) (j, k) p rows,
    pair_eq_iff (j, k) (j, i),
    unearned_same quests rows (T.progress.write (j, k) p rows) ks (λ l m. ground (
      arith,
      differs_from i l ks away m,
      pair_eq_iff (j, k) (j, l),
      T.progress.find-write (j, l) (j, k) p rows,
    )),
  )
  unearned-write quests rows k p (i ∷ ks) (away, d) (inr m) = ground (
    arith,
    T.progress.find-write (j, i) (j, k) p rows,
    pair_eq_iff (j, k) (j, i),
    unearned-write quests rows k p ks d m,
    differs_from i k ks away m,
  )
