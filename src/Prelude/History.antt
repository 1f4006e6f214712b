-- ===== src/Prelude/History.antt =====
-- Histories of calls, for invariants along them.
use mathlib.Core.List.{List, [], ◌∷◌}
use motogram.Prelude.Lists.{All}

module _ {S C : Type 0} (step : S → C → S) where
  unfoldable pub run : S → List C → S
  run s [] = s
  run s (c ∷ cs) = run (step s c) cs

  pub run_inv :
      (P : S → Type 0)
      → ((s : S) (c : C) → P s → P (step s c))
      → (s : S) (cs : List C) → P s
      → P (run s cs)
  unfolding run
  run_inv P keep s [] h = h
  run_inv P keep s (c ∷ cs) h = run_inv P keep (step s c) cs (keep s c h)

  -- The same for a history whose calls all meet a condition.
  pub run_inv_all :
      (P : S → Type 0) (Q : C → Type 0)
      → ((s : S) (c : C) → Q c → P s → P (step s c))
      → (s : S) (cs : List C) → All Q cs
      → P s
      → P (run s cs)
  unfolding run
  run_inv_all P Q keep s [] q h = h
  run_inv_all P Q keep s (c ∷ cs) q h = run_inv_all P Q keep (step s c) cs q.1 (keep s c q.0 h)
