-- ===== src/Gamification/Levels.antt =====
-- The level of an amount of experience: `levelFor` in apps/api/src/modules/gamification/gamification.service.ts.
use motogram.Prelude.{
  ℕ, zero, suc, ◌+◌, ◌-◌, ◌*◌, ◌/◌, ◌≤◌, ◌<◌, leb, if◌then◌else◌, arith, Bool-cases, inl, inr,
}

-- `Math.floor(Math.sqrt(n))`
unfoldable pub root : ℕ → ℕ
root zero = 0
root (suc n) = let r = root n in if leb ((r + 1) * (r + 1)) (suc n) then r + 1 else r

-- The root of `xp / 50` has the same full part for the full part of the quotient.
unfoldable pub level_for : ℕ → ℕ
level_for xp = root (xp / 50) + 1

root_lem : (n : ℕ) → (root n * root n ≤ n) × (n < (root n + 1) * (root n + 1))
unfolding root
root_lem zero = (omega arith, omega arith)
root_lem (suc n) = elim (Bool-cases (leb ((root n + 1) * (root n + 1)) (suc n))) [
  | inl up ↦ ground (arith, root_lem n)
  | inr same ↦ ground (arith, root_lem n)
]

level_for_lem :
    (xp : ℕ)
    → (50 * ((level_for xp - 1) * (level_for xp - 1)) ≤ xp)
      × (xp < 50 * (level_for xp * level_for xp))
unfolding level_for
level_for_lem xp = ground (arith, root_lem (xp / 50))
