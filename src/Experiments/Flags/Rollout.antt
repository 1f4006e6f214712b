-- ===== src/Experiments/Flags/Rollout.antt =====
-- Raising the percentage of a flag.
use mathlib.Core.Path.{subst, subst⁻¹}
use motogram.Prelude.{==_iff, ℕ, ◌≤◌, ◌≡◌, true, Option, none, some, arith, Bool, false, refl}
use motogram.Prelude.Action.{Result, ok, err}
use motogram.Experiments.Flags.{
  FlagValue, UpsertFlag, Evaluation, by_percentage, to_value, evaluate_value, Tables, Store,
  upsert_flag, read_value, evaluate,
}

abbrev pub is_on : Result Evaluation → Bool
is_on (ok e) = e.enabled
is_on (err e) = false

module _ (T : Tables) (hash : ℕ → ℕ → ℕ) where
  -- What `evaluate` answers of a flag that was just written.
  evaluate-upsert :
      (s : Store T) (now : ℕ) (updated_by : Option ℕ) (dto : UpsertFlag) (user_id : Option ℕ)
      → (evaluate T hash dto.key user_id (upsert_flag T now updated_by dto s).1).0
        ≡ ok (evaluate_value hash dto.key (to_value now updated_by dto) dto.strategy user_id)
  unfolding evaluate upsert_flag read_value
  evaluate-upsert s now updated_by dto user_id =
      rw
        (T.flag.find-write dto.key dto.key (to_value now updated_by dto)
          (T.flag.delete dto.key s.flags))
        (rw ((==_iff dto.key dto.key).1 refl) refl)

  -- A flag written with a strategy by percentage.
  abbrev by : (dto : UpsertFlag) (percent : ℕ) → UpsertFlag
  by dto percent = record dto { strategy = by_percentage; percentage = some percent }

  abbrev pub enabled_by :
      UpsertFlag → (now percent : ℕ) → Option ℕ → Option ℕ → Store T → Result Evaluation
  enabled_by dto now percent updated_by user_id s =
      (evaluate T hash dto.key user_id (upsert_flag T now updated_by (by dto percent) s).1).0

  value_grows :
      (v w : FlagValue) (k small large : ℕ) (user_id : Option ℕ)
      → v.percentage ≡ some small
      → w.percentage ≡ some large
      → small ≤ large
      → (evaluate_value hash k v by_percentage user_id).enabled ≡ true
      → (evaluate_value hash k w by_percentage user_id).enabled ≡ true
  value_grows v w k small large none p q le e = ground (arith, p, q, le, e)
  value_grows v w k small large (some u) p q le e = ground (arith, p, q, le, e)

  -- If a flag that was written with a percentage is enabled for a user, or without a user, then
  -- it is still enabled for them after it was written with a percentage that is not smaller.
  pub rollout_grows :
      (s t : Store T) (dto : UpsertFlag) (updated_by user_id : Option ℕ) (now later small large : ℕ)
      → small ≤ large
      → is_on (enabled_by dto now small updated_by user_id s) ≡ true
      → is_on (enabled_by dto later large updated_by user_id t) ≡ true
  rollout_grows s t dto updated_by user_id now later small large le e =
      subst⁻¹ (λ r. is_on r ≡ true) (evaluate-upsert t later updated_by (by dto large) user_id)
        (value_grows (to_value now updated_by (by dto small))
          (to_value later updated_by (by dto large)) dto.key small large user_id refl refl le
          (subst (λ r. is_on r ≡ true) (evaluate-upsert s now updated_by (by dto small) user_id) e))
