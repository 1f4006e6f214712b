-- ===== src/Experiments/Flags.antt =====
-- apps/api/src/modules/feature-flag/feature-flag.service.ts. A Redis hash is a row whose fields may be
-- absent; its texts (a decimal, identifiers joined by commas) are what they were written from. So a
-- strategy is one of the four, and the `default` of `evaluate` is left out. Keys and identifiers are
-- numbers; the hash (the first 32 bits of the SHA-1 of key and user) is a parameter.
pub mod Rollout
use motogram.Prelude.{
  ℕ, ◌%◌, Bool, true, false, Option, none, some, is_some, ltb, leb, ◌==◌, List, [], ◌∷◌,
  if◌then◌else◌, any, sort, String,
}
use motogram.Prelude.Table.{Table}
use motogram.Prelude.Action.{
  Action, Model, pure, ◌>>=◌, ◌>>◌, find_unique, find_many, write, modify, ⊤,
}

-- `FeatureFlagStrategyEnum`
pub data Strategy : Type 0 where
  off on by_percentage by_user_list : Strategy

-- `FeatureFlagValueDto`
pub record FlagValue : Type 0 where
  pub strategy : Strategy
  pub percentage : Option ℕ
  pub user_ids : Option (List ℕ)
  pub description : Option String
  pub updated_at : Option ℕ
  pub updated_by : Option ℕ

-- `UpsertFeatureFlagDto`
pub record UpsertFlag : Type 0 where
  pub key : ℕ
  pub strategy : Strategy
  pub percentage : Option ℕ
  pub user_ids : Option (List ℕ)
  pub description : Option String

-- `FeatureFlagEvaluationDto`
pub record Evaluation : Type 0 where
  pub key : ℕ
  pub enabled : Bool
  pub strategy : Strategy
  pub user_id : Option ℕ
  pub reason : Option String

-- An empty list is not written.
abbrev non_empty : Option (List ℕ) → Option (List ℕ)
non_empty none = none
non_empty (some []) = none
non_empty (some (x ∷ xs)) = some (x ∷ xs)

-- `payload`
abbrev pub to_value : (now : ℕ) → Option ℕ → UpsertFlag → FlagValue
to_value now updated_by dto = record {
  strategy = dto.strategy;
  percentage = dto.percentage;
  user_ids = non_empty dto.user_ids;
  description = dto.description;
  updated_at = some now;
  updated_by = updated_by;
}

abbrev hash_bucket : (hash : ℕ → ℕ → ℕ) (flag_key user_id : ℕ) → ℕ
hash_bucket hash flag_key user_id = hash flag_key user_id % 100

abbrev answer : ℕ → Bool → Strategy → Option ℕ → Evaluation
answer k enabled strategy user_id = record {
  key = k;
  enabled = enabled;
  strategy = strategy;
  user_id = user_id;
  reason = none;
}

abbrev refusal : ℕ → Strategy → String → Evaluation
refusal k strategy reason = record {
  key = k;
  enabled = false;
  strategy = strategy;
  user_id = none;
  reason = some reason;
}

abbrev pub or_zero : Option ℕ → ℕ
or_zero none = 0
or_zero (some n) = n

abbrev pub is_listed : ℕ → Option (List ℕ) → Bool
is_listed user_id none = false
is_listed user_id (some ids) = any (λ id. id == user_id) ids

abbrev by_bucket : (hash : ℕ → ℕ → ℕ) (k percent : ℕ) → Option ℕ → Evaluation
by_bucket hash k percent none = refusal k by_percentage "userId_required"
by_bucket hash k percent (some user_id) =
    answer k (ltb (hash_bucket hash k user_id) percent) by_percentage (some user_id)

abbrev by_list : ℕ → Option (List ℕ) → Option ℕ → Evaluation
by_list k ids none = refusal k by_user_list "userId_required"
by_list k ids (some user_id) = answer k (is_listed user_id ids) by_user_list (some user_id)

-- The `switch` of `evaluate`.
abbrev pub evaluate_value :
    (hash : ℕ → ℕ → ℕ) (k : ℕ) → FlagValue → Strategy → Option ℕ → Evaluation
evaluate_value hash k v off user_id = answer k false off user_id
evaluate_value hash k v on user_id = answer k true on user_id
evaluate_value hash k v by_user_list user_id = by_list k v.user_ids user_id
evaluate_value hash k v by_percentage user_id =
    if leb (or_zero v.percentage) 0
    then answer k false by_percentage user_id
    else if leb 100 (or_zero v.percentage)
    then answer k true by_percentage user_id
    else by_bucket hash k (or_zero v.percentage) user_id

abbrev evaluate_found : (hash : ℕ → ℕ → ℕ) (k : ℕ) → Option ℕ → Option FlagValue → Evaluation
evaluate_found hash k user_id none = refusal k off "flag_not_found"
evaluate_found hash k user_id (some v) = evaluate_value hash k v v.strategy user_id

abbrev by_key : ℕ × FlagValue → ℕ × FlagValue → Bool
by_key a b = leb a.0 b.0

-- The key space of the flags.
pub record Tables : Type 1 where
  pub flag : Table ◌==◌ FlagValue

pub record Store (T : Tables) : Type 0 where
  pub flags : T.flag.Rows

module _ (T : Tables) where
  abbrev pub flag : Model (Store T) ◌==◌ FlagValue
  flag = record { table = T.flag; get = λ s. s.flags; put = λ t s. record s { flags = t } }

  -- Redis' `DEL`: a key that is not there is no error.
  abbrev del : ℕ → Action (Store T) ⊤
  del flag_key = modify (λ s. record s { flags = T.flag.delete flag_key s.flags })

  unfoldable pub read_value : ℕ → Action (Store T) (Option FlagValue)
  read_value flag_key = find_unique flag flag_key

  -- `del`, then `hset`.
  unfoldable pub upsert_flag :
      (now : ℕ) → Option ℕ → UpsertFlag → Action (Store T) (Option FlagValue)
  upsert_flag now updated_by dto = do
    del dto.key
    write flag dto.key (to_value now updated_by dto)
    read_value dto.key

  unfoldable pub delete_flag : ℕ → Action (Store T) Bool
  delete_flag flag_key = do old ← find_unique flag flag_key; del flag_key; pure (is_some old)

  unfoldable pub list_flags : Action (Store T) (List (ℕ × FlagValue))
  list_flags = do rows ← find_many flag (λ k v. true); pure (sort by_key rows)

  unfoldable pub evaluate :
      (hash : ℕ → ℕ → ℕ) (flag_key : ℕ) → Option ℕ → Action (Store T) Evaluation
  evaluate hash flag_key user_id = do
    value ← read_value flag_key
    pure (evaluate_found hash flag_key user_id value)
