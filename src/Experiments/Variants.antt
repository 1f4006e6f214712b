-- ===== src/Experiments/Variants.antt =====
-- apps/api/src/modules/ab-test/ab-test.service.ts. Keys and identifiers are numbers. The stored text
-- (JSON, read back through `AbTestConfigSchema`) and the hash (the first 32 bits of the SHA-1 of key and
-- user) are parameters. Labels and descriptions, which decide nothing, are left out.
pub mod Shares
pub mod Kept
use motogram.Prelude.{
  ℕ, ◌+◌, ◌%◌, Bool, true, Option, none, some, is_some, not, ltb, leb, ◌==◌, ◌&&◌, pair_eq, List,
  [], ◌∷◌, if◌then◌else◌, any, sort, ◌≡◌,
}
use motogram.Prelude.Table.{Table}
use motogram.Prelude.Action.{
  ⊤, Action, Model, pure, plain_error, not_found, or_raise, ◌>>=◌, ◌>>◌, find_unique, find_many,
  write, modify, delete_many,
}

-- `AbTestVariantDto`
pub record Variant : Type 0 where
  pub id : ℕ
  pub weight : ℕ

-- `AbTestConfigDto`
pub record Config : Type 0 where
  pub key : ℕ
  pub variants : List Variant
  pub enabled : Bool
  pub created_at : Option ℕ
  pub updated_by : Option ℕ

-- The reduce of the weights.
abbrev pub total_weight : List Variant → ℕ
total_weight [] = 0
total_weight (v ∷ vs) = v.weight + total_weight vs

-- `config.variants[config.variants.length - 1]`
abbrev pub last_id : List Variant → Option ℕ
last_id [] = none
last_id (v ∷ []) = some v.id
last_id (v ∷ w ∷ vs) = last_id (w ∷ vs)

-- `config.variants[0]`
abbrev pub first_id : List Variant → Option ℕ
first_id [] = none
first_id (v ∷ vs) = some v.id

-- The loop of `pickVariant`, with its sum; `fallback` is what follows the loop.
abbrev pub pick_from : (bucket cum : ℕ) → Option ℕ → List Variant → Option ℕ
pick_from bucket cum fallback [] = fallback
pick_from bucket cum fallback (v ∷ vs) =
    if ltb bucket (cum + v.weight) then some v.id else pick_from bucket (cum + v.weight) fallback vs

abbrev pub pick_variant : (hash : ℕ → ℕ → ℕ) → Config → ℕ → Option ℕ
pick_variant hash config user_id =
    pick_from (hash config.key user_id % total_weight config.variants) 0 (last_id config.variants)
      config.variants

abbrev pub offers : ℕ → Config → Bool
offers id config = any (λ v. v.id == id) config.variants

-- Texts, and what reads and writes them. A text that no configuration was read from is `none`.
pub record Codec : Type 1 where
  pub Text : Type 0
  pub print : Config → Text
  pub parse : Text → Option Config

-- The service relies on reading back what it has written, for a configuration that the schema admits.
abbrev pub ReadsBack : Codec → Config → Type 0
ReadsBack P c = P.parse (P.print c) ≡ some c

-- The keys of Redis: the configurations by their key, the assignments by key and user.
pub record Tables (P : Codec) : Type 1 where
  pub config : Table ◌==◌ P.Text
  pub assignment : Table pair_eq ℕ

pub record Store (P : Codec) (T : Tables P) : Type 0 where
  pub configs : T.config.Rows
  pub assignments : T.assignment.Rows

abbrev parsed : (P : Codec) → List (ℕ × P.Text) → List Config
parsed P [] = []
parsed P (row ∷ rows) = elim (P.parse row.1) [ none ↦ parsed P rows | some c ↦ c ∷ parsed P rows ]

abbrev by_key : Config → Config → Bool
by_key a b = leb a.key b.key

-- `UpsertAbTestDto`
pub record UpsertAbTest : Type 0 where
  pub key : ℕ
  pub variants : List Variant
  pub enabled : Bool

abbrev pub to_config : (now : ℕ) → Option ℕ → UpsertAbTest → Config
to_config now updated_by dto = record {
  key = dto.key;
  variants = dto.variants;
  enabled = dto.enabled;
  created_at = some now;
  updated_by = updated_by;
}

module _ (P : Codec) (T : Tables P) where
  abbrev pub config : Model (Store P T) ◌==◌ P.Text
  config = record { table = T.config; get = λ s. s.configs; put = λ t s. record s { configs = t } }

  abbrev pub assignment : Model (Store P T) pair_eq ℕ
  assignment = record {
    table = T.assignment;
    get = λ s. s.assignments;
    put = λ t s. record s { assignments = t };
  }

  pub upsert_test : (now : ℕ) → Option ℕ → UpsertAbTest → Action (Store P T) Config
  upsert_test now updated_by dto = do
    write config dto.key (P.print (to_config now updated_by dto))
    pure (to_config now updated_by dto)

  unfoldable pub delete_test : ℕ → Action (Store P T) Bool
  delete_test k = do
    old ← find_unique config k
    modify (λ s. record s { configs = T.config.delete k s.configs })
    delete_many assignment (λ at id. at.0 == k)
    pure (is_some old)

  abbrev pub read : Option P.Text → Option Config
  read none = none
  read (some text) = P.parse text

  unfoldable pub get_test : ℕ → Action (Store P T) (Option Config)
  get_test k = do raw ← find_unique config k; pure (read raw)

  unfoldable pub list_tests : Action (Store P T) (List Config)
  list_tests = do rows ← find_many config (λ k text. true); pure (sort by_key (parsed P rows))

  -- No variant at an index is JavaScript's own error; the schema has two variants at least.
  abbrev pub or_missing : Option ℕ → Action (Store P T) ℕ
  or_missing found = or_raise found (plain_error "TypeError")

  abbrev pub still_offered : Config → Option ℕ → Option ℕ
  still_offered c none = none
  still_offered c (some id) = if offers id c then some id else none

  abbrev pub place : (hash : ℕ → ℕ → ℕ) (user_id k : ℕ) → Config → Option ℕ → Action (Store P T) ℕ
  place hash user_id k c (some id) = pure id
  place hash user_id k c none = do
    id ← or_missing (pick_variant hash c user_id)
    write assignment (k, user_id) id
    pure id

  unfoldable pub assign : (hash : ℕ → ℕ → ℕ) (k user_id : ℕ) → Action (Store P T) ℕ
  assign hash k user_id = do
    found ← get_test k
    c ← or_raise found (not_found "ab_test_not_found")
    if not c.enabled then or_missing (first_id c.variants) else (do
      cached ← find_unique assignment (k, user_id)
      place hash user_id k c (still_offered c cached))
