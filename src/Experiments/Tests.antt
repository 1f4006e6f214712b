-- ===== src/Experiments/Tests.antt =====
-- Flags and tests on which the services run.
use motogram.Prelude.{ℕ, ◌≡◌, refl, true, false, none, some, List, [], ◌∷◌, arith}
use motogram.Prelude.Assoc.{id_table, pair_table}
use motogram.Prelude.Action.{ok}
use motogram.Prelude.History.{run}
use motogram.Experiments.Flags
use motogram.Experiments.Flags.{
  FlagValue, UpsertFlag, by_user_list, upsert_flag, delete_flag, list_flags, read_value, evaluate,
}
use motogram.Experiments.Flags.Rollout.{is_on, enabled_by, rollout_grows}
use motogram.Experiments.Variants
use motogram.Experiments.Variants.{
  Variant, Config, Codec, UpsertAbTest, total_weight, pick_variant, upsert_test, delete_test,
  get_test, list_tests, assign,
}
use motogram.Experiments.Variants.Shares.{hits, share, is_picked, pick_variant-share}
use motogram.Experiments.Variants.Kept.{assign_call, upsert_call, step, assign_kept}

-- The users' own numbers for a hash.
abbrev hash : ℕ → ℕ → ℕ
hash key user_id = user_id

abbrev flag_tables : motogram.Experiments.Flags.Tables
flag_tables = record { flag = id_table FlagValue }

abbrev no_flags : motogram.Experiments.Flags.Store flag_tables
no_flags = record { flags = ([], tt) }

abbrev voice_rooms : UpsertFlag
voice_rooms = record {
  key = 7;
  strategy = by_user_list;
  percentage = none;
  user_ids = some (3 ∷ []);
  description = none;
}

twenty_is_on : is_on (enabled_by flag_tables hash voice_rooms 1 30 none (some 20) no_flags) ≡ true
unfolding evaluate upsert_flag read_value
twenty_is_on = refl

rollout_grows_example :
    is_on (enabled_by flag_tables hash voice_rooms 2 50 none (some 20) no_flags) ≡ true
rollout_grows_example =
    rollout_grows flag_tables hash no_flags no_flags voice_rooms none (some 20) 1 2 30 50
      (omega arith) twenty_is_on

listed_is_on :
    is_on
      (evaluate flag_tables hash 7
        (some 3)
        (upsert_flag flag_tables 1 none voice_rooms no_flags).1).0
    ≡ true
unfolding evaluate upsert_flag read_value
listed_is_on = refl

deleted_is_unknown : (delete_flag flag_tables 7 no_flags).0 ≡ ok false
unfolding delete_flag
deleted_is_unknown = refl

lists_none : (list_flags flag_tables no_flags).0 ≡ ok []
unfolding list_flags
lists_none = refl

abbrev variants : List Variant
variants = record { id = 1; weight = 60 } ∷ record { id = 2; weight = 40 } ∷ []

abbrev feed : Config
feed = record {
  key = 5;
  variants = variants;
  enabled = true;
  created_at = some 1;
  updated_by = none;
}

pick_variant-share_example :
    hits (λ b. is_picked 2 (pick_variant hash feed b)) 0 (total_weight variants) ≡ share 2 variants
pick_variant-share_example = pick_variant-share hash feed 2 (λ b. b) (λ b low. refl)

-- The configuration stands for its own text.
abbrev codec : Codec
codec = record { Text = Config; print = λ c. c; parse = λ c. some c }

abbrev test_tables : motogram.Experiments.Variants.Tables codec
test_tables = record { config = id_table Config; assignment = pair_table ℕ }

abbrev testing : motogram.Experiments.Variants.Store codec test_tables
testing = record { configs = ((5, feed) ∷ [], (refl, tt)); assignments = ([], tt) }

-- The weights are turned round.
abbrev turned : UpsertAbTest
turned = record {
  key = 5;
  variants = record { id = 1; weight = 40 } ∷ record { id = 2; weight = 60 } ∷ [];
  enabled = true;
}

first_assigned : (assign codec test_tables hash 5 50 testing).0 ≡ ok 1
unfolding assign get_test
first_assigned = refl

assign_kept_example :
    (assign codec test_tables hash 5 50 (
      run
        (step codec test_tables hash)
        (assign codec test_tables hash 5 50 testing).1
        (assign_call 5 9 ∷ upsert_call 3 none turned ∷ []))).0
    ≡ ok 1
assign_kept_example =
    assign_kept codec test_tables hash testing 5 50 1 feed
      (assign_call 5 9 ∷ upsert_call 3 none turned ∷ []) refl refl first_assigned
      (tt, ((λ e. (refl, refl, refl)), tt))

deletes_test : (delete_test codec test_tables 5 testing).0 ≡ ok true
unfolding delete_test
deletes_test = refl

lists_tests : (list_tests codec test_tables testing).0 ≡ ok (feed ∷ [])
unfolding list_tests
lists_tests = refl
