-- ===== src/Experiments/Variants/Kept.antt =====
-- A user keeps the variant of a test.
use mathlib.Core.Path.{subst⁻¹}
use motogram.Prelude.{
  ℕ, ◌≡◌, ◌⊎◌, ap, not, if◌then◌else◌, ◌∙◌, refl, true, Option, none, some, List, [], ◌∷◌, any, All,
  ◌==◌, ==_iff, ◌+◌, ◌%◌, inl, inr, arith, pair_eq_iff, Bool-cases, Option-cases,
}
use motogram.Prelude.Action.{⊤, ok}
use motogram.Prelude.History.{run, run_inv_all}
use motogram.Experiments.Variants.{
  Variant, Config, Codec, ReadsBack, Tables, Store, UpsertAbTest, to_config, last_id, pick_from,
  pick_variant, total_weight, first_id, offers, read, still_offered, place, or_missing, upsert_test,
  get_test, assign,
}

-- A call that may change the store, deletions left aside.
pub data Call : Type 0 where
  assign_call : (key user_id : ℕ) → Call
  upsert_call : (now : ℕ) → Option ℕ → UpsertAbTest → Call

-- The call leaves the test enabled, with the variant in it.
abbrev Offering : Codec → (key id : ℕ) → Call → Type 0
Offering P key id (assign_call k user_id) = ⊤
Offering P key id (upsert_call now updated_by dto) =
    dto.key ≡ key
    → (dto.enabled ≡ true)
      × (offers id (to_config now updated_by dto) ≡ true)
      × ReadsBack P (to_config now updated_by dto)

last-offered : (id : ℕ) (vs : List Variant) → last_id vs ≡ some id → any (λ v. v.id == id) vs ≡ true
last-offered id [] e = ground (arith, e)
last-offered id (v ∷ []) e = ground (arith, e, ==_iff v.id id)
last-offered id (v ∷ w ∷ vs) e = ground (arith, last-offered id (w ∷ vs) e)

picked-offered :
    (bucket cum id : ℕ) (fallback : Option ℕ) (vs : List Variant)
    → pick_from bucket cum fallback vs ≡ some id
    → (fallback ≡ some id) ⊎ (any (λ v. v.id == id) vs ≡ true)
picked-offered bucket cum id fallback [] e = inl e
picked-offered bucket cum id fallback (v ∷ vs) e =
    ground (arith, e, ==_iff v.id id, picked-offered bucket (cum + v.weight) id fallback vs)

module _ (P : Codec) (T : Tables P) (hash : ℕ → ℕ → ℕ) where
  -- The test is enabled with the variant in it, which the user is assigned to.
  abbrev IsPlaced : (key user_id id : ℕ) → Store P T → Type 0
  IsPlaced key user_id id s =
      ((c : Config) × (read P T (T.config.find_unique key s.configs) ≡ some c)
        × (c.enabled ≡ true)
        × (offers id c ≡ true))
      × (T.assignment.find_unique (key, user_id) s.assignments ≡ some id)

  unfoldable pub step : Store P T → Call → Store P T
  step s (assign_call key user_id) = (assign P T hash key user_id s).1
  step s (upsert_call now updated_by dto) = (upsert_test P T now updated_by dto s).1

  -- An assignment to an enabled test.
  assign_lem :
      (s : Store P T) (k u : ℕ) (c : Config)
      → read P T (T.config.find_unique k s.configs) ≡ some c
      → c.enabled ≡ true
      → assign P T hash k u s
        ≡ place P T hash u k c
            (still_offered P T c (T.assignment.find_unique (k, u) s.assignments))
            s
  unfolding assign get_test
  assign_lem s k u c stored on = rw stored (
      rw stored (
        ap
          (λ b.
            (if not b then or_missing P T (first_id c.variants) else (λ t.
                place P T hash u k c
                  (still_offered P T c (T.assignment.find_unique (k, u) t.assignments)) t))
              s)
          on))

  placed-assign :
      (s : Store P T) (key user_id id : ℕ)
      → IsPlaced key user_id id s
      → assign P T hash key user_id s ≡ (ok id, s)
  placed-assign s key user_id id ((c, stored, on, offered), placed) =
      assign_lem s key user_id c stored on ∙ rw placed (rw offered refl)

  -- What an assignment writes, if it does.
  place-IsPlaced :
      (s : Store P T) (key user_id id k u : ℕ) (c : Config) (cached : Option ℕ)
      → T.assignment.find_unique (k, u) s.assignments ≡ cached
      → read P T (T.config.find_unique k s.configs) ≡ some c
      → IsPlaced key user_id id s
      → IsPlaced key user_id id (place P T hash u k c (still_offered P T c cached) s).1
  place-IsPlaced s key user_id id k u c cached was stored h =
      elim (Option-cases (still_offered P T c cached)) [
        | inr (d, same) ↦ rw same h
        | inl moved ↦ rw moved (elim (Option-cases (pick_variant hash c u)) [
          | inl missing ↦ rw missing h
          | inr (d, picked) ↦ rw picked (
              (
                h.0,
                ground (
                  arith,
                  h.1,
                  was,
                  moved,
                  stored,
                  h.0.1,
                  pair_eq_iff (k, u) (key, user_id),
                  T.assignment.find-write (key, user_id) (k, u) d s.assignments,
                ),
              ))
        ])
      ]

  assign-IsPlaced :
      (s : Store P T) (key user_id id k u : ℕ)
      → IsPlaced key user_id id s
      → IsPlaced key user_id id (assign P T hash k u s).1
  unfolding assign get_test
  assign-IsPlaced s key user_id id k u h =
      elim (Option-cases (read P T (T.config.find_unique k s.configs))) [
        | inl gone ↦ rw gone (rw gone h)
        | inr (c, stored) ↦ elim (Bool-cases c.enabled) [
          | inl on ↦
              subst⁻¹ (λ r. IsPlaced key user_id id r.1) (assign_lem s k u c stored on)
                (place-IsPlaced s key user_id id k u c
                  (T.assignment.find_unique (k, u) s.assignments) refl stored h)
          | inr off ↦ rw stored (
              rw stored (
                rw off (elim (Option-cases (first_id c.variants)) [
                  | inl missing ↦ rw missing h
                  | inr (d, first) ↦ rw first h
                ])))
        ]
      ]

  upsert-IsPlaced :
      (s : Store P T) (key user_id id now : ℕ) (updated_by : Option ℕ) (dto : UpsertAbTest)
      → Offering P key id (upsert_call now updated_by dto)
      → IsPlaced key user_id id s
      → IsPlaced key user_id id (upsert_test P T now updated_by dto s).1
  unfolding upsert_test
  upsert-IsPlaced s key user_id id now updated_by dto offering ((c, stored, on, offered), placed) =
      elim (Bool-cases (dto.key == key)) [
        | inl same ↦
            let (enabled, has, reads) = offering (ground (arith, same, ==_iff dto.key key)) in
            (
              (
                to_config now updated_by dto,
                (rw
                    (T.config.find-write key dto.key (P.print (to_config now updated_by dto))
                      s.configs)
                    (rw same reads)),
                enabled,
                has,
              ),
              placed,
            )
        | inr other ↦ (
          (
            c,
            (rw (T.config.find-write key dto.key (P.print (to_config now updated_by dto)) s.configs)
                (rw other stored)),
            on,
            offered,
          ),
          placed,
        )
      ]

  offered_still :
      (c : Config) (cached : Option ℕ) (id : ℕ)
      → still_offered P T c cached ≡ some id
      → (cached ≡ some id) × (offers id c ≡ true)
  offered_still c none id e = ground (arith, e)
  offered_still c (some d) id e = ground (arith, e)

  first_place :
      (s : Store P T) (key user_id id : ℕ) (c : Config) (cached : Option ℕ)
      → T.assignment.find_unique (key, user_id) s.assignments ≡ cached
      → read P T (T.config.find_unique key s.configs) ≡ some c
      → c.enabled ≡ true
      → (place P T hash user_id key c (still_offered P T c cached) s).0 ≡ ok id
      → IsPlaced key user_id id (place P T hash user_id key c (still_offered P T c cached) s).1
  first_place s key user_id id c cached was stored on =
      elim (Option-cases (still_offered P T c cached)) [
        | inr (d, same) ↦ rw same (λ e.
            let (held, offered) = offered_still c cached d same in
            ground (arith, e, held, offered, was, stored, on))
        | inl moved ↦ rw moved (elim (Option-cases (pick_variant hash c user_id)) [
          | inl missing ↦ rw missing (λ e. ground (arith, e))
          | inr (d, picked) ↦ rw picked (λ e. (
            (
              c,
              stored,
              on,
              (ground (
                arith,
                e,
                picked-offered (hash c.key user_id % total_weight c.variants) 0 d
                    (last_id c.variants) c.variants picked,
                last-offered d c.variants,
              )),
            ),
            ground (
              arith,
              e,
              pair_eq_iff (key, user_id) (key, user_id),
              T.assignment.find-write (key, user_id) (key, user_id) d s.assignments,
            ),
          ))
        ])
      ]

  first-IsPlaced :
      (s : Store P T) (key user_id id : ℕ) (c : Config)
      → read P T (T.config.find_unique key s.configs) ≡ some c
      → c.enabled ≡ true
      → (assign P T hash key user_id s).0 ≡ ok id
      → IsPlaced key user_id id (assign P T hash key user_id s).1
  first-IsPlaced s key user_id id c stored on =
      subst⁻¹ (λ r. r.0 ≡ ok id → IsPlaced key user_id id r.1)
        (assign_lem s key user_id c stored on) (first_place s key user_id id c _ refl stored on)

  -- A user who was assigned a variant of an enabled test is assigned the same one after any
  -- history of assignments and of written configurations, as long as every configuration written
  -- for this test is enabled, has that variant and can be read back.
  pub assign_kept :
      (s : Store P T) (key user_id id : ℕ) (c : Config) (calls : List Call)
      → read P T (T.config.find_unique key s.configs) ≡ some c
      → c.enabled ≡ true
      → (assign P T hash key user_id s).0 ≡ ok id
      → All (Offering P key id) calls
      → (assign P T hash key user_id (run step (assign P T hash key user_id s).1 calls)).0 ≡ ok id
  unfolding step
  assign_kept s key user_id id c calls stored on assigned offering =
      ap (λ r. r.0)
        (placed-assign _ key user_id id (
          run_inv_all step (IsPlaced key user_id id) (Offering P key id)
            (λ t call offers h.
              elim call as (λ k. Offering P key id k → IsPlaced key user_id id (step t k)) [
                | assign_call k u ↦ λ q. assign-IsPlaced t key user_id id k u h
                | upsert_call now by dto ↦ λ q. upsert-IsPlaced t key user_id id now by dto q h
              ]
                offers)
            _ calls offering (first-IsPlaced s key user_id id c stored on assigned)))
