-- ===== src/Experiments/Variants/Shares.antt =====
-- How many of the buckets each variant has.
use motogram.Prelude.{
  ℕ, zero, suc, ◌+◌, ◌<◌, ◌≤◌, ◌≡◌, Bool, false, List, [], ◌∷◌, some, none, Option, ◌==◌, arith,
  bit, if◌then◌else◌, refl, ap, ◌∙◌,
}
use native.Mathlib.Nat.{mod-eq_of_lt}
use motogram.Experiments.Variants.{Variant, Config, total_weight, last_id, pick_from, pick_variant}

-- How many of the `n` numbers from `a` on pass the test.
abbrev pub hits : (ℕ → Bool) → (a n : ℕ) → ℕ
hits p a zero = 0
hits p a (suc n) = bit (p a) + hits p (suc a) n

-- The weights of the variants with this identifier.
abbrev pub share : ℕ → List Variant → ℕ
share id [] = 0
share id (v ∷ vs) = (if v.id == id then v.weight else 0) + share id vs

abbrev pub is_picked : ℕ → Option ℕ → Bool
is_picked id none = false
is_picked id (some d) = d == id

hits-add : (p : ℕ → Bool) (a m n : ℕ) → hits p a (m + n) ≡ hits p a m + hits p (a + m) n
hits-add p a zero n = ground arith
hits-add p a (suc m) n =
    ap (hits p a) {y = suc (m + n)} (omega arith)
    ∙ ap (λ h. bit (p a) + h) (hits-add p (suc a) m n)
    ∙ ap (λ k. bit (p a) + (hits p (suc a) m + hits p k n)) {y = a + suc m} (omega arith)
    ∙ omega arith

hits_same :
    (p q : ℕ → Bool) (a n : ℕ) → ((k : ℕ) → a ≤ k → k < a + n → p k ≡ q k) → hits p a n ≡ hits q a n
hits_same p q a zero same = refl
hits_same p q a (suc n) same =
    ap (λ b. bit b + hits p (suc a) n) (same a (omega arith) (omega arith))
    ∙ ap (λ h. bit (q a) + h)
        (hits_same p q (suc a) n (λ k low high. same k (omega arith) (omega arith)))

hits_const : (b : Bool) (a n : ℕ) → hits (λ k. b) a n ≡ (if b then n else 0)
hits_const b a zero = ground arith
hits_const b a (suc n) = ground (arith, hits_const b (suc a) n)

abbrev picks : ℕ → ℕ → Option ℕ → List Variant → ℕ → Bool
picks id cum fallback vs b = is_picked id (pick_from b cum fallback vs)

hits-picks :
    (id cum : ℕ) (fallback : Option ℕ) (vs : List Variant)
    → hits (picks id cum fallback vs) cum (total_weight vs) ≡ share id vs
hits-picks id cum fallback [] = refl
hits-picks id cum fallback (v ∷ vs) = ground (
  arith,
  hits-add (picks id cum fallback (v ∷ vs)) cum v.weight (total_weight vs),
  hits_same (picks id cum fallback (v ∷ vs)) (λ b. v.id == id) cum v.weight
      (λ k low high. ground arith),
  hits_const (v.id == id) cum v.weight,
  hits_same (picks id cum fallback (v ∷ vs)) (picks id (cum + v.weight) fallback vs)
      (cum + v.weight) (total_weight vs) (λ k low high. ground arith),
  hits-picks id (cum + v.weight) fallback vs,
)

module _ (hash : ℕ → ℕ → ℕ) where
  -- Among users whose hashes for a test are the numbers below the sum of the weights, one user
  -- for each number, every variant is given to as many users as its weight says.
  pub pick_variant-share :
      (c : Config) (id : ℕ) (user : ℕ → ℕ)
      → ((b : ℕ) → b < total_weight c.variants → hash c.key (user b) ≡ b)
      → hits (λ b. is_picked id (pick_variant hash c (user b))) 0 (total_weight c.variants)
        ≡ share id c.variants
  pick_variant-share c id user spread =
      hits_same (λ b. is_picked id (pick_variant hash c (user b)))
        (picks id 0 (last_id c.variants) c.variants) 0 (total_weight c.variants)
        (λ k low high.
          rw (spread k (omega arith))
            (ap (picks id 0 (last_id c.variants) c.variants) (mod-eq_of_lt (omega arith))))
      ∙ hits-picks id 0 (last_id c.variants) c.variants
