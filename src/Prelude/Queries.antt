-- ===== src/Prelude/Queries.antt =====
-- What `findFirst` and `findMany` return, in terms of `findUnique`.
use motogram.Prelude.Table.{Table}
use motogram.Prelude.Lists.{any, filter, In, head?, length, insert_sorted, sort}
use motogram.Prelude.Tests.{◌==◌, ==_iff, if◌then◌else◌, Option-cases, Bool-cases}
use mathlib.Core.Path.{◌≡◌, refl}
use mathlib.Core.Logic.{inl, inr, ◌≢◌}
use mathlib.Core.Bool.{Bool, true, false, ◌&&◌}
use mathlib.Core.Option.{Option, none, some}
use mathlib.Core.List.{List, [], ◌∷◌}
use Prim.Native.Nat.{ℕ, ◌<◌}
use native.Mathlib.Omega.{arith}

head?-In : {A : Type 0} (l : List A) {a : A} → head? l ≡ some a → In a l
head?-In [] e = cc
head?-In (x ∷ l) e = inl (ground arith)

head?-ne-none : {A : Type 0} (a : A) (l : List A) → In a l → head? l ≢ none
head?-ne-none a [] m = absurd m
head?-ne-none a (x ∷ l) m = cc

-- The row with an identifier, if it meets a condition.
abbrev pub row_if : {V : Type 0} → ℕ → (V → Bool) → Option V → Option (ℕ × V)
row_if id c none = none
row_if id c (some v) = if c v then some (id, v) else none

module _ {V : Type 0} (tb : Table ◌==◌ V) where
  -- `findFirst({ where: { id, ... } })` is `findUnique` with a further condition.
  pub find_first-row_if :
      (id : ℕ) (c : V → Bool) (t : tb.Rows)
      → head? (tb.find_many (λ k v. k == id && c v) t) ≡ row_if id c (tb.find_unique id t)
  find_first-row_if id c t = elim (Option-cases (head? (tb.find_many (λ k v. k == id && c v) t))) [
    | inl e ↦ elim (Option-cases (tb.find_unique id t)) [
      | inl gone ↦ rw (e, gone)
      | inr (v, found) ↦ ground (
        arith,
        ==_iff id id,
        head?-ne-none (id, v) (tb.find_many (λ k v. k == id && c v) t),
        tb.find_many_complete (λ k v. k == id && c v) id v t,
      )
    ]
    | inr ((k, v), e) ↦
        ground (arith, tb.find_many_sound (λ k v. k == id && c v) k v t (head?-In _ e))
  ]

module _ {K V : Type 0} {eq : K → K → Bool} (tb : Table eq V) where
  pub head?-find_many :
      (p : K → V → Bool) (k : K) (v : V) (t : tb.Rows)
      → head? (tb.find_many p t) ≡ some (k, v)
      → (tb.find_unique k t ≡ some v) × (p k v ≡ true)
  head?-find_many p k v t e = tb.find_many_sound p k v t (head?-In _ e)

  pub head?-find_many-none :
      (p : K → V → Bool) (k : K) (v : V) (t : tb.Rows)
      → head? (tb.find_many p t) ≡ none
      → tb.find_unique k t ≡ some v
      → p k v ≡ false
  head?-find_many-none p k v t e f = elim (Bool-cases (p k v)) [
    | inl hit ↦ absurd (head?-ne-none (k, v) _ (tb.find_many_complete p k v t f hit) e)
    | inr miss ↦ miss
  ]

  -- A table with no row that fits counts none, and a row that fits is counted.
  count-pos :
      (p : K → V → Bool) (k : K) (v : V) (t : tb.Rows)
      → tb.find_unique k t ≡ some v
      → p k v ≡ true
      → 0 < tb.count p t
  count-pos p k v t f hit = rw tb.count-find_many (go _ (tb.find_many_complete p k v t f hit))
    where
      go : (l : List (K × V)) → In (k, v) l → 0 < length l
      go [] m = absurd m
      go (x ∷ l) m = omega arith

module _ {A : Type 0} (p : A → Bool) where
  pub any-of_In : (x : A) (l : List A) → In x l → p x ≡ true → any p l ≡ true
  any-of_In x [] m h = absurd m
  any-of_In x (y ∷ l) m h = ground (arith, any-of_In x l)

  pub In-of_any : (l : List A) → any p l ≡ true → (x : A) × In x l × (p x ≡ true)
  In-of_any [] h = absurd (cc)
  In-of_any (y ∷ l) h = elim (Bool-cases (p y)) [
    | inl hit ↦ (y, inl refl, hit)
    | inr miss ↦ let (x, m, hit) = In-of_any l (ground arith) in (x, inr m, hit)
  ]

module _ {K V : Type 0} {eq : K → K → Bool} (tb : Table eq V) where
  pub count-zero :
      (p : K → V → Bool) (t : tb.Rows)
      → ((k : K) (v : V) → tb.find_unique k t ≡ some v → p k v ≡ false)
      → tb.count p t ≡ 0
  count-zero p t none_fits =
      rw tb.count-find_many (
        go (tb.find_many p t)
          (λ k v m. ground (arith, tb.find_many_sound p k v t m, none_fits k v)))
    where
      go : (l : List (K × V)) → ((k : K) (v : V) → In (k, v) l → ⊥) → length l ≡ 0
      go [] h = refl
      go ((k, v) ∷ l) h = absurd (h k v (inl refl))

module _ {A : Type 0} (before : A → A → Bool) where
  In-insert_sorted : (x y : A) (l : List A) → In x (insert_sorted before y l) → In x (y ∷ l)
  In-insert_sorted x y [] m = m
  In-insert_sorted x y (z ∷ l) m = ground (arith, In-insert_sorted x y l)

  pub In-sort : (x : A) (l : List A) → In x (sort before l) → In x l
  In-sort x [] m = m
  In-sort x (y ∷ l) m = ground (arith, In-sort x l, In-insert_sorted x y (sort before l) m)

  pub head?-sort-In : (x : A) (l : List A) → head? (sort before l) ≡ some x → In x l
  head?-sort-In x l e = In-sort x l (head?-In (sort before l) e)

  insert_sorted-In : (x y : A) (l : List A) → In x (y ∷ l) → In x (insert_sorted before y l)
  insert_sorted-In x y [] m = m
  insert_sorted-In x y (z ∷ l) m = ground (arith, insert_sorted-In x y l)

  pub sort-In : (x : A) (l : List A) → In x l → In x (sort before l)
  sort-In x [] m = m
  sort-In x (y ∷ l) m = insert_sorted-In x y (sort before l) (ground (arith, sort-In x l))

module _ {A : Type 0} (p : A → Bool) where
  pub In-filter : (x : A) (l : List A) → In x (filter p l) → In x l × (p x ≡ true)
  In-filter x [] m = absurd m
  In-filter x (y ∷ l) m = elim (Bool-cases (p y)) [
    | inl kept ↦ ground (arith, In-filter x l)
    | inr dropped ↦ ground (arith, In-filter x l)
  ]
