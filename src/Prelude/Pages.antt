-- ===== src/Prelude/Pages.antt =====
-- Pages of a search: `findMany({ where, orderBy: { id: 'asc' }, take: limit + 1 })`, cut to `limit`
-- rows, with the last identifier as the cursor of the next page.
use motogram.Prelude.Table.{Table}
use motogram.Prelude.Queries.{In-sort, sort-In}
use motogram.Prelude.Lists.{In, length, sort}
use motogram.Prelude.Tests.{◌==◌, ltb, leb, Bool-cases}
use mathlib.Core.Path.{◌≡◌, refl}
use mathlib.Core.Logic.{◌⊎◌, inl, inr, ◌≢◌}
use mathlib.Core.Bool.{Bool, true, false}
use mathlib.Core.Option.{Option, none, some}
use mathlib.Core.List.{List, [], ◌∷◌}
use Prim.Native.Nat.{ℕ, zero, suc, ◌+◌, ◌<◌, ◌≤◌}
use native.Mathlib.Omega.{arith}

module _ {A : Type 0} where
  -- `take: n`, and `xs.slice(0, n)`
  abbrev pub take : ℕ → List A → List A
  take zero l = []
  take (suc n) [] = []
  take (suc n) (x ∷ l) = x ∷ take n l

  -- `xs[xs.length - 1]`
  abbrev last : List A → Option A
  last [] = none
  last (x ∷ []) = some x
  last (x ∷ y ∷ l) = last (y ∷ l)

  pub In-take : (x : A) (n : ℕ) (l : List A) → In x (take n l) → In x l
  In-take x zero l m = absurd m
  In-take x (suc n) [] m = m
  In-take x (suc n) (y ∷ l) (inl e) = inl e
  In-take x (suc n) (y ∷ l) (inr m) = inr (In-take x n l m)

  pub take_all : (n : ℕ) (l : List A) → length l ≤ n → take n l ≡ l
  take_all zero [] h = refl
  take_all zero (x ∷ l) h = absurd (omega arith)
  take_all (suc n) [] h = refl
  take_all (suc n) (x ∷ l) h = rw (take_all n l (omega arith)) refl

  length-take : (n : ℕ) (l : List A) → n ≤ length l → length (take n l) ≡ n
  length-take zero l h = refl
  length-take (suc n) [] h = absurd (omega arith)
  length-take (suc n) (x ∷ l) h = rw (length-take n l (omega arith)) (omega arith)

  last-ne-none : (l : List A) → 0 < length l → last l ≢ none
  last-ne-none [] h = absurd (omega arith)
  last-ne-none (x ∷ []) h = cc
  last-ne-none (x ∷ y ∷ l) h = last-ne-none (y ∷ l) (omega arith)

module _ {V : Type 0} where
  abbrev id_before : ℕ × V → ℕ × V → Bool
  id_before a b = leb a.0 b.0

  abbrev cursor_of : Option (ℕ × V) → Option ℕ
  cursor_of none = none
  cursor_of (some r) = some r.0

  -- `{ items, nextCursor }`, by `hasMore`.
  abbrev cut_if : Bool → ℕ → List (ℕ × V) → List (ℕ × V) × Option ℕ
  cut_if true limit rows = (take limit rows, cursor_of (last (take limit rows)))
  cut_if false limit rows = (rows, none)

  abbrev cut : ℕ → List (ℕ × V) → List (ℕ × V) × Option ℕ
  cut limit rows = cut_if (ltb limit (length rows)) limit rows

  In-cut_if :
      (b : Bool) (limit : ℕ) (rows : List (ℕ × V)) (x : ℕ × V)
      → In x (cut_if b limit rows).0
      → In x rows
  In-cut_if true limit rows x m = In-take x limit rows m
  In-cut_if false limit rows x m = m

  cursor_of-none : (r : Option (ℕ × V)) → cursor_of r ≡ none → r ≡ none
  cursor_of-none none e = refl
  cursor_of-none (some r) e = absurd (cc)

  cut_if_complete :
      (b : Bool) (limit : ℕ) (l : List (ℕ × V)) (x : ℕ × V)
      → 0 < limit
      → ltb limit (length (take (limit + 1) l)) ≡ b
      → (cut_if b limit (take (limit + 1) l)).1 ≡ none
      → In x l
      → In x (cut_if b limit (take (limit + 1) l)).0
  cut_if_complete true limit l x room more e m = absurd (
      last-ne-none (take limit (take (limit + 1) l))
        (rw (length-take limit (take (limit + 1) l) (ground arith)) room) (cursor_of-none _ e))
  cut_if_complete false limit l x room more e m =
      rw (take_all (limit + 1) l (short (Bool-cases (leb (length l) (limit + 1))))) m
    where
      short :
          (leb (length l) (limit + 1) ≡ true) ⊎ (leb (length l) (limit + 1) ≡ false)
          → length l ≤ limit + 1
      short (inl h) = ground arith
      short (inr h) = ground (arith, length-take (limit + 1) l)

module _ {V : Type 0} (tb : Table ◌==◌ V) where
  abbrev pub page : (ℕ → V → Bool) → ℕ → tb.Rows → List (ℕ × V) × Option ℕ
  page p limit t = cut limit (take (limit + 1) (sort id_before (tb.find_many p t)))

  -- Only rows that fit stand on a page.
  pub page_sound :
      (p : ℕ → V → Bool) (limit : ℕ) (t : tb.Rows) (k : ℕ) (v : V)
      → In (k, v) (page p limit t).0
      → (tb.find_unique k t ≡ some v) × (p k v ≡ true)
  page_sound p limit t k v m =
      let rows = take (limit + 1) (sort id_before (tb.find_many p t)) in
      let there = In-cut_if (ltb limit (length rows)) limit rows (k, v) m in
      tb.find_many_sound p k v t (
        In-sort id_before (k, v) (tb.find_many p t)
          (In-take (k, v) (limit + 1) (sort id_before (tb.find_many p t)) there))

  -- A page without a next one shows every row that fits.
  pub page_complete :
      (p : ℕ → V → Bool) (limit : ℕ) (t : tb.Rows) (k : ℕ) (v : V)
      → 0 < limit
      → (page p limit t).1 ≡ none
      → tb.find_unique k t ≡ some v
      → p k v ≡ true
      → In (k, v) (page p limit t).0
  page_complete p limit t k v room last_page found fits =
      cut_if_complete _ limit (sort id_before (tb.find_many p t)) (k, v) room refl last_page
        (sort-In id_before (k, v) (tb.find_many p t) (tb.find_many_complete p k v t found fits))
