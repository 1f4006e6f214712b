-- ===== src/Prelude/Assoc.antt =====
-- A concrete table: an association list with distinct keys, and the laws of a table for it.
use Prim.Native.Nat.{◌+◌}
use mathlib.Core.Path.{◌≡◌, refl}
use mathlib.Core.Logic.{◌↔◌}
use mathlib.Core.Bool.{not, Bool, true}
use mathlib.Core.Option
use mathlib.Core.Option.{Option, none, some}
use mathlib.Core.List.{List, [], ◌∷◌}
use native.Mathlib.Omega.{arith}
use motogram.Prelude.Tests.{if◌then◌else◌, bit, ◌==◌, ==_iff, pair_eq, pair_eq_iff}
use motogram.Prelude.Lists.{length, In, filter}
use motogram.Prelude.Table.{hit, reject, Table}

module _ {K : Type 0} (eq : K → K → Bool) {V : Type 0} where
  abbrev find_row : K → List (K × V) → Option V
  find_row j [] = none
  find_row j ((k, v) ∷ l) = if eq k j then some v else find_row j l

  abbrev write_row : K → V → List (K × V) → List (K × V)
  write_row k v [] = (k, v) ∷ []
  write_row k v ((j, w) ∷ l) = if eq k j then (j, v) ∷ l else (j, w) ∷ write_row k v l

  abbrev delete_row : K → List (K × V) → List (K × V)
  delete_row k [] = []
  delete_row k ((j, w) ∷ l) = if eq k j then l else (j, w) ∷ delete_row k l

  abbrev IsDistinct : List (K × V) → Type 0
  IsDistinct [] = Unit
  IsDistinct ((k, v) ∷ l) = (find_row k l ≡ none) × IsDistinct l

abbrev update_rows : {K V : Type 0} → (K → V → Bool) → (V → V) → List (K × V) → List (K × V)
update_rows p f [] = []
update_rows p f ((k, v) ∷ l) = (k, if p k v then f v else v) ∷ update_rows p f l

abbrev drop_rows : {K V : Type 0} → (K → V → Bool) → List (K × V) → List (K × V)
drop_rows p = filter (λ r. not (p r.0 r.1))

abbrev rows_where : {K V : Type 0} → (K → V → Bool) → List (K × V) → List (K × V)
rows_where p = filter (λ r. p r.0 r.1)

module _ {K : Type 0} {eq : K → K → Bool} (eq_iff : (a b : K) → (eq a b ≡ true) ↔ (a ≡ b))
    {V : Type 0} where
  pub find-write_row :
      (j k : K) (v : V) (l : List (K × V))
      → find_row eq j (write_row eq k v l) ≡ (if eq k j then some v else find_row eq j l)
  find-write_row j k v [] = refl
  find-write_row j k v ((i, w) ∷ l) =
      ground (arith, eq_iff k i, eq_iff i j, eq_iff k j, find-write_row j k v l)

  pub write_row-IsDistinct :
      (k : K) (v : V) (l : List (K × V)) → IsDistinct eq l → IsDistinct eq (write_row eq k v l)
  write_row-IsDistinct k v [] d = (refl, tt)
  write_row-IsDistinct k v ((i, w) ∷ l) d =
      ground (arith, find-write_row i k v l, write_row-IsDistinct k v l d.1)

  pub find-delete_row :
      (j k : K) (l : List (K × V))
      → IsDistinct eq l
      → find_row eq j (delete_row eq k l) ≡ (if eq k j then none else find_row eq j l)
  find-delete_row j k [] d = ground arith
  find-delete_row j k ((i, w) ∷ l) d =
      ground (
        arith,
        eq_iff k i,
        eq_iff i j,
        eq_iff k j,
        eq_iff i k,
        eq_iff j k,
        find-delete_row j k l d.1,
      )

  pub delete_row-IsDistinct :
      (k : K) (l : List (K × V)) → IsDistinct eq l → IsDistinct eq (delete_row eq k l)
  delete_row-IsDistinct k [] d = tt
  delete_row-IsDistinct k ((i, w) ∷ l) d =
      ground (arith, find-delete_row i k l d.1, delete_row-IsDistinct k l d.1)

  pub find-update_rows :
      (p : K → V → Bool) (f : V → V) (j : K) (l : List (K × V))
      → find_row eq j (update_rows p f l)
        ≡ Option.map (λ v. if p j v then f v else v) (find_row eq j l)
  find-update_rows p f j [] = refl
  find-update_rows p f j ((i, w) ∷ l) = ground (arith, eq_iff i j, find-update_rows p f j l)

  pub update_rows-IsDistinct :
      (p : K → V → Bool) (f : V → V) (l : List (K × V))
      → IsDistinct eq l
      → IsDistinct eq (update_rows p f l)
  update_rows-IsDistinct p f [] d = tt
  update_rows-IsDistinct p f ((i, w) ∷ l) d =
      (ground (arith, find-update_rows p f i l), update_rows-IsDistinct p f l d.1)

  pub find-drop_rows :
      (p : K → V → Bool) (j : K) (l : List (K × V))
      → IsDistinct eq l
      → find_row eq j (drop_rows p l) ≡ reject (p j) (find_row eq j l)
  find-drop_rows p j [] d = refl
  find-drop_rows p j ((i, w) ∷ l) d = ground (arith, eq_iff i j, find-drop_rows p j l d.1)

  pub drop_rows-IsDistinct :
      (p : K → V → Bool) (l : List (K × V)) → IsDistinct eq l → IsDistinct eq (drop_rows p l)
  drop_rows-IsDistinct p [] d = tt
  drop_rows-IsDistinct p ((i, w) ∷ l) d =
      ground (arith, find-drop_rows p i l d.1, drop_rows-IsDistinct p l d.1)

  pub rows_where_sound :
      (p : K → V → Bool) (k : K) (v : V) (l : List (K × V))
      → IsDistinct eq l
      → In (k, v) (rows_where p l)
      → (find_row eq k l ≡ some v) × (p k v ≡ true)
  rows_where_sound p k v [] d m = absurd m
  rows_where_sound p k v ((i, w) ∷ l) d m = ground (arith, eq_iff i k, rows_where_sound p k v l d.1)

  pub rows_where_complete :
      (p : K → V → Bool) (k : K) (v : V) (l : List (K × V))
      → find_row eq k l ≡ some v
      → p k v ≡ true
      → In (k, v) (rows_where p l)
  rows_where_complete p k v [] e h = cc
  rows_where_complete p k v ((i, w) ∷ l) e h =
      ground (arith, eq_iff i k, rows_where_complete p k v l)

  pub count-write_row :
      (p : K → V → Bool) (k : K) (v : V) (l : List (K × V))
      → length (rows_where p (write_row eq k v l)) + hit (p k) (find_row eq k l)
        ≡ length (rows_where p l) + bit (p k v)
  count-write_row p k v [] = ground arith
  count-write_row p k v ((i, w) ∷ l) =
      ground (arith, eq_iff k i, eq_iff i k, count-write_row p k v l)

  pub count-delete_row :
      (p : K → V → Bool) (k : K) (l : List (K × V))
      → length (rows_where p (delete_row eq k l)) + hit (p k) (find_row eq k l)
        ≡ length (rows_where p l)
  count-delete_row p k [] = ground arith
  count-delete_row p k ((i, w) ∷ l) = ground (arith, eq_iff k i, eq_iff i k, count-delete_row p k l)

  pub count-update_rows :
      (q p : K → V → Bool) (f : V → V) (l : List (K × V))
      → ((k : K) (v : V) → q k (if p k v then f v else v) ≡ q k v)
      → length (rows_where q (update_rows p f l)) ≡ length (rows_where q l)
  count-update_rows q p f [] same = refl
  count-update_rows q p f ((i, w) ∷ l) same =
      ground (arith, same i w, count-update_rows q p f l same)

  abbrev pub assoc_table : Table eq V
  assoc_table = record {
    Rows = (l : List (K × V)) × IsDistinct eq l;
    find_unique = λ k t. find_row eq k t.0;
    write = λ k v t. (write_row eq k v t.0, write_row-IsDistinct k v t.0 t.1);
    delete = λ k t. (delete_row eq k t.0, delete_row-IsDistinct k t.0 t.1);
    update_many = λ p f t. (update_rows p f t.0, update_rows-IsDistinct p f t.0 t.1);
    delete_many = λ p t. (drop_rows p t.0, drop_rows-IsDistinct p t.0 t.1);
    find_many = λ p t. rows_where p t.0;
    count = λ p t. length (rows_where p t.0);
    find-write = λ j k v t. find-write_row j k v t.0;
    find-delete = λ j k t. find-delete_row j k t.0 t.1;
    find-update_many = λ p f j t. find-update_rows p f j t.0;
    find-delete_many = λ p j t. find-drop_rows p j t.0 t.1;
    find_many_sound = λ p k v t. rows_where_sound p k v t.0 t.1;
    find_many_complete = λ p k v t. rows_where_complete p k v t.0;
    count-find_many = λ p t. refl;
    count-write = λ p k v t. count-write_row p k v t.0;
    count-delete = λ p k t. count-delete_row p k t.0;
    count-update_many = λ q p f t same. count-update_rows q p f t.0 same;
  }

-- Tables keyed by one identifier, and by a pair of them.
abbrev pub id_table : (V : Type 0) → Table ◌==◌ V
id_table V = assoc_table ==_iff {V = V}

abbrev pub pair_table : (V : Type 0) → Table pair_eq V
pair_table V = assoc_table pair_eq_iff {V = V}
