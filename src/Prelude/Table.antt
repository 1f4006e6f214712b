-- ===== src/Prelude/Table.antt =====
-- A database table as its clients see it: the delegate that the Prisma client generates for a
-- model with a unique key `K` and further columns `V`. Prisma is not part of the repository, so a
-- table is a parameter of every service, with the documented behaviour of the calls as its laws.
-- A Redis key space is one too: a set or a sorted set under a prefix is keyed by (key, member), a
-- string by its key.
use Prim.Native.Nat.{ℕ, ◌+◌}
use mathlib.Core.Path.{◌≡◌}
use mathlib.Core.Bool.{Bool, true}
use mathlib.Core.Option
use mathlib.Core.Option.{Option, none, some}
use mathlib.Core.List.{List}
use motogram.Prelude.Tests.{if◌then◌else◌, bit}
use motogram.Prelude.Lists.{length, In}

-- What the row at a key adds to a count.
abbrev pub hit : {V : Type 0} → (V → Bool) → Option V → ℕ
hit p none = 0
hit p (some v) = bit (p v)

-- What is left of the row at a key once the rows that fit are gone.
abbrev pub reject : {V : Type 0} → (V → Bool) → Option V → Option V
reject p none = none
reject p (some v) = if p v then none else some v

pub record Table {K : Type 0} (eq : K → K → Bool) (V : Type 0) : Type 1 where
  -- The contents of the table.
  pub Rows : Type 0
  pub find_unique : K → Rows → Option V
  -- Writes the row at a key, whether or not there was one.
  pub write : K → V → Rows → Rows
  pub delete : K → Rows → Rows
  pub update_many : (K → V → Bool) → (V → V) → Rows → Rows
  pub delete_many : (K → V → Bool) → Rows → Rows
  pub find_many : (K → V → Bool) → Rows → List (K × V)
  pub count : (K → V → Bool) → Rows → ℕ
  pub find-write :
      (j k : K) (v : V) (t : Rows)
      → find_unique j (write k v t) ≡ (if eq k j then some v else find_unique j t)
  pub find-delete :
      (j k : K) (t : Rows) → find_unique j (delete k t) ≡ (if eq k j then none else find_unique j t)
  pub find-update_many :
      (p : K → V → Bool) (f : V → V) (j : K) (t : Rows)
      → find_unique j (update_many p f t)
        ≡ Option.map (λ v. if p j v then f v else v) (find_unique j t)
  pub find-delete_many :
      (p : K → V → Bool) (j : K) (t : Rows)
      → find_unique j (delete_many p t) ≡ reject (p j) (find_unique j t)
  pub find_many_sound :
      (p : K → V → Bool) (k : K) (v : V) (t : Rows)
      → In (k, v) (find_many p t)
      → (find_unique k t ≡ some v) × (p k v ≡ true)
  pub find_many_complete :
      (p : K → V → Bool) (k : K) (v : V) (t : Rows)
      → find_unique k t ≡ some v
      → p k v ≡ true
      → In (k, v) (find_many p t)
  pub count-find_many : (p : K → V → Bool) (t : Rows) → count p t ≡ length (find_many p t)
  pub count-write :
      (p : K → V → Bool) (k : K) (v : V) (t : Rows)
      → count p (write k v t) + hit (p k) (find_unique k t) ≡ count p t + bit (p k v)
  pub count-delete :
      (p : K → V → Bool) (k : K) (t : Rows)
      → count p (delete k t) + hit (p k) (find_unique k t) ≡ count p t
  -- An update that changes no answer to a question changes no count of it.
  pub count-update_many :
      (q p : K → V → Bool) (f : V → V) (t : Rows)
      → ((k : K) (v : V) → q k (if p k v then f v else v) ≡ q k v)
      → count q (update_many p f t) ≡ count q t
