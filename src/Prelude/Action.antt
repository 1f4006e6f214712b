-- ===== src/Prelude/Action.antt =====
-- A service call: it reads and writes a store, and returns or throws. What was written before a
-- throw stays written, except inside `$transaction`.
use Prim.Native.Nat.{ℕ}
use Prim.Native.String.{String}
use mathlib.Core.Path.{◌≡◌}
use mathlib.Core.Bool.{Bool, true, false}
use mathlib.Core.Option.{Option, none, some}
use mathlib.Core.List.{List}
use motogram.Prelude.Tests.{if◌then◌else◌}
use motogram.Prelude.Lists.{head?}
use motogram.Prelude.Table.{Table}

abbrev pub ⊤ : Type 0
⊤ = Unit

-- The exceptions that the services throw, with their `error` text, and the two that the Prisma
-- client throws: P2025 (a row to change is not there) and P2002 (a unique key is taken).
pub data Error : Type 0 where
  bad_request unauthorized forbidden not_found conflict : String → Error
  too_many_requests service_unavailable : String → Error
  plain_error : String → Error
  record_not_found unique_violation : Error

pub data Result (A : Type 0) : Type 0 where
  ok : A → Result A
  err : Error → Result A

abbrev pub is_ok : {A : Type 0} → Result A → Bool
is_ok (ok a) = true
is_ok (err e) = false

abbrev pub Action : Type 0 → Type 0 → Type 0
Action S A = S → Result A × S

module _ {S A : Type 0} where
  abbrev pub pure : A → Action S A
  pure a s = (ok a, s)

  abbrev pub raise : Error → Action S A
  raise e s = (err e, s)

  abbrev gets : (S → A) → Action S A
  gets f s = (ok (f s), s)

  -- `prisma.$transaction(body)`: all writes of a body that throws are rolled back.
  abbrev pub transaction : Action S A → Action S A
  transaction m s = let (r, s') = m s in elim r [ ok a ↦ (ok a, s') | err e ↦ (err e, s) ]

  -- `const x = await ...; if (!x) throw e;`
  abbrev pub or_raise : Option A → Error → Action S A
  or_raise none e = raise e
  or_raise (some a) e = pure a

infixl 5 ◌>>=◌ ◌>>◌
abbrev pub ◌>>=◌ : {S A B : Type 0} → Action S A → (A → Action S B) → Action S B
◌>>=◌ m f s = let (r, s') = m s in elim r [ ok a ↦ f a s' | err e ↦ (err e, s') ]

abbrev pub ◌>>◌ : {S A B : Type 0} → Action S A → Action S B → Action S B
m >> k = m >>= λ _. k

-- The call throws and leaves the store as it was.
abbrev pub IsRefused : {S A : Type 0} → Action S A → S → Type 0
IsRefused m s = (is_ok (m s).0 ≡ false) × ((m s).1 ≡ s)

module _ {S : Type 0} where
  -- `if (c) throw e;`
  abbrev pub raise_if : Bool → Error → Action S ⊤
  raise_if c e s = (if c then err e else ok tt, s)

  abbrev pub modify : (S → S) → Action S ⊤
  modify f s = (ok tt, f s)

  -- `if (c) { body }`
  abbrev pub do_if : Bool → Action S ⊤ → Action S ⊤
  do_if true m = m
  do_if false m = pure tt

-- A table inside a store: `prisma.post` and the like.
pub record Model (S : Type 0) {K : Type 0} (eq : K → K → Bool) (V : Type 0) : Type 1 where
  pub table : Table eq V
  pub get : S → table.Rows
  pub put : table.Rows → S → S

-- The calls of a model's delegate, as Prisma documents them.
module _ {S K : Type 0} {eq : K → K → Bool} {V : Type 0} (m : Model S eq V) where
  abbrev pub find_unique : K → Action S (Option V)
  find_unique k s = (ok (m.table.find_unique k (m.get s)), s)

  abbrev pub find_many : (K → V → Bool) → Action S (List (K × V))
  find_many p s = (ok (m.table.find_many p (m.get s)), s)

  -- With no `orderBy`: some row that fits, if there is one.
  abbrev pub find_first : (K → V → Bool) → Action S (Option (K × V))
  find_first p s = (ok (head? (m.table.find_many p (m.get s))), s)

  abbrev pub count : (K → V → Bool) → Action S ℕ
  count p s = (ok (m.table.count p (m.get s)), s)

  abbrev pub write : K → V → Action S V
  write k v s = (ok v, m.put (m.table.write k v (m.get s)) s)

  abbrev create_row : K → V → Option V → Action S V
  create_row k v none = write k v
  create_row k v (some w) = raise unique_violation

  abbrev update_row : K → (V → V) → Option V → Action S V
  update_row k f none = raise record_not_found
  update_row k f (some v) = write k (f v)

  abbrev pub delete_row : K → Option V → Action S ⊤
  delete_row k none = raise record_not_found
  delete_row k (some v) = modify (λ s. m.put (m.table.delete k (m.get s)) s)

  abbrev upsert_row : K → V → (V → V) → Option V → Action S V
  upsert_row k v f none = write k v
  upsert_row k v f (some w) = write k (f w)

  abbrev pub create : K → V → Action S V
  create k v s = create_row k v (m.table.find_unique k (m.get s)) s

  abbrev pub update : K → (V → V) → Action S V
  update k f s = update_row k f (m.table.find_unique k (m.get s)) s

  abbrev pub delete : K → Action S ⊤
  delete k s = delete_row k (m.table.find_unique k (m.get s)) s

  abbrev pub upsert : K → V → (V → V) → Action S V
  upsert k v f s = upsert_row k v f (m.table.find_unique k (m.get s)) s

  abbrev pub update_many : (K → V → Bool) → (V → V) → Action S ⊤
  update_many p f = modify (λ s. m.put (m.table.update_many p f (m.get s)) s)

  abbrev pub delete_many : (K → V → Bool) → Action S ⊤
  delete_many p = modify (λ s. m.put (m.table.delete_many p (m.get s)) s)
