-- ===== src/Prelude/Keeps.antt =====
-- A property of the store that every step of a `do` block keeps.
use mathlib.Core.Path.{◌≡◌, refl, ap, ◌∙◌}
use motogram.Prelude.Action.{Result, ok, err, Action, ◌>>=◌}

module _ {S A B : Type 0} where
  -- How a bind goes on from the result of its first action.
  abbrev go_on : (A → Action S B) → Result A × S → Result B × S
  go_on f (ok a, s) = f a s
  go_on f (err e, s) = (err e, s)

  keeps_go_on :
      (P : S → Type 0) (f : A → Action S B) (x : Result A × S)
      → P x.1
      → ((a : A) (s' : S) → x ≡ (ok a, s') → P s' → P (f a s').1)
      → P (go_on f x).1
  keeps_go_on P f (ok a, s) h k = k a s refl h
  keeps_go_on P f (err e, s) h k = h

  bind-go_on : (m : Action S A) (f : A → Action S B) (s : S) → (m >>= f) s ≡ go_on f (m s)
  bind-go_on m f s = go (m s)
    where
      go :
          (x : Result A × S)
          → (let (r, s') = x in elim r [ ok a ↦ f a s' | err e ↦ (err e, s') ]) ≡ go_on f x
      go (ok a, s') = refl
      go (err e, s') = refl

  pub keeps_bind :
      (P : S → Type 0) (m : Action S A) (f : A → Action S B) (s : S)
      → P (m s).1
      → ((a : A) (s' : S) → m s ≡ (ok a, s') → P s' → P (f a s').1)
      → P ((m >>= f) s).1
  keeps_bind P m f s h k = rw (bind-go_on m f s) (keeps_go_on P f (m s) h k)

  -- A bind whose first action returns.
  pub bind_ok :
      (m : Action S A) (f : A → Action S B) (s s' : S) (a : A)
      → m s ≡ (ok a, s')
      → (m >>= f) s ≡ f a s'
  bind_ok m f s s' a e = bind-go_on m f s ∙ ap (go_on f) e
