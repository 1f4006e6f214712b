-- ===== src/Accounts/Oauth/Names.antt =====
-- The names that are tried for a new account of a provider.
use motogram.Prelude.{
  ℕ, ◌≡◌, ◌⊎◌, true, false, none, some, String, List, [], ◌∷◌, All, In, head?, refl, inl, inr,
  arith, Option-cases,
}
use motogram.Prelude.Queries.{head?-find_many, head?-find_many-none}
use motogram.Prelude.Action.{ok, err, conflict}
use motogram.Accounts.Schema.{Primitives, Tables, Store, User}
use motogram.Accounts.Oauth.{Provider, clashes, new_oauth_user, create_oauth_user}

module _ (P : Primitives) (T : Tables P) (s : Store P T) (id : ℕ) (provider : Provider)
    (sub email : String) where
  abbrev pub made : String → User P
  made n = new_oauth_user P provider sub email n

  -- No row has a unique key of the account with this name.
  abbrev pub IsFree : String → Type 0
  IsFree n =
      (k : ℕ) (u : User P) → T.user.find_unique k s.users ≡ some u → clashes P (made n) k u ≡ false

  -- Some row has one.
  abbrev pub IsTaken : String → Type 0
  IsTaken n =
      (k : ℕ) × (u : User P) × (T.user.find_unique k s.users ≡ some u)
      × (clashes P (made n) k u ≡ true)

  -- For a fresh identifier, the loop over the candidate names ends in one of two ways: it returns
  -- the new account under a candidate with which no row has a unique key in common, and writes
  -- that row only; or it throws oauth_username_exhausted and changes nothing, and then every
  -- candidate has such a row.
  pub create_oauth_user_lem :
      (names : List String)
      → T.user.find_unique id s.users ≡ none
      → ((n : String) × In n names
          × IsFree n
          × (create_oauth_user P T id provider sub email names s
              ≡ (ok (id, made n), record s { users = T.user.write id (made n) s.users })))
        ⊎ (All IsTaken names
            × (create_oauth_user P T id provider sub email names s
                ≡ (err (conflict "oauth_username_exhausted"), s)))
  unfolding create_oauth_user
  create_oauth_user_lem [] fresh = inr (tt, refl)
  create_oauth_user_lem (n ∷ ns) fresh =
      elim (Option-cases (head? (T.user.find_many (clashes P (made n)) s.users))) [
        | inl free ↦ inl (
          n,
          inl refl,
          (λ k u found. head?-find_many-none T.user (clashes P (made n)) k u s.users free found),
          rw free (ground arith),
        )
        | inr ((k, u), e) ↦ elim (create_oauth_user_lem ns fresh) [
          | inl (m, there, free, done) ↦ inl (m, inr there, free, rw e done)
          | inr (taken, done) ↦
              let row = head?-find_many T.user (clashes P (made n)) k u s.users e in
              inr (((k, u, row.0, row.1), taken), rw e done)
        ]
      ]
