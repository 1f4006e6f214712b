-- ===== src/Accounts/Login/Return.antt =====
-- Logins to accounts that wait for their deletion.
use mathlib.Core.Path.{subst⁻¹}
use motogram.Prelude.{
  sym, ap, ◌∙◌, ℕ, ◌≡◌, ◌⊎◌, refl, Bool, true, false, none, some, String, head?, inl, inr, arith,
  ==_iff, Bool-cases, Option-cases,
}
use motogram.Prelude.Queries.{head?-find_many}
use motogram.Prelude.Action.{ok}
use motogram.Accounts.Schema.{Primitives, Tables, Store, User}
use motogram.Accounts.Tokens.{issue_token_pair}
use motogram.Accounts.Deletion.{can_restore, on_auth_login}
use motogram.Accounts.Deletion.Phases.{live, phase_of, IsConsistent}
use motogram.Accounts.Deletion.Phases.Returns.{on_auth_login-live}
use motogram.Accounts.Login.{login, start_session, check_window, is_called, checks, Session}

module _ (P : Primitives) (T : Tables P) where
  -- Who may get a session.
  abbrev pub IsAdmitted : (now : ℕ) (identifier password : String) → Store P T → ℕ → User P → Type 0
  IsAdmitted now identifier password s id u =
      (T.user.find_unique id s.users ≡ some u)
      × (is_called P (P.normal identifier) id u ≡ true)
      × (u.is_banned ≡ false)
      × (checks P password u.password_hash ≡ true)
      × ((u.deleted_at ≡ none) ⊎ (can_restore now (T.deletion.find_unique id s.deletions) ≡ true))

  -- The store once the login is noted.
  abbrev seen_store : ℕ → ℕ → User P → Store P T → Store P T
  seen_store id now u s = record s {
    users = T.user.write id (record u { last_seen_at = some now }) s.users;
  }

  seen_store-IsConsistent :
      (id now : ℕ) (u : User P) (s : Store P T)
      → T.user.find_unique id s.users ≡ some u
      → IsConsistent P T s
      → IsConsistent P T (seen_store id now u s)
  seen_store-IsConsistent id now u s found h = (
    λ j v there. ground (
      arith,
      T.user.find-write j id (record u { last_seen_at = some now }) s.users,
      h.0 j v,
      h.0 id u found,
      ==_iff id j,
    ),
    λ j d there. ground (
      arith,
      T.user.find-write j id (record u { last_seen_at = some now }) s.users,
      h.1 j d there,
    ),
  )

  on_auth_login-ok :
      (queue_fails : Bool) (id now : ℕ) (s : Store P T)
      → (on_auth_login P T queue_fails id now s).0 ≡ ok tt
  unfolding on_auth_login
  on_auth_login-ok queue_fails id now s = refl

  module _ (queue_fails : Bool) (jti now : ℕ) (identifier password : String) (s : Store P T) where
    -- A login that returns has found a user that is admitted.
    login_passed :
        (r : Session P)
        → (login P T queue_fails jti now identifier password s).0 ≡ ok r
        → (id : ℕ) × (u : User P) × IsAdmitted now identifier password s id u
          × (login P T queue_fails jti now identifier password s
              ≡ start_session P T queue_fails jti now id u s)
    unfolding login check_window
    login_passed r done =
        elim (Option-cases (head? (T.user.find_many (is_called P (P.normal identifier)) s.users))) [
          | inl missing ↦ absurd (ground arith)
          | inr ((k, u), e) ↦
              let row = head?-find_many T.user (is_called P (P.normal identifier)) k u s.users e in
              elim (Bool-cases (checks P password u.password_hash)) [
                | inr wrong ↦ absurd (ground arith)
                | inl right ↦ elim (Option-cases u.deleted_at) [
                  | inl open_account ↦
                      (k, u, (row.0, row.1, ground arith, right, inl open_account), ground arith)
                  | inr (t, deleted) ↦
                      (k, u, (row.0, row.1, ground arith, right, inr (ground arith)), ground arith)
                ]
              ]
        ]

    start_session-id :
        (id : ℕ) (u : User P) (r : Session P)
        → (start_session P T queue_fails jti now id u s).0 ≡ ok r
        → r.0 ≡ id
    unfolding start_session issue_token_pair
    start_session-id id u r done = ground arith

    start_session-rows :
        (id : ℕ) (u : User P)
        → T.user.find_unique id s.users ≡ some u
        → let s' = (start_session P T queue_fails jti now id u s).1 in
          let logged_in = (on_auth_login P T queue_fails id now (seen_store id now u s)).1 in
          (s'.users ≡ logged_in.users) × (s'.deletions ≡ logged_in.deletions)
    unfolding start_session issue_token_pair
    start_session-rows id u found =
        ground (arith, on_auth_login-ok queue_fails id now (seen_store id now u s))

    start_session-live :
        (id : ℕ) (u : User P)
        → IsConsistent P T s
        → T.user.find_unique id s.users ≡ some u
        → phase_of P T (start_session P T queue_fails jti now id u s).1 id ≡ live
    start_session-live id u h found =
        let (users, deletions) = start_session-rows id u found in
        rw (users, deletions)
          (on_auth_login-live P T id now (seen_store id now u s) queue_fails
            (record u { last_seen_at = some now }) (seen_store-IsConsistent id now u s found h)
            (ground (
              arith,
              T.user.find-write id id (record u { last_seen_at = some now }) s.users,
              ==_iff id id,
            )))

    -- In a store in which a user is marked deleted exactly while their request waits and every
    -- request has its user, a login that returns has found a user of that name or address that is
    -- not banned, whose password matches, and who is not marked deleted or may still come back,
    -- and the account is live afterwards, whether or not the queue fails.
    pub login_revives :
        (r : Session P)
        → IsConsistent P T s
        → (login P T queue_fails jti now identifier password s).0 ≡ ok r
        → ((u : User P) × IsAdmitted now identifier password s r.0 u)
          × (phase_of P T (login P T queue_fails jti now identifier password s).1 r.0 ≡ live)
    login_revives r h done =
        let (id, u, admitted, call) = login_passed r done in
        let same : r.0 ≡ id = start_session-id id u r (sym (ap (λ x. x.0) call) ∙ done) in
        (
          (u, subst⁻¹ (λ k. IsAdmitted now identifier password s k u) same admitted),
          subst⁻¹
              (λ k. phase_of P T (login P T queue_fails jti now identifier password s).1 k ≡ live)
              same
              (subst⁻¹ (λ x. phase_of P T x.1 id ≡ live) call
                (start_session-live id u h admitted.0)),
        )
