-- ===== src/Accounts/Passwords/Reset.antt =====
-- What a password reset leaves behind.
use motogram.Prelude.{
  ℕ, ◌≡◌, refl, true, none, some, String, head?, inl, inr, arith, ◌==◌, ==_iff, Option-cases,
}
use motogram.Prelude.Table.{reject}
use motogram.Prelude.Queries.{head?-find_many}
use motogram.Prelude.Action.{ok, IsRefused}
use motogram.Accounts.Schema.{Primitives, Tables, Store, User, PasswordResetToken}
use motogram.Accounts.Tokens.{revoke_all_for_user}
use motogram.Accounts.Login.{checks}
use motogram.Accounts.Passwords.{reset_password, is_usable, is_out, set_password}

module _ (P : Primitives) (T : Tables P) where
  -- The hashes of reset tokens are unique.
  abbrev IsUniqueHash : Store P T → Type 0
  IsUniqueHash s =
      (j k : ℕ) (t u : PasswordResetToken)
      → T.reset_token.find_unique j s.reset_tokens ≡ some t
      → T.reset_token.find_unique k s.reset_tokens ≡ some u
      → t.token_hash ≡ u.token_hash
      → j ≡ k

  abbrev spent : (now : ℕ) → PasswordResetToken → PasswordResetToken
  spent now t = record t { used_at = some now }

  abbrev after_reset :
      (now salt : ℕ) (password : String) (id : ℕ)
      → PasswordResetToken
      → User P
      → Store P T
      → Store P T
  after_reset now salt password id t u s = record s {
    reset_tokens = T.reset_token.write id (spent now t) s.reset_tokens;
    users = T.user.write t.user_id (set_password P (P.hash password salt) u) s.users;
    refresh_keys = T.refresh_key.delete_many (λ k _. k.0 == t.user_id) s.refresh_keys;
  }

  module _ (s : Store P T) (now salt : ℕ) (token password : String) (n : ℕ) where
    -- A reset that returns has found a token and its user.
    reset_found :
        (reset_password P T now salt token password s).0 ≡ ok n
        → (id : ℕ) × (t : PasswordResetToken) × (u : User P) × (head?
              (T.reset_token.find_many (is_usable now (P.digest token)) s.reset_tokens)
            ≡ some (id, t))
          × (T.user.find_unique t.user_id s.users ≡ some u)
          × ((reset_password P T now salt token password s).1
              ≡ after_reset now salt password id t u s)
    unfolding reset_password revoke_all_for_user
    reset_found done =
        elim (Option-cases
          (head? (T.reset_token.find_many (is_usable now (P.digest token)) s.reset_tokens))) [
            | inl gone ↦ absurd (ground arith)
            | inr ((id, t), e) ↦ elim (Option-cases (T.user.find_unique t.user_id s.users)) [
              | inl gone ↦ absurd (ground arith)
              | inr (u, found) ↦ (
                id,
                t,
                u,
                e,
                found,
                ground (
                  arith,
                  head?-find_many T.reset_token (is_usable now (P.digest token)) id t
                      s.reset_tokens,
                ),
              )
            ]
          ]

    -- A password reset that returns has found a token row with the given hash, unused and not
    -- over, and afterwards its user is there, the new password matches, and no refresh token of
    -- the user is left.
    pub reset_signs_out :
        (reset_password P T now salt token password s).0 ≡ ok n
        → let s' = (reset_password P T now salt token password s).1 in
          (id : ℕ) × (t : PasswordResetToken) × (u : User P) × (T.reset_token.find_unique id
              s.reset_tokens
            ≡ some t)
          × (is_usable now (P.digest token) id t ≡ true)
          × (T.user.find_unique t.user_id s'.users ≡ some u)
          × (checks P password u.password_hash ≡ true)
          × ((jti : ℕ) → T.refresh_key.find_unique (t.user_id, jti) s'.refresh_keys ≡ none)
    reset_signs_out done =
        let (id, t, u, e, found, after) = reset_found done in
        let (there, usable) =
          head?-find_many T.reset_token (is_usable now (P.digest token)) id t s.reset_tokens e in
        let u' = set_password P (P.hash password salt) u in
        (
          id,
          t,
          u',
          there,
          usable,
          rw after (
              ground (
                arith,
                T.user.find-write t.user_id t.user_id u' s.users,
                ==_iff t.user_id t.user_id,
              )),
          P.compare-hash password salt,
          λ jti. rw after (
              rw
                (T.refresh_key.find-delete_many (λ k _. k.0 == t.user_id) (t.user_id, jti)
                  s.refresh_keys)
                (drop_key jti t.user_id)),
        )
      where
        drop_key :
            (jti user_id : ℕ)
            → reject
                (λ _. user_id == user_id)
                (T.refresh_key.find_unique (user_id, jti) s.refresh_keys)
              ≡ none
        drop_key jti user_id =
            elim (Option-cases (T.refresh_key.find_unique (user_id, jti) s.refresh_keys)) [
              | inl gone ↦ rw gone refl
              | inr (v, there) ↦ rw there (ground (arith, ==_iff user_id user_id))
            ]

  -- No row is usable: the reset is refused.
  pub reset-IsRefused :
      (s : Store P T) (now salt : ℕ) (token password : String)
      → ((id : ℕ) (t : PasswordResetToken)
          → T.reset_token.find_unique id s.reset_tokens ≡ some t
          → is_usable now (P.digest token) id t ≡ true
          → is_out P (T.user.find_unique t.user_id s.users) ≡ true)
      → IsRefused (reset_password P T now salt token password) s
  unfolding reset_password
  reset-IsRefused s now salt token password all_out =
      elim (Option-cases
        (head? (T.reset_token.find_many (is_usable now (P.digest token)) s.reset_tokens))) [
          | inl gone ↦ ground arith
          | inr ((id, t), e) ↦
              let (there, usable) =
                head?-find_many T.reset_token (is_usable now (P.digest token)) id t s.reset_tokens
                  e in
              let out = all_out id t there usable in ground arith
        ]

  -- If the hashes of the reset tokens are unique, then after a password reset that returned every
  -- further reset with the same token throws and changes nothing.
  pub reset_once :
      (s : Store P T) (now salt : ℕ) (token password : String) (n : ℕ)
      → IsUniqueHash s
      → (reset_password P T now salt token password s).0 ≡ ok n
      → (later salt' : ℕ) (password' : String)
      → IsRefused
          (reset_password P T later salt' token password')
          (reset_password P T now salt token password s).1
  reset_once s now salt token password n unique done later salt' password' =
      let (id, t, u, e, found, after) = reset_found s now salt token password n done in
      let (there, usable) =
        head?-find_many T.reset_token (is_usable now (P.digest token)) id t s.reset_tokens e in
      rw after (
        reset-IsRefused (after_reset now salt password id t u s) later salt' token password'
          (λ k v here fits. absurd (
            ground (
              arith,
              T.reset_token.find-write k id (spent now t) s.reset_tokens,
              ==_iff id k,
              ==_iff t.token_hash (P.digest token),
              ==_iff v.token_hash (P.digest token),
              unique k id v t,
            ))))
