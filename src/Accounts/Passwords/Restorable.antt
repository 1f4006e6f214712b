-- ===== src/Accounts/Passwords/Restorable.antt =====
-- Forgotten passwords of accounts that wait for their deletion.
use motogram.Prelude.{
  ℕ, ◌+◌, ◌≡◌, ◌≢◌, refl, true, false, none, some, is_some, String, head?, arith, ==_iff, ◌∷◌,
}
use motogram.Prelude.Action.{ok, IsRefused}
use motogram.Accounts.Schema.{Primitives, Tables, Store, User, PasswordResetToken, reset_mail}
use motogram.Accounts.Deletion.{can_restore}
use motogram.Accounts.Passwords.{
  forgot_password, issue_reset, reset_password, reset_ttl, is_unused_of, is_addressed,
}
use motogram.Accounts.Passwords.Reset.{reset-IsRefused}

module _ (P : Primitives) (T : Tables P) (s : Store P T) (id now user_id : ℕ) (plain email : String)
    (u : User P) where
  abbrev link : PasswordResetToken
  link = record {
    user_id = user_id;
    token_hash = P.digest plain;
    expires_at = now + reset_ttl;
    used_at = none;
  }

  abbrev mailed : Store P T
  mailed = record s {
    reset_tokens =
        T.reset_token.write id link
          (T.reset_token.delete_many (is_unused_of user_id) s.reset_tokens);
    mails = reset_mail user_id plain ∷ s.mails;
  }

  forgot_mailed :
      head? (T.user.find_many (is_addressed P (P.normal email)) s.users) ≡ some (user_id, u)
      → u.is_banned ≡ false
      → is_some u.password_hash ≡ true
      → can_restore now (T.deletion.find_unique user_id s.deletions) ≡ true
      → T.reset_token.find_unique id s.reset_tokens ≡ none
      → forgot_password P T id now plain email s ≡ (ok tt, mailed)
  unfolding forgot_password issue_reset
  forgot_mailed found free has_password open_window fresh =
      ground (arith, T.reset_token.find-delete_many (is_unused_of user_id) id s.reset_tokens)

  -- For a user with a password who is not banned, is marked deleted and may still come back,
  -- forgotPassword with a fresh token returns and mails a link, and every reset with that link,
  -- as long as nothing else happens, throws and changes nothing.
  pub forgot_useless :
      head? (T.user.find_many (is_addressed P (P.normal email)) s.users) ≡ some (user_id, u)
      → T.user.find_unique user_id s.users ≡ some u
      → u.is_banned ≡ false
      → is_some u.password_hash ≡ true
      → is_some u.deleted_at ≡ true
      → can_restore now (T.deletion.find_unique user_id s.deletions) ≡ true
      → T.reset_token.find_unique id s.reset_tokens ≡ none
      → ((k : ℕ) (t : PasswordResetToken)
          → T.reset_token.find_unique k s.reset_tokens ≡ some t
          → t.token_hash ≢ P.digest plain)
      → (later salt : ℕ) (password : String)
      → let (r, s') = forgot_password P T id now plain email s in
        (r ≡ ok tt)
        × (s'.mails ≡ reset_mail user_id plain ∷ s.mails)
        × IsRefused (reset_password P T later salt plain password) s'
  forgot_useless found there free has_password deleted open_window fresh new_hash later salt
        password =
      rw (forgot_mailed found free has_password open_window fresh) (
        refl,
        refl,
        reset-IsRefused P T mailed later salt plain password (λ k t here fits. ground (
          arith,
          ==_iff id k,
          ==_iff t.token_hash (P.digest plain),
          T.reset_token.find-write k id link
              (T.reset_token.delete_many (is_unused_of user_id) s.reset_tokens),
          T.reset_token.find-delete_many (is_unused_of user_id) k s.reset_tokens,
          new_hash k t,
        )),
      )
