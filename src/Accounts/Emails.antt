-- ===== src/Accounts/Emails.antt =====
-- Changing the address of an account: `requestEmailChange` and `verifyEmailChange` in
-- apps/api/src/modules/auth/auth.service.ts. The random bytes of a token are an argument.
use motogram.Prelude.{
  ℕ, ◌+◌, ◌*◌, Bool, false, Option, none, some, is_some, not, String, ltb, ◌==◌, ◌&&◌, ◌||◌,
}
use motogram.Prelude.Action.{
  ⊤, bad_request, unauthorized, conflict, unique_violation, Action, pure, raise_if, or_raise,
  transaction, ◌>>=◌, ◌>>◌, find_unique, find_first, create, update, delete_many,
}
use motogram.Accounts.Schema.{
  Primitives, User, EmailChangeToken, Tables, Store, user, email_token, send, email_mail,
}
use motogram.Accounts.Tokens.{revoke_all_for_user}
use motogram.Accounts.Login.{checks, is_alike}
use motogram.Accounts.Passwords.{is_out}

-- `EMAIL_CHANGE_TTL_MS`
abbrev change_ttl : ℕ
change_ttl = 48 * 60 * 60 * 1000

abbrev pub is_usable : (now hash : ℕ) → ℕ → EmailChangeToken → Bool
is_usable now hash k t = t.token_hash == hash && (not (is_some t.used_at) && ltb now t.expires_at)

abbrev pub is_unused_of : ℕ → ℕ → EmailChangeToken → Bool
is_unused_of user_id k t = t.user_id == user_id && not (is_some t.used_at)

module _ (P : Primitives) where
  -- Another account has the address, or waits for it.
  abbrev pub is_taken : (user_id : ℕ) → String → ℕ → User P → Bool
  is_taken user_id email k u =
      not (k == user_id)
      && (not (is_some u.deleted_at) && (P.alike u.email email || is_alike P email u.pending_email))

  -- `pendingNorm && pendingNorm === newNorm`; that an address is not empty is the schema's.
  abbrev is_awaited : String → Option String → Bool
  is_awaited email none = false
  is_awaited email (some pending) = P.same (P.normal pending) email

  abbrev pending_of : Option (User P) → Option String
  pending_of none = none
  pending_of (some u) = u.pending_email

  abbrev set_email : String → User P → User P
  set_email email u = record u { email = email; pending_email = none }

  -- Another account has the very address: `email` is unique.
  abbrev holds_email : (user_id : ℕ) → String → ℕ → User P → Bool
  holds_email user_id email k u = not (k == user_id) && P.same u.email email

module _ (P : Primitives) (T : Tables P) where
  -- The update of the user, which fails on the unique address.
  abbrev change_email : (user_id : ℕ) → String → Action (Store P T) (User P)
  change_email user_id email = do
    holder ← find_first (user P T) (holds_email P user_id email)
    raise_if (is_some holder) unique_violation
    update (user P T) user_id (set_email P email)

  unfoldable pub request_email_change :
      (id now user_id : ℕ) (plain password new_email : String) → Action (Store P T) String
  request_email_change id now user_id plain password new_email = do
    found ← find_unique (user P T) user_id
    u ← or_raise found (unauthorized "invalid_credentials")
    raise_if (not (checks P password u.password_hash)) (unauthorized "invalid_credentials")
    let email = P.normal new_email
    raise_if (P.same email (P.normal u.email)) (bad_request "email_unchanged")
    taken ← find_first (user P T) (is_taken P user_id email)
    raise_if (is_some taken) (conflict "email_taken")
    delete_many (email_token P T) (is_unused_of user_id)
    transaction (do
      update (user P T) user_id (λ u. record u { pending_email = some email })
      create (email_token P T) id (record {
        user_id = user_id;
        new_email = email;
        token_hash = P.digest plain;
        expires_at = now + change_ttl;
        used_at = none;
      }))
    send P T (email_mail user_id email plain)
    pure email

  unfoldable pub verify_email_change : (now : ℕ) (token : String) → Action (Store P T) ⊤
  verify_email_change now token = do
    found ← find_first (email_token P T) (is_usable now (P.digest token))
    rec ← or_raise found (bad_request "email_change_token_invalid")
    u ← find_unique (user P T) rec.1.user_id
    raise_if (is_out P u) (bad_request "email_change_token_invalid")
    let email = P.normal rec.1.new_email
    raise_if (not (is_awaited P email (pending_of P u))) (bad_request "email_change_token_invalid")
    transaction (do
      update (email_token P T) rec.0 (λ t. record t { used_at = some now })
      change_email rec.1.user_id email)
    revoke_all_for_user P T rec.1.user_id
    pure tt
