-- ===== src/Accounts/Passwords.antt =====
-- Changing, forgetting and resetting a password: `changePassword`, `forgotPassword` and `resetPassword`
-- in apps/api/src/modules/auth/auth.service.ts. The random bytes of a token are an argument.
pub mod Reset
pub mod Restorable
use motogram.Prelude.{
  ℕ, ◌+◌, ◌*◌, Bool, true, false, Option, none, some, is_some, not, String, ltb, ◌==◌, ◌&&◌, ◌||◌,
  if◌then◌else◌,
}
use motogram.Prelude.Action.{
  ⊤, bad_request, unauthorized, Action, pure, raise_if, or_raise, transaction, ◌>>=◌, ◌>>◌,
  find_unique, find_first, create, update, delete_many,
}
use motogram.Accounts.Schema.{
  Primitives, User, AccountDeletion, PasswordResetToken, Tables, Store, user, deletion, reset_token,
  send, reset_mail,
}
use motogram.Accounts.Tokens.{revoke_all_for_user}
use motogram.Accounts.Deletion.{can_restore}
use motogram.Accounts.Login.{checks}

-- `PASSWORD_RESET_TTL_MS`
abbrev pub reset_ttl : ℕ
reset_ttl = 30 * 60 * 1000

-- The token of a hash that is neither used nor over.
abbrev pub is_usable : (now hash : ℕ) → ℕ → PasswordResetToken → Bool
is_usable now hash k t = t.token_hash == hash && (not (is_some t.used_at) && ltb now t.expires_at)

abbrev pub is_unused_of : ℕ → ℕ → PasswordResetToken → Bool
is_unused_of user_id k t = t.user_id == user_id && not (is_some t.used_at)

module _ (P : Primitives) where
  abbrev pub set_password : P.Hash → User P → User P
  set_password h u = record u { password_hash = some h }

  -- `!user || user.isBanned || user.deletedAt`
  abbrev pub is_out : Option (User P) → Bool
  is_out none = true
  is_out (some u) = u.is_banned || is_some u.deleted_at

  abbrev pub is_addressed : String → ℕ → User P → Bool
  is_addressed email k u = P.alike u.email email

  abbrev hash_of : Option (User P) → Option P.Hash
  hash_of none = none
  hash_of (some u) = u.password_hash

module _ (P : Primitives) (T : Tables P) where
  -- The number of the sessions that were revoked.
  unfoldable pub change_password :
      (user_id salt : ℕ) (current_password new_password : String) → Action (Store P T) ℕ
  change_password user_id salt current_password new_password = do
    u ← find_unique (user P T) user_id
    raise_if (not (checks P current_password (hash_of P u))) (unauthorized "invalid_credentials")
    update (user P T) user_id (set_password P (P.hash new_password salt))
    revoke_all_for_user P T user_id

  -- The account may get a mail: it has a password, is not banned, and is there or may be restored.
  abbrev may_reset : ℕ → User P → Option AccountDeletion → Bool
  may_reset now u d =
      is_some u.password_hash
      && (not u.is_banned && (not (is_some u.deleted_at) || can_restore now d))

  pub issue_reset : (id now user_id : ℕ) (plain : String) → Action (Store P T) ⊤
  issue_reset id now user_id plain = do
    delete_many (reset_token P T) (is_unused_of user_id)
    create (reset_token P T) id (record {
      user_id = user_id;
      token_hash = P.digest plain;
      expires_at = now + reset_ttl;
      used_at = none;
    })
    send P T (reset_mail user_id plain)

  abbrev forgot_found : (id now : ℕ) (plain : String) → Option (ℕ × User P) → Action (Store P T) ⊤
  forgot_found id now plain none = pure tt
  forgot_found id now plain (some (user_id, u)) = do
    d ← find_unique (deletion P T) user_id
    if may_reset now u d then issue_reset id now user_id plain else pure tt

  -- The answer is the same for every address.
  pub forgot_password : (id now : ℕ) (plain email : String) → Action (Store P T) ⊤
  forgot_password id now plain email = do
    found ← find_first (user P T) (is_addressed P (P.normal email))
    forgot_found id now plain found

  unfoldable pub reset_password :
      (now salt : ℕ) (token new_password : String) → Action (Store P T) ℕ
  reset_password now salt token new_password = do
    found ← find_first (reset_token P T) (is_usable now (P.digest token))
    rec ← or_raise found (bad_request "reset_token_invalid")
    u ← find_unique (user P T) rec.1.user_id
    raise_if (is_out P u) (bad_request "reset_token_invalid")
    transaction (do
      update (reset_token P T) rec.0 (λ t. record t { used_at = some now })
      update (user P T) rec.1.user_id (set_password P (P.hash new_password salt)))
    revoke_all_for_user P T rec.1.user_id
