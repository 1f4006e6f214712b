-- ===== src/Accounts/Login.antt =====
-- Registering, logging in and out, and the rotation of refresh tokens: `register`, `login`, `refresh`
-- and `logout` in apps/api/src/modules/auth/auth.service.ts. Times are milliseconds; salts, identifiers
-- and the time are arguments, and whether the deletion queue fails. The listener of the login event is `AccountService.onAuthLogin`.
pub mod Rotation
pub mod Return
use motogram.Prelude.{
  ℕ, ◌+◌, Bool, true, false, Option, none, some, is_some, not, String, ltb, ◌==◌, ◌&&◌, ◌||◌, List,
  ◌∷◌, if◌then◌else◌,
}
use motogram.Prelude.Action.{
  ⊤, Error, unauthorized, conflict, Action, pure, raise, raise_if, or_raise, transaction, do_if,
  ◌>>=◌, ◌>>◌, find_unique, find_first, create, update,
}
use motogram.Accounts.Schema.{
  Role, user_role, Claims, access, refresh, Primitives, User, AccountDeletion, Tables, Store, user,
  deletion, refresh_secret,
}
use motogram.Accounts.Tokens.{
  TokenPair, issue_token_pair, revoke_refresh, revoke_all_for_user, is_refresh_active,
}
use motogram.Accounts.Deletion.{can_restore, on_auth_login}

module _ (P : Primitives) where
  abbrev pub is_alike : String → Option String → Bool
  is_alike s none = false
  is_alike s (some t) = P.alike s t

  abbrev new_user : String → String → P.Hash → User P
  new_user email username password_hash = record {
    email = email;
    pending_email = none;
    username = username;
    password_hash = some password_hash;
    apple_sub = none;
    google_sub = none;
    phone_number = none;
    phone_verified_at = none;
    role = user_role;
    is_banned = false;
    last_seen_at = none;
    deleted_at = none;
  }

  -- `where` of `register` and of `login`
  abbrev pub is_taken : String → String → ℕ → User P → Bool
  is_taken email username k u =
      P.alike u.email email || (is_alike email u.pending_email || P.alike u.username username)

  abbrev pub is_called : String → ℕ → User P → Bool
  is_called identifier k u = P.alike u.email identifier || P.alike u.username identifier

  -- `bcrypt.compare` on a column that may be null.
  abbrev pub checks : String → Option P.Hash → Bool
  checks plain none = false
  checks plain (some h) = P.compare plain h

  -- `userId` and `tokens`
  abbrev pub Session : Type 0
  Session = ℕ × TokenPair P

module _ (P : Primitives) (T : Tables P) where
  unfoldable pub register :
      (id jti now salt : ℕ) (username email password : String) → Action (Store P T) (Session P)
  register id jti now salt username email password = do
    existing ← find_first (user P T) (is_taken P (P.normal email) (P.normal username))
    raise_if (is_some existing) (conflict "user_already_exists")
    u ←
        create (user P T) id
          (new_user P (P.normal email) (P.normal username) (P.hash password salt))
    tokens ← issue_token_pair P T jti now id u.username u.role
    pure (id, tokens)

  -- The check of a soft-deleted user: the window for a return must be open.
  unfoldable pub check_window : (user_id now : ℕ) → Option ℕ → Action (Store P T) ⊤
  check_window user_id now none = pure tt
  check_window user_id now (some t) = do
    d ← find_unique (deletion P T) user_id
    raise_if (not (can_restore now d)) (unauthorized "account_deleted")

  -- The end of every login: last seen, the event and its listener, the tokens.
  unfoldable pub start_session :
      (queue_fails : Bool) (jti now user_id : ℕ) → User P → Action (Store P T) (Session P)
  start_session queue_fails jti now user_id u = do
    update (user P T) user_id (λ u. record u { last_seen_at = some now })
    on_auth_login P T queue_fails user_id now
    tokens ← issue_token_pair P T jti now user_id u.username u.role
    pure (user_id, tokens)

  unfoldable pub login :
      (queue_fails : Bool) (jti now : ℕ) (identifier password : String)
      → Action (Store P T) (Session P)
  login queue_fails jti now identifier password = do
    found ← find_first (user P T) (is_called P (P.normal identifier))
    u ← or_raise found (unauthorized "invalid_credentials")
    raise_if (not (is_some u.1.password_hash)) (unauthorized "invalid_credentials")
    raise_if u.1.is_banned (unauthorized "account_banned")
    check_window u.0 now u.1.deleted_at
    raise_if (not (checks P password u.1.password_hash)) (unauthorized "invalid_credentials")
    start_session queue_fails jti now u.0 u.1

  -- The part of `refresh` that follows the checks of the token.
  unfoldable pub rotate : (jti now user_id old : ℕ) → Action (Store P T) (TokenPair P)
  rotate jti now user_id old = do
    active ← is_refresh_active P T user_id old
    raise_if (not active) (unauthorized "refresh_token_revoked")
    revoke_refresh P T user_id old
    found ← find_unique (user P T) user_id
    u ← or_raise found (unauthorized "user_inactive")
    raise_if (u.is_banned || is_some u.deleted_at) (unauthorized "user_inactive")
    issue_token_pair P T jti now user_id u.username u.role

  abbrev refresh_claims : (jti now : ℕ) → Option Claims → Action (Store P T) (TokenPair P)
  refresh_claims jti now none = raise (unauthorized "refresh_token_invalid")
  refresh_claims jti now (some (access sub username role)) = raise (unauthorized "wrong_token_type")
  refresh_claims jti now (some (refresh sub old)) = rotate jti now sub old

  unfoldable pub refresh_tokens : (jti now : ℕ) → P.Token → Action (Store P T) (TokenPair P)
  refresh_tokens jti now token = refresh_claims jti now (P.verify refresh_secret now token)

  -- A token that is no valid refresh token is let pass: logging out twice is no error. (A token of the
  -- other kind is not accepted by the secret, so its missing identifier is not modelled.)
  abbrev revoke_claims : Option Claims → Action (Store P T) ⊤
  revoke_claims (some (refresh sub old)) = revoke_refresh P T sub old
  revoke_claims _ = pure tt

  abbrev logout_one : (now : ℕ) → Option P.Token → Action (Store P T) ⊤
  logout_one now none = pure tt
  logout_one now (some token) = revoke_claims (P.verify refresh_secret now token)

  unfoldable pub logout :
      (user_id now : ℕ) → Option P.Token → (all_devices : Bool) → Action (Store P T) ⊤
  logout user_id now token true = do revoke_all_for_user P T user_id; pure tt
  logout user_id now token false = logout_one now token
