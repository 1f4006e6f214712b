-- ===== src/Accounts/Oauth.antt =====
-- Signing in with Apple or Google: `appleSignIn` and `googleSignIn` in
-- apps/api/src/modules/auth/auth.service.ts. What the providers' tokens say (oauth-token.verify.ts calls
-- their libraries), the names that are tried for a new account and the address that stands in for one
-- are arguments.
pub mod Names
use motogram.Prelude.{
  ℕ, Bool, true, false, Option, none, some, is_some, not, String, ◌==◌, ◌&&◌, ◌||◌, List, [], ◌∷◌,
  if◌then◌else◌,
}
use motogram.Prelude.Pages.{take}
use motogram.Prelude.Action.{
  ⊤, unauthorized, conflict, service_unavailable, Action, pure, raise, raise_if, or_raise, ◌>>=◌,
  ◌>>◌, find_unique, find_first, create,
}
use motogram.Accounts.Schema.{Role, user_role, Primitives, User, Tables, Store, user}
use motogram.Accounts.Login.{Session, check_window, start_session}

pub data Provider : Type 0 where
  apple google : Provider

-- What a provider's token says: the subject, and an address where there is one.
pub record OauthClaims : Type 0 where
  pub sub : String
  pub email : Option String

module _ (P : Primitives) where
  abbrev sub_of : Provider → User P → Option String
  sub_of apple u = u.apple_sub
  sub_of google u = u.google_sub

  abbrev is_sub : String → Option String → Bool
  is_sub sub none = false
  is_sub sub (some t) = P.same t sub

  abbrev has_sub : Provider → String → ℕ → User P → Bool
  has_sub provider sub k u = is_sub sub (sub_of provider u)

  abbrev has_email : String → ℕ → User P → Bool
  has_email email k u = P.alike u.email email

  -- A unique key is taken: the address, the name or the subject.
  abbrev pub clashes : User P → ℕ → User P → Bool
  clashes n k u =
      P.same u.email n.email
      || (P.same u.username n.username
          || (is_taken_sub n.apple_sub u.apple_sub || is_taken_sub n.google_sub u.google_sub))
    where
      is_taken_sub : Option String → Option String → Bool
      is_taken_sub none t = false
      is_taken_sub (some s) t = is_sub s t

  abbrev pub new_oauth_user : Provider → (sub email username : String) → User P
  new_oauth_user apple sub email username = record {
    email = email;
    pending_email = none;
    username = username;
    password_hash = none;
    apple_sub = some sub;
    google_sub = none;
    phone_number = none;
    phone_verified_at = none;
    role = user_role;
    is_banned = false;
    last_seen_at = none;
    deleted_at = none;
  }
  new_oauth_user google sub email username = record {
    email = email;
    pending_email = none;
    username = username;
    password_hash = none;
    apple_sub = none;
    google_sub = some sub;
    phone_number = none;
    phone_verified_at = none;
    role = user_role;
    is_banned = false;
    last_seen_at = none;
    deleted_at = none;
  }

module _ (P : Primitives) (T : Tables P) where
  -- `assertPasswordlessUserCanLogin`, then the session.
  unfoldable pub issue_session_after_login :
      (queue_fails : Bool) (jti now : ℕ) → ℕ × User P → Action (Store P T) (Session P)
  issue_session_after_login queue_fails jti now (id, u) = do
    raise_if u.is_banned (unauthorized "account_banned")
    check_window P T id now u.deleted_at
    start_session P T queue_fails jti now id u

  -- The loop over the names: a name that clashes is passed over.
  unfoldable pub create_oauth_user :
      (id : ℕ) → Provider → (sub email : String) → List String → Action (Store P T) (ℕ × User P)
  create_oauth_user id provider sub email [] = raise (conflict "oauth_username_exhausted")
  create_oauth_user id provider sub email (n ∷ ns) =
      let rest = create_oauth_user id provider sub email ns in
      let made = new_oauth_user P provider sub email n in
      do
        other ← find_first (user P T) (clashes P made)
        if is_some other then rest else (do u ← create (user P T) id made; pure (id, u))

  -- `assertNoOAuthEmailConflict`
  abbrev assert_no_conflict : Provider → (sub email : String) → Action (Store P T) ⊤
  assert_no_conflict provider sub email = do
    found ← find_first (user P T) (has_email P email)
    raise_if (is_foreign found) (conflict "oauth_email_provider_mismatch")
    where
      is_foreign : Option (ℕ × User P) → Bool
      is_foreign none = false
      is_foreign (some u) = not (is_sub P sub (sub_of P provider u.1))

  -- The first eight names are tried.
  unfoldable pub register_oauth :
      (queue_fails : Bool) (id jti now : ℕ)
      → Provider
      → (sub email : String) → List String
      → Action (Store P T) (Session P)
  register_oauth queue_fails id jti now provider sub email names = do
    assert_no_conflict provider sub email
    u ← create_oauth_user id provider sub email (take 8 names)
    issue_session_after_login queue_fails jti now u

  abbrev sign_in_found :
      Bool
      → (id jti now : ℕ) → Provider
      → (sub email : String) → List String
      → Option (ℕ × User P)
      → Action (Store P T) (Session P)
  sign_in_found queue_fails id jti now provider sub email names none =
      register_oauth queue_fails id jti now provider sub email names
  sign_in_found queue_fails id jti now provider sub email names (some u) =
      issue_session_after_login queue_fails jti now u

  unfoldable pub sign_in :
      Bool
      → (id jti now : ℕ) → Provider
      → (sub email : String) → List String
      → Action (Store P T) (Session P)
  sign_in queue_fails id jti now provider sub email names = do
    found ← find_first (user P T) (has_sub P provider sub)
    sign_in_found queue_fails id jti now provider sub email names found

  -- `emailFromClient ?? emailFromToken ?? this.applePlaceholderEmail(sub)`
  abbrev apple_email : (placeholder : String) → Option String → Option String → String
  apple_email placeholder (some e) _ = P.normal e
  apple_email placeholder none (some e) = P.normal e
  apple_email placeholder none none = placeholder

  unfoldable pub apple_sign_in :
      (configured queue_fails : Bool) (id jti now : ℕ) (placeholder : String)
      → Option OauthClaims
      → (email : Option String) → List String
      → Action (Store P T) (Session P)
  apple_sign_in configured queue_fails id jti now placeholder token email names = do
    raise_if (not configured) (service_unavailable "oauth_apple_not_configured")
    claims ← or_raise token (unauthorized "oauth_token_invalid")
    sign_in queue_fails id jti now apple claims.sub (apple_email placeholder email claims.email)
        names

  -- The address of a Google account is always there.
  abbrev google_email : Option String → String
  google_email none = ""
  google_email (some e) = P.normal e

  unfoldable pub google_sign_in :
      (configured queue_fails : Bool) (id jti now : ℕ)
      → Option OauthClaims
      → List String
      → Action (Store P T) (Session P)
  google_sign_in configured queue_fails id jti now token names = do
    raise_if (not configured) (service_unavailable "oauth_google_not_configured")
    claims ← or_raise token (unauthorized "oauth_token_invalid")
    sign_in queue_fails id jti now google claims.sub (google_email claims.email) names
