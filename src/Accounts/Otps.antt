-- ===== src/Accounts/Otps.antt =====
-- One-time codes: `requestOtp` and `verifyOtp` in apps/api/src/modules/auth/auth.service.ts. The code,
-- the salt and the identifier of a row are arguments; the setting `OTP_AUTH_ENABLED` is one too.
pub mod Attempts
use motogram.Prelude.{
  ℕ, ◌+◌, ◌-◌, ◌*◌, ◌<◌, Bool, true, false, Option, none, some, is_some, not, String, ltb, leb,
  sort, head?, ◌==◌, ◌&&◌, ◌||◌, if◌then◌else◌,
}
use motogram.Prelude.Action.{
  ⊤, Error, bad_request, unauthorized, forbidden, too_many_requests, Action, pure, raise, raise_if,
  or_raise, do_if, ◌>>=◌, ◌>>◌, count, find_first, find_many, create, update, update_many,
}
use motogram.Accounts.Schema.{Primitives, User, OtpCode, Tables, Store, user, otp, send, otp_sms}

abbrev otp_ttl : ℕ
otp_ttl = 5 * 60 * 1000

abbrev otp_cooldown : ℕ
otp_cooldown = 60 * 1000

abbrev pub max_attempts : ℕ
max_attempts = 5

module _ (P : Primitives) where
  abbrev is_phone : String → Option String → Bool
  is_phone phone none = false
  is_phone phone (some p) = P.same p phone

  abbrev pub is_reachable : String → ℕ → User P → Bool
  is_reachable phone k u =
      is_phone phone u.phone_number && (not (is_some u.deleted_at) && not u.is_banned)

  abbrev owns_phone : String → ℕ → User P → Bool
  owns_phone phone k u = is_phone phone u.phone_number && not (is_some u.deleted_at)

  abbrev pub is_unused : String → ℕ → OtpCode P → Bool
  is_unused phone k c = P.same c.phone phone && not (is_some c.used_at)

  abbrev pub is_valid : String → ℕ → ℕ → OtpCode P → Bool
  is_valid phone now k c = P.same c.phone phone && (not (is_some c.used_at) && ltb now c.expires_at)

  -- `orderBy: { createdAt: 'desc' }`
  abbrev pub newer : ℕ × OtpCode P → ℕ × OtpCode P → Bool
  newer a b = leb b.1.created_at a.1.created_at

  -- `Date.now() - latest.createdAt < OTP_COOLDOWN_MS`
  abbrev pub is_recent : ℕ → Option (ℕ × OtpCode P) → Bool
  is_recent now none = false
  is_recent now (some c) = ltb now (c.1.created_at + otp_cooldown)

  abbrev pub new_code : (now salt : ℕ) (phone plain : String) → OtpCode P
  new_code now salt phone plain = record {
    phone = phone;
    code_hash = P.hash plain salt;
    expires_at = now + otp_ttl;
    used_at = none;
    attempt_count = 0;
    created_at = now;
  }

  abbrev pub use_at : ℕ → OtpCode P → OtpCode P
  use_at now c = record c { used_at = some now }

  abbrev pub count_attempt : OtpCode P → OtpCode P
  count_attempt c = record c { attempt_count = c.attempt_count + 1 }

module _ (P : Primitives) (T : Tables P) where
  -- `findFirst` in the order of the creation, the latest first.
  abbrev latest : (ℕ → OtpCode P → Bool) → Action (Store P T) (Option (ℕ × OtpCode P))
  latest p s = pure (head? (sort (newer P) (T.otp.find_many p s.otps))) s

  pub issue_otp : (sms_fails : Bool) (id now salt : ℕ) (phone plain : String) → Action (Store P T) ⊤
  issue_otp sms_fails id now salt phone plain = do
    last ← latest (is_unused P phone)
    raise_if (is_recent P now last) (too_many_requests "otp_rate_limited")
    update_many (otp P T) (is_unused P phone) (use_at P now)
    create (otp P T) id (new_code P now salt phone plain)
    do_if (not sms_fails) (send P T (otp_sms phone plain))

  pub request_otp :
      (enabled sms_fails : Bool) (id now salt : ℕ) (phone_number plain : String)
      → Action (Store P T) ⊤
  request_otp enabled sms_fails id now salt phone_number plain = do
    raise_if (not enabled) (forbidden "otp_disabled")
    u ← find_first (user P T) (is_reachable P (P.trim phone_number))
    do_if (is_some u) (issue_otp sms_fails id now salt (P.trim phone_number) plain)

  -- The code that was found is compared, and counted or used.
  pub try_code : (now : ℕ) (phone code : String) → ℕ × OtpCode P → Action (Store P T) Bool
  try_code now phone code (id, c) =
      if P.compare code c.code_hash
      then (do
        update (otp P T) id (use_at P now)
        n ← count (user P T) (owns_phone P phone)
        update_many (user P T) (owns_phone P phone) (λ u. record u { phone_verified_at = some now })
        pure (ltb 0 n))
      else (do update (otp P T) id (count_attempt P); raise (unauthorized "otp_code_invalid"))

  -- The result is `phoneVerified`.
  pub verify_otp : (enabled : Bool) (now : ℕ) (phone_number code : String) → Action (Store P T) Bool
  verify_otp enabled now phone_number code = do
    raise_if (not enabled) (forbidden "otp_disabled")
    found ← latest (is_valid P (P.trim phone_number) now)
    row ← or_raise found (bad_request "otp_invalid_or_expired")
    raise_if (leb max_attempts row.1.attempt_count) (forbidden "otp_locked")
    try_code now (P.trim phone_number) (P.trim code) row
