-- ===== src/Accounts/Tests.antt =====
-- Accounts on which the services run, with libraries that keep what they are given.
mod Sessions
mod Deletions
mod Calls
use text.Mathlib.Text.{◌==◌ as eq}
use text.Mathlib.TextPositions.{eq_refl}
use motogram.Prelude.{
  ℕ, ◌+◌, ◌/◌, ◌<◌, ◌≡◌, refl, Bool, true, false, Option, none, some, ltb, ◌&&◌, String, List, [],
  ◌∷◌, if◌then◌else◌, arith,
}
use motogram.Prelude.Assoc.{id_table, pair_table}
use motogram.Prelude.Action.{⊤}
use motogram.Accounts.Schema.{
  Secret, access_secret, refresh_secret, Claims, user_role, Primitives, User, OtpCode,
  AccountDeletion, PasswordResetToken, EmailChangeToken, Tables, Store,
}

abbrev is_same : Secret → Secret → Bool
is_same access_secret access_secret = true
is_same refresh_secret refresh_secret = true
is_same _ _ = false

abbrev Signed : Type 0
Signed = Secret × ℕ × ℕ × Claims

abbrev verify_signed : Secret → ℕ → Signed → Option Claims
verify_signed key now (signer, issued, ttl, c) =
    if is_same key signer && ltb (now / 1000) (issued / 1000 + ttl) then some c else none

pub verify_signed_lem :
    (key : Secret) (issued ttl now : ℕ) (c : Claims)
    → now / 1000 < issued / 1000 + ttl
    → verify_signed key now (key, issued, ttl, c) ≡ some c
verify_signed_lem access_secret issued ttl now c valid = ground arith
verify_signed_lem refresh_secret issued ttl now c valid = ground arith

abbrev pub primitives : Primitives
primitives = record {
  Hash = String;
  Token = Signed;
  hash = λ plain salt. plain;
  compare = eq;
  compare-hash = λ plain salt. eq_refl plain;
  digest = λ s. if eq s "link" then 7 else 8;
  sign = λ key now ttl c. (key, now, ttl, c);
  verify = verify_signed;
  verify-sign = verify_signed_lem;
  trim = λ s. s;
  normal = λ s. s;
  same = eq;
  alike = eq;
}

abbrev pub tables : Tables primitives
tables = record {
  user = id_table (User primitives);
  deletion = id_table AccountDeletion;
  refresh_key = pair_table ⊤;
  reset_token = id_table PasswordResetToken;
  email_token = id_table EmailChangeToken;
  otp = id_table (OtpCode primitives);
  job = pair_table ⊤;
}

abbrev pub rider : Option ℕ → User primitives
rider deleted_at = record {
  email = "ann";
  pending_email = none;
  username = "ann";
  password_hash = some "pass";
  apple_sub = none;
  google_sub = none;
  phone_number = none;
  phone_verified_at = none;
  role = user_role;
  is_banned = false;
  last_seen_at = none;
  deleted_at = deleted_at;
}

-- User 1 has a session under 10 and a link to a new password; a second user has asked for the deletion.
abbrev pub town : Store primitives tables
town = record {
  users = (
    (1, rider none) ∷ (2, record (rider (some 5)) { email = "bob"; username = "bob" }) ∷ [],
    (refl, (refl, tt)),
  );
  deletions = (
    (
      2,
      record {
        requested_at = 5;
        scheduled_for = 5000;
        cancelled_at = none;
        executed_at = none;
        job_id = some (2, 5000);
      },
    )
        ∷ [],
    (refl, tt),
  );
  refresh_keys = (((1, 10), tt) ∷ [], (refl, tt));
  reset_tokens = (
    (3, record { user_id = 1; token_hash = 7; expires_at = 9000; used_at = none }) ∷ [],
    (refl, tt),
  );
  email_tokens = ([], tt);
  otps = ([], tt);
  jobs = (((2, 5000), tt) ∷ [], (refl, tt));
  mails = [];
}
