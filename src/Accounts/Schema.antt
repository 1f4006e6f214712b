-- ===== src/Accounts/Schema.antt =====
-- The tables and keys of the accounts (apps/api/prisma/schema.prisma, and the refresh tokens of
-- apps/api/src/modules/redis/redis.service.ts), and the libraries that the code calls.
use motogram.Prelude.{
  ℕ, ◌+◌, ◌/◌, ◌<◌, ◌≡◌, Bool, true, Option, some, String, List, ◌∷◌, ◌==◌, pair_eq,
}
use motogram.Prelude.Table.{Table}
use motogram.Prelude.Action.{⊤, Action, Model, modify}

-- `UserRole`
pub data Role : Type 0 where
  user_role moderator_role admin_role : Role

-- `AccessPayload` and `RefreshPayload`
pub data Claims : Type 0 where
  access : (sub : ℕ) → String → Role → Claims
  refresh : (sub jti : ℕ) → Claims

pub data Secret : Type 0 where
  access_secret refresh_secret : Secret

-- bcrypt, SHA-256, JSON web tokens, and the strings of JavaScript and of the database. Times are
-- milliseconds; a token counts its time to live in full seconds.
pub record Primitives : Type 1 where
  pub Hash : Type 0
  pub Token : Type 0
  pub hash : (plain : String) (salt : ℕ) → Hash
  pub compare : String → Hash → Bool
  pub compare-hash : (plain : String) (salt : ℕ) → compare plain (hash plain salt) ≡ true
  pub digest : String → ℕ
  pub sign : Secret → (now ttl : ℕ) → Claims → Token
  pub verify : Secret → (now : ℕ) → Token → Option Claims
  pub verify-sign :
      (key : Secret) (issued ttl now : ℕ) (c : Claims)
      → now / 1000 < issued / 1000 + ttl
      → verify key now (sign key issued ttl c) ≡ some c
  -- `s.trim()` and `s.trim().toLowerCase()`
  pub trim : String → String
  pub normal : String → String
  -- `equals` on a column, and with `mode: 'insensitive'`
  pub same : String → String → Bool
  pub alike : String → String → Bool

module _ (P : Primitives) where
  pub record User : Type 0 where
    pub email : String
    pub pending_email : Option String
    pub username : String
    pub password_hash : Option P.Hash
    pub apple_sub : Option String
    pub google_sub : Option String
    pub phone_number : Option String
    pub phone_verified_at : Option ℕ
    pub role : Role
    pub is_banned : Bool
    pub last_seen_at : Option ℕ
    pub deleted_at : Option ℕ

  -- `OtpCode`
  pub record OtpCode : Type 0 where
    pub phone : String
    pub code_hash : P.Hash
    pub expires_at : ℕ
    pub used_at : Option ℕ
    pub attempt_count : ℕ
    pub created_at : ℕ

pub record AccountDeletion : Type 0 where
  pub requested_at : ℕ
  pub scheduled_for : ℕ
  pub cancelled_at : Option ℕ
  pub executed_at : Option ℕ
  -- `deletion:{user}:{scheduledFor}`
  pub job_id : Option (ℕ × ℕ)

pub record PasswordResetToken : Type 0 where
  pub user_id : ℕ
  pub token_hash : ℕ
  pub expires_at : ℕ
  pub used_at : Option ℕ

pub record EmailChangeToken : Type 0 where
  pub user_id : ℕ
  pub new_email : String
  pub token_hash : ℕ
  pub expires_at : ℕ
  pub used_at : Option ℕ

-- What is handed to the mail and message queues.
pub data Mail : Type 0 where
  reset_mail : (user_id : ℕ) → (token : String) → Mail
  email_mail : (user_id : ℕ) → (new_email token : String) → Mail
  otp_sms : (phone code : String) → Mail

-- `refresh_token:{user}:{jti}` is keyed by (user, jti). The delayed jobs of the deletion queue are
-- keyed by their identifier, the user and the time.
pub record Tables (P : Primitives) : Type 1 where
  pub user : Table ◌==◌ (User P)
  pub deletion : Table ◌==◌ AccountDeletion
  pub refresh_key : Table pair_eq ⊤
  pub reset_token : Table ◌==◌ PasswordResetToken
  pub email_token : Table ◌==◌ EmailChangeToken
  pub otp : Table ◌==◌ (OtpCode P)
  pub job : Table pair_eq ⊤

pub record Store (P : Primitives) (T : Tables P) : Type 0 where
  pub users : T.user.Rows
  pub deletions : T.deletion.Rows
  pub refresh_keys : T.refresh_key.Rows
  pub reset_tokens : T.reset_token.Rows
  pub email_tokens : T.email_token.Rows
  pub otps : T.otp.Rows
  pub jobs : T.job.Rows
  pub mails : List Mail

module _ (P : Primitives) (T : Tables P) where
  abbrev pub user : Model (Store P T) ◌==◌ (User P)
  user = record { table = T.user; get = λ s. s.users; put = λ t s. record s { users = t } }

  abbrev pub deletion : Model (Store P T) ◌==◌ AccountDeletion
  deletion = record {
    table = T.deletion;
    get = λ s. s.deletions;
    put = λ t s. record s { deletions = t };
  }

  abbrev pub refresh_key : Model (Store P T) pair_eq ⊤
  refresh_key = record {
    table = T.refresh_key;
    get = λ s. s.refresh_keys;
    put = λ t s. record s { refresh_keys = t };
  }

  abbrev pub reset_token : Model (Store P T) ◌==◌ PasswordResetToken
  reset_token = record {
    table = T.reset_token;
    get = λ s. s.reset_tokens;
    put = λ t s. record s { reset_tokens = t };
  }

  abbrev pub email_token : Model (Store P T) ◌==◌ EmailChangeToken
  email_token = record {
    table = T.email_token;
    get = λ s. s.email_tokens;
    put = λ t s. record s { email_tokens = t };
  }

  abbrev pub otp : Model (Store P T) ◌==◌ (OtpCode P)
  otp = record { table = T.otp; get = λ s. s.otps; put = λ t s. record s { otps = t } }

  abbrev pub job : Model (Store P T) pair_eq ⊤
  job = record { table = T.job; get = λ s. s.jobs; put = λ t s. record s { jobs = t } }

  -- `queue.enqueue(...)`
  abbrev pub send : Mail → Action (Store P T) ⊤
  send m = modify (λ s. record s { mails = m ∷ s.mails })
