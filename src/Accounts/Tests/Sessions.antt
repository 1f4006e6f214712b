-- ===== src/Accounts/Tests/Sessions.antt =====
-- Logins, tokens and passwords: the theorems at concrete inputs.
use motogram.Prelude.{ℕ, ◌≡◌, ◌⊎◌, refl, true, false, none, some, String, [], ◌∷◌, All, In, arith}
use motogram.Prelude.Action.{ok, err, conflict, IsRefused}
use motogram.Prelude.History.{run}
use motogram.Accounts.Schema.{
  access, refresh, access_secret, refresh_secret, user_role, User, PasswordResetToken, Store,
  reset_mail,
}
use motogram.Accounts.Tokens.{access_ttl, refresh_ttl, issue_token_pair, revoke_all_for_user}
use motogram.Accounts.Deletion.{on_auth_login, cancel_deletion_on_login, restore}
use motogram.Accounts.Deletion.Phases.{live, phase_of, IsConsistent}
use motogram.Accounts.Login.{refresh_tokens, login, check_window, start_session, checks, Session}
use motogram.Accounts.Login.Rotation.{refresh_replay}
use motogram.Accounts.Login.Return.{login_revives, IsAdmitted}
use motogram.Accounts.Passwords.{reset_password, is_usable, forgot_password}
use motogram.Accounts.Passwords.Reset.{reset_signs_out, reset_once}
use motogram.Accounts.Passwords.Restorable.{forgot_useless}
use motogram.Accounts.Otps.Attempts.{IsBounded, step, run-IsBounded, request, verify}
use motogram.Accounts.Oauth.{apple, create_oauth_user}
use motogram.Accounts.Oauth.Names.{create_oauth_user_lem, IsFree, IsTaken, made}
use motogram.Accounts.Tests.{primitives, tables, rider, town}

refresh_replay_example :
    let token = primitives.sign refresh_secret 0 refresh_ttl (refresh 1 10) in
    let s' = (refresh_tokens primitives tables 11 1000 token town).1 in
    IsRefused (refresh_tokens primitives tables 12 2000 token) s'
refresh_replay_example =
    refresh_replay primitives tables town 0 11 1000 1 10 (λ e. ground arith) (omega arith) 12 2000
      (omega arith)

town-IsConsistent : IsConsistent primitives tables town
town-IsConsistent = ((λ id u found. ground arith), λ id d found. ground arith)

abbrev bobs : Session primitives
bobs = (
  2,
  record {
    access_token = (access_secret, 100, access_ttl, access 2 "bob" user_role);
    refresh_token = (refresh_secret, 100, refresh_ttl, refresh 2 20);
  },
)

bob_logs_in : (login primitives tables false 20 100 "bob" "pass" town).0 ≡ ok bobs
unfolding login check_window start_session on_auth_login cancel_deletion_on_login restore
    issue_token_pair
bob_logs_in = refl

login_revives_example :
    ((u : User primitives) × IsAdmitted primitives tables 100 "bob" "pass" town 2 u)
    × (phase_of primitives tables (login primitives tables false 20 100 "bob" "pass" town).1 2
        ≡ live)
login_revives_example =
    login_revives primitives tables false 20 100 "bob" "pass" town bobs town-IsConsistent
      bob_logs_in

reset_works : (reset_password primitives tables 100 0 "link" "new" town).0 ≡ ok 1
unfolding reset_password revoke_all_for_user
reset_works = refl

reset_signs_out_example :
    let s' = (reset_password primitives tables 100 0 "link" "new" town).1 in
    (id : ℕ) × (t : PasswordResetToken) × (u : User primitives) × (tables.reset_token.find_unique id
        town.reset_tokens
      ≡ some t)
    × (is_usable 100 (primitives.digest "link") id t ≡ true)
    × (tables.user.find_unique t.user_id s'.users ≡ some u)
    × (checks primitives "new" u.password_hash ≡ true)
    × ((jti : ℕ) → tables.refresh_key.find_unique (t.user_id, jti) s'.refresh_keys ≡ none)
reset_signs_out_example = reset_signs_out primitives tables town 100 0 "link" "new" 1 reset_works

reset_once_example :
    IsRefused
      (reset_password primitives tables 200 0 "link" "newer")
      (reset_password primitives tables 100 0 "link" "new" town).1
reset_once_example =
    reset_once primitives tables town 100 0 "link" "new" 1 (λ j k t u e f same. ground arith)
      reset_works 200 0 "newer"

forgot_useless_example :
    let (r, s') = forgot_password primitives tables 4 100 "reset" "bob" town in
    (r ≡ ok tt)
    × (s'.mails ≡ reset_mail 2 "reset" ∷ [])
    × IsRefused (reset_password primitives tables 200 0 "reset" "new") s'
forgot_useless_example =
    forgot_useless primitives tables town 4 100 2 "reset" "bob"
      (record (rider (some 5)) { email = "bob"; username = "bob" }) refl refl refl refl refl refl
      refl (λ k t found. ground arith) 200 0 "new"

-- User 1 has a phone, and a code that was tried four times.
abbrev texted : Store primitives tables
texted = record town {
  users = ((1, record (rider none) { phone_number = some "555" }) ∷ [], (refl, tt));
  otps = (
    (
      6,
      record {
        phone = "555";
        code_hash = "1234";
        expires_at = 9000;
        used_at = none;
        attempt_count = 4;
        created_at = 1;
      },
    )
        ∷ [],
    (refl, tt),
  );
}

run-IsBounded_example : IsBounded primitives tables (
    run
      (step primitives tables)
      texted
      (verify 100 "555" "9" ∷ verify 200 "555" "1234" ∷ request false 7 90000 0 "555" "5678" ∷ []))
run-IsBounded_example =
    run-IsBounded primitives tables texted
      (verify 100 "555" "9" ∷ verify 200 "555" "1234" ∷ request false 7 90000 0 "555" "5678" ∷ [])
      (λ id c found. ground arith)

create_oauth_user_lem_example :
    ((n : String) × In n ("ann" ∷ "cat" ∷ [])
      × IsFree primitives tables town 9 apple "x" "cat" n
      × (create_oauth_user primitives tables 9 apple "x" "cat" ("ann" ∷ "cat" ∷ []) town ≡ (
        ok (9, made primitives tables town 9 apple "x" "cat" n),
        record town {
          users = tables.user.write 9 (made primitives tables town 9 apple "x" "cat" n) town.users;
        },
      )))
    ⊎ (All (IsTaken primitives tables town 9 apple "x" "cat") ("ann" ∷ "cat" ∷ [])
        × (create_oauth_user primitives tables 9 apple "x" "cat" ("ann" ∷ "cat" ∷ []) town
            ≡ (err (conflict "oauth_username_exhausted"), town)))
create_oauth_user_lem_example =
    create_oauth_user_lem primitives tables town 9 apple "x" "cat" ("ann" ∷ "cat" ∷ []) refl
