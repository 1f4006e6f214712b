-- ===== src/Accounts/Tests/Calls.antt =====
-- Calls of the account services, run.
use motogram.Prelude.{◌≡◌, refl, true, false, none, some, [], ◌∷◌}
use motogram.Prelude.Action.{ok, err, is_ok, unauthorized, conflict, bad_request}
use motogram.Accounts.Schema.{refresh, refresh_secret, Store}
use motogram.Accounts.Tokens.{
  issue_token_pair, revoke_refresh, revoke_all_for_user, is_refresh_active, refresh_ttl,
}
use motogram.Accounts.Login.{register, check_window, start_session, rotate, refresh_tokens, logout}
use motogram.Accounts.Passwords.{change_password}
use motogram.Accounts.Emails.{request_email_change, verify_email_change}
use motogram.Accounts.Oauth.{
  apple_sign_in, google_sign_in, sign_in, register_oauth, create_oauth_user,
  issue_session_after_login,
}
use motogram.Accounts.Deletion.{get_status, on_auth_login, cancel_deletion_on_login, restore}
use motogram.Accounts.Tests.{primitives, tables, rider, town}

ann_is_taken :
    (register primitives tables 9 20 100 0 "ann" "cat@road" "pass" town).0
    ≡ err (conflict "user_already_exists")
unfolding register
ann_is_taken = refl

cat_registers : is_ok (register primitives tables 9 20 100 0 "cat" "cat@road" "pass" town).0 ≡ true
unfolding register issue_token_pair
cat_registers = refl

rotates_once :
    is_ok
      (refresh_tokens primitives tables 11 100
        (primitives.sign refresh_secret 0 refresh_ttl (refresh 1 10))
        town).0
    ≡ true
unfolding refresh_tokens rotate is_refresh_active revoke_refresh issue_token_pair
rotates_once = refl

logs_out :
    tables.refresh_key.find_unique
      (1, 10)
      (logout primitives tables 1 100 none true town).1.refresh_keys
    ≡ none
unfolding logout revoke_all_for_user
logs_out = refl

wrong_password :
    (change_password primitives tables 1 0 "guess" "new" town).0
    ≡ err (unauthorized "invalid_credentials")
unfolding change_password
wrong_password = refl

changes_password : (change_password primitives tables 1 0 "pass" "new" town).0 ≡ ok 1
unfolding change_password revoke_all_for_user
changes_password = refl

same_email :
    (request_email_change primitives tables 4 100 1 "link" "pass" "ann" town).0
    ≡ err (bad_request "email_unchanged")
unfolding request_email_change
same_email = refl

abbrev moved : Store primitives tables
moved = record town {
  users = ((1, record (rider none) { pending_email = some "ann@road" }) ∷ [], (refl, tt));
  email_tokens = (
    (
      4,
      record {
        user_id = 1;
        new_email = "ann@road";
        token_hash = 7;
        expires_at = 9000;
        used_at = none;
      },
    )
        ∷ [],
    (refl, tt),
  );
}

moves : (verify_email_change primitives tables 100 "link" moved).0 ≡ ok tt
unfolding verify_email_change revoke_all_for_user
moves = refl

apple_account :
    is_ok
      (apple_sign_in primitives tables true false 9 20 100 "hidden"
        (some (record { sub = "x"; email = some "cat" }))
        none
        ("ann" ∷ "cat" ∷ [])
        town).0
    ≡ true
unfolding apple_sign_in sign_in register_oauth create_oauth_user issue_session_after_login
    check_window start_session on_auth_login cancel_deletion_on_login restore issue_token_pair
apple_account = refl

google_conflict :
    (google_sign_in primitives tables true false 9 20 100
      (some (record { sub = "x"; email = some "ann" }))
      ("cat" ∷ [])
      town).0
    ≡ err (conflict "oauth_email_provider_mismatch")
unfolding google_sign_in sign_in register_oauth
google_conflict = refl

bob_waits :
    (get_status primitives tables 2 100 town).0
    ≡ ok (record {
      pending = true;
      requested_at = some 5;
      scheduled_for = some 5000;
      days_remaining = some 1;
    })
unfolding get_status
bob_waits = refl
