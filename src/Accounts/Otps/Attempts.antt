-- ===== src/Accounts/Otps/Attempts.antt =====
-- How often the code of a row can be tried.
use motogram.Prelude.{
  ℕ, ◌≡◌, ◌≤◌, refl, Bool, true, false, some, String, head?, sort, List, inl, inr, not, arith,
  ==_iff, Bool-cases, Option-cases,
}
use motogram.Prelude.Queries.{head?-sort-In}
use motogram.Prelude.History.{run, run_inv}
use motogram.Prelude.Action.{do_if}
use motogram.Accounts.Schema.{Primitives, Tables, Store, OtpCode, Mail, send}
use motogram.Accounts.Otps.{
  request_otp, issue_otp, verify_otp, try_code, is_valid, is_unused, newer, is_recent, is_reachable,
  max_attempts, new_code, use_at, count_attempt,
}

-- The calls of the clients, each with the time at which it is made.
pub data Call : Type 0 where
  request : (sms_fails : Bool) (id now salt : ℕ) (phone plain : String) → Call
  verify : (now : ℕ) (phone code : String) → Call

module _ (P : Primitives) (T : Tables P) where
  abbrev BoundedRows : T.otp.Rows → Type 0
  BoundedRows t =
      (id : ℕ) (c : OtpCode P) → T.otp.find_unique id t ≡ some c → c.attempt_count ≤ max_attempts

  -- No code was tried more often than allowed.
  abbrev pub IsBounded : Store P T → Type 0
  IsBounded s = BoundedRows s.otps

  unfoldable pub step : Store P T → Call → Store P T
  step s (request sms_fails id now salt phone plain) =
      (request_otp P T true sms_fails id now salt phone plain s).1
  step s (verify now phone code) = (verify_otp P T true now phone code s).1

  -- The rows once the open codes of a phone are closed.
  abbrev closed : (now : ℕ) (phone : String) → T.otp.Rows → T.otp.Rows
  closed now phone = T.otp.update_many (is_unused P phone) (use_at P now)

  closed-BoundedRows :
      (now : ℕ) (phone : String) (t : T.otp.Rows) → BoundedRows t → BoundedRows (closed now phone t)
  closed-BoundedRows now phone t h k c found = elim (Option-cases (T.otp.find_unique k t)) [
    | inl gone ↦ ground (arith, T.otp.find-update_many (is_unused P phone) (use_at P now) k t)
    | inr (d, there) ↦
        ground (arith, h k d there, T.otp.find-update_many (is_unused P phone) (use_at P now) k t)
  ]

  write-BoundedRows :
      (id : ℕ) (d : OtpCode P) (t : T.otp.Rows)
      → d.attempt_count ≤ max_attempts
      → BoundedRows t
      → BoundedRows (T.otp.write id d t)
  write-BoundedRows id d t few h k c found = ground (arith, T.otp.find-write k id d t, h k c)

  send-rows :
      (sms_fails : Bool) (m : Mail) (s : Store P T)
      → (do_if (not sms_fails) (send P T m) s).1.otps ≡ s.otps
  send-rows true m s = refl
  send-rows false m s = refl

  issue-IsBounded :
      (sms_fails : Bool) (id now salt : ℕ) (phone plain : String) (s : Store P T)
      → IsBounded s
      → IsBounded (issue_otp P T sms_fails id now salt phone plain s).1
  unfolding issue_otp
  issue-IsBounded sms_fails id now salt phone plain s h =
      elim (Bool-cases
        (is_recent P now (head? (sort (newer P) (T.otp.find_many (is_unused P phone) s.otps))))) [
          | inl early ↦ rw early h
          | inr free ↦
              rw free (elim (Option-cases (T.otp.find_unique id (closed now phone s.otps))) [
                | inl fresh ↦ rw fresh (
                    rw (send-rows sms_fails _ _) (
                      rw fresh (
                        write-BoundedRows id (new_code P now salt phone plain)
                          (closed now phone s.otps) (omega arith)
                          (closed-BoundedRows now phone s.otps h))))
                | inr (c, clash) ↦ rw clash (rw clash (closed-BoundedRows now phone s.otps h))
              ])
        ]

  request-IsBounded :
      (s : Store P T) (sms_fails : Bool) (id now salt : ℕ) (phone plain : String)
      → IsBounded s
      → IsBounded (request_otp P T true sms_fails id now salt phone plain s).1
  unfolding request_otp
  request-IsBounded s sms_fails id now salt phone plain h =
      elim (Option-cases (head? (T.user.find_many (is_reachable P (P.trim phone)) s.users))) [
        | inl gone ↦ rw gone h
        | inr (u, there) ↦ rw there (issue-IsBounded sms_fails id now salt (P.trim phone) plain s h)
      ]

  verify-IsBounded :
      (s : Store P T) (now : ℕ) (phone code : String)
      → IsBounded s
      → IsBounded (verify_otp P T true now phone code s).1
  unfolding verify_otp try_code
  verify-IsBounded s now phone code h k c found =
      elim (Option-cases
        (head? (sort (newer P) (T.otp.find_many (is_valid P (P.trim phone) now) s.otps)))) [
          | inl gone ↦ ground (arith, h k c)
          | inr ((id, d), e) ↦ ground (
            arith,
            h k c,
            h id d,
            ==_iff id k,
            T.otp.find_many_sound (is_valid P (P.trim phone) now) id d s.otps
                (head?-sort-In (newer P) _ _ e),
            T.otp.find-write k id (use_at P now d) s.otps,
            T.otp.find-write k id (count_attempt P d) s.otps,
          )
        ]

  -- If no code was tried more than five times, then no code was after any history of requests and
  -- attempts, those that throw included.
  pub run-IsBounded :
      (s : Store P T) (calls : List Call) → IsBounded s → IsBounded (run step s calls)
  unfolding step
  run-IsBounded = run_inv step IsBounded (λ s c h. elim c as (λ k. IsBounded (step s k)) [
    | request sms_fails id now salt phone plain ↦
        request-IsBounded s sms_fails id now salt phone plain h
    | verify now phone code ↦ verify-IsBounded s now phone code h
  ])
