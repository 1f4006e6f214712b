-- ===== src/Accounts/Deletion/Phases/Histories.antt =====
-- The life of accounts along histories of calls.
use mathlib.Core.Path.{subst, subst⁻¹}
use motogram.Prelude.{ℕ, ◌+◌, ◌≡◌, ◌≢◌, ◌≤◌, ◌<◌, Bool, List, [], ◌∷◌, All, map, arith}
use motogram.Prelude.History.{run, run_inv_all}
use motogram.Accounts.Schema.{Primitives, Tables, Store}
use motogram.Accounts.Deletion.{
  grace_ms, request_deletion, cancel_deletion, on_auth_login, execute_deletions,
}
use motogram.Accounts.Deletion.Phases.{
  Phase, gone, live, waiting, Step, stay, asked, returned, purged, phase_of, IsConsistent, IsStep,
}
use motogram.Accounts.Deletion.Phases.Requests.{request-IsStep}
use motogram.Accounts.Deletion.Phases.Returns.{cancel-IsStep, login-IsStep}
use motogram.Accounts.Deletion.Phases.Sweep.{sweep-IsStep}

-- A call at a time; the queue may fail.
pub data Call : Type 0 where
  request_call cancel_call login_call : (queue_fails : Bool) (user_id now : ℕ) → Call
  sweep_call : (now : ℕ) → Call

abbrev pub time_of : Call → ℕ
time_of (request_call _ _ now) = now
time_of (cancel_call _ _ now) = now
time_of (login_call _ _ now) = now
time_of (sweep_call now) = now

-- A life: one step at each of the times.
pub data Life : List ℕ → Phase → Phase → Type 0 where
  over : {p : Phase} → Life [] p p
  next :
      {now : ℕ} {times : List ℕ} {p q r : Phase}
      → Step now p q
      → Life times q r
      → Life (now ∷ times) p r

module _ (P : Primitives) (T : Tables P) where
  abbrev pub step : Store P T → Call → Store P T
  step s (request_call queue_fails user_id now) = (request_deletion P T queue_fails user_id now s).1
  step s (cancel_call queue_fails user_id now) = (cancel_deletion P T queue_fails user_id now s).1
  step s (login_call queue_fails user_id now) = (on_auth_login P T queue_fails user_id now s).1
  step s (sweep_call now) = (execute_deletions P T now s).1

  step-IsStep :
      (s : Store P T) (c : Call) → IsConsistent P T s → IsStep P T (time_of c) s (step s c)
  step-IsStep s (request_call queue_fails user_id now) h =
      request-IsStep P T user_id now s queue_fails h
  step-IsStep s (cancel_call queue_fails user_id now) h =
      cancel-IsStep P T user_id now s queue_fails h
  step-IsStep s (login_call queue_fails user_id now) h =
      login-IsStep P T user_id now s queue_fails h
  step-IsStep s (sweep_call now) h = sweep-IsStep P T now s h

  -- The calls of the account service refine the life of an account: in every history of requests
  -- for a deletion, cancellations, logins and sweeps, with the queue failing or not, from a store
  -- in which a user is marked deleted exactly while their request waits and every request has its
  -- user, the same holds at the end, and every account goes through one step at each call: it
  -- stays as it is, a live account starts to wait for the days of grace, a waiting one is live
  -- again, or one whose time has come is gone.
  pub run-Life :
      (s : Store P T) (calls : List Call)
      → IsConsistent P T s
      → IsConsistent P T (run step s calls)
        × ((id : ℕ)
            → Life (map time_of calls) (phase_of P T s id) (phase_of P T (run step s calls) id))
  unfolding run
  run-Life s [] h = (h, λ id. over)
  run-Life s (c ∷ calls) h =
      let (keeps, moves) = step-IsStep s c h in
      let (consistent, lives) = run-Life (step s c) calls keeps in
      (consistent, λ id. next (moves id) (lives id))

  -- What a life that starts at `from` may have reached before the days of grace are over.
  abbrev IsSafe : ℕ → Phase → Type 0
  IsSafe from gone = ⊥
  IsSafe from live = Unit
  IsSafe from (waiting t) = from + grace_ms ≤ t

  Step-IsSafe :
      (from now : ℕ) (p q : Phase)
      → from ≤ now
      → now < from + grace_ms
      → Step now p q
      → IsSafe from p
      → IsSafe from q
  Step-IsSafe from now p q early late stay h = h
  Step-IsSafe from now p q early late asked h = omega arith
  Step-IsSafe from now p q early late returned h = tt
  Step-IsSafe from now p q early late (purged due) h = omega arith

  -- From such a consistent store, an account that is live at the start is not gone at the end of
  -- a history of requests, cancellations, logins and sweeps that all happen within the days of
  -- grace after one moment.
  pub never_early :
      (from id : ℕ) (s : Store P T) (calls : List Call)
      → IsConsistent P T s
      → All (λ c. (from ≤ time_of c) × (time_of c < from + grace_ms)) calls
      → phase_of P T s id ≡ live
      → phase_of P T (run step s calls) id ≢ gone
  never_early from id s calls h within alive end =
      let safe =
        run_inv_all step (λ t. IsConsistent P T t × IsSafe from (phase_of P T t id))
          (λ c. (from ≤ time_of c) × (time_of c < from + grace_ms))
          (λ t c during keeps.
            let (consistent, moves) = step-IsStep t c keeps.0 in
            (consistent, Step-IsSafe from (time_of c) _ _ during.0 during.1 (moves id) keeps.1))
          s calls within (h, subst⁻¹ (IsSafe from) alive tt) in
      subst (IsSafe from) end safe.1
