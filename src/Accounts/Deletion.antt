-- ===== src/Accounts/Deletion.antt =====
-- apps/api/src/modules/account/account.service.ts, with the calls of deletion.queue.ts that it makes.
-- Times are milliseconds. Whether a call of the queue (BullMQ) fails is an argument; a job that is
-- waiting is a row of `jobs`.
pub mod Phases
use motogram.Prelude.{
  ℕ, ◌+◌, ◌-◌, ◌*◌, ◌/◌, Bool, true, false, Option, none, some, is_some, not, leb, ltb, ◌==◌, ◌&&◌,
  ◌||◌, List, [], ◌∷◌, if◌then◌else◌,
}
use motogram.Prelude.Pages.{take}
use motogram.Prelude.Action.{
  ⊤, Error, Result, ok, err, bad_request, not_found, Action, pure, raise, raise_if, or_raise,
  transaction, do_if, ◌>>=◌, ◌>>◌, find_unique, find_many, upsert, update, delete, delete_many,
  modify, write,
}
use motogram.Accounts.Schema.{
  Primitives, User, AccountDeletion, PasswordResetToken, EmailChangeToken, Tables, Store, user,
  deletion, reset_token, email_token, job,
}

-- `DELETION_GRACE_DAYS`, in milliseconds, and a day.
abbrev pub day_ms : ℕ
day_ms = 24 * 3600 * 1000

abbrev pub grace_ms : ℕ
grace_ms = 30 * day_ms

-- The request is neither executed nor cancelled.
abbrev pub is_waiting : AccountDeletion → Bool
is_waiting d = not (is_some d.executed_at) && not (is_some d.cancelled_at)

-- `canRestore` of the logins
abbrev pub can_restore : ℕ → Option AccountDeletion → Bool
can_restore now none = false
can_restore now (some d) = is_waiting d && ltb now d.scheduled_for

-- `AccountDeletionStatusDto`
pub record DeletionStatus : Type 0 where
  pub pending : Bool
  pub requested_at : Option ℕ
  pub scheduled_for : Option ℕ
  pub days_remaining : Option ℕ

-- `Math.max(0, Math.ceil(ms / day))`: what is over is 0, as the subtraction gives.
abbrev days_until : (now t : ℕ) → ℕ
days_until now t = (t - now + (day_ms - 1)) / day_ms

abbrev pub to_status : ℕ → Option AccountDeletion → DeletionStatus
to_status now none = record {
  pending = false;
  requested_at = none;
  scheduled_for = none;
  days_remaining = none;
}
to_status now (some d) =
    if is_waiting d
    then record {
      pending = true;
      requested_at = some d.requested_at;
      scheduled_for = some d.scheduled_for;
      days_remaining = some (days_until now d.scheduled_for);
    }
    else record {
      pending = false;
      requested_at = none;
      scheduled_for = none;
      days_remaining = none;
    }

abbrev pub new_deletion : ℕ → AccountDeletion
new_deletion now = record {
  requested_at = now;
  scheduled_for = now + grace_ms;
  cancelled_at = none;
  executed_at = none;
  job_id = none;
}

abbrev pub renewed : ℕ → AccountDeletion → AccountDeletion
renewed now d = record d {
  requested_at = now;
  scheduled_for = now + grace_ms;
  cancelled_at = none;
  executed_at = none;
}

abbrev pub is_due : ℕ → ℕ → AccountDeletion → Bool
is_due now k d = leb d.scheduled_for now && is_waiting d

module _ (P : Primitives) (T : Tables P) where
  abbrev pub set_deleted_at : Option ℕ → User P → User P
  set_deleted_at t u = record u { deleted_at = t }

  -- `enqueueDelayed` under its `try`: a failure, as when BullMQ refuses the identifier, leaves no job
  -- and no identifier.
  pub enqueue_job : (queue_fails : Bool) (user_id scheduled_for : ℕ) → Action (Store P T) ⊤
  enqueue_job true user_id scheduled_for = pure tt
  enqueue_job false user_id scheduled_for = do
    write (job P T) (user_id, scheduled_for) tt
    update (deletion P T) user_id (λ d. record d { job_id = some (user_id, scheduled_for) })
    pure tt

  pub schedule : (queue_fails : Bool) (user_id now : ℕ) → Action (Store P T) DeletionStatus
  schedule queue_fails user_id now = do
    d ← transaction (do
      update (user P T) user_id (set_deleted_at (some now))
      upsert (deletion P T) user_id (new_deletion now) (renewed now))
    enqueue_job queue_fails user_id (now + grace_ms)
    pure (to_status now (some d))

  abbrev request_again :
      Bool → (user_id now : ℕ) → Option AccountDeletion → Action (Store P T) DeletionStatus
  request_again queue_fails user_id now none = schedule queue_fails user_id now
  request_again queue_fails user_id now (some d) =
      if is_waiting d then pure (to_status now (some d)) else schedule queue_fails user_id now

  pub request_deletion : (queue_fails : Bool) (user_id now : ℕ) → Action (Store P T) DeletionStatus
  request_deletion queue_fails user_id now = do
    u ← find_unique (user P T) user_id
    or_raise u (not_found "user_not_found")
    d ← find_unique (deletion P T) user_id
    request_again queue_fails user_id now d

  -- `cancelByJobId` under its `try`.
  abbrev pub cancel_job : (queue_fails : Bool) → Option (ℕ × ℕ) → Action (Store P T) ⊤
  cancel_job queue_fails none = pure tt
  cancel_job true (some j) = pure tt
  cancel_job false (some j) = modify (λ s. record s { jobs = T.job.delete j s.jobs })

  unfoldable pub restore : (user_id now : ℕ) → Action (Store P T) AccountDeletion
  restore user_id now = transaction (do
    update (user P T) user_id (set_deleted_at none)
    update (deletion P T) user_id (λ d. record d { cancelled_at = some now }))

  abbrev cancel_found :
      Bool → (user_id now : ℕ) → Option AccountDeletion → Action (Store P T) DeletionStatus
  cancel_found queue_fails user_id now none = raise (bad_request "no_active_deletion")
  cancel_found queue_fails user_id now (some d) =
      if is_some d.executed_at
      then raise (bad_request "no_active_deletion")
      else if is_some d.cancelled_at
      then pure (to_status now (some d))
      else (do
        updated ← restore user_id now
        cancel_job queue_fails d.job_id
        pure (to_status now (some updated)))

  pub cancel_deletion : (queue_fails : Bool) (user_id now : ℕ) → Action (Store P T) DeletionStatus
  cancel_deletion queue_fails user_id now = do
    d ← find_unique (deletion P T) user_id
    cancel_found queue_fails user_id now d

  abbrev cancel_waiting :
      Bool → (user_id now : ℕ) → Option AccountDeletion → Action (Store P T) Bool
  cancel_waiting queue_fails user_id now none = pure false
  cancel_waiting queue_fails user_id now (some d) =
      if is_waiting d
      then (do restore user_id now; cancel_job queue_fails d.job_id; pure true)
      else pure false

  unfoldable pub cancel_deletion_on_login :
      (queue_fails : Bool) (user_id now : ℕ) → Action (Store P T) Bool
  cancel_deletion_on_login queue_fails user_id now = do
    d ← find_unique (deletion P T) user_id
    cancel_waiting queue_fails user_id now d

  -- `onAuthLogin`: an error is logged and goes no further.
  unfoldable pub on_auth_login : (queue_fails : Bool) (user_id now : ℕ) → Action (Store P T) ⊤
  on_auth_login queue_fails user_id now s =
      (ok tt, (cancel_deletion_on_login queue_fails user_id now s).1)

  -- `user.delete`, with the rows of the other tables that cascade from it.
  pub purge : ℕ → Action (Store P T) ⊤
  purge user_id = do
    delete (user P T) user_id
    modify (λ s. record s { deletions = T.deletion.delete user_id s.deletions })
    delete_many (reset_token P T) (λ k t. t.user_id == user_id)
    delete_many (email_token P T) (λ k t. t.user_id == user_id)

  -- The processor of a job of the queue.
  abbrev process_found : ℕ → Option AccountDeletion → Action (Store P T) ⊤
  process_found user_id none = pure tt
  process_found user_id (some d) = if is_waiting d then transaction (purge user_id) else pure tt

  unfoldable pub process_job : ℕ → Action (Store P T) ⊤
  process_job user_id = do d ← find_unique (deletion P T) user_id; process_found user_id d

  -- `{ processed, errors }`
  abbrev pub purged : (processed errors : ℕ) → Result ⊤ × Store P T → Result (ℕ × ℕ) × Store P T
  purged processed errors (ok r, s) = (ok (processed + 1, errors), s)
  purged processed errors (err e, s) = (ok (processed, errors + 1), s)

  pub execute_one : (user_id processed errors : ℕ) → Action (Store P T) (ℕ × ℕ)
  execute_one user_id processed errors s = purged processed errors (transaction (purge user_id) s)

  pub execute_each :
      List (ℕ × AccountDeletion) → (processed errors : ℕ) → Action (Store P T) (ℕ × ℕ)
  execute_each [] processed errors = pure (processed, errors)
  execute_each (r ∷ rs) processed errors = do
    n ← execute_one r.0 processed errors
    execute_each rs n.0 n.1

  -- At most `take: 50` of the accounts that are due.
  pub execute_deletions : ℕ → Action (Store P T) (ℕ × ℕ)
  execute_deletions now = do
    due ← find_many (deletion P T) (is_due now)
    execute_each (take 50 due) 0 0

  unfoldable pub get_status : (user_id now : ℕ) → Action (Store P T) DeletionStatus
  get_status user_id now = do d ← find_unique (deletion P T) user_id; pure (to_status now d)
