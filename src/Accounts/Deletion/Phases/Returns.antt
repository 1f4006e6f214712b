-- ===== src/Accounts/Deletion/Phases/Returns.antt =====
-- The phases of an account along the end of a request: by its owner, or by a login.
use mathlib.Core.Path.{subst⁻¹}
use motogram.Prelude.{
  ℕ, ◌≡◌, refl, ap, ◌∙◌, Bool, true, false, Option, none, some, inl, inr, arith, ==_iff, Bool-cases,
  Option-cases,
}
use motogram.Prelude.Action.{ok}
use motogram.Accounts.Schema.{Primitives, Tables, Store, User, AccountDeletion}
use motogram.Accounts.Deletion.{
  is_waiting, set_deleted_at, restore, cancel_job, cancel_deletion, cancel_deletion_on_login,
  on_auth_login,
}
use motogram.Accounts.Deletion.Phases.{
  live, waiting, Step, returned, awaits, phase_there, phase_of, IsConsistent, IsStep, IsStep-same,
  IsStep-of_rows,
}

module _ (P : Primitives) (T : Tables P) where
  module _ (id now : ℕ) (s : Store P T) where
    -- The end of a request: the mark is taken off.
    abbrev restored : User P → AccountDeletion → Store P T
    restored u d = record s {
      users = T.user.write id (set_deleted_at P T none u) s.users;
      deletions = T.deletion.write id (record d { cancelled_at = some now }) s.deletions;
    }

    restore_done :
        (u : User P) (d : AccountDeletion)
        → T.user.find_unique id s.users ≡ some u
        → T.deletion.find_unique id s.deletions ≡ some d
        → restore P T id now s ≡ (ok (record d { cancelled_at = some now }), restored u d)
    unfolding restore
    restore_done u d found there = ground arith

    restored-IsStep :
        (u : User P) (d : AccountDeletion) (s' : Store P T)
        → IsConsistent P T s
        → T.user.find_unique id s.users ≡ some u
        → T.deletion.find_unique id s.deletions ≡ some d
        → is_waiting d ≡ true
        → s'.users ≡ (restored u d).users
        → s'.deletions ≡ (restored u d).deletions
        → IsStep P T now s s'
    restored-IsStep u d s' h found there open_request users deletions =
        IsStep-of_rows P T now id (set_deleted_at P T none u) (record d { cancelled_at = some now })
          s s' (λ j. rw users (T.user.find-write j id (set_deleted_at P T none u) s.users))
          (λ j.
            rw deletions
              (T.deletion.find-write j id (record d { cancelled_at = some now }) s.deletions))
          h (ground arith)
          (subst⁻¹ (λ p. Step now p (phase_there (some (record d { cancelled_at = some now }))))
            before (subst⁻¹ (Step now (waiting d.scheduled_for)) after returned))
      where
        before : phase_of P T s id ≡ waiting d.scheduled_for
        before = ground arith

        after : phase_there (some (record d { cancelled_at = some now })) ≡ live
        after = ground arith

    -- What follows the request of a return leaves users and requests alone.
    cancel_job-rows :
        (queue_fails : Bool) (j : Option (ℕ × ℕ)) (t : Store P T)
        → ((cancel_job P T queue_fails j t).1.users ≡ t.users)
          × ((cancel_job P T queue_fails j t).1.deletions ≡ t.deletions)
          × ((cancel_job P T queue_fails j t).0 ≡ ok tt)
    cancel_job-rows queue_fails none t = (refl, refl, refl)
    cancel_job-rows true (some j) t = (refl, refl, refl)
    cancel_job-rows false (some j) t = (refl, refl, refl)

    -- A call that either does nothing or, if a request waits, ends it.
    return-IsStep :
        (queue_fails : Bool) (s' : Store P T)
        → IsConsistent P T s
        → (awaits (T.deletion.find_unique id s.deletions) ≡ false → s' ≡ s)
        → ((u : User P) (d : AccountDeletion)
            → T.user.find_unique id s.users ≡ some u
            → T.deletion.find_unique id s.deletions ≡ some d
            → is_waiting d ≡ true
            → s' ≡ (cancel_job P T queue_fails d.job_id (restored u d)).1)
        → IsStep P T now s s'
    return-IsStep queue_fails s' h idle ends =
        elim (Option-cases (T.deletion.find_unique id s.deletions)) [
          | inl fresh ↦ unmoved (ground arith)
          | inr (d, there) ↦ elim (Bool-cases (is_waiting d)) [
            | inl open_request ↦ elim (Option-cases (T.user.find_unique id s.users)) [
              | inl missing ↦ absurd (ground (arith, h.1 id d there))
              | inr (u, found) ↦
                  let e = ends u d found there open_request in
                  let rows = cancel_job-rows queue_fails d.job_id (restored u d) in
                  restored-IsStep u d s' h found there open_request (ap (λ t. t.users) e ∙ rows.0)
                    (ap (λ t. t.deletions) e ∙ rows.1)
            ]
            | inr closed ↦ unmoved (ground arith)
          ]
        ]
      where
        unmoved : awaits (T.deletion.find_unique id s.deletions) ≡ false → IsStep P T now s s'
        unmoved e = subst⁻¹ (IsStep P T now s) (idle e) (IsStep-same P T now s h)

    pub cancel-IsStep :
        (queue_fails : Bool)
        → IsConsistent P T s
        → IsStep P T now s (cancel_deletion P T queue_fails id now s).1
    unfolding cancel_deletion
    cancel-IsStep queue_fails h =
        return-IsStep queue_fails (cancel_deletion P T queue_fails id now s).1 h
          (λ idle. ground arith)
          (λ u d found there open_request. ground (
            arith,
            restore_done u d found there,
            cancel_job-rows queue_fails d.job_id (restored u d),
          ))

    pub login-IsStep :
        (queue_fails : Bool)
        → IsConsistent P T s
        → IsStep P T now s (on_auth_login P T queue_fails id now s).1
    unfolding on_auth_login cancel_deletion_on_login
    login-IsStep queue_fails h =
        return-IsStep queue_fails (on_auth_login P T queue_fails id now s).1 h
          (λ idle. ground arith)
          (λ u d found there open_request. ground (
            arith,
            restore_done u d found there,
            cancel_job-rows queue_fails d.job_id (restored u d),
          ))

    -- A login leaves no request behind.
    pub on_auth_login-live :
        (queue_fails : Bool) (u : User P)
        → IsConsistent P T s
        → T.user.find_unique id s.users ≡ some u
        → phase_of P T (on_auth_login P T queue_fails id now s).1 id ≡ live
    unfolding on_auth_login cancel_deletion_on_login
    on_auth_login-live queue_fails u h found =
        elim (Option-cases (T.deletion.find_unique id s.deletions)) [
          | inl fresh ↦ ground arith
          | inr (d, there) ↦ elim (Bool-cases (is_waiting d)) [
            | inr closed ↦ ground arith
            | inl open_request ↦ ground (
              arith,
              restore_done u d found there,
              cancel_job-rows queue_fails d.job_id (restored u d),
              T.user.find-write id id (set_deleted_at P T none u) s.users,
              T.deletion.find-write id id (record d { cancelled_at = some now }) s.deletions,
              ==_iff id id,
            )
          ]
        ]
