-- ===== src/Accounts/Deletion/Phases/Requests.antt =====
-- The phases of an account along a request for its deletion.
use mathlib.Core.Path.{subst⁻¹}
use motogram.Prelude.{
  ℕ, ◌+◌, ◌≡◌, if◌then◌else◌, refl, sym, Bool, true, false, some, inl, inr, arith, ◌==◌, ==_iff,
  Bool-cases, Option-cases,
}
use motogram.Accounts.Schema.{Primitives, Tables, Store, User, AccountDeletion}
use motogram.Accounts.Deletion.{
  is_waiting, grace_ms, new_deletion, renewed, set_deleted_at, request_deletion, schedule,
  enqueue_job,
}
use motogram.Accounts.Deletion.Phases.{
  live, waiting, Step, asked, awaits, phase_there, phase_of, IsConsistent, IsStep, IsStep-same,
  IsStep-of_rows,
}

module _ (P : Primitives) (T : Tables P) where
  module _ (id now : ℕ) (s : Store P T) where
    -- What a new request writes.
    schedule-rows :
        (queue_fails : Bool) (u : User P)
        → T.user.find_unique id s.users ≡ some u
        → let s' = (schedule P T queue_fails id now s).1 in
          (d : AccountDeletion) × (is_waiting d ≡ true)
          × (d.scheduled_for ≡ now + grace_ms)
          × ((j : ℕ)
              → T.user.find_unique j s'.users ≡ (
                  if id == j
                  then some (set_deleted_at P T (some now) u)
                  else T.user.find_unique j s.users))
          × ((j : ℕ)
              → T.deletion.find_unique j s'.deletions
                ≡ (if id == j then some d else T.deletion.find_unique j s.deletions))
    unfolding schedule enqueue_job
    schedule-rows true u found = elim (Option-cases (T.deletion.find_unique id s.deletions)) [
      | inl fresh ↦ (
        new_deletion now,
        refl,
        refl,
        λ j. ground (arith, T.user.find-write j id (set_deleted_at P T (some now) u) s.users),
        λ j. ground (arith, T.deletion.find-write j id (new_deletion now) s.deletions),
      )
      | inr (e, there) ↦ (
        renewed now e,
        refl,
        refl,
        λ j. ground (arith, T.user.find-write j id (set_deleted_at P T (some now) u) s.users),
        λ j. ground (arith, T.deletion.find-write j id (renewed now e) s.deletions),
      )
    ]
    schedule-rows false u found = elim (Option-cases (T.deletion.find_unique id s.deletions)) [
      | inl fresh ↦ (
        with_job (new_deletion now),
        refl,
        refl,
        λ j. ground (arith, T.user.find-write j id (set_deleted_at P T (some now) u) s.users),
        λ j. ground (
          arith,
          twice (new_deletion now) j,
          T.deletion.find-write id id (new_deletion now) s.deletions,
          ==_iff id id,
        ),
      )
      | inr (e, there) ↦ (
        with_job (renewed now e),
        refl,
        refl,
        λ j. ground (arith, T.user.find-write j id (set_deleted_at P T (some now) u) s.users),
        λ j. ground (
          arith,
          twice (renewed now e) j,
          T.deletion.find-write id id (renewed now e) s.deletions,
          ==_iff id id,
        ),
      )
    ]
      where
        with_job : AccountDeletion → AccountDeletion
        with_job d = record d { job_id = some (id, now + grace_ms) }

        twice :
            (d : AccountDeletion) (j : ℕ)
            → T.deletion.find_unique j (
                T.deletion.write id
                  (record d { job_id = some (id, now + grace_ms) })
                  (T.deletion.write id d s.deletions))
              ≡ (if id == j
                  then some (record d { job_id = some (id, now + grace_ms) })
                  else T.deletion.find_unique j s.deletions)
        twice d j = ground (
          arith,
          T.deletion.find-write j id (record d { job_id = some (id, now + grace_ms) })
              (T.deletion.write id d s.deletions),
          T.deletion.find-write j id d s.deletions,
        )

    schedule-IsStep :
        (queue_fails : Bool) (u : User P)
        → IsConsistent P T s
        → T.user.find_unique id s.users ≡ some u
        → awaits (T.deletion.find_unique id s.deletions) ≡ false
        → IsStep P T now s (schedule P T queue_fails id now s).1
    schedule-IsStep queue_fails u h found idle =
        let (d, open_request, date, users, deletions) = schedule-rows queue_fails u found in
        IsStep-of_rows P T now id (set_deleted_at P T (some now) u) d s
          (schedule P T queue_fails id now s).1 users deletions h (sym open_request)
          (subst⁻¹ (λ p. Step now p (phase_there (some d))) before
            (subst⁻¹ (Step now live) (after d open_request date) asked))
      where
        before : phase_of P T s id ≡ live
        before = ground arith

        after :
            (d : AccountDeletion)
            → is_waiting d ≡ true
            → d.scheduled_for ≡ now + grace_ms
            → phase_there (some d) ≡ waiting (now + grace_ms)
        after d open_request date = ground arith

    pub request-IsStep :
        (queue_fails : Bool)
        → IsConsistent P T s
        → IsStep P T now s (request_deletion P T queue_fails id now s).1
    unfolding request_deletion
    request-IsStep queue_fails h = elim (Option-cases (T.user.find_unique id s.users)) [
      | inl missing ↦ unmoved (ground arith)
      | inr (u, found) ↦ elim (Bool-cases (awaits (T.deletion.find_unique id s.deletions))) [
        | inl open_request ↦ unmoved (ground arith)
        | inr idle ↦
            subst⁻¹ (IsStep P T now s) (scheduled u found idle)
              (schedule-IsStep queue_fails u h found idle)
      ]
    ]
      where
        unmoved :
            (request_deletion P T queue_fails id now s).1 ≡ s
            → IsStep P T now s (request_deletion P T queue_fails id now s).1
        unmoved e = subst⁻¹ (IsStep P T now s) e (IsStep-same P T now s h)

        scheduled :
            (u : User P)
            → T.user.find_unique id s.users ≡ some u
            → awaits (T.deletion.find_unique id s.deletions) ≡ false
            → (request_deletion P T queue_fails id now s).1 ≡ (schedule P T queue_fails id now s).1
        scheduled u found idle = elim (Option-cases (T.deletion.find_unique id s.deletions)) [
          | inl fresh ↦ ground arith
          | inr (d, there) ↦ ground arith
        ]
