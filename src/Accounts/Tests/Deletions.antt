-- ===== src/Accounts/Tests/Deletions.antt =====
-- Deletions of accounts: the theorems at concrete inputs.
use motogram.Prelude.{ℕ, ◌≡◌, ◌≢◌, refl, true, false, [], ◌∷◌, map, arith}
use motogram.Prelude.History.{run}
use motogram.Accounts.Deletion.{process_job, execute_deletions}
use motogram.Accounts.Deletion.Phases.{gone, phase_of, IsConsistent}
use motogram.Accounts.Deletion.Phases.Sweep.{due_at, sweep_clears}
use motogram.Accounts.Deletion.Phases.Histories.{
  request_call, login_call, sweep_call, time_of, Life, step, run-Life, never_early,
}
use motogram.Accounts.Tests.{primitives, tables, town}

town-IsConsistent : IsConsistent primitives tables town
town-IsConsistent = ((λ id u found. ground arith), λ id d found. ground arith)

run-Life_example :
    let calls = request_call false 1 100 ∷ login_call true 2 200 ∷ sweep_call 6000 ∷ [] in
    IsConsistent primitives tables (run (step primitives tables) town calls)
    × ((id : ℕ)
        → Life
            (map time_of calls)
            (phase_of primitives tables town id)
            (phase_of primitives tables (run (step primitives tables) town calls) id))
run-Life_example =
    run-Life primitives tables town
      (request_call false 1 100 ∷ login_call true 2 200 ∷ sweep_call 6000 ∷ []) town-IsConsistent

never_early_example :
    let calls = request_call false 1 100 ∷ sweep_call 90000 ∷ [] in
    phase_of primitives tables (run (step primitives tables) town calls) 1 ≢ gone
never_early_example =
    never_early primitives tables 100 1 town (request_call false 1 100 ∷ sweep_call 90000 ∷ [])
      town-IsConsistent ((omega arith, omega arith), ((omega arith, omega arith), tt)) refl

sweep_clears_example :
    due_at 6000 2
      (tables.deletion.find_unique 2 (execute_deletions primitives tables 6000 town).1.deletions)
    ≡ false
sweep_clears_example = sweep_clears primitives tables 6000 town town-IsConsistent (omega arith) 2

-- A job of a user who has not asked for anything.
idle_job : (process_job primitives tables 1 town).1 ≡ town
unfolding process_job
idle_job = refl
