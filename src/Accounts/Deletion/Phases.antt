-- ===== src/Accounts/Deletion/Phases.antt =====
-- The life of an account as its owner sees it: it is there, it waits for its deletion, or it is gone.
pub mod Requests
pub mod Returns
pub mod Sweep
pub mod Histories
use mathlib.Core.Path.{subst, subst⁻¹}
use motogram.Prelude.{
  ℕ, ◌+◌, ◌≡◌, ◌≤◌, ◌⊎◌, if◌then◌else◌, refl, sym, ap, ◌∙◌, Bool, true, false, Option, none, some,
  is_some, leb, ltb, inl, inr, arith, ◌==◌, ==_iff, not, ◌&&◌, Bool-cases, Option-cases,
}
use motogram.Prelude.Action.{Action, ok}
use motogram.Accounts.Schema.{Primitives, Tables, Store, User, AccountDeletion}
use motogram.Accounts.Deletion.{
  is_waiting, grace_ms, new_deletion, renewed, set_deleted_at, request_deletion, schedule,
  enqueue_job, restore, cancel_job, cancel_deletion, cancel_deletion_on_login, on_auth_login,
}

pub data Phase : Type 0 where
  gone live : Phase
  waiting : (until : ℕ) → Phase

-- What may happen to an account at a time.
pub data Step : ℕ → Phase → Phase → Type 0 where
  stay : {now : ℕ} {p : Phase} → Step now p p
  asked : {now : ℕ} → Step now live (waiting (now + grace_ms))
  returned : {now t : ℕ} → Step now (waiting t) live
  purged : {now t : ℕ} → t ≤ now → Step now (waiting t) gone

abbrev pub awaits : Option AccountDeletion → Bool
awaits none = false
awaits (some d) = is_waiting d

abbrev pub phase_there : Option AccountDeletion → Phase
phase_there none = live
phase_there (some d) = if is_waiting d then waiting d.scheduled_for else live

module _ (P : Primitives) (T : Tables P) where
  abbrev phase_in : Option (User P) → Option AccountDeletion → Phase
  phase_in none d = gone
  phase_in (some u) d = phase_there d

  abbrev pub phase_of : Store P T → ℕ → Phase
  phase_of s id = phase_in (T.user.find_unique id s.users) (T.deletion.find_unique id s.deletions)

  -- The soft-delete mark of a user agrees with the request, and a request has its user.
  abbrev pub IsConsistent : Store P T → Type 0
  IsConsistent s =
      ((id : ℕ) (u : User P)
        → T.user.find_unique id s.users ≡ some u
        → is_some u.deleted_at ≡ awaits (T.deletion.find_unique id s.deletions))
      × ((id : ℕ) (d : AccountDeletion)
          → T.deletion.find_unique id s.deletions ≡ some d
          → is_some (T.user.find_unique id s.users) ≡ true)

  -- A call keeps the store consistent, and moves every account by a step.
  abbrev pub IsStep : ℕ → Store P T → Store P T → Type 0
  IsStep now s s' = IsConsistent s' × ((id : ℕ) → Step now (phase_of s id) (phase_of s' id))

  pub IsStep-same : (now : ℕ) (s : Store P T) → IsConsistent s → IsStep now s s
  IsStep-same now s h = (h, λ id. stay)

  -- The rows of one account are `u` and `d`, those of the others are as before.
  pub IsStep-of_rows :
      (now id : ℕ) (u : User P) (d : AccountDeletion) (s s' : Store P T)
      → ((j : ℕ)
          → T.user.find_unique j s'.users
            ≡ (if id == j then some u else T.user.find_unique j s.users))
      → ((j : ℕ)
          → T.deletion.find_unique j s'.deletions
            ≡ (if id == j then some d else T.deletion.find_unique j s.deletions))
      → IsConsistent s
      → is_some u.deleted_at ≡ is_waiting d
      → Step now (phase_of s id) (phase_there (some d))
      → IsStep now s s'
  IsStep-of_rows now id u d s s' users deletions h agree moved = (
    (
      λ j v found. ground (arith, users j, deletions j, h.0 j v, ==_iff id j),
      λ j e found. ground (arith, users j, deletions j, h.1 j e, ==_iff id j),
    ),
    λ j. rw (users j) (
        rw (deletions j) (elim (Bool-cases (id == j)) [
          | inl same ↦ rw same (
              subst (λ k. Step now (phase_of s k) (phase_there (some d))) ((==_iff id j).0 same)
                moved)
          | inr other ↦ rw other stay
        ])),
  )
