-- ===== src/Emergencies/Contacts/Limit.antt =====
-- How many contacts a user keeps.
use motogram.Prelude.{
  ℕ, ◌≤◌, String, List, leb, inl, inr, arith, ◌==◌, ==_iff, Bool-cases, Option-cases,
}
use motogram.Prelude.History.{run, run_inv}
use motogram.Prelude.Queries.{find_first-row_if}
use motogram.Emergencies.Schema.{Tables, Store}
use motogram.Emergencies.Contacts.{
  CreateContact, max_contacts, is_of, new_contact, create_contact, remove_contact,
}

-- A call of the contacts service.
pub data Call : Type 0 where
  create_call : (id now user_id : ℕ) → CreateContact → Call
  remove_call : (user_id contact_id : ℕ) → Call

module _ (Place : Type 0) (T : Tables Place) (trim : String → String) where
  -- No user has more contacts than allowed.
  abbrev IsFew : Store Place T → Type 0
  IsFew s = (user_id : ℕ) → T.contact.count (is_of user_id) s.contacts ≤ max_contacts

  abbrev pub step : Store Place T → Call → Store Place T
  step s (create_call id now user_id dto) = (create_contact Place T trim id now user_id dto s).1
  step s (remove_call user_id contact_id) = (remove_contact Place T user_id contact_id s).1

  create-IsFew :
      (s : Store Place T) (id now user_id : ℕ) (dto : CreateContact)
      → IsFew s
      → IsFew (create_contact Place T trim id now user_id dto s).1
  unfolding create_contact
  create-IsFew s id now user_id dto h j =
      elim (Bool-cases (leb max_contacts (T.contact.count (is_of user_id) s.contacts))) [
        | inl full ↦ rw full (h j)
        | inr room ↦ rw room (elim (Option-cases (T.contact.find_unique id s.contacts)) [
          | inr (c, found) ↦ rw found (h j)
          | inl fresh ↦ rw fresh (
              ground (
                arith,
                h j,
                ==_iff user_id j,
                T.contact.count-write (is_of j) id (new_contact trim now user_id dto) s.contacts,
              ))
        ])
      ]

  remove-IsFew :
      (s : Store Place T) (user_id contact_id : ℕ)
      → IsFew s
      → IsFew (remove_contact Place T user_id contact_id s).1
  unfolding remove_contact
  remove-IsFew s user_id contact_id h j =
      elim (Option-cases (T.contact.find_unique contact_id s.contacts)) [
        | inl gone ↦ ground (
          arith,
          h j,
          find_first-row_if T.contact contact_id (λ c. c.user_id == user_id) s.contacts,
        )
        | inr (c, found) ↦ ground (
          arith,
          h j,
          find_first-row_if T.contact contact_id (λ c. c.user_id == user_id) s.contacts,
          T.contact.count-delete (is_of j) contact_id s.contacts,
        )
      ]

  -- If no user has more than five emergency contacts, then no user has after any history of
  -- contacts created and removed.
  run-IsFew : (s : Store Place T) (calls : List Call) → IsFew s → IsFew (run step s calls)
  run-IsFew = run_inv step IsFew (λ s c h. elim c as (λ k. IsFew (step s k)) [
    | create_call id now user_id dto ↦ create-IsFew s id now user_id dto h
    | remove_call user_id contact_id ↦ remove-IsFew s user_id contact_id h
  ])
