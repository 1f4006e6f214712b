-- ===== src/Emergencies/Contacts.antt =====
-- apps/api/src/modules/emergency/emergency-contacts.service.ts. `trim` is JavaScript's.
pub mod Limit
use motogram.Prelude.{
  ℕ, Bool, Option, none, some, String, leb, ◌==◌, ◌&&◌, List, sort, is_some, not,
}
use motogram.Prelude.Action.{
  ⊤, bad_request, not_found, Action, pure, raise_if, ◌>>=◌, ◌>>◌, find_many, find_first, count,
  create, delete,
}
use motogram.Emergencies.Schema.{Contact, Tables, Store, contact}
use mathlib.Core.Option

abbrev pub max_contacts : ℕ
max_contacts = 5

-- `CreateEmergencyContactDto`
pub record CreateContact : Type 0 where
  pub name : String
  pub phone : String
  pub relationship : Option String

abbrev pub older : ℕ × Contact → ℕ × Contact → Bool
older a b = leb a.1.created_at b.1.created_at

abbrev pub is_of : ℕ → ℕ → Contact → Bool
is_of user_id k c = c.user_id == user_id

abbrev pub new_contact : (trim : String → String) (now user_id : ℕ) → CreateContact → Contact
new_contact trim now user_id dto = record {
  user_id = user_id;
  name = trim dto.name;
  phone = trim dto.phone;
  relationship = Option.map trim dto.relationship;
  created_at = now;
}

module _ (Place : Type 0) (T : Tables Place) where
  unfoldable pub list_contacts : ℕ → Action (Store Place T) (List (ℕ × Contact))
  list_contacts user_id = do
    rows ← find_many (contact Place T) (is_of user_id)
    pure (sort older rows)

  pub create_contact :
      (trim : String → String) (id now user_id : ℕ) → CreateContact → Action (Store Place T) Contact
  create_contact trim id now user_id dto = do
    n ← count (contact Place T) (is_of user_id)
    raise_if (leb max_contacts n) (bad_request "emergency_contacts_limit")
    create (contact Place T) id (new_contact trim now user_id dto)

  pub remove_contact : (user_id contact_id : ℕ) → Action (Store Place T) ⊤
  remove_contact user_id contact_id = do
    row ← find_first (contact Place T) (λ k c. k == contact_id && c.user_id == user_id)
    raise_if (not (is_some row)) (not_found "contact_not_found")
    delete (contact Place T) contact_id
