-- ===== src/Party/Invariant.antt =====
-- The well-formedness of the parties: the Redis sets against the membership rows, the limit of a
-- party, and the one party of a user.
pub mod Joins
pub mod Leaves
pub mod Marks
pub mod Runs
use motogram.Prelude.{ℕ, ◌≤◌, ◌≡◌, Bool, true, false, Option, none, some, is_some}
use motogram.Party.Schema.{Party, Member, Tables, Store}
use motogram.Party.Members.{is_active_row, is_active_in, is_open, holds_open}

module _ (T : Tables) where
  pub record IsSound (parties : T.party.Rows) (members : T.party_member.Rows)
      (sets : T.member_set.Rows) : Type 0 where
    -- `party:{id}:members` holds the active members.
    pub mirrored :
        (k : ℕ × ℕ)
        → is_some (T.member_set.find_unique k sets)
          ≡ is_active_row (T.party_member.find_unique k members)
    pub bounded :
        (id : ℕ) (p : Party)
        → T.party.find_unique id parties ≡ some p
        → is_open p ≡ true
        → T.party_member.count (is_active_in id) members ≤ p.max_members
    pub single :
        (u p q : ℕ)
        → is_active_row (T.party_member.find_unique (p, u) members) ≡ true
        → holds_open (T.party.find_unique p parties) ≡ true
        → is_active_row (T.party_member.find_unique (q, u) members) ≡ true
        → holds_open (T.party.find_unique q parties) ≡ true
        → p ≡ q
    -- The foreign key of the membership rows.
    pub known :
        (k : ℕ × ℕ)
        → is_some (T.party_member.find_unique k members) ≡ true
        → is_some (T.party.find_unique k.0 parties) ≡ true

  abbrev pub Sound : Store T → Type 0
  Sound s = IsSound s.parties s.members s.member_sets
