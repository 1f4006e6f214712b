-- ===== src/Party/Tests/Leaders.antt =====
-- Leaders that leave: the theorems at concrete inputs.
use motogram.Prelude.{ℕ, ◌≡◌, refl, true, false, none, some, arith, [], ◌∷◌}
use motogram.Prelude.Action.{ok}
use motogram.Party.Schema.{left, leader, member, Store}
use motogram.Party.Election.{picked_co_leader, pick_next_leader}
use motogram.Party.Members.{is_active_row}
use motogram.Party.Leaving.{leave_party, end_row}
use motogram.Party.Leaving.Succession.{leader_succeeded, leader_alone, leader_offline}
use motogram.Party.Tests.{tables, road, tour, rider}

-- User 2 has lost the connection; or has left.
abbrev dark : Store tables
dark = record road {
  members = (
    ((1, 1), rider leader 1 none)
        ∷ ((1, 2), record (rider member 2 none) { is_online = false })
        ∷ [],
    (refl, (refl, tt)),
  );
}

abbrev lone : Store tables
lone = record road { members = (((1, 1), rider leader 1 none) ∷ [], (refl, tt)) }

picks_two :
    pick_next_leader (2 ∷ []) (record { user_id = 2; joined_at = 2; is_online = true } ∷ [])
    ≡ (some 2, picked_co_leader)
unfolding pick_next_leader motogram.Party.Election.first_co_leader
picks_two = refl

leader_succeeded_example :
    let (answer, s') = leave_party tables 1 1 9 left road in
    (answer ≡ ok (record { ended = false; new_leader_id = some 2 }))
    × (tables.party.find_unique 1 s'.parties ≡ some (record tour { leader_id = 2 }))
    × (tables.party_member.find_unique (1, 2) s'.members
        ≡ some (record (rider member 2 none) { role = leader }))
    × (tables.leader_lock.find_unique 1 s'.locks ≡ none)
leader_succeeded_example =
    leader_succeeded tables road 1 1 9 left tour (rider leader 1 none) refl refl refl refl refl
      ((1, 2), rider member 2 none) [] 2 picked_co_leader (rider member 2 none) refl picks_two refl
      (ground arith) refl

leader_alone_example :
    let (answer, s') = leave_party tables 1 1 9 left lone in
    (answer ≡ ok (record { ended = true; new_leader_id = none }))
    × (tables.party.find_unique 1 s'.parties ≡ some (end_row 9 tour))
    × ((v : ℕ) → tables.member_set.find_unique (1, v) s'.member_sets ≡ none)
leader_alone_example =
    leader_alone tables lone 1 1 9 left tour (rider leader 1 none) refl refl refl refl refl refl

leader_offline_example :
    let (answer, s') = leave_party tables 1 1 9 left dark in
    (answer ≡ ok (record { ended = false; new_leader_id = some 2 }))
    × (tables.party.find_unique 1 s'.parties ≡ some tour)
    × (tour.leader_id ≡ 1)
    × (is_active_row (tables.party_member.find_unique (1, 1) s'.members) ≡ false)
leader_offline_example =
    leader_offline tables dark 1 1 9 left tour (rider leader 1 none) refl refl refl refl refl
      ((1, 2), record (rider member 2 none) { is_online = false }) [] 2 refl refl refl
