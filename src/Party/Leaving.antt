-- ===== src/Party/Leaving.antt =====
-- Leaving and ending a party: `leaveParty` and `endParty` in
-- apps/api/src/modules/party/party.service.ts.
pub mod Ending
pub mod Succession
use motogram.Prelude.{
  ℕ, Bool, true, false, Option, none, some, is_some, not, filter, head?, sort, map, leb, ◌&&◌, ◌||◌,
  ◌==◌, List, [], ◌∷◌, if◌then◌else◌,
}
use motogram.Prelude.Action.{
  ⊤, bad_request, not_found, Action, pure, transaction, raise_if, or_raise, do_if, ◌>>=◌, ◌>>◌,
  find_unique, find_many, update, update_many, delete_many, modify,
}
use motogram.Party.Schema.{
  PartyStatus, ended, PartyRole, leader, Party, Member, Tables, Store, LeaveReason, EndReason,
  leader_left_alone, party, party_member, member_set, zombie_set, user_party, emit, member_left,
  status_changed, party_ended, leader_changed,
}
use motogram.Party.Members.{is_ended, is_active, is_active_in, is_active_row}
use motogram.Party.Election.{Candidate, ElectionResult, elect, release}

-- `{ ended, newLeaderId }`
pub record LeaveResult : Type 0 where
  pub ended : Bool
  pub new_leader_id : Option ℕ

abbrev pub go_away : ℕ → Member → Member
go_away now m = record m { left_at = some now; is_online = false }

abbrev pub end_row : ℕ → Party → Party
end_row now p = record p { status = PartyStatus.ended; ended_at = some now }

abbrev pub candidate : (ℕ × ℕ) × Member → Candidate
candidate r = record { user_id = r.0.1; joined_at = r.1.joined_at; is_online = r.1.is_online }

abbrev pub online_of : List Candidate → List Candidate
online_of = filter (λ c. c.is_online)

-- `candidates.slice().sort((a, b) => a.joinedAt - b.joinedAt)[0]?.userId ?? null`
abbrev pub earliest : List Candidate → Option ℕ
earliest l = elim (head? (sort (λ a b. leb a.joined_at b.joined_at) l)) [
  | none ↦ none
  | some c ↦ some c.user_id
]

-- The other active members of the party.
abbrev pub is_remaining : (party_id user_id : ℕ) → ℕ × ℕ → Member → Bool
is_remaining party_id user_id k m = k.0 == party_id && (not (k.1 == user_id) && is_active m)

module _ (T : Tables) where
  -- The loop of DELs over the members of the set.
  pub delete_user_parties : List ((ℕ × ℕ) × ⊤) → Action (Store T) ⊤
  delete_user_parties [] = pure tt
  delete_user_parties (r ∷ rs) = do
    modify (λ s. record s { user_parties = T.user_party.delete r.0.1 s.user_parties })
    delete_user_parties rs

  -- The body of `endParty` for a party that is there and has not ended.
  pub end_open : (party_id now : ℕ) → EndReason → Action (Store T) ⊤
  end_open party_id now reason = do
    transaction (do
      update (party T) party_id (end_row now)
      update_many (party_member T) (is_active_in party_id) (go_away now))
    member_ids ← find_many (member_set T) (λ k _. k.0 == party_id)
    delete_many (member_set T) (λ k _. k.0 == party_id)
    delete_many (zombie_set T) (λ k _. k.0 == party_id)
    modify (λ s. record s { active = T.active_set.delete party_id s.active })
    delete_user_parties member_ids
    emit T (status_changed party_id PartyStatus.ended)
    emit T (party_ended party_id reason)

  abbrev pub end_found : (party_id now : ℕ) → EndReason → Option Party → Action (Store T) ⊤
  end_found party_id now reason none = pure tt
  end_found party_id now reason (some p) =
      do_if (not (is_ended p.status)) (end_open party_id now reason)

  unfoldable pub end_party : (party_id now : ℕ) → EndReason → Action (Store T) ⊤
  end_party party_id now reason = do
    found ← find_unique (party T) party_id
    end_found party_id now reason found

  -- The row, the Redis keys and the message of a member that leaves.
  pub remove_member : (user_id party_id now : ℕ) → LeaveReason → Action (Store T) ⊤
  remove_member user_id party_id now reason = do
    update (party_member T) (party_id, user_id) (go_away now)
    modify (λ s. record s {
      member_sets = T.member_set.delete (party_id, user_id) s.member_sets;
      user_parties = T.user_party.delete user_id s.user_parties;
    })
    emit T (member_left party_id user_id reason)

  unfoldable pub end_alone : (party_id now : ℕ) → Action (Store T) LeaveResult
  unfolding end_party
  end_alone party_id now = do
    end_party party_id now leader_left_alone
    pure (record { ended = true; new_leader_id = none })

  -- The election was lost or had no candidate: some member is named, and nothing is written.
  unfoldable pub fall_back :
      (party_id now : ℕ) → List Candidate → Option ℕ → Action (Store T) LeaveResult
  fall_back party_id now candidates (some id) =
      pure (record { ended = false; new_leader_id = some id })
  fall_back party_id now candidates none = elim (earliest candidates) [
    | none ↦ end_alone party_id now
    | some id ↦ pure (record { ended = false; new_leader_id = some id })
  ]

  -- The election was won.
  pub install_leader : (party_id new_leader_id : ℕ) → Action (Store T) LeaveResult
  install_leader party_id new_leader_id = do
    transaction (do
      update (party T) party_id (λ p. record p { leader_id = new_leader_id })
      update (party_member T) (party_id, new_leader_id) (λ m. record m { role = leader }))
    emit T (leader_changed party_id new_leader_id)
    release T party_id new_leader_id
    pure (record { ended = false; new_leader_id = some new_leader_id })

  abbrev pub settle_election :
      (party_id now : ℕ) → List Candidate → ElectionResult → Action (Store T) LeaveResult
  settle_election party_id now candidates r = elim r.new_leader_id [
    | none ↦ fall_back party_id now candidates none
    | some id ↦
        if r.locked then install_leader party_id id else fall_back party_id now candidates (some id)
  ]

  -- The leader left: end the party, or find another leader among the others.
  unfoldable pub replace_leader :
      (party_id now : ℕ) → List ℕ → List ((ℕ × ℕ) × Member) → Action (Store T) LeaveResult
  replace_leader party_id now co_leader_ids [] = end_alone party_id now
  replace_leader party_id now co_leader_ids (r ∷ rs) = do
    let candidates = map candidate (r ∷ rs)
    result ← elect T party_id co_leader_ids (online_of candidates)
    settle_election party_id now candidates result

  -- `leaveParty` for a member of a party that has not ended.
  pub leave_open : (user_id party_id now : ℕ) → LeaveReason → Party → Action (Store T) LeaveResult
  leave_open user_id party_id now reason p = do
    row ← find_unique (party_member T) (party_id, user_id)
    raise_if (not (is_active_row row)) (bad_request "not_member")
    remaining ← find_many (party_member T) (is_remaining party_id user_id)
    remove_member user_id party_id now reason
    if p.leader_id == user_id
        then replace_leader party_id now p.co_leader_ids remaining
        else pure (record { ended = false; new_leader_id = none })

  pub leave_party : (user_id party_id now : ℕ) → LeaveReason → Action (Store T) LeaveResult
  leave_party user_id party_id now reason = do
    found ← find_unique (party T) party_id
    p ← or_raise found (not_found "party_not_found")
    raise_if (is_some p.deleted_at) (not_found "party_not_found")
    if is_ended p.status
        then pure (record { ended = true; new_leader_id = none })
        else leave_open user_id party_id now reason p
