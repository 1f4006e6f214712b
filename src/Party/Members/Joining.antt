-- ===== src/Party/Members/Joining.antt =====
-- What creating and joining leave behind, as one equation on the store for each outcome.
use motogram.Prelude.{
  ℕ, ◌<◌, ◌≤◌, ◌≡◌, Bool, true, false, Option, none, some, not, ◌⊎◌, inl, inr, arith, ◌&&◌, ◌∷◌,
  if◌then◌else◌, Option-cases, Bool-cases, head?,
}
use motogram.Prelude.Action.{ok, err, unique_violation, is_ok, IsRefused}
use motogram.Party.Schema.{leader, member, waiting, Party, Member, Tables, Store, member_joined}
use motogram.Party.Members.{
  is_active, CreateParty, create_party, create_rows, count_create, counted, creates_per_hour,
  find_active_party_for_user, is_active_membership, is_active_in, is_open, is_pending_row,
  is_elsewhere, new_member, come_back, accept_invite, is_pending_invite, join_party, join_checks,
  join_writes, get_party_detail,
}

module _ (T : Tables) (s : Store T) where
  abbrev pub new_party : ℕ → CreateParty → Party
  new_party leader_id dto = record {
    name = dto.name;
    leader_id = leader_id;
    co_leader_ids = dto.co_leader_ids;
    route_id = dto.route_id;
    event_id = dto.event_id;
    status = waiting;
    is_private = dto.is_private;
    max_members = dto.max_members;
    ended_at = none;
    deleted_at = none;
  }

  -- The attempt is counted first, whatever comes of it.
  abbrev counted_store : ℕ → Store T
  counted_store user_id = record s {
    creates =
        T.create_count.write user_id (counted (T.create_count.find_unique user_id s.creates))
          s.creates;
  }

  abbrev pub created_store : (id leader_id now : ℕ) → CreateParty → Store T
  created_store id leader_id now dto = record (counted_store leader_id) {
    parties = T.party.write id (new_party leader_id dto) s.parties;
    members = T.party_member.write (id, leader_id) (new_member leader now) s.members;
    member_sets = T.member_set.write (id, leader_id) tt s.member_sets;
    active = T.active_set.write id tt s.active;
    user_parties = T.user_party.write leader_id id s.user_parties;
  }

  abbrev pub NoneActive : ℕ → Type 0
  NoneActive user_id =
      head? (T.party_member.find_many (is_active_membership T s user_id) s.members) ≡ none

  pub create_party-cases :
      (id leader_id now : ℕ) (dto : CreateParty)
      → ((is_ok (create_party T id leader_id now dto s).0 ≡ false)
          × ((create_party T id leader_id now dto s).1 ≡ counted_store leader_id))
        ⊎ ((create_party T id leader_id now dto s
              ≡ (ok (new_party leader_id dto, 1), created_store id leader_id now dto))
            × (T.party.find_unique id s.parties ≡ none)
            × (T.party_member.find_unique (id, leader_id) s.members ≡ none)
            × NoneActive leader_id
            × (counted (T.create_count.find_unique leader_id s.creates) ≤ creates_per_hour))
  unfolding create_party create_rows count_create
  create_party-cases id leader_id now dto = ground arith

  -- What the checks of `joinParty` have established when they pass.
  abbrev pub MayJoin : (user_id party_id : ℕ) → Party → Type 0
  MayJoin user_id party_id p =
      (T.party.find_unique party_id s.parties ≡ some p)
      × (is_open p ≡ true)
      × (T.party_member.count (is_active_in party_id) s.members < p.max_members)
      × (is_elsewhere party_id
            (head? (T.party_member.find_many (is_active_membership T s user_id) s.members))
          ≡ false)
      × (p.is_private && not (is_pending_row (T.invite.find_unique (party_id, user_id) s.invites))
          ≡ false)

  join_checks-cases :
      (user_id party_id : ℕ)
      → ((is_ok (join_checks T user_id party_id s).0 ≡ false)
          × ((join_checks T user_id party_id s).1 ≡ s))
        ⊎ ((p : Party) × (join_checks T user_id party_id s ≡ (ok p, s))
            × MayJoin user_id party_id p)
  unfolding join_checks find_active_party_for_user
  join_checks-cases user_id party_id =
      elim (Option-cases (T.party.find_unique party_id s.parties)) [
        | inl gone ↦ inl (ground arith, ground arith)
        | inr (p, found) ↦ elim (Bool-cases (is_ok (join_checks T user_id party_id s).0)) [
          | inl passed ↦ inr (p, ground arith, ground arith)
          | inr refused ↦ inl (refused, ground arith)
        ]
      ]

  -- The membership row after a join: the active row brought back online, or a new one.
  abbrev pub joined_row : ℕ → Option Member → Member
  joined_row now none = new_member member now
  joined_row now (some m) = if is_active m then come_back m else new_member member now

  abbrev pub joined_store : (user_id party_id now : ℕ) → Party → Store T
  joined_store user_id party_id now p = record s {
    members =
        T.party_member.write (party_id, user_id)
          (joined_row now (T.party_member.find_unique (party_id, user_id) s.members)) s.members;
    invites =
        if p.is_private
        then T.invite.update_many (is_pending_invite party_id user_id) (accept_invite now) s.invites
        else s.invites;
    member_sets = T.member_set.write (party_id, user_id) tt s.member_sets;
    user_parties = T.user_party.write user_id party_id s.user_parties;
    sent = if s.has_emitter then member_joined party_id user_id ∷ s.sent else s.sent;
  }

  -- A row that is over: its member has left before.
  abbrev has_left : Option Member → Bool
  has_left none = false
  has_left (some m) = not (is_active m)

  join_writes-cases :
      (user_id party_id now : ℕ) (p : Party)
      → T.party.find_unique party_id s.parties ≡ some p
      → ((has_left (T.party_member.find_unique (party_id, user_id) s.members) ≡ true)
          × (join_writes T user_id party_id now p s ≡ (err unique_violation, s)))
        ⊎ ((has_left (T.party_member.find_unique (party_id, user_id) s.members) ≡ false)
            × (is_ok (join_writes T user_id party_id now p s).0 ≡ true)
            × ((join_writes T user_id party_id now p s).1 ≡ joined_store user_id party_id now p))
  unfolding join_writes get_party_detail
  join_writes-cases user_id party_id now p found = ground arith

  pub join_party-cases :
      (user_id party_id now : ℕ)
      → IsRefused (join_party T user_id party_id now) s
        ⊎ ((p : Party) × MayJoin user_id party_id p
            × (has_left (T.party_member.find_unique (party_id, user_id) s.members) ≡ false)
            × (is_ok (join_party T user_id party_id now s).0 ≡ true)
            × ((join_party T user_id party_id now s).1 ≡ joined_store user_id party_id now p))
  unfolding join_party
  join_party-cases user_id party_id now = elim (join_checks-cases user_id party_id) [
    | inl (refused, same) ↦ inl (ground arith, ground arith)
    | inr (p, passed, may) ↦ elim (join_writes-cases user_id party_id now p may.0) [
      | inl (left, fails) ↦ inl (ground arith, ground arith)
      | inr (fresh, done, store) ↦ inr (p, may, fresh, ground arith, ground arith)
    ]
  ]

  -- A user whose membership row in a party is over cannot join that party: every such call throws
  -- and changes nothing.
  pub rejoin_fails :
      (user_id party_id now : ℕ)
      → has_left (T.party_member.find_unique (party_id, user_id) s.members) ≡ true
      → IsRefused (join_party T user_id party_id now) s
  rejoin_fails user_id party_id now left = elim (join_party-cases user_id party_id now) [
    | inl refused ↦ refused
    | inr (p, may, fresh, done, store) ↦ absurd (ground arith)
  ]
