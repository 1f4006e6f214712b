-- ===== src/Party/Members.antt =====
-- Creating and joining a party: `createParty`, `joinParty` and their queries in
-- apps/api/src/modules/party/party.service.ts. The identifier of a new party is generated by the
-- database, and `now` is the clock, so both are arguments.
pub mod Joining
use motogram.Prelude.{
  ℕ, ◌+◌, Bool, true, false, Option, none, some, is_some, String, not, length, sort, leb, ltb, ◌&&◌,
  ◌||◌, ◌==◌, List, [], ◌∷◌, if◌then◌else◌,
}
use motogram.Prelude.Action.{
  ⊤, Error, forbidden, conflict, not_found, Action, pure, transaction, raise_if, or_raise, do_if,
  ◌>>=◌, ◌>>◌, find_unique, find_first, find_many, create, update, update_many, write, modify,
  count,
}
use motogram.Party.Schema.{
  PartyStatus, waiting, ended, PartyRole, leader, member, InviteStatus, pending, accepted, Party,
  Member, Invite, Tables, Store, party, party_member, invite, route, member_set, user_party,
  active_set, create_count, emit, member_joined,
}

-- `CreatePartyDto`
pub record CreateParty : Type 0 where
  pub name : String
  pub co_leader_ids : List ℕ
  pub route_id : Option ℕ
  pub event_id : Option ℕ
  pub is_private : Bool
  pub max_members : ℕ

-- `PARTY_CREATE_LIMIT.perHour`
abbrev pub creates_per_hour : ℕ
creates_per_hour = 5

abbrev pub is_ended : PartyStatus → Bool
is_ended ended = true
is_ended _ = false

abbrev pub is_pending : InviteStatus → Bool
is_pending pending = true
is_pending _ = false

-- Neither deleted nor ended.
abbrev pub is_open : Party → Bool
is_open p = not (is_some p.deleted_at) && not (is_ended p.status)

abbrev pub holds_open : Option Party → Bool
holds_open none = false
holds_open (some p) = is_open p

-- `m.leftAt === null`
abbrev pub is_active : Member → Bool
is_active m = not (is_some m.left_at)

abbrev pub is_active_row : Option Member → Bool
is_active_row none = false
is_active_row (some m) = is_active m

abbrev pub is_active_in : ℕ → ℕ × ℕ → Member → Bool
is_active_in party_id k m = k.0 == party_id && is_active m

abbrev pub new_member : PartyRole → ℕ → Member
new_member role now = record {
  role = role;
  is_online = true;
  joined_at = now;
  left_at = none;
  server_hostname = none;
}

abbrev pub come_back : Member → Member
come_back m = record m { is_online = true; left_at = none }

-- `other && other.partyId !== partyId`
abbrev pub is_elsewhere : ℕ → Option ((ℕ × ℕ) × Member) → Bool
is_elsewhere party_id none = false
is_elsewhere party_id (some r) = not (r.0.0 == party_id)

abbrev pub is_pending_row : Option Invite → Bool
is_pending_row none = false
is_pending_row (some i) = is_pending i.status

abbrev pub accept_invite : ℕ → Invite → Invite
accept_invite now i = record i { status = accepted; responded_at = some now }

abbrev pub is_pending_invite : (party_id user_id : ℕ) → ℕ × ℕ → Invite → Bool
is_pending_invite party_id user_id k i = k.0 == party_id && k.1 == user_id && is_pending i.status

-- What a party looks like: the row, the number of active members, and the members, the earliest
-- first. (The texts that `getPartyDetail` adds from other tables are left out.)
pub record PartyDetail : Type 0 where
  pub id : ℕ
  pub row : Party
  pub member_count : ℕ
  pub member_rows : List ((ℕ × ℕ) × Member)

abbrev joined_earlier : (ℕ × ℕ) × Member → (ℕ × ℕ) × Member → Bool
joined_earlier a b = leb a.1.joined_at b.1.joined_at

-- `INCR`: a key that is not there counts as 0.
abbrev pub counted : Option ℕ → ℕ
counted none = 1
counted (some n) = n + 1

module _ (T : Tables) where
  -- `findActivePartyForUser`: some membership that is not over, in a party that is not over.
  abbrev pub is_active_membership : Store T → ℕ → ℕ × ℕ → Member → Bool
  is_active_membership s user_id k m =
      k.1 == user_id && (is_active m && holds_open (T.party.find_unique k.0 s.parties))

  pub find_active_party_for_user : ℕ → Action (Store T) (Option ((ℕ × ℕ) × Member))
  find_active_party_for_user user_id s =
      find_first (party_member T) (is_active_membership s user_id) s

  pub get_party_detail : ℕ → Action (Store T) PartyDetail
  get_party_detail party_id = do
    found ← find_unique (party T) party_id
    p ← or_raise found (not_found "party_not_found")
    rows ← find_many (party_member T) (is_active_in party_id)
    pure (record {
      id = party_id;
      row = p;
      member_count = length rows;
      member_rows = sort joined_earlier rows;
    })

  -- `incrementActionCount(leaderId, 'party_create', ...)`
  pub count_create : ℕ → Action (Store T) ℕ
  count_create user_id = do
    before ← find_unique (create_count T) user_id
    write (create_count T) user_id (counted before)

  -- `if (dto.routeId) { ... }`
  abbrev is_live_route : Option ℕ → Store T → Bool
  is_live_route none s = true
  is_live_route (some id) s = elim (T.route.find_unique id s.routes) [
    | none ↦ false
    | some r ↦ not (is_some r.deleted_at)
  ]

  pub create_rows : (id leader_id now : ℕ) → CreateParty → Action (Store T) Party
  create_rows id leader_id now dto = transaction (do
    made ← create (party T) id (record {
      name = dto.name;
      leader_id = leader_id;
      co_leader_ids = dto.co_leader_ids;
      route_id = dto.route_id;
      event_id = dto.event_id;
      status = waiting;
      is_private = dto.is_private;
      max_members = dto.max_members;
      ended_at = none;
      deleted_at = none;
    })
    create (party_member T) (id, leader_id) (new_member leader now)
    pure made)

  -- The MULTI block of `createParty`.
  abbrev create_keys : (id leader_id : ℕ) → Action (Store T) ⊤
  create_keys id leader_id = modify (λ s. record s {
    member_sets = T.member_set.write (id, leader_id) tt s.member_sets;
    active = T.active_set.write id tt s.active;
    user_parties = T.user_party.write leader_id id s.user_parties;
  })

  pub create_party : (id leader_id now : ℕ) → CreateParty → Action (Store T) (Party × ℕ)
  unfolding find_active_party_for_user
  create_party id leader_id now dto = do
    n ← count_create leader_id
    raise_if (ltb creates_per_hour n) (forbidden "party_create_rate_limited")
    existing ← find_active_party_for_user leader_id
    raise_if (is_some existing) (conflict "user_already_in_party")
    live ← (λ s. pure (is_live_route dto.route_id s) s)
    raise_if (not live) (not_found "route_not_found")
    made ← create_rows id leader_id now dto
    create_keys id leader_id
    pure (made, 1)

  -- `existing ? partyMember.update(...) : partyMember.create(...)`, where `existing` is the row of
  -- an active member.
  abbrev join_row : (user_id party_id now : ℕ) → Bool → Action (Store T) Member
  join_row user_id party_id now true = update (party_member T) (party_id, user_id) come_back
  join_row user_id party_id now false =
      create (party_member T) (party_id, user_id) (new_member member now)

  -- The checks of `joinParty`, in its order; they only read.
  pub join_checks : (user_id party_id : ℕ) → Action (Store T) Party
  join_checks user_id party_id = do
    found ← find_unique (party T) party_id
    p ← or_raise found (not_found "party_not_found")
    raise_if (not (is_open p)) (not_found "party_not_found")
    n ← count (party_member T) (is_active_in party_id)
    raise_if (leb p.max_members n) (conflict "party_full")
    other ← find_active_party_for_user user_id
    raise_if (is_elsewhere party_id other) (conflict "user_already_in_party")
    i ← find_unique (invite T) (party_id, user_id)
    raise_if (p.is_private && not (is_pending_row i)) (forbidden "invite_required")
    pure p

  -- The MULTI block of `joinParty`.
  abbrev join_keys : (user_id party_id : ℕ) → Action (Store T) ⊤
  join_keys user_id party_id = modify (λ s. record s {
    member_sets = T.member_set.write (party_id, user_id) tt s.member_sets;
    user_parties = T.user_party.write user_id party_id s.user_parties;
  })

  -- From the membership row on.
  pub join_writes : (user_id party_id now : ℕ) → Party → Action (Store T) PartyDetail
  join_writes user_id party_id now p = do
    row ← find_unique (party_member T) (party_id, user_id)
    join_row user_id party_id now (is_active_row row)
    do_if p.is_private
        (update_many (invite T) (is_pending_invite party_id user_id) (accept_invite now))
    join_keys user_id party_id
    emit T (member_joined party_id user_id)
    get_party_detail party_id

  pub join_party : (user_id party_id now : ℕ) → Action (Store T) PartyDetail
  join_party user_id party_id now = do
    p ← join_checks user_id party_id
    join_writes user_id party_id now p
