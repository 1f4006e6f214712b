-- ===== src/Party/Schema.antt =====
-- The tables of the parties (apps/api/prisma/schema.prisma), the Redis keys of
-- apps/api/src/modules/party/party.constants.ts, and the messages to the clients.
use motogram.Prelude.{ℕ, Bool, Option, String, List, ◌∷◌, ◌==◌, pair_eq, if◌then◌else◌}
use motogram.Prelude.Table.{Table}
use motogram.Prelude.Action.{⊤, Action, Model, modify}

pub data PartyStatus : Type 0 where
  waiting riding paused ended : PartyStatus

pub data PartyRole : Type 0 where
  leader co_leader member : PartyRole

pub data InviteStatus : Type 0 where
  pending accepted declined expired : InviteStatus

pub record Party : Type 0 where
  pub name : String
  pub leader_id : ℕ
  pub co_leader_ids : List ℕ
  pub route_id : Option ℕ
  pub event_id : Option ℕ
  pub status : PartyStatus
  pub is_private : Bool
  pub max_members : ℕ
  pub ended_at : Option ℕ
  pub deleted_at : Option ℕ

pub record Member : Type 0 where
  pub role : PartyRole
  pub is_online : Bool
  pub joined_at : ℕ
  pub left_at : Option ℕ
  pub server_hostname : Option String

pub record Invite : Type 0 where
  pub id : ℕ
  pub inviter_id : ℕ
  pub status : InviteStatus
  pub responded_at : Option ℕ

pub record Route : Type 0 where
  pub deleted_at : Option ℕ

pub data LeaveReason : Type 0 where
  left disconnect_timeout kicked : LeaveReason

pub data EndReason : Type 0 where
  leader_left_alone manual timeout : EndReason

pub data Signal : Type 0 where
  regroup stop fuel : Signal

-- The calls of `PartyEmitter`.
pub data Message : Type 0 where
  member_joined : (party_id user_id : ℕ) → Message
  member_left : (party_id user_id : ℕ) → LeaveReason → Message
  status_changed : (party_id : ℕ) → PartyStatus → Message
  leader_changed : (party_id new_leader_id : ℕ) → Message
  signalled : (party_id sender_id : ℕ) → Signal → Message
  party_ended : (party_id : ℕ) → EndReason → Message
  -- `notifications.create` with type PARTY_INVITE
  invited : (party_id invitee_id inviter_id : ℕ) → Message

-- `party_members` is keyed by (partyId, userId) and `party_invites` by (partyId, inviteeId). The
-- Redis keys: `party:{id}:members` as (party, user), `user:{id}:party`, `parties:_active`,
-- `party:{id}:zombie` as (party, user) with the score, `party:{id}:leader_lock`, and the counters
-- `rate:party_create:{user}` and `rate:party_signal:{user}`.
pub record Tables : Type 1 where
  pub party : Table ◌==◌ Party
  pub party_member : Table pair_eq Member
  pub invite : Table pair_eq Invite
  pub route : Table ◌==◌ Route
  pub member_set : Table pair_eq ⊤
  pub user_party : Table ◌==◌ ℕ
  pub active_set : Table ◌==◌ ⊤
  pub zombie_set : Table pair_eq ℕ
  pub leader_lock : Table ◌==◌ ℕ
  pub create_count : Table ◌==◌ ℕ
  pub signal_count : Table ◌==◌ ℕ

pub record Store (T : Tables) : Type 0 where
  pub parties : T.party.Rows
  pub members : T.party_member.Rows
  pub invites : T.invite.Rows
  pub routes : T.route.Rows
  pub member_sets : T.member_set.Rows
  pub user_parties : T.user_party.Rows
  pub active : T.active_set.Rows
  pub zombies : T.zombie_set.Rows
  pub locks : T.leader_lock.Rows
  pub creates : T.create_count.Rows
  pub signals : T.signal_count.Rows
  -- Whether `registerEmitter` has been called, and what was sent, the latest first.
  pub has_emitter : Bool
  pub sent : List Message

module _ (T : Tables) where
  abbrev pub party : Model (Store T) ◌==◌ Party
  party = record { table = T.party; get = λ s. s.parties; put = λ t s. record s { parties = t } }

  abbrev pub party_member : Model (Store T) pair_eq Member
  party_member = record {
    table = T.party_member;
    get = λ s. s.members;
    put = λ t s. record s { members = t };
  }

  abbrev pub invite : Model (Store T) pair_eq Invite
  invite = record { table = T.invite; get = λ s. s.invites; put = λ t s. record s { invites = t } }

  abbrev pub route : Model (Store T) ◌==◌ Route
  route = record { table = T.route; get = λ s. s.routes; put = λ t s. record s { routes = t } }

  abbrev pub member_set : Model (Store T) pair_eq ⊤
  member_set = record {
    table = T.member_set;
    get = λ s. s.member_sets;
    put = λ t s. record s { member_sets = t };
  }

  abbrev pub user_party : Model (Store T) ◌==◌ ℕ
  user_party = record {
    table = T.user_party;
    get = λ s. s.user_parties;
    put = λ t s. record s { user_parties = t };
  }

  abbrev pub active_set : Model (Store T) ◌==◌ ⊤
  active_set = record {
    table = T.active_set;
    get = λ s. s.active;
    put = λ t s. record s { active = t };
  }

  abbrev pub zombie_set : Model (Store T) pair_eq ℕ
  zombie_set = record {
    table = T.zombie_set;
    get = λ s. s.zombies;
    put = λ t s. record s { zombies = t };
  }

  abbrev pub leader_lock : Model (Store T) ◌==◌ ℕ
  leader_lock = record {
    table = T.leader_lock;
    get = λ s. s.locks;
    put = λ t s. record s { locks = t };
  }

  abbrev pub create_count : Model (Store T) ◌==◌ ℕ
  create_count = record {
    table = T.create_count;
    get = λ s. s.creates;
    put = λ t s. record s { creates = t };
  }

  abbrev pub signal_count : Model (Store T) ◌==◌ ℕ
  signal_count = record {
    table = T.signal_count;
    get = λ s. s.signals;
    put = λ t s. record s { signals = t };
  }

  -- `this.emitter?.emit...`
  abbrev pub emit : Message → Action (Store T) ⊤
  emit m = modify (λ s. record s { sent = if s.has_emitter then m ∷ s.sent else s.sent })

  -- `this.notifications.create(...)`
  abbrev pub notify : Message → Action (Store T) ⊤
  notify m = modify (λ s. record s { sent = m ∷ s.sent })
