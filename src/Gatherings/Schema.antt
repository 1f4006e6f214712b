-- ===== src/Gatherings/Schema.antt =====
-- The tables of the communities and the events (apps/api/prisma/schema.prisma), without the texts and
-- coordinates that the services carry and do not read.
use motogram.Prelude.{ℕ, Bool, Option, String, List, ◌==◌, pair_eq}
use motogram.Prelude.Int.{ℤ}
use motogram.Prelude.Table.{Table}
use motogram.Prelude.Action.{Model}

-- The visibility of a community and that of an event are two enums.
pub data CommunityVisibility : Type 0 where
  open_to_all by_request hidden : CommunityVisibility

pub data CommunityRole : Type 0 where
  owner admin moderator ordinary : CommunityRole

pub data MemberStatus : Type 0 where
  pending active banned : MemberStatus

pub record Community : Type 0 where
  pub name : String
  pub owner_id : ℕ
  pub visibility : CommunityVisibility
  pub members_count : ℤ
  pub deleted_at : Option ℕ

pub record CommunityMember : Type 0 where
  pub role : CommunityRole
  pub status : MemberStatus
  pub joined_at : ℕ

pub data EventVisibility : Type 0 where
  public private group_only : EventVisibility

pub data RsvpStatus : Type 0 where
  going interested not_going waitlist : RsvpStatus

pub record Event : Type 0 where
  pub title : String
  pub organizer_id : ℕ
  pub co_host_ids : List ℕ
  pub community_id : Option ℕ
  pub start_time : ℕ
  pub end_time : Option ℕ
  pub visibility : EventVisibility
  pub max_participants : Option ℕ
  pub participants_count : ℤ
  pub deleted_at : Option ℕ

pub record EventParticipant : Type 0 where
  pub rsvp_status : RsvpStatus
  pub checked_in : Bool
  pub joined_at : ℕ

-- Compound keys: `communityId_userId` and `eventId_userId`.
pub record Tables : Type 1 where
  pub community : Table ◌==◌ Community
  pub community_member : Table pair_eq CommunityMember
  pub event : Table ◌==◌ Event
  pub participant : Table pair_eq EventParticipant

pub record Store (T : Tables) : Type 0 where
  pub communities : T.community.Rows
  pub members : T.community_member.Rows
  pub events : T.event.Rows
  pub participants : T.participant.Rows

module _ (T : Tables) where
  abbrev pub community : Model (Store T) ◌==◌ Community
  community = record {
    table = T.community;
    get = λ s. s.communities;
    put = λ t s. record s { communities = t };
  }

  abbrev pub community_member : Model (Store T) pair_eq CommunityMember
  community_member = record {
    table = T.community_member;
    get = λ s. s.members;
    put = λ t s. record s { members = t };
  }

  abbrev pub event : Model (Store T) ◌==◌ Event
  event = record { table = T.event; get = λ s. s.events; put = λ t s. record s { events = t } }

  abbrev pub participant : Model (Store T) pair_eq EventParticipant
  participant = record {
    table = T.participant;
    get = λ s. s.participants;
    put = λ t s. record s { participants = t };
  }
