-- ===== src/Gatherings/Tests.antt =====
-- Communities and events on which the services run.
mod Communities
mod Events
use motogram.Prelude.{ℕ, refl, Bool, true, false, Option, none, some, List, [], ◌∷◌}
use motogram.Prelude.Assoc.{id_table, pair_table}
use motogram.Prelude.Int.{ℤ, pos}
use motogram.Gatherings.Schema.{
  Community, CommunityMember, Event, EventParticipant, by_request, owner, ordinary, active, pending,
  public, going, waitlist, RsvpStatus, Tables, Store,
}

abbrev pub tables : Tables
tables = record {
  community = id_table Community;
  community_member = pair_table CommunityMember;
  event = id_table Event;
  participant = pair_table EventParticipant;
}

abbrev pub club : Community
club = record {
  name = "club";
  owner_id = 1;
  visibility = by_request;
  members_count = pos 1;
  deleted_at = none;
}

abbrev pub meet : Event
meet = record {
  title = "meet";
  organizer_id = 1;
  co_host_ids = [];
  community_id = some 5;
  start_time = 100;
  end_time = none;
  visibility = public;
  max_participants = some 1;
  participants_count = pos 1;
  deleted_at = none;
}

abbrev pub answer : RsvpStatus → ℕ → EventParticipant
answer status now = record { rsvp_status = status; checked_in = false; joined_at = now }

-- User 1 owns community 5, which user 2 asks to join. One may go to event 8, user 1 does, and users 3
-- and 2 wait, in this order.
abbrev pub world : Store tables
world = record {
  communities = ((5, club) ∷ [], (refl, tt));
  members = (
    ((5, 1), record { role = owner; status = active; joined_at = 1 })
        ∷ ((5, 2), record { role = ordinary; status = pending; joined_at = 2 })
        ∷ [],
    (refl, (refl, tt)),
  );
  events = ((8, meet) ∷ [], (refl, tt));
  participants = (
    ((8, 1), answer going 1) ∷ ((8, 2), answer waitlist 4) ∷ ((8, 3), answer waitlist 3) ∷ [],
    (refl, (refl, (refl, tt))),
  );
}
