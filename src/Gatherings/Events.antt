-- ===== src/Gatherings/Events.antt =====
-- apps/api/src/modules/event/event.service.ts, without the searches. Identifiers of new rows and the
-- time are arguments.
pub mod Places
pub mod Answers
pub mod Counter
pub mod Capacity
pub mod Lists
use motogram.Prelude.{
  ℕ, ◌+◌, String, Bool, true, false, Option, none, some, is_some, not, ltb, leb, ◌&&◌, ◌||◌, ◌==◌,
  List, [], ◌∷◌, any, head?, sort, if◌then◌else◌,
}
use motogram.Prelude.Int.{ℤ, pos, ◌+ℤ◌, ◌-ℤ◌}
use motogram.Prelude.Action.{
  ⊤, bad_request, not_found, forbidden, Action, pure, transaction, raise_if, or_raise, do_if, ◌>>=◌,
  ◌>>◌, find_first, find_unique, find_many, count, create, update, delete,
}
use motogram.Gatherings.Schema.{
  EventVisibility, public, private, group_only, RsvpStatus, going, interested, not_going, waitlist,
  CommunityRole, owner, admin, moderator, ordinary, CommunityMember, Event, EventParticipant,
  Tables, Store, community_member, event, participant,
}
use motogram.Gatherings.Communities.{or_keep, fits, is_active}

-- `CreateEventDto` and `UpdateEventDto`
pub record CreateEvent : Type 0 where
  pub title : String
  pub community_id : Option ℕ
  pub co_host_ids : List ℕ
  pub start_time : ℕ
  pub end_time : Option ℕ
  pub visibility : EventVisibility
  pub max_participants : Option ℕ

pub record UpdateEvent : Type 0 where
  pub title : Option String
  pub community_id : Option ℕ
  pub co_host_ids : Option (List ℕ)
  pub start_time : Option ℕ
  pub end_time : Option ℕ
  pub visibility : Option EventVisibility
  pub max_participants : Option ℕ

-- `EventDetail`
pub record EventDetail : Type 0 where
  pub id : ℕ
  pub row : Event
  pub viewer_rsvp : Option RsvpStatus

-- `{ rsvpStatus, promotedFromWaitlist }`
pub record RsvpResult : Type 0 where
  pub rsvp_status : RsvpStatus
  pub promoted : Option (List ℕ)

-- A field that a request leaves out stays.
abbrev or_old : {A : Type 0} → Option A → Option A → Option A
or_old none old = old
or_old (some new) old = some new

abbrev pub is_going : RsvpStatus → Bool
is_going going = true
is_going _ = false

abbrev pub is_not_going : RsvpStatus → Bool
is_not_going not_going = true
is_not_going _ = false

abbrev pub is_waiting : RsvpStatus → Bool
is_waiting waitlist = true
is_waiting _ = false

abbrev pub is_private : EventVisibility → Bool
is_private private = true
is_private _ = false

abbrev leads_community : CommunityRole → Bool
leads_community ordinary = false
leads_community _ = true

-- `dto.endTime && dto.endTime < dto.startTime`: a `Date` is truthy at any time.
abbrev ends_early : Option ℕ → ℕ → Bool
ends_early none start = false
ends_early (some e) start = ltb e start

-- `if (event.maxParticipants)`
abbrev pub is_limited : Option ℕ → Bool
is_limited none = false
is_limited (some n) = not (n == 0)

-- `n > event.maxParticipants`
abbrev pub exceeds : ℕ → Option ℕ → Bool
exceeds n none = false
exceeds n (some m) = ltb m n

abbrev pub add_participant : Event → Event
add_participant e = record e { participants_count = e.participants_count +ℤ pos 1 }

abbrev pub drop_participant : Event → Event
drop_participant e = record e { participants_count = e.participants_count -ℤ pos 1 }

abbrev pub new_event : ℕ → CreateEvent → Event
new_event organizer_id dto = record {
  title = dto.title;
  organizer_id = organizer_id;
  co_host_ids = dto.co_host_ids;
  community_id = dto.community_id;
  start_time = dto.start_time;
  end_time = dto.end_time;
  visibility = dto.visibility;
  max_participants = dto.max_participants;
  participants_count = pos 1;
  deleted_at = none;
}

abbrev pub changed_event : UpdateEvent → Event → Event
changed_event dto e = record e {
  title = or_keep dto.title e.title;
  community_id = or_old dto.community_id e.community_id;
  co_host_ids = or_keep dto.co_host_ids e.co_host_ids;
  start_time = or_keep dto.start_time e.start_time;
  end_time = or_old dto.end_time e.end_time;
  visibility = or_keep dto.visibility e.visibility;
  max_participants = or_old dto.max_participants e.max_participants;
}

abbrev pub new_participant : RsvpStatus → ℕ → EventParticipant
new_participant status now = record { rsvp_status = status; checked_in = false; joined_at = now }

abbrev pub with_status : RsvpStatus → EventParticipant → EventParticipant
with_status status p = record p { rsvp_status = status }

abbrev rsvp_of : Option EventParticipant → Option RsvpStatus
rsvp_of none = none
rsvp_of (some p) = some p.rsvp_status

abbrev pub hosts : Event → ℕ → Bool
hosts e user_id = e.organizer_id == user_id || any (λ c. c == user_id) e.co_host_ids

abbrev pub is_going_in : ℕ → ℕ × ℕ → EventParticipant → Bool
is_going_in event_id k p = k.0 == event_id && is_going p.rsvp_status

abbrev pub is_waiting_in : ℕ → ℕ × ℕ → EventParticipant → Bool
is_waiting_in event_id k p = k.0 == event_id && is_waiting p.rsvp_status

-- `orderBy: { joinedAt: 'asc' }`
abbrev pub joined_before : (ℕ × ℕ) × EventParticipant → (ℕ × ℕ) × EventParticipant → Bool
joined_before a b = leb a.1.joined_at b.1.joined_at

module _ (T : Tables) where
  -- `requireExisting`
  abbrev pub require_existing : ℕ → Action (Store T) (ℕ × Event)
  require_existing id = do
    found ← find_first (event T) (λ k e. k == id && not (is_some e.deleted_at))
    or_raise found (not_found "Event not found")

  abbrev assert_community_privilege : Option ℕ → ℕ → Action (Store T) ⊤
  assert_community_privilege none user_id = pure tt
  assert_community_privilege (some community_id) user_id = do
    m ← find_unique (community_member T) (community_id, user_id)
    raise_if (not (fits (λ m. is_active m && leads_community m.role) m))
        (forbidden "Need OWNER/ADMIN/MODERATOR role in community")

  pub create_event : (id organizer_id now : ℕ) → CreateEvent → Action (Store T) EventDetail
  create_event id organizer_id now dto = do
    raise_if (ends_early dto.end_time dto.start_time)
        (bad_request "endTime must be after startTime")
    assert_community_privilege dto.community_id organizer_id
    e ← transaction (do
      made ← create (event T) id (new_event organizer_id dto)
      create (participant T) (id, organizer_id) (new_participant going now)
      pure made)
    pure (record { id = id; row = e; viewer_rsvp = some going })

  pub update_event : (actor_id id : ℕ) → UpdateEvent → Action (Store T) EventDetail
  update_event actor_id id dto = do
    e ← require_existing id
    raise_if (not (hosts e.1 actor_id)) (forbidden "Only organizer or co-hosts may edit")
    updated ← update (event T) id (changed_event dto)
    viewer ← find_unique (participant T) (id, actor_id)
    pure (record { id = id; row = updated; viewer_rsvp = rsvp_of viewer })

  unfoldable pub get_detail : (id viewer_id : ℕ) → Action (Store T) EventDetail
  get_detail id viewer_id = do
    e ← require_existing id
    viewer ← find_unique (participant T) (id, viewer_id)
    raise_if (is_private e.1.visibility && (not (hosts e.1 viewer_id) && not (is_some viewer)))
        (forbidden "Event is private")
    pure (record { id = id; row = e.1; viewer_rsvp = rsvp_of viewer })

  -- The one that waits longest goes.
  pub promote_first : ℕ → Option ((ℕ × ℕ) × EventParticipant) → Action (Store T) (List ℕ)
  promote_first event_id none = pure []
  promote_first event_id (some next) = do
    update (participant T) (event_id, next.0.1) (with_status going)
    update (event T) event_id add_participant
    pure (next.0.1 ∷ [])

  abbrev pub first_waiting : ℕ → Store T → Option ((ℕ × ℕ) × EventParticipant)
  first_waiting event_id s =
      head? (sort joined_before (T.participant.find_many (is_waiting_in event_id) s.participants))

  -- A place becomes free.
  pub give_place : ℕ → Option ℕ → Action (Store T) (List ℕ)
  unfolding promote_first
  give_place event_id limit = do
    update (event T) event_id drop_participant
    if is_limited limit then (λ s. promote_first event_id (first_waiting event_id s) s) else pure []

  abbrev pub withdraw :
      (event_id user_id : ℕ) → Option ℕ → Option EventParticipant → Action (Store T) RsvpResult
  withdraw event_id user_id limit none = pure (record { rsvp_status = not_going; promoted = none })
  withdraw event_id user_id limit (some row) = do
    promoted ← transaction (do
      delete (participant T) (event_id, user_id)
      if is_going row.rsvp_status then give_place event_id limit else pure [])
    pure (record { rsvp_status = not_going; promoted = some promoted })

  -- GOING becomes WAITLIST when the event is full.
  pub effective_status :
      ℕ → Option ℕ → RsvpStatus → Option EventParticipant → Action (Store T) RsvpStatus
  effective_status event_id limit status existing =
      if is_going status && is_limited limit
      then (do
        going_count ← count (participant T) (is_going_in event_id)
        let was_going = fits (λ p. is_going p.rsvp_status) existing
        pure (
            if exceeds (if was_going then going_count else going_count + 1) limit
            then waitlist
            else going))
      else pure status

  -- The body of the transaction that saves an answer.
  pub save_rsvp :
      (event_id user_id now : ℕ) → RsvpStatus → Option EventParticipant → Action (Store T) ⊤
  save_rsvp event_id user_id now effective (some row) = do
    update (participant T) (event_id, user_id) (with_status effective)
    do_if (not (is_going row.rsvp_status) && is_going effective)
        (update (event T) event_id add_participant >> pure tt)
    do_if (is_going row.rsvp_status && not (is_going effective))
        (update (event T) event_id drop_participant >> pure tt)
  save_rsvp event_id user_id now effective none = do
    create (participant T) (event_id, user_id) (new_participant effective now)
    do_if (is_going effective) (update (event T) event_id add_participant >> pure tt)

  pub rsvp : (user_id event_id now : ℕ) → RsvpStatus → Action (Store T) RsvpResult
  rsvp user_id event_id now status = do
    e ← require_existing event_id
    existing ← find_unique (participant T) (event_id, user_id)
    if is_not_going status then withdraw event_id user_id e.1.max_participants existing else (do
      effective ← effective_status event_id e.1.max_participants status existing
      transaction (save_rsvp event_id user_id now effective existing)
      pure (record { rsvp_status = effective; promoted = some [] }))

  pub delete_event : (actor_id id now : ℕ) → Action (Store T) ⊤
  delete_event actor_id id now = do
    e ← require_existing id
    raise_if (not (e.1.organizer_id == actor_id)) (forbidden "Only organizer can delete event")
    update (event T) id (λ e. record e { deleted_at = some now })
    pure tt
