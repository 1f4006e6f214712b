-- ===== src/Gatherings/Events/Counter/Runs.antt =====
-- Histories of calls of the event service, and `participantsCount` along them.
use motogram.Prelude.{
  ℕ, ◌≡◌, refl, ap, Option, some, is_some, not, inl, inr, arith, ==_iff, Option-cases, List,
}
use motogram.Prelude.Queries.{find_first-row_if}
use motogram.Prelude.History.{run, run_inv}
use motogram.Gatherings.Schema.{RsvpStatus, going, Event, EventParticipant, Tables, Store}
use motogram.Gatherings.Events.{
  CreateEvent, UpdateEvent, create_event, update_event, rsvp, withdraw, save_rsvp, delete_event,
  is_going, is_going_in, new_event, new_participant, changed_event, with_status, drop_participant,
}
use motogram.Gatherings.Events.Places.{without, dropped_store, withdraw-cases, save_rsvp-cases}
use motogram.Gatherings.Events.Answers.{answered, rsvp-cases}
use motogram.Gatherings.Events.Counter.{
  IsCounted, IsGoingCounted, no_participants, kept, joined, stepped_back, departed, removed, retold,
}

pub data Call : Type 0 where
  creates : (id user_id now : ℕ) → CreateEvent → Call
  updates : (user_id id : ℕ) → UpdateEvent → Call
  answers : (user_id id now : ℕ) → RsvpStatus → Call
  deletes : (user_id id now : ℕ) → Call

module _ (T : Tables) where
  module _ (s : Store T) (h : IsGoingCounted T s) where
    create_event-IsGoingCounted :
        (id u now : ℕ) (dto : CreateEvent) → IsGoingCounted T (create_event T id u now dto s).1
    unfolding create_event
    create_event-IsGoingCounted id u now dto =
        elim (Option-cases (T.event.find_unique id s.events)) [
          | inr (e, taken) ↦ ground (arith, h)
          | inl fresh ↦
              let row = new_participant going now in
              let goal : IsCounted T (T.event.write id (new_event u dto) s.events)
                  (T.participant.write (id, u) row s.participants) =
                record {
                  counted = λ q r e. ground (
                    arith,
                    h.counted q r,
                    ==_iff id q,
                    no_participants T s.events s.participants h id fresh,
                    h.known (id, u),
                    T.event.find-write q id (new_event u dto) s.events,
                    T.participant.count-write (is_going_in q) (id, u) row s.participants,
                  );
                  known = λ k e. ground (
                    arith,
                    h.known k,
                    ==_iff id k.0,
                    T.event.find-write k.0 id (new_event u dto) s.events,
                    T.participant.find-write k (id, u) row s.participants,
                  );
                } in
              ground (arith, h, goal)
        ]

    withdraw-IsGoingCounted :
        (id u : ℕ) (e : Event) (row : EventParticipant)
        → T.event.find_unique id s.events ≡ some e
        → answered T s u id ≡ some row
        → (limit : Option ℕ) → IsGoingCounted T (withdraw T id u limit (some row) s).1
    withdraw-IsGoingCounted id u e row found there limit =
        elim (withdraw-cases T s id u e found limit row there) [
          | inl (idle, out) ↦
              rw out (removed T s.events s.participants h id u e found (ground arith))
          | inr (inl (goes, out)) ↦
              rw out (departed T s.events s.participants h id u e found (ground arith))
          | inr (inr (r, goes, limited, first, waits, out)) ↦
              let s' = dropped_store T (without T s id u e found) id e in
              rw out (
                joined T s'.events s'.participants
                  (departed T s.events s.participants h id u e found (ground arith)) id r.0.1
                  (drop_participant e)
                  (ground
                    (arith, ==_iff id id, T.event.find-write id id (drop_participant e) s.events))
                  (with_status going r.1) (ground arith) refl)
        ]

    save_rsvp-IsGoingCounted :
        (id u now : ℕ) (e : Event) (status : RsvpStatus)
        → T.event.find_unique id s.events ≡ some e
        → IsGoingCounted T (save_rsvp T id u now status (answered T s u id) s).1
    save_rsvp-IsGoingCounted id u now e status found =
        let (p, same, out) = save_rsvp-cases T s id u e found now status in
        rw out (
          ground (
            arith,
            same,
            ap (λ r. is_going r) same,
            kept T s.events s.participants h id u e found p,
            joined T s.events s.participants h id u e found p,
            stepped_back T s.events s.participants h id u e found p,
          ))

    rsvp-IsGoingCounted :
        (u id now : ℕ) (status : RsvpStatus) → IsGoingCounted T (rsvp T u id now status s).1
    rsvp-IsGoingCounted u id now status = elim (rsvp-cases T s u id now status) [
      | inl same ↦ rw same h
      | inr (inl (e, row, found, there, out)) ↦
          rw out (withdraw-IsGoingCounted id u e row found there e.max_participants)
      | inr (inr (e, found, comes, out)) ↦ rw out (save_rsvp-IsGoingCounted id u now e _ found)
    ]

    update_event-IsGoingCounted :
        (u id : ℕ) (dto : UpdateEvent) → IsGoingCounted T (update_event T u id dto s).1
    unfolding update_event
    update_event-IsGoingCounted u id dto = elim (Option-cases (T.event.find_unique id s.events)) [
      | inl gone ↦
          ground (arith, h, find_first-row_if T.event id (λ e. not (is_some e.deleted_at)) s.events)
      | inr (e, found) ↦ ground (
        arith,
        h,
        find_first-row_if T.event id (λ e. not (is_some e.deleted_at)) s.events,
        retold T s.events s.participants h id u e found (changed_event dto e) refl,
      )
    ]

    delete_event-IsGoingCounted : (u id now : ℕ) → IsGoingCounted T (delete_event T u id now s).1
    unfolding delete_event
    delete_event-IsGoingCounted u id now = elim (Option-cases (T.event.find_unique id s.events)) [
      | inl gone ↦
          ground (arith, h, find_first-row_if T.event id (λ e. not (is_some e.deleted_at)) s.events)
      | inr (e, found) ↦ ground (
        arith,
        h,
        find_first-row_if T.event id (λ e. not (is_some e.deleted_at)) s.events,
        retold T s.events s.participants h id u e found (record e { deleted_at = some now }) refl,
      )
    ]

  unfoldable pub step : Store T → Call → Store T
  step s (creates id u now dto) = (create_event T id u now dto s).1
  step s (updates u id dto) = (update_event T u id dto s).1
  step s (answers u id now status) = (rsvp T u id now status s).1
  step s (deletes u id now) = (delete_event T u id now s).1

  step-IsGoingCounted : (s : Store T) (c : Call) → IsGoingCounted T s → IsGoingCounted T (step s c)
  unfolding step
  step-IsGoingCounted s (creates id u now dto) h = create_event-IsGoingCounted s h id u now dto
  step-IsGoingCounted s (updates u id dto) h = update_event-IsGoingCounted s h u id dto
  step-IsGoingCounted s (answers u id now status) h = rsvp-IsGoingCounted s h u id now status
  step-IsGoingCounted s (deletes u id now) h = delete_event-IsGoingCounted s h u id now

  -- If the participantsCount of every event is the number of its participants that go, and every
  -- answer belongs to an event row, both still hold after any history of creations, changes,
  -- answers and deletions of events.
  pub run-IsGoingCounted :
      (s : Store T) (cs : List Call) → IsGoingCounted T s → IsGoingCounted T (run step s cs)
  run-IsGoingCounted = run_inv step (IsGoingCounted T) step-IsGoingCounted
