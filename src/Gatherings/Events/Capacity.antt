-- ===== src/Gatherings/Events/Capacity.antt =====
-- The limit of an event, and its queue.
use motogram.Prelude.{ℕ, ◌≤◌, ◌<◌, ◌≡◌, ap, Option, some, inl, inr, arith, ==_iff}
use motogram.Gatherings.Schema.{RsvpStatus, going, Event, EventParticipant, Tables, Store}
use motogram.Gatherings.Events.{rsvp, withdraw, save_rsvp, is_going, is_going_in, with_status}
use motogram.Gatherings.Events.Places.{without, withdraw-cases, save_rsvp-cases}
use motogram.Gatherings.Events.Answers.{answered, was_going, saved_status, rsvp-cases}

module _ (T : Tables) where
  abbrev pub going_at : ℕ → Store T → ℕ
  going_at id s = T.participant.count (is_going_in id) s.participants

  module _ (s : Store T) (u id now : ℕ) where
    withdraw-going_at :
        (e : Event) (row : EventParticipant) (limit : Option ℕ)
        → T.event.find_unique id s.events ≡ some e
        → answered T s u id ≡ some row
        → going_at id (withdraw T id u limit (some row) s).1 ≤ going_at id s
    withdraw-going_at e row limit found there =
        elim (withdraw-cases T s id u e found limit row there) [
          | inl (idle, out) ↦
              rw out
                (ground (arith, T.participant.count-delete (is_going_in id) (id, u) s.participants))
          | inr (inl (goes, out)) ↦
              rw out
                (ground (arith, T.participant.count-delete (is_going_in id) (id, u) s.participants))
          | inr (inr (r, goes, limited, first, waits, out)) ↦ rw out (
              ground (
                arith,
                ==_iff id id,
                T.participant.count-delete (is_going_in id) (id, u) s.participants,
                T.participant.count-write (is_going_in id) (id, r.0.1) (with_status going r.1)
                    (without T s id u e found).participants,
              ))
        ]

    save_rsvp-going_at :
        (e : Event) (status : RsvpStatus) (m : ℕ)
        → T.event.find_unique id s.events ≡ some e
        → e.max_participants ≡ some m
        → 0 < m
        → going_at id s ≤ m
        → going_at id
            (save_rsvp T id u now
              (saved_status e.max_participants status (was_going T s u id) (going_at id s))
              (answered T s u id)
              s).1
          ≤ m
    save_rsvp-going_at e status m found limit room few =
        let status' = saved_status e.max_participants status (was_going T s u id) (going_at id s) in
        let (p, same, out) = save_rsvp-cases T s id u e found now status' in
        rw out (
          ground (
            arith,
            few,
            limit,
            ap (λ r. is_going r) same,
            T.participant.count-write (is_going_in id) (id, u) p s.participants,
          ))

    -- For an event with a positive limit `m` to which at most `m` participants go, at most `m` go
    -- after any answer of any user to it.
    pub rsvp-within_limit :
        (status : RsvpStatus) (e : Event) (m : ℕ)
        → T.event.find_unique id s.events ≡ some e
        → e.max_participants ≡ some m
        → 0 < m
        → going_at id s ≤ m
        → going_at id (rsvp T u id now status s).1 ≤ m
    rsvp-within_limit status e m found limit room few = elim (rsvp-cases T s u id now status) [
      | inl same ↦ rw same few
      | inr (inl (e', row, found', there, out)) ↦
          rw out (ground (arith, withdraw-going_at e' row e'.max_participants found' there))
      | inr (inr (e', found', comes, out)) ↦
          rw out (save_rsvp-going_at e' status m found' (ground (arith, found, found')) room few)
    ]
