-- ===== src/Gatherings/Events/Places.antt =====
-- What withdrawing and answering leave behind, as equations on the store.
use motogram.Prelude.{
  ℕ, ◌≡◌, refl, true, false, Option, none, some, ◌⊎◌, inl, inr, arith, ==_iff, if◌then◌else◌,
  Option-cases, Bool-cases, List, [], ◌∷◌,
}
use motogram.Prelude.Action.{ok, Result}
use motogram.Prelude.Queries.{head?-sort-In}
use motogram.Gatherings.Schema.{
  RsvpStatus, going, not_going, Event, EventParticipant, Tables, Store,
}
use motogram.Gatherings.Communities.{fits}
use motogram.Gatherings.Events.{
  RsvpResult, is_going, is_waiting, is_waiting_in, is_limited, joined_before, first_waiting,
  add_participant, drop_participant, with_status, new_participant, promote_first, give_place,
  withdraw, save_rsvp,
}

module _ (T : Tables) (s : Store T) (id : ℕ) (e : Event) where
  abbrev promoted_store : (ℕ × ℕ) × EventParticipant → Store T
  promoted_store r = record s {
    participants = T.participant.write (id, r.0.1) (with_status going r.1) s.participants;
    events = T.event.write id (add_participant e) s.events;
  }

  abbrev pub dropped_store : Store T
  dropped_store = record s { events = T.event.write id (drop_participant e) s.events }

module _ (T : Tables) (s : Store T) (id : ℕ) where
  first_waiting-row :
      (r : (ℕ × ℕ) × EventParticipant)
      → first_waiting T id s ≡ some r
      → (r.0.0 ≡ id)
        × (T.participant.find_unique r.0 s.participants ≡ some r.1)
        × (is_waiting r.1.rsvp_status ≡ true)
  first_waiting-row r e =
      let there =
        head?-sort-In joined_before r (T.participant.find_many (is_waiting_in id) s.participants)
          e in
      let (row, fits_it) =
        T.participant.find_many_sound (is_waiting_in id) r.0 r.1 s.participants there in
      (ground (arith, fits_it, ==_iff r.0.0 id), row, ground (arith, fits_it))

  module _ (e : Event) (found : T.event.find_unique id s.events ≡ some e) where
    promote_first-cases :
        ((first_waiting T id s ≡ none) × (promote_first T id (first_waiting T id s) s ≡ (ok [], s)))
        ⊎ ((r : (ℕ × ℕ) × EventParticipant) × (first_waiting T id s ≡ some r)
            × (T.participant.find_unique (id, r.0.1) s.participants ≡ some r.1)
            × (is_waiting r.1.rsvp_status ≡ true)
            × (promote_first T id (first_waiting T id s) s
                ≡ (ok (r.0.1 ∷ []), promoted_store T s id e r)))
    unfolding promote_first
    promote_first-cases = elim (Option-cases (first_waiting T id s)) [
      | inl empty ↦ inl (empty, rw empty refl)
      | inr (r, first) ↦
          let (here, row, waits) = first_waiting-row r first in
          let row' : T.participant.find_unique (id, r.0.1) s.participants ≡ some r.1 =
            ground (arith, here, row) in
          inr (r, first, row', waits, rw first (ground (arith, row', found)))
    ]

module _ (T : Tables) (s : Store T) (id : ℕ) (e : Event)
    (found : T.event.find_unique id s.events ≡ some e) where
  dropped-found : T.event.find_unique id (dropped_store T s id e).events ≡ some (drop_participant e)
  dropped-found =
      ground (arith, ==_iff id id, T.event.find-write id id (drop_participant e) s.events)

  -- Nobody moves up into the place, or the first in the queue does.
  give_place-cases :
      (limit : Option ℕ)
      → let s' = dropped_store T s id e in
        (give_place T id limit s ≡ (ok [], s'))
        ⊎ ((r : (ℕ × ℕ) × EventParticipant) × (is_limited limit ≡ true)
            × (T.participant.find_unique (id, r.0.1) s.participants ≡ some r.1)
            × (is_waiting r.1.rsvp_status ≡ true)
            × (give_place T id limit s
                ≡ (ok (r.0.1 ∷ []), promoted_store T s' id (drop_participant e) r)))
  unfolding give_place
  give_place-cases limit = elim (Bool-cases (is_limited limit)) [
    | inr free ↦ inl (ground (arith, free, found))
    | inl limited ↦
        elim (promote_first-cases T (dropped_store T s id e) id (drop_participant e)
          dropped-found) [
            | inl (empty, stays) ↦ inl (ground (arith, limited, found, stays))
            | inr (r, first, row, waits, moves) ↦
                inr (r, limited, row, waits, ground (arith, limited, found, moves))
          ]
  ]

module _ (T : Tables) (s : Store T) (id u : ℕ) (e : Event)
    (found : T.event.find_unique id s.events ≡ some e) where
  abbrev pub without : Store T
  without = record s { participants = T.participant.delete (id, u) s.participants }

  abbrev withdrawn : List ℕ → Result RsvpResult
  withdrawn promoted = ok (record { rsvp_status = not_going; promoted = some promoted })

  -- Somebody withdraws: the row goes; a place becomes free if they were going; and somebody moves up
  -- into it if the event is limited and has a queue.
  pub withdraw-cases :
      (limit : Option ℕ) (row : EventParticipant)
      → T.participant.find_unique (id, u) s.participants ≡ some row
      → let dropped = dropped_store T without id e in
        ((is_going row.rsvp_status ≡ false)
          × (withdraw T id u limit (some row) s ≡ (withdrawn [], without)))
        ⊎ ((is_going row.rsvp_status ≡ true)
            × (withdraw T id u limit (some row) s ≡ (withdrawn [], dropped)))
        ⊎ ((r : (ℕ × ℕ) × EventParticipant) × (is_going row.rsvp_status ≡ true)
            × (is_limited limit ≡ true)
            × (T.participant.find_unique (id, r.0.1) without.participants ≡ some r.1)
            × (is_waiting r.1.rsvp_status ≡ true)
            × (withdraw T id u limit (some row) s
                ≡ (withdrawn (r.0.1 ∷ []), promoted_store T dropped id (drop_participant e) r)))
  withdraw-cases limit row there = elim (Bool-cases (is_going row.rsvp_status)) [
    | inr idle ↦ inl (idle, ground (arith, there, idle))
    | inl goes ↦ elim (give_place-cases T without id e found limit) [
      | inl stays ↦ inr (inl (goes, ground (arith, there, goes, stays)))
      | inr (r, limited, first, waits, moves) ↦
          inr (inr (r, goes, limited, first, waits, ground (arith, there, goes, moves)))
    ]
  ]

  -- An answer is saved with its status.
  pub save_rsvp-cases :
      (now : ℕ) (status : RsvpStatus)
      → let before = T.participant.find_unique (id, u) s.participants in
        let was = fits (λ p. is_going p.rsvp_status) before in
        (p : EventParticipant) × (p.rsvp_status ≡ status)
        × (save_rsvp T id u now status before s ≡ (
          ok tt,
          record s {
            participants = T.participant.write (id, u) p s.participants;
            events =
                if is_going status
                then (if was then s.events else T.event.write id (add_participant e) s.events)
                else (if was then T.event.write id (drop_participant e) s.events else s.events);
          },
        ))
  unfolding save_rsvp
  save_rsvp-cases now status =
      elim (Option-cases (T.participant.find_unique (id, u) s.participants)) [
        | inl fresh ↦ (new_participant status now, refl, ground (arith, fresh, found))
        | inr (row, there) ↦ (with_status status row, refl, ground (arith, there, found))
      ]
