-- ===== src/Gatherings/Events/Answers.antt =====
-- What an answer to an event comes to: `rsvp`, branch by branch.
use motogram.Prelude.{
  ℕ, ◌+◌, ◌≡◌, Bool, false, Option, some, is_some, not, ◌⊎◌, inl, inr, arith, ◌&&◌, if◌then◌else◌,
  Option-cases, Bool-cases, [],
}
use motogram.Prelude.Action.{ok}
use motogram.Prelude.Queries.{find_first-row_if}
use motogram.Gatherings.Schema.{
  RsvpStatus, going, interested, not_going, waitlist, Event, EventParticipant, Tables, Store,
}
use motogram.Gatherings.Communities.{fits}
use motogram.Gatherings.Events.{
  is_going, is_not_going, is_going_in, is_limited, exceeds, withdraw, effective_status, save_rsvp,
  rsvp,
}
use motogram.Gatherings.Events.Places.{save_rsvp-cases}

-- Whether a new place is wanted and the event has none left.
abbrev is_full_for : Option ℕ → RsvpStatus → Bool → ℕ → Bool
is_full_for limit status was_going n =
    is_going status && (is_limited limit && exceeds (if was_going then n else n + 1) limit)

-- The status that is saved: GOING at a full event becomes WAITLIST.
abbrev pub saved_status : Option ℕ → RsvpStatus → Bool → ℕ → RsvpStatus
saved_status limit status was_going n =
    if is_full_for limit status was_going n then waitlist else status

module _ (T : Tables) (s : Store T) (u id : ℕ) where
  abbrev pub answered : Option EventParticipant
  answered = T.participant.find_unique (id, u) s.participants

  abbrev pub was_going : Bool
  was_going = fits (λ p. is_going p.rsvp_status) answered

  effective_status_lem :
      (limit : Option ℕ) (status : RsvpStatus)
      → effective_status T id limit status answered s ≡ (
        ok (
            saved_status limit status was_going
              (T.participant.count (is_going_in id) s.participants)),
        s,
      )
  unfolding effective_status
  effective_status_lem limit going = ground arith
  effective_status_lem limit interested = ground arith
  effective_status_lem limit not_going = ground arith
  effective_status_lem limit waitlist = ground arith

  pub rsvp-cases :
      (now : ℕ) (status : RsvpStatus)
      → ((rsvp T u id now status s).1 ≡ s)
        ⊎ ((e : Event) × (row : EventParticipant) × (T.event.find_unique id s.events ≡ some e)
            × (answered ≡ some row)
            × (rsvp T u id now status s ≡ withdraw T id u e.max_participants (some row) s))
        ⊎ ((e : Event) × (T.event.find_unique id s.events ≡ some e)
            × (is_not_going status ≡ false)
            × (let status' =
                  saved_status e.max_participants status was_going
                    (T.participant.count (is_going_in id) s.participants) in
                rsvp T u id now status s ≡ (
                  ok (record { rsvp_status = status'; promoted = some [] }),
                  (save_rsvp T id u now status' answered s).1,
                )))
  unfolding rsvp
  rsvp-cases now status = elim (Option-cases (T.event.find_unique id s.events)) [
    | inl gone ↦
        inl
          (ground (arith, find_first-row_if T.event id (λ e. not (is_some e.deleted_at)) s.events))
    | inr (e, found) ↦ elim (Bool-cases (is_some e.deleted_at)) [
      | inl deleted ↦
          inl (
            ground (arith, find_first-row_if T.event id (λ e. not (is_some e.deleted_at)) s.events))
      | inr live ↦ elim (Bool-cases (is_not_going status)) [
        | inl stays_away ↦ elim (Option-cases answered) [
          | inl never ↦ inl (
              ground
                (arith, find_first-row_if T.event id (λ e. not (is_some e.deleted_at)) s.events))
          | inr (row, there) ↦ inr (
              inl (
                e,
                row,
                found,
                there,
                ground (
                  arith,
                  find_first-row_if T.event id (λ e. not (is_some e.deleted_at)) s.events,
                ),
              ))
        ]
        | inr comes ↦
            let status' =
              saved_status e.max_participants status was_going
                (T.participant.count (is_going_in id) s.participants) in
            let (p, same, saved) = save_rsvp-cases T s id u e found now status' in
            inr (
              inr (
                e,
                found,
                comes,
                ground (
                  arith,
                  saved,
                  effective_status_lem e.max_participants status,
                  find_first-row_if T.event id (λ e. not (is_some e.deleted_at)) s.events,
                ),
              ))
      ]
    ]
  ]
