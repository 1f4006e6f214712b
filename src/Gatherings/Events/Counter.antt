-- ===== src/Gatherings/Events/Counter.antt =====
-- `participantsCount` against the participants that go.
pub mod Runs
use motogram.Prelude.{
  ℕ, ◌+◌, ◌≡◌, refl, Bool, true, false, Option, none, some, is_some, not, inl, inr, arith, ◌==◌,
  ==_iff, pair_eq_iff, ◌&&◌, if◌then◌else◌, Option-cases, Bool-cases, List,
}
use motogram.Prelude.Int.{ℤ, pos, ◌+ℤ◌, ◌-ℤ◌, pos-+ℤ, pos_pred}
use motogram.Prelude.Queries.{count-zero}
use motogram.Gatherings.Schema.{RsvpStatus, Event, EventParticipant, Tables, Store}
use motogram.Gatherings.Communities.{fits}
use motogram.Gatherings.Events.{is_going, is_going_in, add_participant, drop_participant}

module _ (T : Tables) where
  -- Every event counts the participants that go, and every answer is to an event that is there (the
  -- foreign key).
  pub record IsCounted (events : T.event.Rows) (participants : T.participant.Rows) : Type 0 where
    pub counted :
        (id : ℕ) (e : Event)
        → T.event.find_unique id events ≡ some e
        → e.participants_count ≡ pos (T.participant.count (is_going_in id) participants)
    pub known :
        (k : ℕ × ℕ)
        → is_some (T.participant.find_unique k participants) ≡ true
        → is_some (T.event.find_unique k.0 events) ≡ true

  abbrev pub IsGoingCounted : Store T → Type 0
  IsGoingCounted s = IsCounted s.events s.participants

  abbrev pub goes : ℕ × ℕ → T.participant.Rows → Bool
  goes k t = fits (λ p. is_going p.rsvp_status) (T.participant.find_unique k t)

  module _ (es : T.event.Rows) (ps : T.participant.Rows) (h : IsCounted es ps) where
    pub no_participants :
        (id : ℕ) → T.event.find_unique id es ≡ none → T.participant.count (is_going_in id) ps ≡ 0
    no_participants id fresh =
        count-zero T.participant (is_going_in id) ps
          λ (q, v) p e. ground (arith, h.known (q, v), ==_iff q id)

    module _ (id u : ℕ) (e : Event) (found : T.event.find_unique id es ≡ some e) where
      -- An answer is written that goes as little or as much as the one before it.
      pub kept :
          (p : EventParticipant)
          → is_going p.rsvp_status ≡ goes (id, u) ps
          → IsCounted es (T.participant.write (id, u) p ps)
      kept p same = record {
        counted = λ q r f.
            ground (arith, h.counted q r, T.participant.count-write (is_going_in q) (id, u) p ps);
        known = λ k there.
            ground (arith, h.known k, ==_iff id k.0, T.participant.find-write k (id, u) p ps);
      }

      pub joined :
          (p : EventParticipant)
          → goes (id, u) ps ≡ false
          → is_going p.rsvp_status ≡ true
          → IsCounted (T.event.write id (add_participant e) es) (T.participant.write (id, u) p ps)
      joined p idle now_going = record {
        counted = λ q r f. ground (
          arith,
          h.counted q r,
          h.counted id e,
          ==_iff id q,
          T.event.find-write q id (add_participant e) es,
          T.participant.count-write (is_going_in q) (id, u) p ps,
          pos-+ℤ (T.participant.count (is_going_in id) ps) 1,
        );
        known = λ k there. ground (
          arith,
          h.known k,
          ==_iff id k.0,
          T.event.find-write k.0 id (add_participant e) es,
          T.participant.find-write k (id, u) p ps,
        );
      }

      pub stepped_back :
          (p : EventParticipant)
          → goes (id, u) ps ≡ true
          → is_going p.rsvp_status ≡ false
          → IsCounted (T.event.write id (drop_participant e) es) (T.participant.write (id, u) p ps)
      stepped_back p there idle = record {
        counted = λ q r f. ground (
          arith,
          h.counted q r,
          h.counted id e,
          ==_iff id q,
          T.event.find-write q id (drop_participant e) es,
          T.participant.count-write (is_going_in q) (id, u) p ps,
          pos_pred (T.participant.count (is_going_in id) (T.participant.write (id, u) p ps)),
        );
        known = λ k have. ground (
          arith,
          h.known k,
          ==_iff id k.0,
          T.event.find-write k.0 id (drop_participant e) es,
          T.participant.find-write k (id, u) p ps,
        );
      }

      pub departed :
          goes (id, u) ps ≡ true
          → IsCounted (T.event.write id (drop_participant e) es) (T.participant.delete (id, u) ps)
      departed there = record {
        counted = λ q r f. ground (
          arith,
          h.counted q r,
          h.counted id e,
          ==_iff id q,
          T.event.find-write q id (drop_participant e) es,
          T.participant.count-delete (is_going_in q) (id, u) ps,
          pos_pred (T.participant.count (is_going_in id) (T.participant.delete (id, u) ps)),
        );
        known = λ k have. ground (
          arith,
          h.known k,
          ==_iff id k.0,
          T.event.find-write k.0 id (drop_participant e) es,
          T.participant.find-delete k (id, u) ps,
        );
      }

      pub removed : goes (id, u) ps ≡ false → IsCounted es (T.participant.delete (id, u) ps)
      removed idle = record {
        counted = λ q r f.
            ground (arith, h.counted q r, T.participant.count-delete (is_going_in q) (id, u) ps);
        known = λ k have. ground (arith, h.known k, T.participant.find-delete k (id, u) ps);
      }

      -- The event's row changes in another column.
      pub retold :
          (e' : Event)
          → e'.participants_count ≡ e.participants_count
          → IsCounted (T.event.write id e' es) ps
      retold e' same = record {
        counted = λ q r f.
            ground
              (arith, h.counted q r, h.counted id e, ==_iff id q, T.event.find-write q id e' es);
        known = λ k have. ground (arith, h.known k, T.event.find-write k.0 id e' es);
      }
