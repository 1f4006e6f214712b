-- ===== src/Gatherings/Events/Lists.antt =====
-- What the lists of event.service.ts show. The match of the searched text, case-insensitive `contains`
-- in the database, is a parameter.
use motogram.Prelude.{
  ℕ, ◌<◌, ◌≡◌, refl, Bool, true, false, Option, none, some, is_some, not, ltb, leb, sort, ◌||◌,
  arith, ◌==◌, ◌&&◌, List, In,
}
use motogram.Prelude.Pages.{page, page_sound, page_complete}
use motogram.Prelude.Queries.{find_first-row_if}
use motogram.Prelude.Action.{
  ⊤, forbidden, ok, Action, IsRefused, pure, raise_if, ◌>>=◌, ◌>>◌, find_unique, find_many,
}
use motogram.Gatherings.Schema.{
  Event, EventParticipant, EventVisibility, public, private, RsvpStatus, going, interested,
  not_going, waitlist, Tables, Store, participant,
}
use motogram.Gatherings.Communities.Lists.{is_past}
use motogram.Gatherings.Events.{require_existing, hosts, is_private}

abbrev is_public : EventVisibility → Bool
is_public public = true
is_public _ = false

-- `endTime: null`, or `endTime >= now`
abbrev is_not_over : ℕ → Option ℕ → Bool
is_not_over now none = true
is_not_over now (some e) = leb now e

-- Not begun, or begun and not over.
abbrev is_ahead : ℕ → Event → Bool
is_ahead now e = ltb now e.start_time || (leb e.start_time now && is_not_over now e.end_time)

-- What `searchEvents` looks for.
abbrev pub is_found : (Event → Bool) → Option ℕ → ℕ → ℕ → Event → Bool
is_found matches cursor now id e =
    not (is_some e.deleted_at)
    && (is_public e.visibility && (matches e && (is_ahead now e && is_past cursor id)))

abbrev is_answer_to : ℕ → ℕ × ℕ → EventParticipant → Bool
is_answer_to id k p = k.0 == id

-- The order of the enum, in which the database sorts it.
abbrev rank : RsvpStatus → ℕ
rank going = 0
rank interested = 1
rank not_going = 2
rank waitlist = 3

-- `orderBy: [{ rsvpStatus: 'asc' }, { joinedAt: 'asc' }]`
abbrev listed_before : (ℕ × ℕ) × EventParticipant → (ℕ × ℕ) × EventParticipant → Bool
listed_before a b =
    ltb (rank a.1.rsvp_status) (rank b.1.rsvp_status)
    || (rank a.1.rsvp_status == rank b.1.rsvp_status && leb a.1.joined_at b.1.joined_at)

module _ (T : Tables) where
  search_events :
      (Event → Bool) → Option ℕ → (limit now : ℕ) → Action (Store T) (List (ℕ × Event) × Option ℕ)
  search_events matches cursor limit now s =
      pure (page T.event (is_found matches cursor now) limit s.events) s

  -- `assertViewable`
  unfoldable pub assert_viewable : (id viewer_id : ℕ) → Action (Store T) ⊤
  assert_viewable id viewer_id = do
    e ← require_existing T id
    row ← find_unique (participant T) (id, viewer_id)
    raise_if (is_private e.1.visibility && (not (hosts e.1 viewer_id) && not (is_some row)))
        (forbidden "Event is private")

  list_participants : (id viewer_id : ℕ) → Action (Store T) (List ((ℕ × ℕ) × EventParticipant))
  list_participants id viewer_id = do
    assert_viewable id viewer_id
    rows ← find_many (participant T) (is_answer_to id)
    pure (sort listed_before rows)

  module _ (s : Store T) where
    -- For a positive limit the search of events returns a page and changes nothing: every item is
    -- a row that is not deleted, public, matches the text, is not over and comes after the
    -- cursor, and a page without a next cursor has every such row.
    search_events-page :
        (matches : Event → Bool) (cursor : Option ℕ) (limit now : ℕ)
        → 0 < limit
        → (items : List (ℕ × Event)) × (next : Option ℕ) × (search_events matches cursor limit now s
            ≡ (ok (items, next), s))
          × ((id : ℕ) (e : Event)
              → In (id, e) items
              → (T.event.find_unique id s.events ≡ some e)
                × (is_found matches cursor now id e ≡ true))
          × (next ≡ none
              → (id : ℕ) (e : Event) → T.event.find_unique id s.events ≡ some e
              → is_found matches cursor now id e ≡ true
              → In (id, e) items)
    unfolding search_events
    search_events-page matches cursor limit now room = (
      (page T.event (is_found matches cursor now) limit s.events).0,
      (page T.event (is_found matches cursor now) limit s.events).1,
      refl,
      (λ id e m. page_sound T.event (is_found matches cursor now) limit s.events id e m),
      λ n id e found fits.
          page_complete T.event (is_found matches cursor now) limit s.events id e room n found fits,
    )

    -- The list of the participants of a private event throws and changes nothing for a viewer
    -- that neither hosts it nor has answered to it.
    list_participants_private :
        (id viewer_id : ℕ) (e : Event)
        → T.event.find_unique id s.events ≡ some e
        → e.visibility ≡ private
        → hosts e viewer_id ≡ false
        → T.participant.find_unique (id, viewer_id) s.participants ≡ none
        → IsRefused (list_participants id viewer_id) s
    unfolding list_participants assert_viewable
    list_participants_private id viewer_id e found secret guest outside =
        ground (arith, find_first-row_if T.event id (λ e. not (is_some e.deleted_at)) s.events)
