-- ===== src/Gatherings/Communities/Lists.antt =====
-- What the lists of community.service.ts show. The match of the searched text, case-insensitive
-- `contains` in the database, is a parameter.
use motogram.Prelude.{
  ℕ, ◌<◌, ◌≡◌, refl, Bool, true, false, Option, none, some, is_some, not, ltb, leb, sort, ◌||◌,
  arith, ◌==◌, ◌&&◌, List, In,
}
use motogram.Prelude.Pages.{page, page_sound, page_complete}
use motogram.Prelude.Queries.{find_first-row_if}
use motogram.Prelude.Action.{
  ⊤, not_found, ok, Action, IsRefused, pure, raise_if, ◌>>=◌, ◌>>◌, find_unique, find_many,
}
use motogram.Gatherings.Schema.{
  Community, CommunityMember, hidden, CommunityRole, owner, admin, moderator, ordinary, Tables,
  Store, community_member,
}
use motogram.Gatherings.Communities.{
  is_active, is_hidden, is_owner_or_admin, is_pending, fits, require_community, require_role,
}

-- `cursor ? { id: { gt: cursor } } : {}`
abbrev pub is_past : Option ℕ → ℕ → Bool
is_past none id = true
is_past (some c) id = ltb c id

-- What `searchCommunities` looks for.
abbrev pub is_found : (Community → Bool) → Option ℕ → ℕ → Community → Bool
is_found matches cursor id c =
    not (is_some c.deleted_at) && (not (is_hidden c.visibility) && (matches c && is_past cursor id))

abbrev is_listed : ℕ → ℕ × ℕ → CommunityMember → Bool
is_listed id k m = k.0 == id && is_active m

abbrev is_asking : ℕ → ℕ × ℕ → CommunityMember → Bool
is_asking id k m = k.0 == id && is_pending m

-- The order of the enum, in which the database sorts it.
abbrev rank : CommunityRole → ℕ
rank owner = 0
rank admin = 1
rank moderator = 2
rank ordinary = 3

-- `orderBy: { joinedAt: 'asc' }`, and `orderBy: [{ role: 'asc' }, { joinedAt: 'asc' }]`
abbrev asked_before : (ℕ × ℕ) × CommunityMember → (ℕ × ℕ) × CommunityMember → Bool
asked_before a b = leb a.1.joined_at b.1.joined_at

abbrev listed_before : (ℕ × ℕ) × CommunityMember → (ℕ × ℕ) × CommunityMember → Bool
listed_before a b =
    ltb (rank a.1.role) (rank b.1.role) || (rank a.1.role == rank b.1.role && asked_before a b)

module _ (T : Tables) where
  search_communities :
      (Community → Bool) → Option ℕ → ℕ → Action (Store T) (List (ℕ × Community) × Option ℕ)
  search_communities matches cursor limit s =
      pure (page T.community (is_found matches cursor) limit s.communities) s

  -- `assertViewable`
  unfoldable pub assert_viewable : (id viewer_id : ℕ) → Action (Store T) ⊤
  assert_viewable id viewer_id = do
    c ← require_community T id
    m ← find_unique (community_member T) (id, viewer_id)
    raise_if (is_hidden c.1.visibility && not (fits is_active m)) (not_found "Community not found")

  list_members : (id viewer_id : ℕ) → Action (Store T) (List ((ℕ × ℕ) × CommunityMember))
  list_members id viewer_id = do
    assert_viewable id viewer_id
    rows ← find_many (community_member T) (is_listed id)
    pure (sort listed_before rows)

  list_pending_join_requests :
      (actor_id id : ℕ) → Action (Store T) (List ((ℕ × ℕ) × CommunityMember))
  list_pending_join_requests actor_id id = do
    require_role T id actor_id is_owner_or_admin
    rows ← find_many (community_member T) (is_asking id)
    pure (sort asked_before rows)

  module _ (s : Store T) where
    -- For a positive limit the search of communities returns a page and changes nothing: every
    -- item is a row that is not deleted, not hidden, matches the text and comes after the cursor,
    -- and a page without a next cursor has every such row.
    search_communities-page :
        (matches : Community → Bool) (cursor : Option ℕ) (limit : ℕ)
        → 0 < limit
        → (items : List (ℕ × Community)) × (next : Option ℕ) × (search_communities matches cursor
              limit s
            ≡ (ok (items, next), s))
          × ((id : ℕ) (c : Community)
              → In (id, c) items
              → (T.community.find_unique id s.communities ≡ some c)
                × (is_found matches cursor id c ≡ true))
          × (next ≡ none
              → (id : ℕ) (c : Community) → T.community.find_unique id s.communities ≡ some c
              → is_found matches cursor id c ≡ true
              → In (id, c) items)
    unfolding search_communities
    search_communities-page matches cursor limit room = (
      (page T.community (is_found matches cursor) limit s.communities).0,
      (page T.community (is_found matches cursor) limit s.communities).1,
      refl,
      (λ id c m. page_sound T.community (is_found matches cursor) limit s.communities id c m),
      λ e id c found fits.
          page_complete T.community (is_found matches cursor) limit s.communities id c room e found
            fits,
    )

    -- The list of the members of a hidden community throws and changes nothing for a viewer that
    -- is not an active member.
    list_members_hidden :
        (id viewer_id : ℕ) (c : Community)
        → T.community.find_unique id s.communities ≡ some c
        → c.visibility ≡ hidden
        → fits is_active (T.community_member.find_unique (id, viewer_id) s.members) ≡ false
        → IsRefused (list_members id viewer_id) s
    unfolding list_members assert_viewable
    list_members_hidden id viewer_id c found secret outside =
        ground
          (arith, find_first-row_if T.community id (λ c. not (is_some c.deleted_at)) s.communities)

    list_pending_join_requests-IsRefused :
        (actor_id id : ℕ)
        → fits
            (λ m. is_active m && is_owner_or_admin m.role)
            (T.community_member.find_unique (id, actor_id) s.members)
          ≡ false
        → IsRefused (list_pending_join_requests actor_id id) s
    unfolding list_pending_join_requests
    list_pending_join_requests-IsRefused actor_id id low = ground arith
