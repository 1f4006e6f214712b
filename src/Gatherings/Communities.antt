-- ===== src/Gatherings/Communities.antt =====
-- apps/api/src/modules/community/community.service.ts, without the searches. Identifiers of new
-- rows and the time are arguments.
pub mod Counter
pub mod Lists
use motogram.Prelude.{
  ℕ, String, Bool, true, false, Option, none, some, is_some, not, ◌&&◌, ◌||◌, ◌==◌, List, [], ◌∷◌,
  any, if◌then◌else◌,
}
use motogram.Prelude.Int.{ℤ, pos, ◌+ℤ◌, ◌-ℤ◌}
use motogram.Prelude.Action.{
  ⊤, bad_request, not_found, forbidden, Action, pure, transaction, raise_if, or_raise, do_if, ◌>>=◌,
  ◌>>◌, find_first, find_unique, create, update, delete,
}
use motogram.Gatherings.Schema.{
  CommunityVisibility, open_to_all, by_request, hidden, CommunityRole, owner, admin, moderator,
  ordinary, MemberStatus, pending, active, banned, Community, CommunityMember, Tables, Store,
  community, community_member,
}

-- `CreateCommunityDto` and `UpdateCommunityDto`
pub record CreateCommunity : Type 0 where
  pub name : String
  pub visibility : CommunityVisibility

pub record UpdateCommunity : Type 0 where
  pub name : Option String
  pub visibility : Option CommunityVisibility

-- `CommunityDetail`
pub record CommunityDetail : Type 0 where
  pub id : ℕ
  pub row : Community
  pub viewer_role : Option CommunityRole
  pub viewer_status : Option MemberStatus

abbrev pub or_keep : {A : Type 0} → Option A → A → A
or_keep none old = old
or_keep (some new) old = new

abbrev pub is_active : CommunityMember → Bool
is_active m = elim m.status [ pending ↦ false | active ↦ true | banned ↦ false ]

abbrev pub is_banned : CommunityMember → Bool
is_banned m = elim m.status [ pending ↦ false | active ↦ false | banned ↦ true ]

abbrev pub is_pending : CommunityMember → Bool
is_pending m = elim m.status [ pending ↦ true | active ↦ false | banned ↦ false ]

abbrev pub fits : {A : Type 0} → (A → Bool) → Option A → Bool
fits p none = false
fits p (some a) = p a

abbrev is_owner : CommunityRole → Bool
is_owner owner = true
is_owner _ = false

abbrev pub is_owner_or_admin : CommunityRole → Bool
is_owner_or_admin owner = true
is_owner_or_admin admin = true
is_owner_or_admin _ = false

abbrev pub is_hidden : CommunityVisibility → Bool
is_hidden hidden = true
is_hidden _ = false

-- The status of a new member: at once active only where everybody may come in.
abbrev pub next_status : CommunityVisibility → MemberStatus
next_status open_to_all = active
next_status _ = pending

abbrev is_active_status : MemberStatus → Bool
is_active_status active = true
is_active_status _ = false

abbrev pub add_member : Community → Community
add_member c = record c { members_count = c.members_count +ℤ pos 1 }

abbrev pub drop_member : Community → Community
drop_member c = record c { members_count = c.members_count -ℤ pos 1 }

abbrev role_of : Option CommunityMember → Option CommunityRole
role_of none = none
role_of (some m) = some m.role

abbrev status_of : Option CommunityMember → Option MemberStatus
status_of none = none
status_of (some m) = some m.status

abbrev pub new_community : ℕ → CreateCommunity → Community
new_community owner_id dto = record {
  name = dto.name;
  owner_id = owner_id;
  visibility = dto.visibility;
  members_count = pos 1;
  deleted_at = none;
}

abbrev pub changed_community : UpdateCommunity → Community → Community
changed_community dto c = record c {
  name = or_keep dto.name c.name;
  visibility = or_keep dto.visibility c.visibility;
}

module _ (T : Tables) where
  -- `findFirst({ where: { id, deletedAt: null } })`, or a 404.
  abbrev pub require_community : ℕ → Action (Store T) (ℕ × Community)
  require_community id = do
    found ← find_first (community T) (λ k c. k == id && not (is_some c.deleted_at))
    or_raise found (not_found "Community not found")

  abbrev pub require_role : (id user_id : ℕ) → (CommunityRole → Bool) → Action (Store T) ⊤
  require_role id user_id allowed = do
    m ← find_unique (community_member T) (id, user_id)
    raise_if (not (fits (λ m. is_active m && allowed m.role) m))
        (forbidden "Insufficient community privileges")

  pub create_community : (id owner_id now : ℕ) → CreateCommunity → Action (Store T) CommunityDetail
  create_community id owner_id now dto = do
    c ← transaction (do
      made ← create (community T) id (new_community owner_id dto)
      create (community_member T) (id, owner_id)
          (record { role = owner; status = active; joined_at = now })
      pure made)
    pure (record { id = id; row = c; viewer_role = some owner; viewer_status = some active })

  pub update_community : (user_id id : ℕ) → UpdateCommunity → Action (Store T) CommunityDetail
  update_community user_id id dto = do
    require_role id user_id is_owner_or_admin
    c ← update (community T) id (changed_community dto)
    m ← find_unique (community_member T) (id, user_id)
    pure (record { id = id; row = c; viewer_role = role_of m; viewer_status = status_of m })

  -- `viewerId ? getMembership(...) : null`
  abbrev viewer_membership : ℕ → Option ℕ → Action (Store T) (Option CommunityMember)
  viewer_membership id none = pure none
  viewer_membership id (some viewer_id) = find_unique (community_member T) (id, viewer_id)

  unfoldable pub get_community_detail : ℕ → Option ℕ → Action (Store T) CommunityDetail
  get_community_detail id viewer_id = do
    c ← require_community id
    m ← viewer_membership id viewer_id
    raise_if (is_hidden c.1.visibility && not (fits is_active m)) (not_found "Community not found")
    pure (record { id = id; row = c.1; viewer_role = role_of m; viewer_status = status_of m })

  abbrev save_membership :
      ℕ × ℕ → ℕ → MemberStatus → Option CommunityMember → Action (Store T) CommunityMember
  save_membership k now status none =
      create (community_member T) k (record { role = ordinary; status = status; joined_at = now })
  save_membership k now status (some m) =
      update (community_member T) k (λ m. record m { status = status; joined_at = now })

  -- The body of the transaction of `joinCommunity`.
  pub enroll : ℕ × ℕ → ℕ → MemberStatus → Option CommunityMember → Action (Store T) ⊤
  enroll k now status existing = do
    save_membership k now status existing
    do_if (is_active_status status) (update (community T) k.0 add_member >> pure tt)

  pub join_community : (user_id id now : ℕ) → Action (Store T) (CommunityDetail × MemberStatus)
  join_community user_id id now = do
    c ← require_community id
    existing ← find_unique (community_member T) (id, user_id)
    if fits is_active existing
        then pure (
          record {
            id = id;
            row = c.1;
            viewer_role = role_of existing;
            viewer_status = some active;
          },
          active,
        )
        else (do
          raise_if (fits is_banned existing) (forbidden "User is banned from this community")
          let status = next_status c.1.visibility
          transaction (enroll (id, user_id) now status existing)
          pure (
            record { id = id; row = c.1; viewer_role = some ordinary; viewer_status = some status },
            status,
          ))

  abbrev settle_request : ℕ × ℕ → ℕ → Bool → Action (Store T) Bool
  settle_request k now true = do
    transaction (do
      update (community_member T) k (λ m. record m { status = active; joined_at = now })
      update (community T) k.0 add_member)
    pure true
  settle_request k now false = do delete (community_member T) k; pure false

  -- The result says whether the request was accepted (`ACTIVE`) or not (`REJECTED`).
  pub respond_join_request : (actor_id id user_id now : ℕ) → Bool → Action (Store T) Bool
  respond_join_request actor_id id user_id now accept = do
    require_role id actor_id is_owner_or_admin
    m ← find_unique (community_member T) (id, user_id)
    raise_if (not (fits is_pending m)) (bad_request "No pending request found")
    settle_request (id, user_id) now accept

  pub leave_community : (user_id id : ℕ) → Action (Store T) ⊤
  leave_community user_id id = do
    m ← find_unique (community_member T) (id, user_id)
    if not (fits is_active m) then pure tt else (do
      raise_if (fits (λ m. is_owner m.role) m)
          (forbidden "Owner cannot leave without transferring ownership")
      transaction (do
        delete (community_member T) (id, user_id)
        update (community T) id drop_member
        pure tt))

  pub update_member_role : (actor_id id user_id : ℕ) → CommunityRole → Action (Store T) ⊤
  update_member_role actor_id id user_id role = do
    require_role id actor_id is_owner
    raise_if (is_owner role) (bad_request "Use transferOwnership to assign OWNER role")
    m ← find_unique (community_member T) (id, user_id)
    raise_if (not (fits is_active m)) (not_found "Member not found")
    update (community_member T) (id, user_id) (λ m. record m { role = role })
    pure tt
