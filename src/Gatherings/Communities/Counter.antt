-- ===== src/Gatherings/Communities/Counter.antt =====
-- `membersCount` against the active members of a community.
pub mod Runs
use motogram.Prelude.{
  ℕ, ◌≡◌, Bool, true, false, none, some, is_some, not, inl, inr, arith, ◌==◌, ==_iff, ◌&&◌,
  Option-cases, List,
}
use motogram.Prelude.Int.{pos, pos-+ℤ, pos_pred}
use motogram.Prelude.Queries.{find_first-row_if, count-zero}
use motogram.Prelude.History.{run, run_inv}
use motogram.Gatherings.Schema.{
  CommunityRole, owner, ordinary, active, Community, CommunityMember, Tables, Store,
}
use motogram.Gatherings.Communities.{
  CreateCommunity, UpdateCommunity, create_community, update_community, join_community, enroll,
  respond_join_request, leave_community, update_member_role, is_active, next_status, add_member,
  drop_member, new_community, changed_community, fits,
}

abbrev pub is_active_in : ℕ → ℕ × ℕ → CommunityMember → Bool
is_active_in id k m = k.0 == id && is_active m

module _ (T : Tables) where
  -- Every community counts its active members, and every membership is in a community that is there
  -- (the foreign key).
  pub record IsCounted (communities : T.community.Rows) (members : T.community_member.Rows)
      : Type 0 where
    pub counted :
        (id : ℕ) (c : Community)
        → T.community.find_unique id communities ≡ some c
        → c.members_count ≡ pos (T.community_member.count (is_active_in id) members)
    pub known :
        (k : ℕ × ℕ)
        → is_some (T.community_member.find_unique k members) ≡ true
        → is_some (T.community.find_unique k.0 communities) ≡ true

  abbrev pub IsMembersCounted : Store T → Type 0
  IsMembersCounted s = IsCounted s.communities s.members

  module _ (s : Store T) (h : IsMembersCounted s) where
    pub no_members :
        (id : ℕ)
        → T.community.find_unique id s.communities ≡ none
        → T.community_member.count (is_active_in id) s.members ≡ 0
    no_members id fresh =
        count-zero T.community_member (is_active_in id) s.members
          λ (q, v) m e. ground (arith, h.known (q, v), ==_iff q id)

    -- A membership row is written and the counter moves with it.
    pub saved :
        (id u : ℕ) (m : CommunityMember) (c c' : Community)
        → T.community.find_unique id s.communities ≡ some c
        → c'.members_count
          ≡ pos (
              T.community_member.count
                (is_active_in id)
                (T.community_member.write (id, u) m s.members))
        → IsCounted
            (T.community.write id c' s.communities)
            (T.community_member.write (id, u) m s.members)
    saved id u m c c' found agrees = record {
      counted = λ q r e. ground (
        arith,
        h.counted q r,
        ==_iff id q,
        T.community.find-write q id c' s.communities,
        T.community_member.count-write (is_active_in q) (id, u) m s.members,
      );
      known = λ k there. ground (
        arith,
        h.known k,
        ==_iff id k.0,
        T.community.find-write k.0 id c' s.communities,
        T.community_member.find-write k (id, u) m s.members,
      );
    }

    -- A membership row is written whose activity stays as it was.
    pub kept :
        (id u : ℕ) (m : CommunityMember) (c : Community)
        → T.community.find_unique id s.communities ≡ some c
        → is_active m ≡ fits is_active (T.community_member.find_unique (id, u) s.members)
        → IsCounted s.communities (T.community_member.write (id, u) m s.members)
    kept id u m c found same = record {
      counted = λ q r e. ground (
        arith,
        h.counted q r,
        T.community_member.count-write (is_active_in q) (id, u) m s.members,
      );
      known = λ k there.
          ground
            (arith, h.known k, ==_iff id k.0, T.community_member.find-write k (id, u) m s.members);
    }

    -- Somebody that was not active becomes so.
    pub enrolled :
        (id u : ℕ) (m : CommunityMember) (c : Community)
        → T.community.find_unique id s.communities ≡ some c
        → fits is_active (T.community_member.find_unique (id, u) s.members) ≡ false
        → is_active m ≡ true
        → IsCounted
            (T.community.write id (add_member c) s.communities)
            (T.community_member.write (id, u) m s.members)
    enrolled id u m c found idle now_active = saved id u m c (add_member c) found (
        ground (
          arith,
          h.counted id c,
          ==_iff id id,
          T.community_member.count-write (is_active_in id) (id, u) m s.members,
          pos-+ℤ (T.community_member.count (is_active_in id) s.members) 1,
        ))

    -- The row of an active member is deleted.
    pub departed :
        (id u : ℕ) (c : Community)
        → T.community.find_unique id s.communities ≡ some c
        → fits is_active (T.community_member.find_unique (id, u) s.members) ≡ true
        → IsCounted
            (T.community.write id (drop_member c) s.communities)
            (T.community_member.delete (id, u) s.members)
    departed id u c found there = record {
      counted = λ q r e. ground (
        arith,
        h.counted q r,
        h.counted id c,
        ==_iff id q,
        T.community.find-write q id (drop_member c) s.communities,
        T.community_member.count-delete (is_active_in q) (id, u) s.members,
        pos_pred (
            T.community_member.count (is_active_in id)
              (T.community_member.delete (id, u) s.members)),
      );
      known = λ k e. ground (
        arith,
        h.known k,
        ==_iff id k.0,
        T.community.find-write k.0 id (drop_member c) s.communities,
        T.community_member.find-delete k (id, u) s.members,
      );
    }

    -- A request is turned down.
    pub turned_down :
        (id u : ℕ)
        → fits is_active (T.community_member.find_unique (id, u) s.members) ≡ false
        → IsCounted s.communities (T.community_member.delete (id, u) s.members)
    turned_down id u idle = record {
      counted = λ q r e. ground (
        arith,
        h.counted q r,
        T.community_member.count-delete (is_active_in q) (id, u) s.members,
      );
      known = λ k e. ground (arith, h.known k, T.community_member.find-delete k (id, u) s.members);
    }
