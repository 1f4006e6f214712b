-- ===== src/Gatherings/Communities/Counter/Runs.antt =====
-- Histories of calls of the community service, and `membersCount` along them.
use motogram.Prelude.{ℕ, ◌≡◌, Bool, is_some, not, inl, inr, arith, ==_iff, Option-cases, List}
use motogram.Prelude.Queries.{find_first-row_if}
use motogram.Prelude.History.{run, run_inv}
use motogram.Gatherings.Schema.{
  CommunityRole, owner, ordinary, active, CommunityMember, Tables, Store,
}
use motogram.Gatherings.Communities.{
  CreateCommunity, UpdateCommunity, create_community, update_community, join_community, enroll,
  respond_join_request, leave_community, update_member_role, next_status, new_community,
  changed_community,
}
use motogram.Gatherings.Communities.Counter.{
  is_active_in, IsCounted, IsMembersCounted, no_members, kept, enrolled, departed, turned_down,
}

pub data Call : Type 0 where
  creates : (id user_id now : ℕ) → CreateCommunity → Call
  updates : (user_id id : ℕ) → UpdateCommunity → Call
  joins : (user_id id now : ℕ) → Call
  responds : (actor_id id user_id now : ℕ) → Bool → Call
  leaves : (user_id id : ℕ) → Call
  ranks : (actor_id id user_id : ℕ) → CommunityRole → Call

module _ (T : Tables) where
  module _ (s : Store T) (h : IsMembersCounted T s) where
    create_community-IsMembersCounted :
        (id u now : ℕ) (dto : CreateCommunity)
        → IsMembersCounted T (create_community T id u now dto s).1
    unfolding create_community
    create_community-IsMembersCounted id u now dto =
        elim (Option-cases (T.community.find_unique id s.communities)) [
          | inr (c, taken) ↦ ground (arith, h)
          | inl fresh ↦ elim (Option-cases (T.community_member.find_unique (id, u) s.members)) [
            | inr (m, odd) ↦ ground (arith, h)
            | inl free ↦
                let row : CommunityMember = record {
                  role = owner;
                  status = active;
                  joined_at = now;
                } in
                let goal : IsCounted T (T.community.write id (new_community u dto) s.communities)
                    (T.community_member.write (id, u) row s.members) =
                  record {
                    counted = λ q r e. ground (
                      arith,
                      h.counted q r,
                      ==_iff id q,
                      no_members T s h id fresh,
                      T.community.find-write q id (new_community u dto) s.communities,
                      T.community_member.count-write (is_active_in q) (id, u) row s.members,
                    );
                    known = λ k there. ground (
                      arith,
                      h.known k,
                      ==_iff id k.0,
                      T.community.find-write k.0 id (new_community u dto) s.communities,
                      T.community_member.find-write k (id, u) row s.members,
                    );
                  } in
                let done : (create_community T id u now dto s).1 ≡ record s {
                  communities = T.community.write id (new_community u dto) s.communities;
                  members = T.community_member.write (id, u) row s.members;
                } =
                  ground arith in
                rw done goal
          ]
        ]

    update_community-IsMembersCounted :
        (u id : ℕ) (dto : UpdateCommunity) → IsMembersCounted T (update_community T u id dto s).1
    unfolding update_community
    update_community-IsMembersCounted u id dto =
        elim (Option-cases (T.community.find_unique id s.communities)) [
          | inl gone ↦ ground (arith, h)
          | inr (c, found) ↦
              let goal : IsCounted T (T.community.write id (changed_community dto c) s.communities)
                  s.members =
                record {
                  counted = λ q r e. ground (
                    arith,
                    h.counted q r,
                    h.counted id c,
                    ==_iff id q,
                    T.community.find-write q id (changed_community dto c) s.communities,
                  );
                  known = λ k e. ground (
                    arith,
                    h.known k,
                    T.community.find-write k.0 id (changed_community dto c) s.communities,
                  );
                } in
              ground (arith, h, goal)
        ]

    join_community-IsMembersCounted :
        (u id now : ℕ) → IsMembersCounted T (join_community T u id now s).1
    unfolding join_community enroll
    join_community-IsMembersCounted u id now =
        elim (Option-cases (T.community.find_unique id s.communities)) [
          | inl gone ↦ ground (
            arith,
            h,
            find_first-row_if T.community id (λ c. not (is_some c.deleted_at)) s.communities,
          )
          | inr (c, found) ↦
              elim (Option-cases (T.community_member.find_unique (id, u) s.members)) [
                | inl fresh ↦
                    let row : CommunityMember = record {
                      role = ordinary;
                      status = next_status c.visibility;
                      joined_at = now;
                    } in
                    ground (
                      arith,
                      h,
                      find_first-row_if T.community id (λ c. not (is_some c.deleted_at))
                          s.communities,
                      enrolled T s h id u row c found,
                      kept T s h id u row c found,
                    )
                | inr (m, there) ↦
                    let row = record m { status = next_status c.visibility; joined_at = now } in
                    ground (
                      arith,
                      h,
                      find_first-row_if T.community id (λ c. not (is_some c.deleted_at))
                          s.communities,
                      enrolled T s h id u row c found,
                      kept T s h id u row c found,
                    )
              ]
        ]

    respond_join_request-IsMembersCounted :
        (a id u now : ℕ) (accept : Bool)
        → IsMembersCounted T (respond_join_request T a id u now accept s).1
    unfolding respond_join_request
    respond_join_request-IsMembersCounted a id u now accept =
        elim (Option-cases (T.community_member.find_unique (id, u) s.members)) [
          | inl gone ↦ ground (arith, h)
          | inr (m, there) ↦ elim (Option-cases (T.community.find_unique id s.communities)) [
            | inl lost ↦ ground (arith, h, h.known (id, u), turned_down T s h id u)
            | inr (c, found) ↦ ground (
              arith,
              h,
              turned_down T s h id u,
              enrolled T s h id u (record m { status = active; joined_at = now }) c found,
            )
          ]
        ]

    leave_community-IsMembersCounted : (u id : ℕ) → IsMembersCounted T (leave_community T u id s).1
    unfolding leave_community
    leave_community-IsMembersCounted u id =
        elim (Option-cases (T.community.find_unique id s.communities)) [
          | inl lost ↦ ground (arith, h, h.known (id, u))
          | inr (c, found) ↦ ground (arith, h, departed T s h id u c found)
        ]

    update_member_role-IsMembersCounted :
        (a id u : ℕ) (role : CommunityRole)
        → IsMembersCounted T (update_member_role T a id u role s).1
    unfolding update_member_role
    update_member_role-IsMembersCounted a id u role =
        elim (Option-cases (T.community_member.find_unique (id, u) s.members)) [
          | inl gone ↦ ground (arith, h)
          | inr (m, there) ↦ elim (Option-cases (T.community.find_unique id s.communities)) [
            | inl lost ↦ ground (arith, h, h.known (id, u))
            | inr (c, found) ↦ ground (arith, h, kept T s h id u (record m { role = role }) c found)
          ]
        ]

  unfoldable pub step : Store T → Call → Store T
  step s (creates id u now dto) = (create_community T id u now dto s).1
  step s (updates u id dto) = (update_community T u id dto s).1
  step s (joins u id now) = (join_community T u id now s).1
  step s (responds a id u now accept) = (respond_join_request T a id u now accept s).1
  step s (leaves u id) = (leave_community T u id s).1
  step s (ranks a id u role) = (update_member_role T a id u role s).1

  step-IsMembersCounted :
      (s : Store T) (c : Call) → IsMembersCounted T s → IsMembersCounted T (step s c)
  unfolding step
  step-IsMembersCounted s (creates id u now dto) h =
      create_community-IsMembersCounted s h id u now dto
  step-IsMembersCounted s (updates u id dto) h = update_community-IsMembersCounted s h u id dto
  step-IsMembersCounted s (joins u id now) h = join_community-IsMembersCounted s h u id now
  step-IsMembersCounted s (responds a id u now accept) h =
      respond_join_request-IsMembersCounted s h a id u now accept
  step-IsMembersCounted s (leaves u id) h = leave_community-IsMembersCounted s h u id
  step-IsMembersCounted s (ranks a id u role) h =
      update_member_role-IsMembersCounted s h a id u role

  -- If the membersCount of every community is the number of its active members, and every
  -- membership belongs to a community row, both still hold after any history of creations,
  -- changes, joins, answers to join requests, departures and changes of role.
  pub run-IsMembersCounted :
      (s : Store T) (cs : List Call) → IsMembersCounted T s → IsMembersCounted T (run step s cs)
  run-IsMembersCounted = run_inv step (IsMembersCounted T) step-IsMembersCounted
