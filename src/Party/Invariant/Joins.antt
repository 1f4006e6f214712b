-- ===== src/Party/Invariant/Joins.antt =====
-- The invariant of the parties through creating and joining.
use motogram.Prelude.{ℕ, ◌≤◌, ◌≡◌, true, false, none, inl, inr, arith, ==_iff, Option-cases, head?}
use motogram.Prelude.Queries.{head?-find_many, head?-find_many-none, count-zero}
use motogram.Party.Schema.{leader, Party, Member, Tables, Store}
use motogram.Party.Members.{
  CreateParty, create_party, join_party, is_active_row, is_active_in, holds_open, is_elsewhere,
  is_active_membership, new_member,
}
use motogram.Party.Members.Joining.{
  new_party, created_store, create_party-cases, NoneActive, join_party-cases, MayJoin, joined_store,
  joined_row,
}
use motogram.Party.Invariant.{Sound}

module _ (T : Tables) (s : Store T) (h : Sound T s) where
  -- A row that is active in an open party is what `findActivePartyForUser` looks for.
  riding-find :
      (u p : ℕ)
      → is_active_row (T.party_member.find_unique (p, u) s.members) ≡ true
      → holds_open (T.party.find_unique p s.parties) ≡ true
      → NoneActive T s u
      → ⊥
  riding-find u p there op idle =
      elim (Option-cases (T.party_member.find_unique (p, u) s.members)) [
        | inl gone ↦ ground arith
        | inr (m, e) ↦ ground (
          arith,
          ==_iff u u,
          head?-find_many-none T.party_member (is_active_membership T s u) (p, u) m s.members,
        )
      ]

  -- A new party has no members yet.
  no_members :
      (id : ℕ)
      → T.party.find_unique id s.parties ≡ none
      → T.party_member.count (is_active_in id) s.members ≡ 0
  no_members id fresh =
      count-zero T.party_member (is_active_in id) s.members
        λ (q, v) m e. ground (arith, h.known (q, v), ==_iff q id)

  created-Sound :
      (id leader_id now : ℕ) (dto : CreateParty)
      → 1 ≤ dto.max_members
      → T.party.find_unique id s.parties ≡ none
      → NoneActive T s leader_id
      → Sound T (created_store T s id leader_id now dto)
  created-Sound id u now dto room fresh idle = record {
    mirrored = λ k. ground (
      arith,
      h.mirrored k,
      T.member_set.find-write k (id, u) tt s.member_sets,
      T.party_member.find-write k (id, u) (new_member leader now) s.members,
    );
    bounded = λ q p found op. ground (
      arith,
      h.bounded q p,
      no_members id fresh,
      ==_iff id q,
      T.party.find-write q id (new_party T s u dto) s.parties,
      T.party_member.count-write (is_active_in q) (id, u) (new_member leader now) s.members,
    );
    single = λ v p q ap op aq oq. ground (
      arith,
      ==_iff id p,
      ==_iff id q,
      ==_iff u v,
      h.single v p q,
      h.known (p, v),
      h.known (q, v),
      riding-find u p,
      riding-find u q,
      idle,
      T.party.find-write p id (new_party T s u dto) s.parties,
      T.party.find-write q id (new_party T s u dto) s.parties,
      T.party_member.find-write (p, v) (id, u) (new_member leader now) s.members,
      T.party_member.find-write (q, v) (id, u) (new_member leader now) s.members,
    );
    known = λ k there. ground (
      arith,
      h.known k,
      T.party.find-write k.0 id (new_party T s u dto) s.parties,
      T.party_member.find-write k (id, u) (new_member leader now) s.members,
    );
  }

  -- A join passes its check only if the user rides nowhere else.
  riding-elsewhere :
      (u id p : ℕ)
      → is_active_row (T.party_member.find_unique (p, u) s.members) ≡ true
      → holds_open (T.party.find_unique p s.parties) ≡ true
      → is_elsewhere id (head? (T.party_member.find_many (is_active_membership T s u) s.members))
        ≡ false
      → p ≡ id
  riding-elsewhere u id p there op only =
      elim (Option-cases
        (head? (T.party_member.find_many (is_active_membership T s u) s.members))) [
          | inl idle ↦ absurd (riding-find u p there op idle)
          | inr (((q, v), m), e) ↦ ground (
            arith,
            ==_iff q id,
            ==_iff v u,
            h.single u p q,
            head?-find_many T.party_member (is_active_membership T s u) (q, v) m s.members,
          )
        ]

  joined-Sound :
      (u id now : ℕ) (p : Party) → MayJoin T s u id p → Sound T (joined_store T s u id now p)
  joined-Sound u id now p may =
      let row : Member = joined_row T s now (T.party_member.find_unique (id, u) s.members) in
      record {
        mirrored = λ k. ground (
          arith,
          h.mirrored k,
          T.member_set.find-write k (id, u) tt s.member_sets,
          T.party_member.find-write k (id, u) row s.members,
        );
        bounded = λ q p' found op. ground (
          arith,
          may,
          h.bounded q p',
          ==_iff id q,
          T.party_member.count-write (is_active_in q) (id, u) row s.members,
        );
        single = λ v a b aa oa ab ob. ground (
          arith,
          may,
          ==_iff id a,
          ==_iff id b,
          ==_iff u v,
          h.single v a b,
          riding-elsewhere u id a,
          riding-elsewhere u id b,
          T.party_member.find-write (a, v) (id, u) row s.members,
          T.party_member.find-write (b, v) (id, u) row s.members,
        );
        known = λ k there. ground (
          arith,
          may,
          h.known k,
          ==_iff id k.0,
          T.party_member.find-write k (id, u) row s.members,
        );
      }

  pub create_party-Sound :
      (id leader_id now : ℕ) (dto : CreateParty)
      → 1 ≤ dto.max_members
      → Sound T (create_party T id leader_id now dto s).1
  create_party-Sound id u now dto room = elim (create_party-cases T s id u now dto) [
    | inl (refused, store) ↦ rw store h
    | inr (done, fresh, new_row, idle, few) ↦ rw done (created-Sound id u now dto room fresh idle)
  ]

  pub join_party-Sound :
      (user_id party_id now : ℕ) → Sound T (join_party T user_id party_id now s).1
  join_party-Sound u id now = elim (join_party-cases T s u id now) [
    | inl (refused, store) ↦ rw store h
    | inr (p, may, fresh, done, store) ↦ rw store (joined-Sound u id now p may)
  ]
