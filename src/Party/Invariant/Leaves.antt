-- ===== src/Party/Invariant/Leaves.antt =====
-- The invariant of the parties through leaving, ending and electing.
use motogram.Prelude.Keeps.{keeps_bind}
use motogram.Prelude.{
  map, ℕ, ◌≡◌, ◌≢◌, Option, none, some, inl, inr, arith, ◌==◌, ==_iff, pair_eq_iff, Option-cases,
  Bool-cases, List, [], ◌∷◌,
}
use motogram.Prelude.Action.{is_ok}
use motogram.Party.Schema.{
  leader, Party, Member, Tables, Store, LeaveReason, EndReason, leader_left_alone,
}
use motogram.Party.Election.{Candidate, elect, ElectionResult}
use motogram.Party.Members.{is_active, is_active_in, is_ended}
use motogram.Party.Leaving.{
  candidate, online_of, earliest, go_away, end_row, end_found, end_party, end_alone, fall_back,
  install_leader, settle_election, replace_leader, leave_open, leave_party,
}
use motogram.Party.Leaving.Ending.{
  ended_store, end_open_lem, left_store, elect_frame, installed_store, install_leader-cases, others,
  leave_open_refused, leave_open_member, leave_open_leader, leave_party-cases,
}
use motogram.Party.Invariant.{Sound}

module _ (T : Tables) (s : Store T) (h : Sound T s) where
  left-Sound :
      (u id now : ℕ) (reason : LeaveReason) (m : Member)
      → T.party_member.find_unique (id, u) s.members ≡ some m
      → Sound T (left_store T s u id now reason m)
  left-Sound u id now reason m found = record {
    mirrored = λ k. ground (
      arith,
      h.mirrored k,
      T.member_set.find-delete k (id, u) s.member_sets,
      T.party_member.find-write k (id, u) (go_away now m) s.members,
    );
    bounded = λ q p there op. ground (
      arith,
      h.bounded q p,
      T.party_member.count-write (is_active_in q) (id, u) (go_away now m) s.members,
    );
    single = λ v p q ap op aq oq. ground (
      arith,
      h.single v p q,
      T.party_member.find-write (p, v) (id, u) (go_away now m) s.members,
      T.party_member.find-write (q, v) (id, u) (go_away now m) s.members,
    );
    known = λ k there. ground (
      arith,
      h.known k,
      h.known (id, u),
      ==_iff id k.0,
      T.party_member.find-write k (id, u) (go_away now m) s.members,
    );
  }

  ended-Sound :
      (id now : ℕ) (reason : EndReason) (p : Party)
      → T.party.find_unique id s.parties ≡ some p
      → Sound T (ended_store T s id now reason p)
  ended-Sound id now reason p found = record {
    mirrored = λ k. ground (
      arith,
      h.mirrored k,
      T.member_set.find-delete_many (λ k _. k.0 == id) k s.member_sets,
      T.party_member.find-update_many (is_active_in id) (go_away now) k s.members,
    );
    bounded = λ q p' there op. ground (
      arith,
      h.bounded q p',
      ==_iff id q,
      T.party.find-write q id (end_row now p) s.parties,
      λ (differ : id ≢ q).
          T.party_member.count-update_many (is_active_in q) (is_active_in id) (go_away now)
            s.members (λ k v. ground (arith, ==_iff k.0 id, ==_iff k.0 q)),
    );
    single = λ v a b aa oa ab ob. ground (
      arith,
      h.single v a b,
      T.party.find-write a id (end_row now p) s.parties,
      T.party.find-write b id (end_row now p) s.parties,
      T.party_member.find-update_many (is_active_in id) (go_away now) (a, v) s.members,
      T.party_member.find-update_many (is_active_in id) (go_away now) (b, v) s.members,
    );
    known = λ k there. ground (
      arith,
      h.known k,
      ==_iff id k.0,
      T.party.find-write k.0 id (end_row now p) s.parties,
      T.party_member.find-update_many (is_active_in id) (go_away now) k s.members,
    );
  }

  installed-Sound :
      (id u : ℕ) (p : Party) (m : Member)
      → T.party.find_unique id s.parties ≡ some p
      → T.party_member.find_unique (id, u) s.members ≡ some m
      → Sound T (installed_store T s id u p m)
  installed-Sound id u p m found there =
      let p' = record p { leader_id = u } in
      let m' = record m { role = leader } in
      record {
        mirrored = λ k. ground (
          arith,
          h.mirrored k,
          pair_eq_iff (id, u) k,
          T.party_member.find-write k (id, u) m' s.members,
        );
        bounded = λ q r have op. ground (
          arith,
          h.bounded q r,
          h.bounded q p,
          ==_iff id q,
          T.party.find-write q id p' s.parties,
          T.party_member.count-write (is_active_in q) (id, u) m' s.members,
        );
        single = λ v a b aa oa ab ob. ground (
          arith,
          h.single v a b,
          ==_iff id a,
          ==_iff id b,
          ==_iff u v,
          T.party.find-write a id p' s.parties,
          T.party.find-write b id p' s.parties,
          T.party_member.find-write (a, v) (id, u) m' s.members,
          T.party_member.find-write (b, v) (id, u) m' s.members,
        );
        known = λ k have. ground (
          arith,
          h.known k,
          ==_iff id k.0,
          T.party.find-write k.0 id p' s.parties,
          T.party_member.find-write k (id, u) m' s.members,
        );
      }

module _ (T : Tables) where
  pub end_party-Sound :
      (s : Store T) (id now : ℕ) (reason : EndReason)
      → Sound T s
      → Sound T (end_party T id now reason s).1
  unfolding end_party
  end_party-Sound s id now reason h = elim (Option-cases (T.party.find_unique id s.parties)) [
    | inl gone ↦ rw (gone, end_party) h
    | inr (p, found) ↦ elim (Bool-cases (is_ended p.status)) [
      | inl over ↦ rw (found, end_found, over) h
      | inr live ↦
          rw (found, end_found, live)
            (rw (end_open_lem T s id now reason p found) (ended-Sound T s h id now reason p found))
    ]
  ]

  end_alone-Sound : (s : Store T) (id now : ℕ) → Sound T s → Sound T (end_alone T id now s).1
  unfolding end_alone
  end_alone-Sound s id now h =
      elim (Bool-cases (is_ok (end_party T id now leader_left_alone s).0)) [
        | inl done ↦ ground (arith, end_party-Sound s id now leader_left_alone h)
        | inr failed ↦ ground (arith, end_party-Sound s id now leader_left_alone h)
      ]

  fall_back-Sound :
      (s : Store T) (id now : ℕ) (cs : List Candidate) (c : Option ℕ)
      → Sound T s
      → Sound T (fall_back T id now cs c s).1
  unfolding fall_back
  fall_back-Sound s id now cs (some c) h = h
  fall_back-Sound s id now cs none h = elim (Option-cases (earliest cs)) [
    | inl empty ↦ rw (empty, fall_back) (end_alone-Sound s id now h)
    | inr (c, e) ↦ rw (e, fall_back) h
  ]

  install_leader-Sound : (s : Store T) (id u : ℕ) → Sound T s → Sound T (install_leader T id u s).1
  install_leader-Sound s id u h = elim (install_leader-cases T s id u) [
    | inl (refused, store) ↦ rw store h
    | inr (p, m, found, there, done) ↦ rw done (installed-Sound T s h id u p m found there)
  ]

  settle_election-Sound :
      (s : Store T) (id now : ℕ) (cs : List Candidate) (r : ElectionResult)
      → Sound T s
      → Sound T (settle_election T id now cs r s).1
  settle_election-Sound s id now cs r h = elim (Option-cases r.new_leader_id) [
    | inl lost ↦ rw (lost, settle_election) (fall_back-Sound s id now cs none h)
    | inr (c, e) ↦ elim (Bool-cases r.locked) [
      | inl won ↦ rw (e, settle_election, won) (install_leader-Sound s id c h)
      | inr raced ↦ rw (e, settle_election, raced) (fall_back-Sound s id now cs (some c) h)
    ]
  ]

  elected-Sound :
      (s : Store T) (id : ℕ) (co : List ℕ) (online : List Candidate)
      → Sound T s
      → Sound T (elect T id co online s).1
  elected-Sound s id co online h = rw (elect_frame T s id co online).0 h

  replace_leader-Sound :
      (s : Store T) (id now : ℕ) (co : List ℕ) (rs : List ((ℕ × ℕ) × Member))
      → Sound T s
      → Sound T (replace_leader T id now co rs s).1
  unfolding replace_leader
  replace_leader-Sound s id now co [] h = end_alone-Sound s id now h
  replace_leader-Sound s id now co (r ∷ rs) h =
      let cs = map candidate (r ∷ rs) in
      keeps_bind (Sound T) (elect T id co (online_of cs)) (settle_election T id now cs) s
        (elected-Sound s id co (online_of cs) h)
        (λ result s' e h'. settle_election-Sound s' id now cs result h')

  leave_open-Sound :
      (s : Store T) (u id now : ℕ) (reason : LeaveReason) (p : Party)
      → Sound T s
      → Sound T (leave_open T u id now reason p s).1
  leave_open-Sound s u id now reason p h =
      elim (Option-cases (T.party_member.find_unique (id, u) s.members)) [
        | inl gone ↦ rw (leave_open_refused T s u id now reason p (ground arith)) h
        | inr (m, found) ↦ elim (Bool-cases (is_active m)) [
          | inr over ↦ rw (leave_open_refused T s u id now reason p (ground arith)) h
          | inl there ↦ elim (Bool-cases (p.leader_id == u)) [
            | inr other ↦
                rw (leave_open_member T s u id now reason p m found there (ground arith))
                  (left-Sound T s h u id now reason m found)
            | inl self ↦ rw (leave_open_leader T s u id now reason p m found there (ground arith)) (
                replace_leader-Sound (left_store T s u id now reason m) id now p.co_leader_ids
                  (others T s id u) (left-Sound T s h u id now reason m found))
          ]
        ]
      ]

  pub leave_party-Sound :
      (s : Store T) (user_id party_id now : ℕ) (reason : LeaveReason)
      → Sound T s
      → Sound T (leave_party T user_id party_id now reason s).1
  leave_party-Sound s u id now reason h = elim (leave_party-cases T s u id now reason) [
    | inl same ↦ rw same h
    | inr (p, found, live, same) ↦ rw same (leave_open-Sound s u id now reason p h)
  ]
