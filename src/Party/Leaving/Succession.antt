-- ===== src/Party/Leaving/Succession.antt =====
-- Who leads a party after its leader has left.
use motogram.Prelude.{
  ℕ, ◌≡◌, ◌≢◌, refl, true, false, none, some, arith, ◌==◌, ==_iff, List, [], ◌∷◌, map,
}
use motogram.Prelude.Action.{ok}
use motogram.Party.Schema.{leader, leader_left_alone, Party, Member, Tables, Store, LeaveReason}
use motogram.Party.Election.{Candidate, Reason, pick_next_leader, elect, release}
use motogram.Party.Election.Lock.{elect_free, elect_held}
use motogram.Party.Members.{is_active, is_active_row, is_open, is_ended}
use motogram.Party.Leaving.{
  go_away, candidate, online_of, earliest, end_row, end_party, end_alone, fall_back, install_leader,
  replace_leader, leave_party,
}
use motogram.Party.Leaving.Ending.{
  ended_store, end_open_lem, left_store, installed_store, others, leave_open_leader,
}

module _ (T : Tables) (s : Store T) (id now : ℕ) (co : List ℕ) (r : (ℕ × ℕ) × Member)
    (rs : List ((ℕ × ℕ) × Member)) where
  replace_leader_elected :
      (c : ℕ) (why : Reason)
      → T.leader_lock.find_unique id s.locks ≡ none
      → pick_next_leader co (online_of (map candidate (r ∷ rs))) ≡ (some c, why)
      → replace_leader T id now co (r ∷ rs) s
        ≡ install_leader T id c (record s { locks = T.leader_lock.write id c s.locks })
  unfolding replace_leader
  replace_leader_elected c why free pick =
      ground (arith, elect_free T s id co (online_of (map candidate (r ∷ rs))) c why free pick)

  replace_leader_raced :
      (c holder : ℕ) (why : Reason)
      → T.leader_lock.find_unique id s.locks ≡ some holder
      → pick_next_leader co (online_of (map candidate (r ∷ rs))) ≡ (some c, why)
      → replace_leader T id now co (r ∷ rs) s ≡ fall_back T id now (map candidate (r ∷ rs)) none s
  unfolding replace_leader
  replace_leader_raced c holder why held pick =
      ground
        (arith, elect_held T s id co (online_of (map candidate (r ∷ rs))) c holder why held pick)

  replace_leader_offline :
      online_of (map candidate (r ∷ rs)) ≡ []
      → replace_leader T id now co (r ∷ rs) s ≡ fall_back T id now (map candidate (r ∷ rs)) none s
  unfolding replace_leader elect pick_next_leader
  replace_leader_offline nobody = rw nobody refl

module _ (T : Tables) (s : Store T) (id : ℕ) where
  install_leader_lem :
      (c : ℕ) (p : Party) (m : Member)
      → T.party.find_unique id s.parties ≡ some p
      → T.party_member.find_unique (id, c) s.members ≡ some m
      → install_leader T id c s
        ≡ (ok (record { ended = false; new_leader_id = some c }), installed_store T s id c p m)
  unfolding install_leader release
  install_leader_lem c p m found there = ground arith

  end_alone_lem :
      (now : ℕ) (p : Party)
      → T.party.find_unique id s.parties ≡ some p
      → is_ended p.status ≡ false
      → end_alone T id now s ≡ (
        ok (record { ended = true; new_leader_id = none }),
        ended_store T s id now leader_left_alone p,
      )
  unfolding end_alone end_party
  end_alone_lem now p found live = ground (arith, end_open_lem T s id now leader_left_alone p found)

  fall_back_lem :
      (now d : ℕ) (cs : List Candidate)
      → earliest cs ≡ some d
      → fall_back T id now cs none s ≡ (ok (record { ended = false; new_leader_id = some d }), s)
  unfolding fall_back
  fall_back_lem now d cs first = rw (fall_back, first) refl

module _ (T : Tables) (s : Store T) (u id now : ℕ) (reason : LeaveReason) (p : Party) (m : Member)
    (found : T.party.find_unique id s.parties ≡ some p) (live : is_open p ≡ true)
    (there : T.party_member.find_unique (id, u) s.members ≡ some m) (rides : is_active m ≡ true)
    (leads : p.leader_id ≡ u) where
  leave_party_leader :
      leave_party T u id now reason s
      ≡ replace_leader T id now p.co_leader_ids (others T s id u) (left_store T s u id now reason m)
  unfolding leave_party
  leave_party_leader = ground (arith, leave_open_leader T s u id now reason p m)

  -- When the leader, an active member, leaves a party that is neither ended nor deleted, the
  -- leader lock is free and the election over the online ones of the other active members picks
  -- `c`, who has a row in the party and is not the leaver, then the call answers that the party
  -- goes on under `c`, the party's row names `c`, the row of `c` has the role LEADER, and the
  -- lock is free again.
  pub leader_succeeded :
      (r : (ℕ × ℕ) × Member) (rs : List ((ℕ × ℕ) × Member)) (c : ℕ) (why : Reason) (mc : Member)
      → others T s id u ≡ r ∷ rs
      → pick_next_leader p.co_leader_ids (online_of (map candidate (r ∷ rs))) ≡ (some c, why)
      → T.party_member.find_unique (id, c) s.members ≡ some mc
      → c ≢ u
      → T.leader_lock.find_unique id s.locks ≡ none
      → let (answer, s') = leave_party T u id now reason s in
        (answer ≡ ok (record { ended = false; new_leader_id = some c }))
        × (T.party.find_unique id s'.parties ≡ some (record p { leader_id = c }))
        × (T.party_member.find_unique (id, c) s'.members ≡ some (record mc { role = leader }))
        × (T.leader_lock.find_unique id s'.locks ≡ none)
  leader_succeeded r rs c why mc rest pick row differ free =
      let away = left_store T s u id now reason m in
      let taken = record away { locks = T.leader_lock.write id c away.locks } in
      let row' : T.party_member.find_unique (id, c) away.members ≡ some mc =
        ground (
          arith,
          ==_iff u c,
          T.party_member.find-write (id, c) (id, u) (go_away now m) s.members,
        ) in
      rw
        (
          leave_party_leader,
          rest,
          replace_leader_elected T away id now p.co_leader_ids r rs c why free pick,
          install_leader_lem T taken id c p mc found row',
        )
        (
          refl,
          ground (
            arith,
            ==_iff id id,
            T.party.find-write id id (record p { leader_id = c }) s.parties,
          ),
          ground (
            arith,
            ==_iff id id,
            ==_iff c c,
            T.party_member.find-write (id, c) (id, c) (record mc { role = leader }) away.members,
          ),
          ground (
            arith,
            ==_iff id id,
            ==_iff c c,
            T.leader_lock.find-write id id c s.locks,
            T.leader_lock.find-delete id id taken.locks,
          ),
        )

  -- When the leader, an active member, leaves a party that is neither ended nor deleted and no
  -- other member is active, the call answers that the party ended, its row is ended at that time,
  -- and its Redis set is empty.
  pub leader_alone :
      others T s id u ≡ []
      → let (answer, s') = leave_party T u id now reason s in
        (answer ≡ ok (record { ended = true; new_leader_id = none }))
        × (T.party.find_unique id s'.parties ≡ some (end_row now p))
        × ((v : ℕ) → T.member_set.find_unique (id, v) s'.member_sets ≡ none)
  unfolding replace_leader
  leader_alone empty =
      let away = left_store T s u id now reason m in
      rw (leave_party_leader, empty, end_alone_lem T away id now p found (ground arith))
        (
          refl,
          ground (arith, ==_iff id id, T.party.find-write id id (end_row now p) s.parties),
          λ v. ground (
            arith,
            ==_iff id id,
            T.member_set.find-delete_many (λ k _. k.0 == id) (id, v) away.member_sets,
          ),
        )

  -- Another election holds the lock.
  leader_raced :
      (r : (ℕ × ℕ) × Member) (rs : List ((ℕ × ℕ) × Member)) (c d holder : ℕ) (why : Reason)
      → others T s id u ≡ r ∷ rs
      → pick_next_leader p.co_leader_ids (online_of (map candidate (r ∷ rs))) ≡ (some c, why)
      → T.leader_lock.find_unique id s.locks ≡ some holder
      → earliest (map candidate (r ∷ rs)) ≡ some d
      → leave_party T u id now reason s
        ≡ (ok (record { ended = false; new_leader_id = some d }), left_store T s u id now reason m)
  leader_raced r rs c d holder why rest pick held first =
      let away = left_store T s u id now reason m in
      rw
        (
          leave_party_leader,
          rest,
          replace_leader_raced T away id now p.co_leader_ids r rs c holder why held pick,
        )
        (fall_back_lem T away id now d (map candidate (r ∷ rs)) first)

  -- When the leader, an active member, leaves a party that is neither ended nor deleted and has
  -- other active members but none of them online, the call answers that the party goes on under
  -- the earliest of them, while the party's row stays as it was: it still names the leaver, whose
  -- own row is no longer active.
  pub leader_offline :
      (r : (ℕ × ℕ) × Member) (rs : List ((ℕ × ℕ) × Member)) (d : ℕ)
      → others T s id u ≡ r ∷ rs
      → online_of (map candidate (r ∷ rs)) ≡ []
      → earliest (map candidate (r ∷ rs)) ≡ some d
      → let (answer, s') = leave_party T u id now reason s in
        (answer ≡ ok (record { ended = false; new_leader_id = some d }))
        × (T.party.find_unique id s'.parties ≡ some p)
        × (p.leader_id ≡ u)
        × (is_active_row (T.party_member.find_unique (id, u) s'.members) ≡ false)
  leader_offline r rs d rest nobody first =
      let away = left_store T s u id now reason m in
      rw
        (
          leave_party_leader,
          rest,
          replace_leader_offline T away id now p.co_leader_ids r rs nobody,
          fall_back_lem T away id now d (map candidate (r ∷ rs)) first,
        )
        (
          refl,
          found,
          leads,
          ground (
            arith,
            ==_iff id id,
            ==_iff u u,
            T.party_member.find-write (id, u) (id, u) (go_away now m) s.members,
          ),
        )
