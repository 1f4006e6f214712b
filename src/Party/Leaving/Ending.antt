-- ===== src/Party/Leaving/Ending.antt =====
-- What the parts of leaving and ending leave behind, as equations on the store.
use motogram.Prelude.{
  ℕ, ◌≡◌, ◌≢◌, refl, true, false, Option, none, some, is_some, ◌⊎◌, inl, inr, arith, ◌==◌, ==_iff,
  List, [], ◌∷◌, if◌then◌else◌, Option-cases, Bool-cases,
}
use motogram.Prelude.Action.{bad_request, ⊤, ok, err, is_ok}
use motogram.Party.Schema.{
  PartyStatus, leader, Party, Member, Tables, Store, LeaveReason, EndReason, member_left,
  status_changed, party_ended, leader_changed,
}
use motogram.Party.Election.{holds, Reason, elect, elect_pick, pick_next_leader, release, Candidate}
use motogram.Party.Members.{is_active, is_active_in, is_active_row, is_ended}
use motogram.Party.Leaving.{
  leave_open, leave_party, is_remaining, replace_leader, go_away, end_row, delete_user_parties,
  end_open, remove_member, install_leader,
}

module _ (T : Tables) where
  pub drop_user_parties : List ((ℕ × ℕ) × ⊤) → T.user_party.Rows → T.user_party.Rows
  drop_user_parties [] t = t
  drop_user_parties (r ∷ rs) t = drop_user_parties rs (T.user_party.delete r.0.1 t)

  delete_user_parties_lem :
      (rs : List ((ℕ × ℕ) × ⊤)) (s : Store T)
      → delete_user_parties T rs s
        ≡ (ok tt, record s { user_parties = drop_user_parties rs s.user_parties })
  unfolding delete_user_parties drop_user_parties
  delete_user_parties_lem [] s = refl
  delete_user_parties_lem (r ∷ rs) s =
      delete_user_parties_lem rs
        (record s { user_parties = T.user_party.delete r.0.1 s.user_parties })

  module _ (s : Store T) where
    -- The rows and keys of a party that has ended.
    abbrev pub ended_store : (party_id now : ℕ) → EndReason → Party → Store T
    ended_store party_id now reason p = record s {
      parties = T.party.write party_id (end_row now p) s.parties;
      members = T.party_member.update_many (is_active_in party_id) (go_away now) s.members;
      member_sets = T.member_set.delete_many (λ k _. k.0 == party_id) s.member_sets;
      zombies = T.zombie_set.delete_many (λ k _. k.0 == party_id) s.zombies;
      active = T.active_set.delete party_id s.active;
      user_parties =
          drop_user_parties (T.member_set.find_many (λ k _. k.0 == party_id) s.member_sets)
            s.user_parties;
      sent =
          if s.has_emitter
          then party_ended party_id reason ∷ status_changed party_id PartyStatus.ended ∷ s.sent
          else s.sent;
    }

    pub end_open_lem :
        (party_id now : ℕ) (reason : EndReason) (p : Party)
        → T.party.find_unique party_id s.parties ≡ some p
        → end_open T party_id now reason s ≡ (ok tt, ended_store party_id now reason p)
    unfolding end_open
    end_open_lem party_id now reason p found =
        let row_done = record s {
          parties = T.party.write party_id (end_row now p) s.parties;
          members = T.party_member.update_many (is_active_in party_id) (go_away now) s.members;
        } in
        let keys_done = record row_done {
          member_sets = T.member_set.delete_many (λ k _. k.0 == party_id) s.member_sets;
          zombies = T.zombie_set.delete_many (λ k _. k.0 == party_id) s.zombies;
          active = T.active_set.delete party_id s.active;
        } in
        ground (
          arith,
          delete_user_parties_lem (T.member_set.find_many (λ k _. k.0 == party_id) s.member_sets)
              keys_done,
        )

    abbrev pub left_store : (user_id party_id now : ℕ) → LeaveReason → Member → Store T
    left_store user_id party_id now reason m = record s {
      members = T.party_member.write (party_id, user_id) (go_away now m) s.members;
      member_sets = T.member_set.delete (party_id, user_id) s.member_sets;
      user_parties = T.user_party.delete user_id s.user_parties;
      sent = if s.has_emitter then member_left party_id user_id reason ∷ s.sent else s.sent;
    }

    remove_member_lem :
        (user_id party_id now : ℕ) (reason : LeaveReason) (m : Member)
        → T.party_member.find_unique (party_id, user_id) s.members ≡ some m
        → remove_member T user_id party_id now reason s
          ≡ (ok tt, left_store user_id party_id now reason m)
    unfolding remove_member
    remove_member_lem user_id party_id now reason m found = ground arith

    -- What the election changes: the lock at most.
    pub elect_frame :
        (party_id : ℕ) (co : List ℕ) (online : List Candidate)
        → let s' = (elect T party_id co online s).1 in
          (s' ≡ record s { locks = s'.locks }) × (is_ok (elect T party_id co online s).0 ≡ true)
    unfolding elect
    elect_frame party_id co online = go (pick_next_leader co online) refl
      where
        go :
            (r : Option ℕ × Reason)
            → pick_next_leader co online ≡ r
            → let s' = (elect T party_id co online s).1 in
              (s' ≡ record s { locks = s'.locks }) × (is_ok (elect T party_id co online s).0 ≡ true)
        go (none, why) e = rw (e, elect_pick) (refl, refl)
        go (some c, why) e = rw (e, elect_pick) (ground arith)

    abbrev pub installed_store : (party_id id : ℕ) → Party → Member → Store T
    installed_store party_id id p m = record s {
      parties = T.party.write party_id (record p { leader_id = id }) s.parties;
      members = T.party_member.write (party_id, id) (record m { role = leader }) s.members;
      locks =
          if holds id (T.leader_lock.find_unique party_id s.locks)
          then T.leader_lock.delete party_id s.locks
          else s.locks;
      sent = if s.has_emitter then leader_changed party_id id ∷ s.sent else s.sent;
    }

    pub install_leader-cases :
        (party_id id : ℕ)
        → ((is_ok (install_leader T party_id id s).0 ≡ false)
            × ((install_leader T party_id id s).1 ≡ s))
          ⊎ ((p : Party) × (m : Member) × (T.party.find_unique party_id s.parties ≡ some p)
              × (T.party_member.find_unique (party_id, id) s.members ≡ some m)
              × (install_leader T party_id id s ≡ (
                ok (record { ended = false; new_leader_id = some id }),
                installed_store party_id id p m,
              )))
    unfolding install_leader release
    install_leader-cases party_id id =
        elim (Option-cases (T.party.find_unique party_id s.parties)) [
          | inl gone ↦ inl (ground arith, ground arith)
          | inr (p, found) ↦
              elim (Option-cases (T.party_member.find_unique (party_id, id) s.members)) [
                | inl lost ↦ inl (ground arith, ground arith)
                | inr (m, there) ↦ inr (p, m, found, there, ground arith)
              ]
        ]

    abbrev pub others : (party_id user_id : ℕ) → List ((ℕ × ℕ) × Member)
    others party_id user_id = T.party_member.find_many (is_remaining party_id user_id) s.members

    module _ (u id now : ℕ) (reason : LeaveReason) where
      pub leave_open_refused :
          (p : Party)
          → is_active_row (T.party_member.find_unique (id, u) s.members) ≡ false
          → leave_open T u id now reason p s ≡ (err (bad_request "not_member"), s)
      unfolding leave_open
      leave_open_refused p gone = ground arith

      pub leave_open_member :
          (p : Party) (m : Member)
          → T.party_member.find_unique (id, u) s.members ≡ some m
          → is_active m ≡ true
          → p.leader_id ≢ u
          → leave_open T u id now reason p s
            ≡ (ok (record { ended = false; new_leader_id = none }), left_store u id now reason m)
      unfolding leave_open
      leave_open_member p m found there other =
          ground (arith, ==_iff p.leader_id u, remove_member_lem u id now reason m)

      pub leave_open_leader :
          (p : Party) (m : Member)
          → T.party_member.find_unique (id, u) s.members ≡ some m
          → is_active m ≡ true
          → p.leader_id ≡ u
          → leave_open T u id now reason p s
            ≡ replace_leader T id now p.co_leader_ids (others id u) (left_store u id now reason m)
      unfolding leave_open
      leave_open_leader p m found there self =
          ground (arith, ==_iff p.leader_id u, remove_member_lem u id now reason m)

      -- A departure changes nothing, or it is the body for a party that has not ended.
      pub leave_party-cases :
          ((leave_party T u id now reason s).1 ≡ s)
          ⊎ ((p : Party) × (T.party.find_unique id s.parties ≡ some p)
              × (is_ended p.status ≡ false)
              × (leave_party T u id now reason s ≡ leave_open T u id now reason p s))
      unfolding leave_party
      leave_party-cases = elim (Option-cases (T.party.find_unique id s.parties)) [
        | inl gone ↦ inl (ground arith)
        | inr (q, found) ↦ elim (Bool-cases (is_ended q.status)) [
          | inl over ↦ inl (ground arith)
          | inr live ↦ elim (Bool-cases (is_some q.deleted_at)) [
            | inl deleted ↦ inl (ground arith)
            | inr kept ↦ inr (q, found, live, ground arith)
          ]
        ]
      ]
