-- ===== src/Party/Election/Lock.antt =====
-- The lock of an election (`SET NX`), and its release.
use motogram.Prelude.{
  ℕ, ◌≡◌, ap, arith, true, false, none, some, ◌==◌, ◌&&◌, ==_iff, List, if◌then◌else◌,
}
use motogram.Prelude.Action.{ok}
use motogram.Party.Schema.{Tables, Store}
use motogram.Party.Election.{
  Candidate, Reason, lock_failed, ElectionResult, elect, elect_pick, pick_next_leader, release,
  holds,
}

abbrev pub lost_race : ElectionResult
lost_race = record { new_leader_id = none; locked = false; reason = lock_failed }

module _ (T : Tables) (s : Store T) (party_id : ℕ) where
  -- A party whose lock is free gets the picked leader and the lock in that leader's name.
  pub elect_free :
      (co : List ℕ) (online : List Candidate) (c : ℕ) (why : Reason)
      → T.leader_lock.find_unique party_id s.locks ≡ none
      → pick_next_leader co online ≡ (some c, why)
      → elect T party_id co online s ≡ (
        ok (record { new_leader_id = some c; locked = true; reason = why }),
        record s { locks = T.leader_lock.write party_id c s.locks },
      )
  unfolding elect
  elect_free co online c why free pick = rw (pick, elect_pick) (ground arith)

  pub elect_held :
      (co : List ℕ) (online : List Candidate) (c holder : ℕ) (why : Reason)
      → T.leader_lock.find_unique party_id s.locks ≡ some holder
      → pick_next_leader co online ≡ (some c, why)
      → elect T party_id co online s ≡ (ok lost_race, s)
  unfolding elect
  elect_held co online c holder why held pick = rw (pick, elect_pick) (ground arith)

  -- A release answers whether the lock holds the expected leader; it deletes the lock of that
  -- party exactly then, and changes no other lock.
  release_lem :
      (expected q : ℕ)
      → let (r, s') = release T party_id expected s in
        (r ≡ ok (holds expected (T.leader_lock.find_unique party_id s.locks)))
        × (T.leader_lock.find_unique q s'.locks ≡ (
            if party_id == q && holds expected (T.leader_lock.find_unique party_id s.locks)
            then none
            else T.leader_lock.find_unique q s.locks))
  unfolding release
  release_lem expected q =
      ground (arith, ==_iff party_id q, T.leader_lock.find-delete q party_id s.locks)

module _ (T : Tables) (s : Store T) (party_id : ℕ) (co co' : List ℕ)
    (online online' : List Candidate) where
  -- Of two elections for one party that each have a pick, run from a free lock, the second loses
  -- as long as the first one's lock is held, and wins with its own pick once the first one's
  -- leader has released it.
  pub elect_exclusive :
      (c c' : ℕ) (why why' : Reason)
      → pick_next_leader co online ≡ (some c, why)
      → pick_next_leader co' online' ≡ (some c', why')
      → T.leader_lock.find_unique party_id s.locks ≡ none
      → let s' = (elect T party_id co online s).1 in
        ((elect T party_id co' online' s').0 ≡ ok lost_race)
        × ((elect T party_id co' online' (release T party_id c s').1).0
            ≡ ok (record { new_leader_id = some c'; locked = true; reason = why' }))
  elect_exclusive c c' why why' pick pick' free =
      let taken = record s { locks = T.leader_lock.write party_id c s.locks } in
      let found = T.leader_lock.find-write party_id party_id c s.locks in
      rw (elect_free T s party_id co online c why free pick) (
        ap (λ r. r.0)
            (elect_held T taken party_id co' online' c' c why'
              (ground (arith, found, ==_iff party_id party_id)) pick'),
        ap (λ r. r.0)
            (elect_free T (release T party_id c taken).1 party_id co' online' c' why'
              (ground (
                arith,
                found,
                ==_iff party_id party_id,
                ==_iff c c,
                (release_lem T taken party_id c party_id).1,
              ))
              pick'),
      )
