-- ===== src/Party/Election.antt =====
-- apps/api/src/modules/party/leader-election.service.ts. The lock's time to live of five seconds is
-- not modelled: a lock is there until it is released.
pub mod Choice
pub mod Lock
use motogram.Prelude.{
  ℕ, Bool, true, false, Option, none, some, is_some, any, head?, sort, ◌&&◌, ◌||◌, ◌==◌, ltb, List,
  [], ◌∷◌, if◌then◌else◌,
}
use motogram.Prelude.Action.{⊤, Action, pure, ◌>>=◌, ◌>>◌, find_unique, write, modify}
use motogram.Party.Schema.{Tables, Store, leader_lock}

pub record Candidate : Type 0 where
  pub user_id : ℕ
  pub joined_at : ℕ
  pub is_online : Bool

pub data Reason : Type 0 where
  picked_co_leader oldest_member no_candidates lock_failed : Reason

-- `onlineSet.has(id)`
abbrev pub is_candidate : List Candidate → ℕ → Bool
is_candidate online id = any (λ m. m.user_id == id) online

-- The comparator: by `joinedAt`, a tie by the identifier.
abbrev pub joined_before : Candidate → Candidate → Bool
joined_before a b =
    ltb a.joined_at b.joined_at || (a.joined_at == b.joined_at && ltb a.user_id b.user_id)

-- The loop over `coLeaderIds`.
unfoldable pub first_co_leader : List Candidate → List ℕ → Option ℕ
first_co_leader online [] = none
first_co_leader online (c ∷ cs) =
    if is_candidate online c then some c else first_co_leader online cs

abbrev pub oldest : List Candidate → Option Candidate
oldest online = head? (sort joined_before online)

abbrev or_oldest : Option Candidate → Option ℕ → Option ℕ × Reason
or_oldest first (some c) = (some c, picked_co_leader)
or_oldest (some m) none = (some m.user_id, oldest_member)
or_oldest none none = (none, no_candidates)

-- `pickNextLeader`
unfoldable pub pick_next_leader : List ℕ → List Candidate → Option ℕ × Reason
pick_next_leader co_leader_ids [] = (none, no_candidates)
pick_next_leader co_leader_ids (m ∷ ms) =
    or_oldest (oldest (m ∷ ms)) (first_co_leader (m ∷ ms) co_leader_ids)

pub record ElectionResult : Type 0 where
  pub new_leader_id : Option ℕ
  pub locked : Bool
  pub reason : Reason

-- `GET key == expected`
abbrev pub holds : ℕ → Option ℕ → Bool
holds user_id none = false
holds user_id (some v) = v == user_id

module _ (T : Tables) where
  -- `SET party:{id}:leader_lock <user> EX 5 NX`, by what the key holds.
  abbrev set_nx : (party_id user_id : ℕ) → Reason → Option ℕ → Action (Store T) ElectionResult
  set_nx party_id user_id reason (some other) =
      pure (record { new_leader_id = none; locked = false; reason = lock_failed })
  set_nx party_id user_id reason none = do
    write (leader_lock T) party_id user_id
    pure (record { new_leader_id = some user_id; locked = true; reason = reason })

  abbrev pub elect_pick : ℕ → Option ℕ × Reason → Action (Store T) ElectionResult
  elect_pick party_id (none, reason) =
      pure (record { new_leader_id = none; locked = false; reason = reason })
  elect_pick party_id (some user_id, reason) = do
    held ← find_unique (leader_lock T) party_id
    set_nx party_id user_id reason held

  unfoldable pub elect : (party_id : ℕ) → List ℕ → List Candidate → Action (Store T) ElectionResult
  elect party_id co_leader_ids online = elect_pick party_id (pick_next_leader co_leader_ids online)

  -- The script: delete the lock if it holds the expected leader.
  unfoldable pub release : (party_id expected_leader_id : ℕ) → Action (Store T) Bool
  release party_id expected_leader_id = do
    held ← find_unique (leader_lock T) party_id
    let mine = holds expected_leader_id held
    modify (λ s. if mine then record s { locks = T.leader_lock.delete party_id s.locks } else s)
    pure mine
