-- ===== src/Party/Zombies.antt =====
-- Members that lost their connection: `markOffline`, `clearOfflineMark` and `sweepZombieMembers` in
-- apps/api/src/modules/party/party.service.ts. Times are milliseconds.
use motogram.Prelude.{ℕ, ◌+◌, ◌*◌, Bool, true, false, none, leb, ◌&&◌, ◌==◌, List, [], ◌∷◌}
use motogram.Prelude.Action.{
  ⊤, Result, ok, err, Action, pure, ◌>>=◌, ◌>>◌, find_many, write, update_many, modify,
}
use motogram.Party.Schema.{
  Member, Tables, Store, disconnect_timeout, party_member, zombie_set, active_set,
}
use motogram.Party.Members.{is_active}
use motogram.Party.Leaving.{leave_party, LeaveResult}

-- `PARTY_TTL.zombieOfflineSeconds * 1000`
abbrev zombie_offline_ms : ℕ
zombie_offline_ms = 60 * 1000

abbrev pub is_row : (party_id user_id : ℕ) → ℕ × ℕ → Member → Bool
is_row party_id user_id k m = k.0 == party_id && (k.1 == user_id && is_active m)

-- `zrangebyscore(key, 0, threshold)`. Before the first minute of the epoch the threshold is
-- negative and nothing is stale.
abbrev pub is_stale : (party_id now : ℕ) → ℕ × ℕ → ℕ → Bool
is_stale party_id now k last_seen = k.0 == party_id && leb (last_seen + zombie_offline_ms) now

module _ (T : Tables) where
  unfoldable pub mark_offline : (user_id party_id now : ℕ) → Action (Store T) ⊤
  mark_offline user_id party_id now = do
    write (zombie_set T) (party_id, user_id) now
    update_many (party_member T) (is_row party_id user_id)
        (λ m. record m { is_online = false; server_hostname = none })

  unfoldable pub clear_offline_mark : (user_id party_id : ℕ) → Action (Store T) ⊤
  clear_offline_mark user_id party_id = do
    modify (λ s. record s { zombies = T.zombie_set.delete (party_id, user_id) s.zombies })
    update_many (party_member T) (is_row party_id user_id) (λ m. record m { is_online = true })

  -- `try { leaveParty; zrem; removed += 1 } catch { warn }`
  abbrev pub swept :
      (party_id user_id removed : ℕ) → Result LeaveResult × Store T → Result ℕ × Store T
  swept party_id user_id removed (ok r, s) =
      (ok (removed + 1), record s { zombies = T.zombie_set.delete (party_id, user_id) s.zombies })
  swept party_id user_id removed (err e, s) = (ok removed, s)

  unfoldable pub sweep_one : (user_id party_id now removed : ℕ) → Action (Store T) ℕ
  sweep_one user_id party_id now removed s =
      swept party_id user_id removed (leave_party T user_id party_id now disconnect_timeout s)

  unfoldable pub sweep_party : (party_id now : ℕ) → List ((ℕ × ℕ) × ℕ) → ℕ → Action (Store T) ℕ
  sweep_party party_id now [] removed = pure removed
  sweep_party party_id now (r ∷ rs) removed = do
    n ← sweep_one r.0.1 party_id now removed
    sweep_party party_id now rs n

  unfoldable pub sweep_parties : ℕ → List (ℕ × ⊤) → ℕ → Action (Store T) ℕ
  sweep_parties now [] removed = pure removed
  sweep_parties now (p ∷ ps) removed = do
    stale ← find_many (zombie_set T) (is_stale p.0 now)
    n ← sweep_party p.0 now stale removed
    sweep_parties now ps n

  unfoldable pub sweep_zombie_members : ℕ → Action (Store T) ℕ
  sweep_zombie_members now = do
    parties ← find_many (active_set T) (λ _ _. true)
    sweep_parties now parties 0
