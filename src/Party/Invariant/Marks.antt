-- ===== src/Party/Invariant/Marks.antt =====
-- The invariant of the parties through losing and finding a connection, and the sweep.
use motogram.Prelude.Keeps.{keeps_bind}
use motogram.Prelude.{
  ℕ, ◌≡◌, refl, ap, true, false, Option, none, is_some, inl, inr, arith, Option-cases, List, [],
  ◌∷◌,
}
use motogram.Prelude.Action.{⊤, Result, ok, err}
use motogram.Party.Schema.{Member, Tables, Store, disconnect_timeout}
use motogram.Party.Members.{is_active_row, is_active_in}
use motogram.Party.Leaving.{leave_party, LeaveResult}
use motogram.Party.Zombies.{
  is_row, is_stale, mark_offline, clear_offline_mark, swept, sweep_one, sweep_party, sweep_parties,
  sweep_zombie_members,
}
use motogram.Party.Invariant.{IsSound, Sound}
use motogram.Party.Invariant.Leaves.{leave_party-Sound}

module _ (T : Tables) (s : Store T) (h : Sound T s) where
  -- A change of the membership rows that leaves `left_at` alone.
  module _ (id u : ℕ) (f : Member → Member) (same : (m : Member) → (f m).left_at ≡ m.left_at) where
    marked-row :
        (k : ℕ × ℕ)
        → is_active_row
            (T.party_member.find_unique k (T.party_member.update_many (is_row id u) f s.members))
          ≡ is_active_row (T.party_member.find_unique k s.members)
    marked-row k = elim (Option-cases (T.party_member.find_unique k s.members)) [
      | inl gone ↦ ground (arith, T.party_member.find-update_many (is_row id u) f k s.members)
      | inr (m, e) ↦ ground (
        arith,
        same m,
        ap (λ (d : Option ℕ). is_some d) (same m),
        T.party_member.find-update_many (is_row id u) f k s.members,
      )
    ]

    marked-Sound :
        IsSound T s.parties (T.party_member.update_many (is_row id u) f s.members) s.member_sets
    marked-Sound = record {
      mirrored = λ k. ground (arith, h.mirrored k, marked-row k);
      bounded = λ q p found op. ground (
        arith,
        h.bounded q p,
        T.party_member.count-update_many (is_active_in q) (is_row id u) f s.members
            (λ k v. ground (arith, same v, ap (λ (d : Option ℕ). is_some d) (same v))),
      );
      single =
          λ v a b aa oa ab ob. ground (arith, h.single v a b, marked-row (a, v), marked-row (b, v));
      known = λ k there.
          ground (arith, h.known k, T.party_member.find-update_many (is_row id u) f k s.members);
    }

  pub mark_offline-Sound : (u id now : ℕ) → Sound T (mark_offline T u id now s).1
  unfolding mark_offline
  mark_offline-Sound u id now =
      marked-Sound id u (λ m. record m { is_online = false; server_hostname = none }) (λ m. refl)

  pub clear_offline_mark-Sound : (u id : ℕ) → Sound T (clear_offline_mark T u id s).1
  unfolding clear_offline_mark
  clear_offline_mark-Sound u id = marked-Sound id u (λ m. record m { is_online = true }) (λ m. refl)

module _ (T : Tables) where
  swept-Sound :
      (id u n : ℕ) (x : Result LeaveResult × Store T) → Sound T x.1 → Sound T (swept T id u n x).1
  swept-Sound id u n (ok r, s) h = h
  swept-Sound id u n (err e, s) h = h

  sweep_one-Sound :
      (s : Store T) (u id now n : ℕ) → Sound T s → Sound T (sweep_one T u id now n s).1
  unfolding sweep_one
  sweep_one-Sound s u id now n h =
      swept-Sound id u n (leave_party T u id now disconnect_timeout s)
        (leave_party-Sound T s u id now disconnect_timeout h)

  sweep_party-Sound :
      (s : Store T) (id now : ℕ) (rs : List ((ℕ × ℕ) × ℕ)) (n : ℕ)
      → Sound T s
      → Sound T (sweep_party T id now rs n s).1
  unfolding sweep_party
  sweep_party-Sound s id now [] n h = h
  sweep_party-Sound s id now (r ∷ rs) n h =
      keeps_bind (Sound T) (sweep_one T r.0.1 id now n) (sweep_party T id now rs) s
        (sweep_one-Sound s r.0.1 id now n h) (λ m s' e. sweep_party-Sound s' id now rs m)

  sweep_parties-Sound :
      (s : Store T) (now : ℕ) (ps : List (ℕ × ⊤)) (n : ℕ)
      → Sound T s
      → Sound T (sweep_parties T now ps n s).1
  unfolding sweep_parties
  sweep_parties-Sound s now [] n h = h
  sweep_parties-Sound s now (p ∷ ps) n h =
      let stale = T.zombie_set.find_many (is_stale p.0 now) s.zombies in
      keeps_bind (Sound T) (sweep_party T p.0 now stale n) (sweep_parties T now ps) s
        (sweep_party-Sound s p.0 now stale n h) (λ m s' e. sweep_parties-Sound s' now ps m)

  pub sweep_zombie_members-Sound :
      (s : Store T) (now : ℕ) → Sound T s → Sound T (sweep_zombie_members T now s).1
  unfolding sweep_zombie_members
  sweep_zombie_members-Sound s now h =
      sweep_parties-Sound s now (T.active_set.find_many (λ _ _. true) s.active) 0 h
