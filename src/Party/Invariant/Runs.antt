-- ===== src/Party/Invariant/Runs.antt =====
-- Histories of calls of the party service, and the invariant along them.
use motogram.Prelude.Keeps.{keeps_bind}
use motogram.Prelude.{
  ℕ, ◌+◌, ◌≤◌, Bool, inl, inr, arith, ◌==◌, if◌then◌else◌, Option-cases, Bool-cases, List, [], ◌∷◌,
  head?, All,
}
use motogram.Prelude.History.{run, run_inv_all}
use motogram.Party.Schema.{Signal, Tables, Store, LeaveReason, EndReason}
use motogram.Party.Members.{CreateParty, create_party, join_party}
use motogram.Party.Leaving.{leave_party, end_party}
use motogram.Party.Invites.{InviteCount, invite_one, invite_each, invite_all, respond_invite}
use motogram.Party.Signals.{record_signal, count_signal, send_signal}
use motogram.Party.Zombies.{mark_offline, clear_offline_mark, sweep_zombie_members}
use motogram.Party.Invariant.{Sound}
use motogram.Party.Invariant.Joins.{create_party-Sound, join_party-Sound}
use motogram.Party.Invariant.Leaves.{leave_party-Sound, end_party-Sound}
use motogram.Party.Invariant.Marks.{
  mark_offline-Sound, clear_offline_mark-Sound, sweep_zombie_members-Sound,
}

-- A call of the service, with the identifiers and the time that it draws.
pub data Call : Type 0 where
  create : (id user now : ℕ) → CreateParty → Call
  join : (user party now : ℕ) → Call
  leave : (user party now : ℕ) → LeaveReason → Call
  close : (party now : ℕ) → EndReason → Call
  invite : (id user party : ℕ) → List ℕ → Call
  respond : (user invite_id now : ℕ) → Bool → Call
  signal : (party user : ℕ) → Signal → Call
  lose find : (user party now : ℕ) → Call
  sweep : (now : ℕ) → Call

-- The body of a request for a new party asks for at least one place: its schema refuses fewer.
abbrev HasRoom : Call → Type 0
HasRoom (create id user now dto) = 1 ≤ dto.max_members
HasRoom _ = Unit

module _ (T : Tables) where
  invite_one-Sound :
      (s : Store T) (id inviter party invitee : ℕ)
      → Sound T s
      → Sound T (invite_one T id inviter party invitee s).1
  unfolding invite_one
  invite_one-Sound s id inviter party invitee h =
      elim (Option-cases (T.invite.find_unique (party, invitee) s.invites)) [
        | inl fresh ↦ elim (Bool-cases (invitee == inviter)) [
          | inl self ↦ ground (arith, h)
          | inr other ↦ ground (arith, h)
        ]
        | inr (i, found) ↦ ground (arith, h)
      ]

  invite_each-Sound :
      (s : Store T) (id inviter party : ℕ) (is : List ℕ) (n : InviteCount)
      → Sound T s
      → Sound T (invite_each T id inviter party is n s).1
  unfolding invite_each
  invite_each-Sound s id inviter party [] n h = h
  invite_each-Sound s id inviter party (i ∷ is) n h =
      keeps_bind (Sound T) (invite_one T id inviter party i)
        (λ made. invite_each T (id + 1) inviter party is (
          if made
          then record n { created = n.created + 1 }
          else record n { skipped = n.skipped + 1 }))
        s (invite_one-Sound s id inviter party i h)
        (λ made s' e. invite_each-Sound s' (id + 1) inviter party is (
          if made
          then record n { created = n.created + 1 }
          else record n { skipped = n.skipped + 1 }))

  invite_all-Sound :
      (s : Store T) (id inviter party : ℕ) (is : List ℕ)
      → Sound T s
      → Sound T (invite_all T id inviter party is s).1
  unfolding invite_all
  invite_all-Sound s id inviter party is h =
      ground
        (arith, h, invite_each-Sound s id inviter party is (record { created = 0; skipped = 0 }) h)

  respond_invite-Sound :
      (s : Store T) (user asked now : ℕ) (accept : Bool)
      → Sound T s
      → Sound T (respond_invite T user asked now accept s).1
  unfolding respond_invite
  respond_invite-Sound s user asked now accept h =
      elim (Option-cases (head? (T.invite.find_many (λ k i. i.id == asked) s.invites))) [
        | inl gone ↦ ground (arith, h)
        | inr (((p, u), i), found) ↦ elim (Bool-cases accept) [
          | inl agreed ↦ ground (arith, h, join_party-Sound T s h user p now)
          | inr refused ↦ ground (arith, h)
        ]
      ]

  record_signal-Sound :
      (s : Store T) (party sender : ℕ) (kind : Signal)
      → Sound T s
      → Sound T (record_signal T party sender kind s).1
  unfolding record_signal count_signal send_signal
  record_signal-Sound s party sender kind h = ground (arith, h)

  unfoldable pub step : Store T → Call → Store T
  step s (create id user now dto) = (create_party T id user now dto s).1
  step s (join user party now) = (join_party T user party now s).1
  step s (leave user party now reason) = (leave_party T user party now reason s).1
  step s (close party now reason) = (end_party T party now reason s).1
  step s (invite id user party invitees) = (invite_all T id user party invitees s).1
  step s (respond user asked now accept) = (respond_invite T user asked now accept s).1
  step s (signal party user kind) = (record_signal T party user kind s).1
  step s (lose user party now) = (mark_offline T user party now s).1
  step s (find user party now) = (clear_offline_mark T user party s).1
  step s (sweep now) = (sweep_zombie_members T now s).1

  step-Sound : (s : Store T) (c : Call) → HasRoom c → Sound T s → Sound T (step s c)
  unfolding step
  step-Sound s (create id user now dto) room h = create_party-Sound T s h id user now dto room
  step-Sound s (join user party now) room h = join_party-Sound T s h user party now
  step-Sound s (leave user party now reason) room h = leave_party-Sound T s user party now reason h
  step-Sound s (close party now reason) room h = end_party-Sound T s party now reason h
  step-Sound s (invite id user party invitees) room h = invite_all-Sound s id user party invitees h
  step-Sound s (respond user asked now accept) room h =
      respond_invite-Sound s user asked now accept h
  step-Sound s (signal party user kind) room h = record_signal-Sound s party user kind h
  step-Sound s (lose user party now) room h = mark_offline-Sound T s h user party now
  step-Sound s (find user party now) room h = clear_offline_mark-Sound T s h user party
  step-Sound s (sweep now) room h = sweep_zombie_members-Sound T s now h

  -- In every history of the calls of the party service (create, join, leave, end, invite, answer
  -- an invite, signal, lose and find a connection, sweep), from a store where the following holds
  -- and with every request for a new party asking for at least one place, the following holds at
  -- the end: the Redis set of a party has exactly its active members, no party that is neither
  -- ended nor deleted has more active members than its limit, no user is an active member of two
  -- such parties, and every membership row belongs to a party row.
  pub run-Sound :
      (s : Store T) (cs : List Call) → All HasRoom cs → Sound T s → Sound T (run step s cs)
  run-Sound = run_inv_all step (Sound T) HasRoom step-Sound
