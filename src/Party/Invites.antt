-- ===== src/Party/Invites.antt =====
-- Inviting to a party and answering: `invite` and `respondInvite` in
-- apps/api/src/modules/party/party.service.ts. The identifiers of new invites are generated by the
-- database: the next one is an argument.
use motogram.Prelude.{
  ℕ, ◌+◌, Bool, true, false, Option, none, some, is_some, not, any, ◌||◌, ◌==◌, List, [], ◌∷◌,
  if◌then◌else◌,
}
use motogram.Prelude.Action.{
  bad_request, forbidden, not_found, Action, pure, raise_if, or_raise, do_if, ◌>>=◌, ◌>>◌,
  find_unique, find_first, create, update,
}
use motogram.Party.Schema.{
  pending, declined, Party, Invite, Tables, Store, party, invite, notify, invited,
}
use motogram.Party.Members.{is_ended, is_pending, join_party}

-- `{ created, skipped }`
pub record InviteCount : Type 0 where
  pub created : ℕ
  pub skipped : ℕ

-- `{ joined, partyId }`
pub record RespondResult : Type 0 where
  pub joined : Bool
  pub party_id : Option ℕ

abbrev may_invite : Party → ℕ → Bool
may_invite p inviter_id = p.leader_id == inviter_id || any (λ c. c == inviter_id) p.co_leader_ids

abbrev new_invite : (id inviter_id : ℕ) → Invite
new_invite id inviter_id = record {
  id = id;
  inviter_id = inviter_id;
  status = pending;
  responded_at = none;
}

module _ (T : Tables) where
  -- One round of the loop: whether an invite was created.
  unfoldable pub invite_one : (id inviter_id party_id invitee_id : ℕ) → Action (Store T) Bool
  invite_one id inviter_id party_id invitee_id = do
    existing ← find_unique (invite T) (party_id, invitee_id)
    let skip = invitee_id == inviter_id || is_some existing
    do_if (not skip) (do
      create (invite T) (party_id, invitee_id) (new_invite id inviter_id)
      notify T (invited party_id invitee_id inviter_id))
    pure (not skip)

  unfoldable pub invite_each :
      (id inviter_id party_id : ℕ) → List ℕ → InviteCount → Action (Store T) InviteCount
  invite_each id inviter_id party_id [] n = pure n
  invite_each id inviter_id party_id (i ∷ is) n = do
    made ← invite_one id inviter_id party_id i
    invite_each (id + 1) inviter_id party_id is (
        if made then record n { created = n.created + 1 } else record n { skipped = n.skipped + 1 })

  unfoldable pub invite_all : (id inviter_id party_id : ℕ) → List ℕ → Action (Store T) InviteCount
  invite_all id inviter_id party_id invitee_ids = do
    found ← find_unique (party T) party_id
    p ← or_raise found (not_found "party_not_found")
    raise_if (is_some p.deleted_at) (not_found "party_not_found")
    raise_if (is_ended p.status) (bad_request "party_ended")
    raise_if (not (may_invite p inviter_id)) (forbidden "not_leader")
    invite_each id inviter_id party_id invitee_ids (record { created = 0; skipped = 0 })

  abbrev pub answer : (user_id now : ℕ) → Bool → (ℕ × ℕ) × Invite → Action (Store T) RespondResult
  answer user_id now false (k, i) = do
    update (invite T) k (λ i. record i { status = declined; responded_at = some now })
    pure (record { joined = false; party_id = none })
  answer user_id now true (k, i) = do
    join_party T user_id k.0 now
    pure (record { joined = true; party_id = some k.0 })

  unfoldable pub respond_invite :
      (user_id invite_id now : ℕ) → Bool → Action (Store T) RespondResult
  respond_invite user_id invite_id now accept = do
    found ← find_first (invite T) (λ k i. i.id == invite_id)
    r ← or_raise found (not_found "invite_not_found")
    raise_if (not (r.0.1 == user_id)) (not_found "invite_not_found")
    raise_if (not (is_pending r.1.status)) (bad_request "invite_resolved")
    answer user_id now accept r
