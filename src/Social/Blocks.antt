-- ===== src/Social/Blocks.antt =====
-- apps/api/src/modules/blocks/blocks.service.ts
pub mod Laws
pub mod Severed
use motogram.Prelude.{
  ℕ, Bool, true, false, Option, none, some, is_some, not, ◌&&◌, ◌||◌, ◌==◌, List, [], ◌∷◌, map,
  if◌then◌else◌,
}
use motogram.Prelude.Action.{
  ⊤, bad_request, not_found, Action, pure, raise_if, or_raise, ◌>>=◌, ◌>>◌, find_first, find_many,
  upsert, modify,
}
use motogram.Social.Schema.{Block, Tables, Store, user, block_row}
use motogram.Social.Follows.{is_active_user, unfollow}

-- The other side of each block in which the viewer takes part.
abbrev pub peer : ℕ → (ℕ × ℕ) × Block → ℕ
peer viewer_id r = if r.0.0 == viewer_id then r.0.1 else r.0.0

abbrev pub takes_part : ℕ → ℕ × ℕ → Block → Bool
takes_part viewer_id k _ = k.0 == viewer_id || k.1 == viewer_id

module _ (T : Tables) where
  -- The block made, as the caller sees it: `{ targetId, createdAt }`.
  pub block_user : (now initiator_id target_id : ℕ) → Action (Store T) (ℕ × ℕ)
  block_user now initiator_id target_id = do
    raise_if (initiator_id == target_id) (bad_request "cannot_block_self")
    target ← find_first (user T) (λ id u. id == target_id && is_active_user u)
    or_raise target (not_found "user_not_found")
    unfollow T initiator_id target_id
    unfollow T target_id initiator_id
    row ← upsert (block_row T) (initiator_id, target_id) (record { created_at = now }) (λ b. b)
    pure (target_id, row.created_at)

  -- `deleteMany` on a unique key: no error when there is no row.
  unfoldable pub unblock_user : (initiator_id target_id : ℕ) → Action (Store T) ⊤
  unblock_user initiator_id target_id =
      modify (λ s. record s { blocks = T.block.delete (initiator_id, target_id) s.blocks })

  -- `peersBlockedEitherWay`, the members of the set that it builds.
  pub peers_blocked_either_way : ℕ → Action (Store T) (List ℕ)
  peers_blocked_either_way viewer_id = do
    rows ← find_many (block_row T) (takes_part viewer_id)
    pure (map (peer viewer_id) rows)
