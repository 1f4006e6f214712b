-- ===== src/Social/Blocks/Laws.antt =====
-- What a block does to the follows, and the peers that are collected for a viewer.
use motogram.Prelude.{
  ap, ◌↔◌, ℕ, ◌≡◌, ◌≢◌, refl, Bool, true, some, is_some, inl, inr, arith, ◌==◌, ==_iff,
  Option-cases, Bool-cases, List, [], ◌∷◌, map, any, In,
}
use motogram.Prelude.Action.{ok, is_ok}
use motogram.Prelude.Queries.{find_first-row_if}
use motogram.Social.Schema.{User, Block, Tables, Store}
use motogram.Social.Follows.{unfollow, is_active_user}
use motogram.Social.Follows.Severed.{IsSevered}
use motogram.Social.Follows.Guards.{IsBlocked, unfollow_done}
use motogram.Social.Blocks.{block_user, peers_blocked_either_way, peer, takes_part}

module _ (T : Tables) (s : Store T) (now a b : ℕ) where
  abbrev once : Store T
  once = (unfollow T a b s).1

  abbrev twice : Store T
  twice = (unfollow T b a once).1

  block_user_store :
      (target : User)
      → a ≢ b
      → T.user.find_unique b s.users ≡ some target
      → is_active_user target ≡ true
      → is_some (T.user.find_unique a s.users) ≡ true
      → (is_ok (block_user T now a b s).0 ≡ true)
        × ((block_user T now a b s).1.follows ≡ twice.follows)
        × (is_some (T.block.find_unique (a, b) (block_user T now a b s).1.blocks) ≡ true)
  unfolding block_user
  block_user_store target differ found active there =
      let first = unfollow_done T s a b there (ground arith) in
      let second =
        unfollow_done T once b a (ground (arith, first.1.users b))
          (ground (arith, first.1.users a)) in
      elim (Option-cases (T.block.find_unique (a, b) twice.blocks)) [
        | inl fresh ↦ ground (
          arith,
          ==_iff a b,
          ==_iff a a,
          ==_iff b b,
          first.0,
          second.0,
          find_first-row_if T.user b is_active_user s.users,
          T.block.find-write (a, b) (a, b) (record { created_at = now }) twice.blocks,
        )
        | inr (row, old) ↦ ground (
          arith,
          ==_iff a b,
          ==_iff a a,
          ==_iff b b,
          first.0,
          second.0,
          find_first-row_if T.user b is_active_user s.users,
          T.block.find-write (a, b) (a, b) row twice.blocks,
        )
      ]

  -- What the block leaves between the two.
  pub block_user_done :
      (target : User)
      → a ≢ b
      → T.user.find_unique b s.users ≡ some target
      → is_active_user target ≡ true
      → is_some (T.user.find_unique a s.users) ≡ true
      → (is_ok (block_user T now a b s).0 ≡ true) × IsSevered T a b (block_user T now a b s).1
  block_user_done target differ found active there =
      let first = unfollow_done T s a b there (ground arith) in
      let second =
        unfollow_done T once b a (ground (arith, first.1.users b))
          (ground (arith, first.1.users a)) in
      let (done, rows, blocked) = block_user_store target differ found active there in
      (
        done,
        (
          blocked,
          ground (arith, rows, first.1.rows (a, b), second.1.rows (a, b), ==_iff a a, ==_iff b b),
          ground (arith, rows, second.1.rows (b, a), ==_iff a a, ==_iff b b),
        ),
      )

-- `x` is among the numbers of the list.
abbrev pub has : ℕ → List ℕ → Bool
has x l = any (λ y. y == x) l

module _ (T : Tables) (s : Store T) (viewer : ℕ) where
  has-map-peer :
      (x : ℕ) (l : List ((ℕ × ℕ) × Block)) (k : ℕ × ℕ) (b : Block)
      → In (k, b) l
      → peer viewer (k, b) ≡ x
      → has x (map (peer viewer) l) ≡ true
  has-map-peer x [] k b m e = absurd m
  has-map-peer x ((j, c) ∷ l) k b m e = ground (arith, ==_iff x x, has-map-peer x l k b)

  In-of_has :
      (x : ℕ) (l : List ((ℕ × ℕ) × Block))
      → has x (map (peer viewer) l) ≡ true
      → (k : ℕ × ℕ) × (b : Block) × In (k, b) l × (peer viewer (k, b) ≡ x)
  In-of_has x [] e = absurd (cc)
  In-of_has x ((j, c) ∷ l) e = elim (Bool-cases (peer viewer (j, c) == x)) [
    | inl same ↦ (j, c, inl refl, ground arith)
    | inr other ↦ let (k, b, m, p) = In-of_has x l (ground arith) in (k, b, inr m, p)
  ]

  -- The set that `peersBlockedEitherWay` returns.
  abbrev pub peers : List ℕ
  peers = map (peer viewer) (T.block.find_many (takes_part viewer) s.blocks)

  pub peers_blocked_either_way_lem : peers_blocked_either_way T viewer s ≡ (ok peers, s)
  unfolding peers_blocked_either_way
  peers_blocked_either_way_lem = refl

  abbrev rows : List ((ℕ × ℕ) × Block)
  rows = T.block.find_many (takes_part viewer) s.blocks

  sound :
      (x : ℕ)
      → x ≢ viewer
      → (k : ℕ × ℕ) (b : Block) → peer viewer (k, b) ≡ x
      → (T.block.find_unique k s.blocks ≡ some b) × (takes_part viewer k b ≡ true)
      → IsBlocked T s viewer x
  sound x differ (i, j) b p (found, part) = elim (Bool-cases (i == viewer)) [
    | inl same ↦ inl (ground (arith, ap is_some found))
    | inr other ↦ inr (ground (arith, ap is_some found))
  ]

  complete : (x : ℕ) → x ≢ viewer → IsBlocked T s viewer x → has x peers ≡ true
  complete x differ (inl there) = elim (Option-cases (T.block.find_unique (viewer, x) s.blocks)) [
    | inl gone ↦ ground arith
    | inr (b, e) ↦
        has-map-peer x rows (viewer, x) b
          (T.block.find_many_complete (takes_part viewer) (viewer, x) b s.blocks e
            (ground (arith, ==_iff viewer viewer)))
          (ground (arith, ==_iff viewer viewer))
  ]
  complete x differ (inr there) = elim (Option-cases (T.block.find_unique (x, viewer) s.blocks)) [
    | inl gone ↦ ground arith
    | inr (b, e) ↦
        has-map-peer x rows (x, viewer) b
          (T.block.find_many_complete (takes_part viewer) (x, viewer) b s.blocks e
            (ground (arith, ==_iff viewer viewer)))
          (ground arith)
  ]

  pub has-peers_iff : (x : ℕ) → (x ≢ viewer) → (has x peers ≡ true) ↔ IsBlocked T s viewer x
  has-peers_iff x differ = (
    (λ h.
        let (k, b, m, p) = In-of_has x rows h in
        sound x differ k b p (T.block.find_many_sound (takes_part viewer) k b s.blocks m)),
    λ h. complete x differ h,
  )

  -- peersBlockedEitherWay returns a list and changes nothing, and apart from the viewer the list
  -- has exactly the users that block the viewer or are blocked by the viewer.
  pub peers_blocked_either_way_iff :
      (l : List ℕ) × (peers_blocked_either_way T viewer s ≡ (ok l, s))
      × ((x : ℕ) → x ≢ viewer → (has x l ≡ true) ↔ IsBlocked T s viewer x)
  peers_blocked_either_way_iff = (peers, peers_blocked_either_way_lem, has-peers_iff)
