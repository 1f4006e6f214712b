-- ===== src/Social/Follows/Severed.antt =====
-- Follows and unfollows while one of two users has blocked the other.
use mathlib.Core.Path.{subst⁻¹}
use motogram.Prelude.{
  ℕ, ◌≡◌, Bool, true, false, none, is_some, head?, ◌==◌, inl, inr, arith, pair_eq, pair_eq_iff,
  Bool-cases, Option-cases, if◌then◌else◌, ◌&&◌,
}
use motogram.Prelude.Int.{ℤ}
use motogram.Prelude.Action.{
  ⊤, Action, Result, ok, err, do_if, transaction, pure, ◌>>◌, upsert, update, delete,
}
use motogram.Prelude.Keeps.{keeps_bind}
use motogram.Social.Schema.{
  User, FollowStatus, pending, accepted, Follow, Tables, Store, user, follow_row, emit,
  follow_gained,
}
use motogram.Social.Follows.{
  is_accepted, is_active_user, is_between, add_followers, add_following, increment, decrement,
  change_counts, follow_body, follow, unfollow,
}
use motogram.Social.Follows.Guards.{follow_blocked}

module _ (T : Tables) (a b : ℕ) where
  -- `a` has blocked `b`, and neither follows the other.
  abbrev pub IsSevered : Store T → Type 0
  IsSevered s =
      (is_some (T.block.find_unique (a, b) s.blocks) ≡ true)
      × (T.follow.find_unique (a, b) s.follows ≡ none)
      × (T.follow.find_unique (b, a) s.follows ≡ none)

  update-IsSevered :
      (id : ℕ) (f : User → User) (s : Store T) → IsSevered s → IsSevered (update (user T) id f s).1
  update-IsSevered id f s h = elim (Option-cases (T.user.find_unique id s.users)) [
    | inl gone ↦ rw gone h
    | inr (u, found) ↦ rw found h
  ]

  change_counts-IsSevered :
      (change : ℤ → ℤ) (x y : ℕ) (s : Store T)
      → IsSevered s
      → IsSevered (change_counts T change x y s).1
  unfolding change_counts
  change_counts-IsSevered change x y s h =
      keeps_bind IsSevered (update (user T) y (add_followers change))
        (λ _. update (user T) x (add_following change) >> pure tt) s
        (update-IsSevered y (add_followers change) s h)
        (λ v t e k.
          keeps_bind IsSevered (update (user T) x (add_following change)) (λ _. pure tt) t
            (update-IsSevered x (add_following change) t k) (λ u t' e' k'. k'))

  transaction-IsSevered :
      (m : Action (Store T) ⊤) (s : Store T)
      → IsSevered s
      → IsSevered (m s).1
      → IsSevered (transaction m s).1
  transaction-IsSevered m s h h' = ended (m s) h'
    where
      ended :
          (x : Result ⊤ × Store T)
          → IsSevered x.1
          → IsSevered
              (let (r, s') = x in
                elim r as (λ _. Result ⊤ × Store T) [ ok a ↦ (ok a, s') | err e ↦ (err e, s) ]).1
      ended (ok a, t) k = k
      ended (err e, t) k = h

  -- The pair is none of the two that the block is about.
  abbrev IsOther : (x y : ℕ) → Type 0
  IsOther x y = (pair_eq (x, y) (a, b) ≡ false) × (pair_eq (x, y) (b, a) ≡ false)

  write-IsSevered :
      (x y : ℕ) (f : Follow) (s : Store T)
      → IsOther x y
      → IsSevered s
      → IsSevered (record s { follows = T.follow.write (x, y) f s.follows })
  write-IsSevered x y f s other h = (
    h.0,
    ground (arith, other, h, T.follow.find-write (a, b) (x, y) f s.follows),
    ground (arith, other, h, T.follow.find-write (b, a) (x, y) f s.follows),
  )

  counted :
      (c : Bool) (change : ℤ → ℤ) (x y : ℕ) (s : Store T)
      → IsSevered s
      → IsSevered (do_if c (change_counts T change x y) s).1
  counted true change x y s h = change_counts-IsSevered change x y s h
  counted false change x y s h = h

  delete-IsSevered :
      (x y : ℕ) (s : Store T)
      → IsSevered s
      → IsSevered (record s { follows = T.follow.delete (x, y) s.follows })
  delete-IsSevered x y s h = (
    h.0,
    ground (arith, h, T.follow.find-delete (a, b) (x, y) s.follows),
    ground (arith, h, T.follow.find-delete (b, a) (x, y) s.follows),
  )

  follow_body-IsSevered :
      (status : FollowStatus) (x y : ℕ) (s : Store T)
      → IsOther x y
      → IsSevered s
      → IsSevered (follow_body T status x y s).1
  unfolding follow_body
  follow_body-IsSevered status x y s other h =
      let row : Follow = record { status = status } in
      transaction-IsSevered
        (upsert (follow_row T) (x, y) row (λ f. record f { status = status })
          >> do_if (is_accepted status) (change_counts T increment x y))
        s h
        (keeps_bind IsSevered (upsert (follow_row T) (x, y) row (λ f. record f { status = status }))
          (λ _. do_if (is_accepted status) (change_counts T increment x y)) s
          (elim (Option-cases (T.follow.find_unique (x, y) s.follows)) [
            | inl new ↦ rw new (write-IsSevered x y row s other h)
            | inr (f, old) ↦ rw old (write-IsSevered x y (record f { status = status }) s other h)
          ])
          (λ f t e k. counted (is_accepted status) increment x y t k))

  pub unfollow-IsSevered : (x y : ℕ) (s : Store T) → IsSevered s → IsSevered (unfollow T x y s).1
  unfolding unfollow
  unfollow-IsSevered x y s h = elim (Option-cases (T.follow.find_unique (x, y) s.follows)) [
    | inl gone ↦ rw gone h
    | inr (f, found) ↦ rw found (
        transaction-IsSevered
          (delete (follow_row T) (x, y)
            >> do_if (is_accepted f.status) (change_counts T decrement x y))
          s h
          (keeps_bind IsSevered (delete (follow_row T) (x, y))
            (λ _. do_if (is_accepted f.status) (change_counts T decrement x y)) s
            (rw found (delete-IsSevered x y s h))
            (λ r t e k. counted (is_accepted f.status) decrement x y t k)))
  ]

  told :
      (c : Bool) (status : FollowStatus) (x y : ℕ) (s : Store T)
      → IsSevered s
      → IsSevered ((do_if c (emit T (follow_gained y x)) >> pure status) s).1
  told true status x y s h = h
  told false status x y s h = h

  follow_other-IsSevered :
      (x y : ℕ) (s : Store T) → IsOther x y → IsSevered s → IsSevered (follow T x y s).1
  unfolding follow
  follow_other-IsSevered x y s other h = elim (Bool-cases (x == y)) [
    | inl self ↦ rw self h
    | inr differ ↦
        rw differ
          (elim (Option-cases
            (head? (T.user.find_many (λ id u. id == y && is_active_user u) s.users))) [
              | inl gone ↦ rw gone (rw gone h)
              | inr (target, found) ↦ rw found (
                  rw found
                    (elim (Option-cases (head? (T.block.find_many (is_between x y) s.blocks))) [
                      | inr (r, blocked) ↦ rw blocked (rw found h)
                      | inl free ↦ rw free (
                          rw found (
                            let status = if target.1.is_private then pending else accepted in
                            keeps_bind IsSevered (follow_body T status x y)
                              (λ _.
                                do_if (is_accepted status) (emit T (follow_gained y x))
                                >> pure status)
                              s (follow_body-IsSevered status x y s other h)
                              (λ r t e k. told (is_accepted status) status x y t k)))
                    ]))
            ])
  ]

  pub follow-IsSevered : (x y : ℕ) (s : Store T) → IsSevered s → IsSevered (follow T x y s).1
  follow-IsSevered x y s h = elim (Bool-cases (pair_eq (x, y) (a, b))) [
    | inl same ↦
        subst⁻¹ IsSevered
          (follow_blocked T s x y (
            inl (
              subst⁻¹ (λ k. is_some (T.block.find_unique k s.blocks) ≡ true)
                ((pair_eq_iff (x, y) (a, b)).0 same) h.0))).1
          h
    | inr first ↦ elim (Bool-cases (pair_eq (x, y) (b, a))) [
      | inl same ↦
          subst⁻¹ IsSevered
            (follow_blocked T s x y (
              inr (
                subst⁻¹ (λ k. is_some (T.block.find_unique (k.1, k.0) s.blocks) ≡ true)
                  ((pair_eq_iff (x, y) (b, a)).0 same) h.0))).1
            h
      | inr second ↦ follow_other-IsSevered x y s (first, second) h
    ]
  ]
