-- ===== src/Accounts/Deletion/Phases/Sweep.antt =====
-- The sweep over the accounts whose time is over.
use mathlib.Core.Path.{subst⁻¹}
use motogram.Prelude.{
  ℕ, ◌+◌, ◌≡◌, ◌≤◌, ◌⊎◌, if◌then◌else◌, refl, sym, ap, ◌∙◌, Bool, true, false, Option, none, some,
  is_some, List, [], ◌∷◌, In, length, inl, inr, arith, ◌==◌, ==_iff, Bool-cases, Option-cases,
}
use motogram.Prelude.Pages.{take, take_all, In-take}
use motogram.Prelude.Keeps.{bind_ok}
use motogram.Prelude.Action.{ok}
use motogram.Accounts.Schema.{Primitives, Tables, Store, AccountDeletion}
use motogram.Accounts.Deletion.{is_due, purge, execute_one, execute_each, execute_deletions}
use motogram.Accounts.Deletion.Phases.{
  gone, waiting, Step, stay, purged, phase_of, IsConsistent, IsStep,
}

abbrev pub due_at : ℕ → ℕ → Option AccountDeletion → Bool
due_at now k none = false
due_at now k (some d) = is_due now k d

module _ (P : Primitives) (T : Tables P) where
  abbrev purged_store : ℕ → Store P T → Store P T
  purged_store k s = record s {
    users = T.user.delete k s.users;
    deletions = T.deletion.delete k s.deletions;
    reset_tokens = T.reset_token.delete_many (λ _ t. t.user_id == k) s.reset_tokens;
    email_tokens = T.email_token.delete_many (λ _ t. t.user_id == k) s.email_tokens;
  }

  abbrev swept_one : ℕ → Store P T → Store P T
  swept_one k s = if is_some (T.user.find_unique k s.users) then purged_store k s else s

  execute_one_done :
      (k processed errors : ℕ) (s : Store P T)
      → execute_one P T k processed errors s ≡ (
        ok (
            if is_some (T.user.find_unique k s.users)
            then (processed + 1, errors)
            else (processed, errors + 1)),
        swept_one k s,
      )
  unfolding execute_one purge
  execute_one_done k processed errors s = elim (Option-cases (T.user.find_unique k s.users)) [
    | inl missing ↦ ground arith
    | inr (u, found) ↦ ground arith
  ]

  abbrev swept : List (ℕ × AccountDeletion) → Store P T → Store P T
  swept [] s = s
  swept (r ∷ rs) s = swept rs (swept_one r.0 s)

  execute_each-store :
      (rs : List (ℕ × AccountDeletion)) (processed errors : ℕ) (s : Store P T)
      → (execute_each P T rs processed errors s).1 ≡ swept rs s
  unfolding execute_each
  execute_each-store [] processed errors s = refl
  execute_each-store (r ∷ rs) processed errors s =
      ap (λ x. x.1)
        (bind_ok (execute_one P T r.0 processed errors) (λ n. execute_each P T rs n.0 n.1) s
          (swept_one r.0 s) _ (execute_one_done r.0 processed errors s))
      ∙ execute_each-store rs _ _ (swept_one r.0 s)

  execute_deletions-store :
      (now : ℕ) (s : Store P T)
      → (execute_deletions P T now s).1
        ≡ swept (take 50 (T.deletion.find_many (is_due now) s.deletions)) s
  unfolding execute_deletions
  execute_deletions-store now s = execute_each-store _ 0 0 s

  module _ (now : ℕ) (s : Store P T) where
    -- Every account is as in `s`, or was due there and is gone.
    abbrev IsReaped : Store P T → Type 0
    IsReaped s' =
        (j : ℕ)
        → ((T.user.find_unique j s'.users ≡ T.user.find_unique j s.users)
            × (T.deletion.find_unique j s'.deletions ≡ T.deletion.find_unique j s.deletions))
          ⊎ ((T.user.find_unique j s'.users ≡ none)
              × (T.deletion.find_unique j s'.deletions ≡ none)
              × (due_at now j (T.deletion.find_unique j s.deletions) ≡ true))

    swept_one-IsReaped :
        (k : ℕ) (s' : Store P T)
        → due_at now k (T.deletion.find_unique k s.deletions) ≡ true
        → IsReaped s'
        → IsReaped (swept_one k s')
    swept_one-IsReaped k s' due h j = elim (Bool-cases (is_some (T.user.find_unique k s'.users))) [
      | inl there ↦ rw there (elim (Bool-cases (k == j)) [
        | inl same ↦ inr (
          ground (arith, T.user.find-delete j k s'.users),
          ground (arith, T.deletion.find-delete j k s'.deletions),
          ground (arith, ==_iff k j),
        )
        | inr other ↦
            rw (T.user.find-delete j k s'.users)
              (rw (T.deletion.find-delete j k s'.deletions) (rw other (h j)))
      ])
      | inr missing ↦ rw missing (h j)
    ]

    swept-IsReaped :
        (rs : List (ℕ × AccountDeletion)) (s' : Store P T)
        → ((r : ℕ × AccountDeletion)
            → In r rs
            → due_at now r.0 (T.deletion.find_unique r.0 s.deletions) ≡ true)
        → IsReaped s'
        → IsReaped (swept rs s')
    swept-IsReaped [] s' due h = h
    swept-IsReaped (r ∷ rs) s' due h =
        swept-IsReaped rs (swept_one r.0 s') (λ q m. due q (inr m))
          (swept_one-IsReaped r.0 s' (due r (inl refl)) h)

    listed_due :
        (r : ℕ × AccountDeletion)
        → In r (T.deletion.find_many (is_due now) s.deletions)
        → due_at now r.0 (T.deletion.find_unique r.0 s.deletions) ≡ true
    listed_due r m = ground (arith, T.deletion.find_many_sound (is_due now) r.0 r.1 s.deletions m)

    sweep-IsReaped : IsReaped (execute_deletions P T now s).1
    sweep-IsReaped = rw (execute_deletions-store now s) (
        swept-IsReaped (take 50 (T.deletion.find_many (is_due now) s.deletions)) s
          (λ r m. listed_due r (In-take r 50 _ m)) (λ j. inl (refl, refl)))

    reaped-IsStep : (s' : Store P T) → IsConsistent P T s → IsReaped s' → IsStep P T now s s'
    reaped-IsStep s' h reaped = (
      (
        λ j u found. elim (reaped j) [
          | inl (users, deletions) ↦ rw deletions (h.0 j u (sym users ∙ found))
          | inr (missing, _, _) ↦ absurd (ground arith)
        ],
        λ j d found. elim (reaped j) [
          | inl (users, deletions) ↦ rw users (h.1 j d (sym deletions ∙ found))
          | inr (_, missing, _) ↦ absurd (ground arith)
        ],
      ),
      λ j. elim (reaped j) [
        | inl (users, deletions) ↦ rw users (rw deletions stay)
        | inr (missing, _, due) ↦ elim (Option-cases (T.deletion.find_unique j s.deletions)) [
          | inl none_there ↦ absurd (ground arith)
          | inr (d, there) ↦ elim (Option-cases (T.user.find_unique j s.users)) [
            | inl orphan ↦ absurd (ground (arith, h.1 j d there))
            | inr (u, found) ↦
                let before : phase_of P T s j ≡ waiting d.scheduled_for = ground arith in
                let after : phase_of P T s' j ≡ gone = ground arith in
                subst⁻¹ (λ p. Step now p (phase_of P T s' j)) before
                  (subst⁻¹ (Step now (waiting d.scheduled_for)) after (purged (ground arith)))
          ]
        ]
      ],
    )

    pub sweep-IsStep : IsConsistent P T s → IsStep P T now s (execute_deletions P T now s).1
    sweep-IsStep h = reaped-IsStep (execute_deletions P T now s).1 h sweep-IsReaped

  -- A request that is gone stays gone along a sweep.
  swept-none :
      (rs : List (ℕ × AccountDeletion)) (s : Store P T) (j : ℕ)
      → T.deletion.find_unique j s.deletions ≡ none
      → T.deletion.find_unique j (swept rs s).deletions ≡ none
  swept-none [] s j h = h
  swept-none (r ∷ rs) s j h =
      swept-none rs (swept_one r.0 s) j
        (one (Bool-cases (is_some (T.user.find_unique r.0 s.users))))
    where
      one :
          (is_some (T.user.find_unique r.0 s.users) ≡ true)
            ⊎ (is_some (T.user.find_unique r.0 s.users) ≡ false)
          → T.deletion.find_unique j (swept_one r.0 s).deletions ≡ none
      one (inl there) = ground (arith, T.deletion.find-delete j r.0 s.deletions)
      one (inr missing) = ground arith

  abbrev IsOwned : Store P T → Type 0
  IsOwned s =
      (id : ℕ) (d : AccountDeletion)
      → T.deletion.find_unique id s.deletions ≡ some d
      → is_some (T.user.find_unique id s.users) ≡ true

  swept_one-IsOwned : (k : ℕ) (s : Store P T) → IsOwned s → IsOwned (swept_one k s)
  swept_one-IsOwned k s h id d found = elim (Bool-cases (is_some (T.user.find_unique k s.users))) [
    | inl there ↦
        ground
          (arith, T.deletion.find-delete id k s.deletions, T.user.find-delete id k s.users, h id d)
    | inr missing ↦ ground (arith, h id d)
  ]

  swept-listed :
      (rs : List (ℕ × AccountDeletion)) (s : Store P T) (r : ℕ × AccountDeletion)
      → IsOwned s
      → In r rs
      → T.deletion.find_unique r.0 (swept rs s).deletions ≡ none
  swept-listed [] s r h m = absurd m
  swept-listed (q ∷ rs) s r h (inr m) =
      swept-listed rs (swept_one q.0 s) r (swept_one-IsOwned q.0 s h) m
  swept-listed (q ∷ rs) s r h (inl e) =
      swept-none rs (swept_one q.0 s) r.0
        (one (Option-cases (T.deletion.find_unique q.0 s.deletions)))
    where
      one :
          (T.deletion.find_unique q.0 s.deletions ≡ none)
            ⊎ ((d : AccountDeletion) × (T.deletion.find_unique q.0 s.deletions ≡ some d))
          → T.deletion.find_unique r.0 (swept_one q.0 s).deletions ≡ none
      one (inl fresh) = ground (arith, T.deletion.find-delete q.0 q.0 s.deletions)
      one (inr (d, there)) =
          ground (arith, h q.0 d there, T.deletion.find-delete q.0 q.0 s.deletions, ==_iff q.0 q.0)

  -- If the store is consistent and at most 50 requests are due, then no request is due after one
  -- sweep at that time.
  pub sweep_clears :
      (now : ℕ) (s : Store P T)
      → IsConsistent P T s
      → length (T.deletion.find_many (is_due now) s.deletions) ≤ 50
      → (id : ℕ)
      → due_at now id (T.deletion.find_unique id (execute_deletions P T now s).1.deletions) ≡ false
  sweep_clears now s h few id = elim (sweep-IsReaped now s id) [
    | inr (_, missing, _) ↦ rw missing refl
    | inl (_, same) ↦ elim (Option-cases (T.deletion.find_unique id s.deletions)) [
      | inl fresh ↦ rw same (rw fresh refl)
      | inr (d, there) ↦ elim (Bool-cases (is_due now id d)) [
        | inr later ↦ rw same (rw there later)
        | inl due ↦ rw (execute_deletions-store now s) (
            rw (take_all 50 (T.deletion.find_many (is_due now) s.deletions) few) (
              rw
                (swept-listed (T.deletion.find_many (is_due now) s.deletions) s (id, d) h.1
                  (T.deletion.find_many_complete (is_due now) id d s.deletions there due))
                refl))
      ]
    ]
  ]
