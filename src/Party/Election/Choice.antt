-- ===== src/Party/Election/Choice.antt =====
-- Which member `pickNextLeader` picks, stated without the sort.
use motogram.Prelude.{
  ℕ, ◌≡◌, refl, ap, ◌⊎◌, inl, inr, arith, true, false, Option, none, some, head?, sort,
  insert_sorted, All, In, ◌++◌, List, [], ◌∷◌, Bool-cases,
}
use motogram.Party.Election.{
  Candidate, Reason, picked_co_leader, oldest_member, no_candidates, is_candidate, joined_before,
  first_co_leader, oldest, pick_next_leader,
}

-- `m` is one of the members, and none of them joined before it.
abbrev IsOldest : List Candidate → Candidate → Type 0
IsOldest online m = In m online × All (λ x. joined_before x m ≡ false) online

joined_before-step :
    (x m z : Candidate)
    → joined_before x m ≡ true
    → joined_before z m ≡ false
    → joined_before z x ≡ false
joined_before-step x m z p q = ground arith

All-before :
    (x m : Candidate) (l : List Candidate)
    → joined_before x m ≡ true
    → All (λ z. joined_before z m ≡ false) l
    → All (λ z. joined_before z x ≡ false) l
All-before x m [] p h = tt
All-before x m (z ∷ l) p h = (joined_before-step x m z p h.0, All-before x m l p h.1)

-- The head of a list with one more entry sorted in.
head?-insert_sorted :
    (x m : Candidate) (l : List Candidate)
    → head? l ≡ some m
    → head? (insert_sorted joined_before x l)
      ≡ (elim (joined_before x m) [ true ↦ some x | false ↦ some m ])
head?-insert_sorted x m [] e = cc
head?-insert_sorted x m (y ∷ l) e = ground arith

oldest-IsOldest :
    (m : Candidate) (ms : List Candidate)
    → (o : Candidate) × (oldest (m ∷ ms) ≡ some o) × IsOldest (m ∷ ms) o
oldest-IsOldest m [] = (m, refl, (inl refl, (ground arith, tt)))
oldest-IsOldest m (y ∷ ms) =
    let (o, e, (there, least)) = oldest-IsOldest y ms in
    let front = head?-insert_sorted m o (sort joined_before (y ∷ ms)) e in
    elim (Bool-cases (joined_before m o)) [
      | inl first ↦
          (m, ground arith, (inl refl, (ground arith, All-before m o (y ∷ ms) first least)))
      | inr later ↦ (o, ground arith, (inr there, (later, least)))
    ]

-- `c` is the first of the co-leaders that is online.
abbrev IsFirstCoLeader : List ℕ → List Candidate → ℕ → Type 0
IsFirstCoLeader co_leader_ids online c =
    (before : List ℕ) × (after : List ℕ) × (co_leader_ids ≡ before ++ c ∷ after)
    × (is_candidate online c ≡ true)
    × All (λ x. is_candidate online x ≡ false) before

first_co_leader-cases :
    (online : List Candidate) (co : List ℕ)
    → ((first_co_leader online co ≡ none) × All (λ x. is_candidate online x ≡ false) co)
      ⊎ ((c : ℕ) × (first_co_leader online co ≡ some c) × IsFirstCoLeader co online c)
unfolding first_co_leader
first_co_leader-cases online [] = inl (refl, tt)
first_co_leader-cases online (x ∷ co) = elim (Bool-cases (is_candidate online x)) [
  | inl here ↦ inr (x, rw here, ([], co, refl, here, tt))
  | inr away ↦ elim (first_co_leader-cases online co) [
    | inl (e, all) ↦ inl (rw away e, (away, all))
    | inr (c, e, (before, after, split, on, all)) ↦
        inr (c, rw away e, (x ∷ before, after, ap (◌∷◌ x) split, on, (away, all)))
  ]
]

-- What `pickNextLeader` may answer.
abbrev pub IsPick : List ℕ → List Candidate → Option ℕ × Reason → Type 0
IsPick co online r =
    ((online ≡ []) × (r ≡ (none, no_candidates)))
    ⊎ ((c : ℕ) × (r ≡ (some c, picked_co_leader)) × IsFirstCoLeader co online c)
    ⊎ ((m : Candidate) × (r ≡ (some m.user_id, oldest_member))
        × IsOldest online m
        × All (λ x. is_candidate online x ≡ false) co)

-- The election picks nobody, with reason no_candidates, for no online member; else the first
-- co-leader in the party's order that is online; else an online member that no online member
-- joined before (a tie goes to the smaller identifier), and then no co-leader is online.
pub pick_next_leader-IsPick :
    (co : List ℕ) (online : List Candidate) → IsPick co online (pick_next_leader co online)
unfolding pick_next_leader
pick_next_leader-IsPick co [] = inl (refl, refl)
pick_next_leader-IsPick co (m ∷ ms) = elim (first_co_leader-cases (m ∷ ms) co) [
  | inr (c, e, first) ↦ inr (inl (c, rw e, first))
  | inl (e, all) ↦
      let (o, there, least) = oldest-IsOldest m ms in inr (inr (o, rw (e, there), least, all))
]
