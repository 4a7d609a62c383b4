-- ===== src/Vault/Reconcile.antt =====
-- When a row has a next version: the sorted times of its key, and what the UPDATE does to the row.
use data_ops_showcase.Vault.Satellite.{
  some_of, times_of, SatRow, superseding, ended, reconciled, leads, sort, insert_sorted,
}
use data_ops_showcase.Prelude.{
  not, true, ◌+◌, none, inr, ◌==◌, some, inl, refl, ◌||◌, leb→le, [], ltb, false, any,
  if◌then◌else◌, arith, ◌&&◌, leb, Bool-cases, Bool, Option, ◌≡◌, ◌∷◌, ◌≤◌, List, ℕ,
}

abbrev pub times : ℕ → List ℕ → ℕ
times n [] = 0
times n (m ∷ ms) = (if m == n then 1 else 0) + times n ms

abbrev pub is_before : ℕ → List ℕ → Bool
is_before n ms = any (ltb n) ms

times-insert_sorted :
    (n m : ℕ) (ms : List ℕ) → times n (insert_sorted m ms) ≡ (if m == n then 1 else 0) + times n ms
unfolding insert_sorted
times-insert_sorted n m [] = refl
times-insert_sorted n m (k ∷ ms) = ground (arith, times-insert_sorted n m ms)

times-sort : (n : ℕ) (ms : List ℕ) → times n (sort ms) ≡ times n ms
unfolding sort
times-sort n [] = refl
times-sort n (m ∷ ms) = ground (arith, times-insert_sorted n m (sort ms), times-sort n ms)

is_before-insert_sorted :
    (n m : ℕ) (ms : List ℕ) → is_before n (insert_sorted m ms) ≡ (ltb n m || is_before n ms)
unfolding insert_sorted
is_before-insert_sorted n m [] = refl
is_before-insert_sorted n m (k ∷ ms) = ground (arith, is_before-insert_sorted n m ms)

is_before-sort : (n : ℕ) (ms : List ℕ) → is_before n (sort ms) ≡ is_before n ms
unfolding sort
is_before-sort n [] = refl
is_before-sort n (m ∷ ms) =
    ground (arith, is_before-insert_sorted n m (sort ms), is_before-sort n ms)

abbrev HeadFrom : ℕ → List ℕ → Type 0
HeadFrom n [] = Unit
HeadFrom n (m ∷ ms) = n ≤ m

abbrev IsSorted : List ℕ → Type 0
IsSorted [] = Unit
IsSorted (n ∷ ms) = HeadFrom n ms × IsSorted ms

HeadFrom-insert_sorted :
    (n m : ℕ) (ms : List ℕ) → n ≤ m → HeadFrom n ms → HeadFrom n (insert_sorted m ms)
unfolding insert_sorted
HeadFrom-insert_sorted n m [] le h = le
HeadFrom-insert_sorted n m (k ∷ ms) le h = elim (Bool-cases (leb m k)) [
  | inl first ↦ ground (arith, first, le)
  | inr later ↦ ground (arith, later, h)
]

insert_sorted-IsSorted : (m : ℕ) (ms : List ℕ) → IsSorted ms → IsSorted (insert_sorted m ms)
unfolding insert_sorted
insert_sorted-IsSorted m [] h = (tt, tt)
insert_sorted-IsSorted m (k ∷ ms) (low, h) = go (leb m k) refl (insert_sorted-IsSorted m ms h)
  where
    go :
        (b : Bool)
        → leb m k ≡ b
        → IsSorted (insert_sorted m ms)
        → IsSorted (if b then m ∷ k ∷ ms else k ∷ insert_sorted m ms)
    go true e rest = (leb→le m k e, (low, h))
    go false e rest = (HeadFrom-insert_sorted k m ms (ground (arith, e)) low, rest)

sort-IsSorted : (ms : List ℕ) → IsSorted (sort ms)
unfolding sort
sort-IsSorted [] = tt
sort-IsSorted (m ∷ ms) = insert_sorted-IsSorted m (sort ms) (sort-IsSorted ms)

-- A time with a next one among the leads.
abbrev has_lead : ℕ → List (ℕ × Option ℕ) → Bool
has_lead n [] = false
has_lead n ((m, none) ∷ late) = has_lead n late
has_lead n ((m, some k) ∷ late) = m == n || has_lead n late

lead_step :
    (m n count : ℕ) (before lead : Bool)
    → (m == n) ≡ false
    → ltb n m ≡ false
    → lead ≡ (before && leb 1 count || leb 2 count)
    → (m == n || lead) ≡ (
        (ltb n m || before) && leb 1 ((if m == n then 1 else 0) + count)
        || leb 2 ((if m == n then 1 else 0) + count))
lead_step m n count before lead other after e = ground (arith, other, after, e)

lead_step_before :
    (m n count : ℕ) (before lead : Bool)
    → (m == n) ≡ false
    → before ≡ true
    → lead ≡ (before && leb 1 count || leb 2 count)
    → (m == n || lead) ≡ (
        (ltb n m || before) && leb 1 ((if m == n then 1 else 0) + count)
        || leb 2 ((if m == n then 1 else 0) + count))
lead_step_before m n count before lead other h e = ground (arith, other, h, e)

earlier : (n m k : ℕ) (rest : Bool) → m ≤ k → ltb n m ≡ true → (ltb n k || rest) ≡ true
earlier n m k rest low h = ground (arith, low, h)

lead_twice :
    (m k n count : ℕ) (before lead : Bool)
    → (m == n) ≡ true
    → (k == n) ≡ true
    → (m == n || lead) ≡ (
        before && leb 1 ((if m == n then 1 else 0) + ((if k == n then 1 else 0) + count))
        || leb 2 ((if m == n then 1 else 0) + ((if k == n then 1 else 0) + count)))
lead_twice m k n count before lead same again = ground (arith, same, again)

lead_later :
    (m k n count : ℕ) (before lead : Bool)
    → m ≤ k
    → (m == n) ≡ true
    → (k == n) ≡ false
    → (m == n || lead) ≡ (
        (ltb n m || (ltb n k || before))
          && leb 1 ((if m == n then 1 else 0) + ((if k == n then 1 else 0) + count))
        || leb 2 ((if m == n then 1 else 0) + ((if k == n then 1 else 0) + count)))
lead_later m k n count before lead low same later = ground (arith, low, same, later)

has_lead-leads :
    (n : ℕ) (ms : List ℕ)
    → IsSorted ms
    → has_lead n (leads ms) ≡ (is_before n ms && leb 1 (times n ms) || leb 2 (times n ms))
unfolding leads
has_lead-leads n [] h = refl
has_lead-leads n (m ∷ []) h = ground arith
has_lead-leads n (m ∷ k ∷ ms) (low, h) =
    let rest = has_lead-leads n (k ∷ ms) h in
    elim (Bool-cases (m == n)) [
      | inl same ↦ elim (Bool-cases (k == n)) [
        | inl again ↦
            lead_twice m k n (times n ms) (is_before n (m ∷ k ∷ ms)) (has_lead n (leads (k ∷ ms)))
              same again
        | inr later ↦
            lead_later m k n (times n ms) (is_before n ms) (has_lead n (leads (k ∷ ms))) low same
              later
      ]
      | inr other ↦ elim (Bool-cases (ltb n m)) [
        | inl before ↦
            lead_step_before m n (times n (k ∷ ms)) (is_before n (k ∷ ms))
              (has_lead n (leads (k ∷ ms))) other (earlier n m k (is_before n ms) low before) rest
        | inr after ↦
            lead_step m n (times n (k ∷ ms)) (is_before n (k ∷ ms)) (has_lead n (leads (k ∷ ms)))
              other after rest
      ]
    ]

is_empty-superseding :
    {C : Type 0} (s : SatRow C) (late : List (ℕ × Option ℕ))
    → s.is_current ≡ true
    → some_of (superseding s late) ≡ (if has_lead s.effective_from late then 1 else 0)
unfolding superseding
is_empty-superseding s [] h = refl
is_empty-superseding s ((from, none) ∷ late) h = is_empty-superseding s late h
is_empty-superseding s ((from, some n) ∷ late) h = elim (Bool-cases (from == s.effective_from)) [
  | inl same ↦ ground (arith, same, h)
  | inr other ↦ ground (arith, other, is_empty-superseding s late h)
]

module _ {C : Type 0} (pick : ℕ → List ℕ → ℕ) where
  ended-hk : (s : SatRow C) (ns : List ℕ) → (ended pick s ns).hk ≡ s.hk
  unfolding ended
  ended-hk s [] = refl
  ended-hk s (n ∷ ns) = refl

  is_current-ended :
      (s : SatRow C) (ns : List ℕ)
      → (ended pick s ns).is_current ≡ (s.is_current && some_of ns == 0)
  unfolding ended
  is_current-ended s [] = ground arith
  is_current-ended s (n ∷ ns) = ground arith

  pub hk-reconciled : (t : List (SatRow C)) (s : SatRow C) → (reconciled pick t s).hk ≡ s.hk
  unfolding reconciled
  hk-reconciled t s = ended-hk s (superseding s (leads (sort (times_of s.hk t))))

  -- A row stays current just if it was, and no row of its key is later or has the same time.
  pub is_current-reconciled :
      (t : List (SatRow C)) (s : SatRow C)
      → 1 ≤ times s.effective_from (times_of s.hk t)
      → (reconciled pick t s).is_current ≡ (
          s.is_current
          && (not (is_before s.effective_from (times_of s.hk t))
              && not (leb 2 (times s.effective_from (times_of s.hk t)))))
  unfolding reconciled
  is_current-reconciled t s low =
      let ms = times_of s.hk t in
      elim (Bool-cases s.is_current) [
        | inr past ↦
            ground
              (arith, past, is_current-ended s (superseding s (leads (sort (times_of s.hk t)))))
        | inl now ↦ ground (
          arith,
          now,
          low,
          is_current-ended s (superseding s (leads (sort (times_of s.hk t)))),
          is_empty-superseding s (leads (sort ms)) now,
          has_lead-leads s.effective_from (sort ms) (sort-IsSorted ms),
          times-sort s.effective_from ms,
          is_before-sort s.effective_from ms,
        )
      ]
