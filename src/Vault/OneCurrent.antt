-- ===== src/Vault/OneCurrent.antt =====
-- The current rows of a satellite after the reconciliation of late arrivals.
use data_ops_showcase.Quality.Meaning.{NoRepeat}
use data_ops_showcase.Vault.Reconcile.{hk-reconciled, is_current-reconciled, is_before, times}
use data_ops_showcase.Vault.Satellite.{reconcile, reconciled, times_of, SatRow}
use data_ops_showcase.Prelude.{
  map, ◌∙◌, any, refl, ltb→lt, ltb, inr, inl, ◌==◌, sym, Bool-cases, arith, str_eq_iff, false, true,
  ◌≡◌, [], str_eq, if◌then◌else◌, ◌∷◌, Bool, ◌≤◌, ◌<◌, String, List, ℕ,
}

is_before_of_times : (n m : ℕ) (ms : List ℕ) → n < m → 1 ≤ times m ms → is_before n ms ≡ true
is_before_of_times n m [] lt h = absurd (omega (arith, h))
is_before_of_times n m (k ∷ ms) lt h = elim (Bool-cases (k == m)) [
  | inl here ↦ ground (arith, lt, here)
  | inr there ↦ ground (arith, there, is_before_of_times n m ms lt (ground (arith, h, there)))
]

module _ {C : Type 0} where
  unfoldable pub current_rows : List (SatRow C) → List (SatRow C)
  current_rows [] = []
  current_rows (s ∷ t) = let rest = current_rows t in if s.is_current then s ∷ rest else rest

  abbrev pub same_hk : SatRow C → SatRow C → Bool
  same_hk a b = str_eq a.hk b.hk

  -- Every row of the first list is in the second, as often.
  abbrev pub Within : List (SatRow C) → List (SatRow C) → Type 0
  Within v t = (hk : String) (n : ℕ) → times n (times_of hk v) ≤ times n (times_of hk t)

  module _ (pick : ℕ → List ℕ → ℕ) (t : List (SatRow C)) where
    pub superseded_by_later :
        (s : SatRow C) (n : ℕ)
        → s.effective_from < n
        → 1 ≤ times n (times_of s.hk t)
        → 1 ≤ times s.effective_from (times_of s.hk t)
        → (reconciled pick t s).is_current ≡ false
    superseded_by_later s n lt later low = ground (
      arith,
      is_current-reconciled pick t s low,
      is_before_of_times s.effective_from n (times_of s.hk t) lt later,
    )

    pub superseded_by_tie :
        (s : SatRow C)
        → 2 ≤ times s.effective_from (times_of s.hk t)
        → (reconciled pick t s).is_current ≡ false
    superseded_by_tie s twice =
        ground (arith, twice, is_current-reconciled pick t s (omega (arith, twice)))

    not_both :
        (a b : SatRow C)
        → Within (a ∷ b ∷ []) t
        → a.hk ≡ b.hk
        → (reconciled pick t a).is_current ≡ true
        → (reconciled pick t b).is_current ≡ false
    unfolding times_of
    not_both a b w e now =
        let at_a = w a.hk a.effective_from in
        let at_b = w b.hk b.effective_from in
        let a_hk = (str_eq_iff a.hk a.hk).1 refl in
        let b_hk = (str_eq_iff b.hk b.hk).1 refl in
        let ab = (str_eq_iff a.hk b.hk).1 e in
        let ba = (str_eq_iff b.hk a.hk).1 (sym e) in
        elim (Bool-cases (a.effective_from == b.effective_from)) [
          | inl tie ↦ superseded_by_tie b (ground (arith, at_b, b_hk, ab, tie))
          | inr differ ↦ elim (Bool-cases (ltb b.effective_from a.effective_from)) [
            | inl below ↦
                superseded_by_later b a.effective_from
                  (ltb→lt b.effective_from a.effective_from below)
                  (ground (arith, w b.hk a.effective_from, ab)) (ground (arith, at_b, b_hk))
            | inr above ↦
                let lower_a =
                  superseded_by_later a b.effective_from (ground (arith, differ, above))
                    (ground (arith, w a.hk b.effective_from, ba)) (ground (arith, at_a, a_hk)) in
                absurd (ground (arith, now, lower_a))
          ]
        ]

    Within-two :
        (a b : SatRow C) (v : List (SatRow C)) → Within (a ∷ b ∷ v) t → Within (a ∷ b ∷ []) t
    unfolding times_of
    Within-two a b v w hk n =
        let h = w hk n in
        elim (Bool-cases (str_eq a.hk hk)) [
          | inl x ↦ elim (Bool-cases (str_eq b.hk hk)) [
            | inl y ↦ ground (arith, h, x, y)
            | inr y ↦ ground (arith, h, x, y)
          ]
          | inr x ↦ elim (Bool-cases (str_eq b.hk hk)) [
            | inl y ↦ ground (arith, h, x, y)
            | inr y ↦ ground (arith, x, y)
          ]
        ]

    Within-drop : (a b : SatRow C) (v : List (SatRow C)) → Within (a ∷ b ∷ v) t → Within (a ∷ v) t
    unfolding times_of
    Within-drop a b v w hk n =
        let h = w hk n in
        elim (Bool-cases (str_eq a.hk hk)) [
          | inl x ↦ elim (Bool-cases (str_eq b.hk hk)) [
            | inl y ↦ ground (arith, h, x, y)
            | inr y ↦ ground (arith, h, x, y)
          ]
          | inr x ↦ elim (Bool-cases (str_eq b.hk hk)) [
            | inl y ↦ ground (arith, h, x, y)
            | inr y ↦ ground (arith, h, x, y)
          ]
        ]

    Within-tail : (a : SatRow C) (v : List (SatRow C)) → Within (a ∷ v) t → Within v t
    unfolding times_of
    Within-tail a v w hk n =
        let h = w hk n in
        elim (Bool-cases (str_eq a.hk hk)) [
          | inl x ↦ ground (arith, h, x)
          | inr x ↦ ground (arith, h, x)
        ]

    same_hk-reconciled :
        (a b : SatRow C) → same_hk (reconciled pick t a) (reconciled pick t b) ≡ true → a.hk ≡ b.hk
    same_hk-reconciled a b h =
        sym (hk-reconciled pick t a)
        ∙ (str_eq_iff (reconciled pick t a).hk (reconciled pick t b).hk).0 h
        ∙ hk-reconciled pick t b

    no_second :
        (a : SatRow C) (v : List (SatRow C))
        → Within (a ∷ v) t
        → (reconciled pick t a).is_current ≡ true
        → any (same_hk (reconciled pick t a)) (current_rows (map (reconciled pick t) v)) ≡ false
    unfolding current_rows
    no_second a [] w now = refl
    no_second a (b ∷ v) w now =
        let rest = no_second a v (Within-drop a b v w) now in
        elim (Bool-cases (reconciled pick t b).is_current) [
          | inr past ↦ ground (arith, past, rest)
          | inl both ↦ elim (Bool-cases (same_hk (reconciled pick t a) (reconciled pick t b))) [
            | inr apart ↦ ground (arith, both, apart, rest)
            | inl same ↦
                let past = not_both a b (Within-two a b v w) (same_hk-reconciled a b same) now in
                absurd (ground (arith, both, past))
          ]
        ]

    one_current-Within :
        (v : List (SatRow C))
        → Within v t
        → NoRepeat same_hk (current_rows (map (reconciled pick t) v))
    unfolding current_rows
    one_current-Within [] w = tt
    one_current-Within (a ∷ v) w =
        go (reconciled pick t a).is_current refl (one_current-Within v (Within-tail a v w))
      where
        go :
            (b : Bool)
            → (reconciled pick t a).is_current ≡ b
            → NoRepeat same_hk (current_rows (map (reconciled pick t) v))
            → NoRepeat same_hk (
                if b
                then reconciled pick t a ∷ current_rows (map (reconciled pick t) v)
                else current_rows (map (reconciled pick t) v))
        go true e rest = (no_second a v w e, rest)
        go false e rest = rest

  -- After the reconciliation no key has two current rows, whatever the table held.
  pub NoRepeat-reconcile :
      (pick : ℕ → List ℕ → ℕ) (t : List (SatRow C))
      → NoRepeat same_hk (current_rows (reconcile pick t))
  unfolding reconcile
  NoRepeat-reconcile pick t = one_current-Within pick t t (λ hk n. omega arith)
