-- ===== src/Vault/Lost.antt =====
-- A load of a changed row whose effective_from is that of the versions already there.
use data_ops_showcase.Vault.OneCurrent.{superseded_by_tie}
use data_ops_showcase.Vault.{HubRow}
use data_ops_showcase.Vault.Current.{times-append, times_of-append}
use data_ops_showcase.Vault.Reconcile.{hk-reconciled, times}
use data_ops_showcase.Storage.{has_key}
use data_ops_showcase.Storage.Insert.{
  statement-do_nothing, add_missing_of_AllPresent, AllPresent, add_missing,
}
use data_ops_showcase.Vault.Satellite.{
  candidates, reconcile, reconciled, load_satellite, is_version_of, sat_key, new_row, is_changed,
  ended, joined, SatRow, times_of, close_rows, closing, Inbox, version_key,
}
use data_ops_showcase.Prelude.{
  sym, append-nil, subst, ok, map, if◌then◌else◌, inr, str_eq_iff, inl, refl, Bool-cases,
  any-append, arith, [], false, ◌==◌, ◌≤◌, ◌++◌, ◌∷◌, ◌||◌, str_eq, true, ◌≡◌, not, any, all, Bool,
  String, List, ℕ,
}

module _ {C : Type 0} where
  -- A row of another key, or of the time of the inbox.
  abbrev pub is_same_time : Inbox C → SatRow C → Bool
  is_same_time i s = not (str_eq s.hk i.hk) || s.effective_from == i.effective_from

  module _ (pick : ℕ → List ℕ → ℕ) (i : Inbox C) where
    closing_none : (s : SatRow C) → is_same_time i s ≡ true → ended pick s (closing s (i ∷ [])) ≡ s
    unfolding closing ended
    closing_none s h = elim (Bool-cases (str_eq s.hk i.hk)) [
      | inr other ↦ ground (arith, other)
      | inl same ↦ ground (arith, same, h)
    ]

    close_rows_none :
        (t : List (SatRow C)) → all (is_same_time i) t ≡ true → close_rows pick (i ∷ []) t ≡ t
    unfolding close_rows
    close_rows_none [] h = refl
    close_rows_none (s ∷ t) h =
        ground (arith, closing_none s (ground (arith, h)), close_rows_none t (ground (arith, h)))

    version_of_changed :
        (t : List (SatRow C)) → any (is_changed i) t ≡ true → any (is_version_of i) t ≡ true
    version_of_changed [] h = absurd (ground arith)
    version_of_changed (s ∷ t) h = elim (Bool-cases (is_changed i s)) [
      | inl here ↦ ground (arith, here)
      | inr there ↦ ground (arith, version_of_changed t (ground (arith, h, there)))
    ]

    times_of_changed :
        (t : List (SatRow C))
        → all (is_same_time i) t ≡ true
        → any (is_changed i) t ≡ true
        → 1 ≤ times i.effective_from (times_of i.hk t)
    unfolding times_of
    times_of_changed [] h g = absurd (ground arith)
    times_of_changed (s ∷ t) h g = elim (Bool-cases (str_eq s.hk i.hk)) [
      | inl same ↦ ground (arith, h, same)
      | inr other ↦
          ground (arith, other, times_of_changed t (ground (arith, h)) (ground (arith, g, other)))
    ]

    module _ (source : String) (now : ℕ) where
      -- The joined rows are copies of the new row.
      copies-AllPresent :
          (t u : List (SatRow C))
          → AllPresent sat_key (joined source now i t) (u ++ new_row source now i ∷ [])
      unfolding joined
      copies-AllPresent [] u = tt
      copies-AllPresent (s ∷ t) u = go (is_changed i s) (copies-AllPresent t u)
        where
          there :
              has_key sat_key (sat_key (new_row source now i)) (u ++ new_row source now i ∷ [])
              ≡ true
          there = ground (
            arith,
            any-append
                (λ (r : SatRow C). version_key.same (sat_key r) (sat_key (new_row source now i))) u
                (new_row source now i ∷ []),
            (str_eq_iff (new_row source now i).hk (new_row source now i).hk).1 refl,
          )

          go :
              (b : Bool)
              → AllPresent sat_key (joined source now i t) (u ++ new_row source now i ∷ [])
              → AllPresent sat_key
                  (if b
                    then new_row source now i ∷ joined source now i t
                    else joined source now i t)
                  (u ++ new_row source now i ∷ [])
          go true rest = (there, rest)
          go false rest = rest

      add_missing-joined :
          (v t : List (SatRow C))
          → any (is_changed i) v ≡ true
          → has_key sat_key (i.hk, now) t ≡ false
          → add_missing sat_key (joined source now i v) t ≡ t ++ new_row source now i ∷ []
      unfolding joined add_missing new_row
      add_missing-joined [] t h fresh = absurd (ground arith)
      add_missing-joined (s ∷ v) t h fresh = elim (Bool-cases (is_changed i s)) [
        | inl here ↦ ground (
          arith,
          here,
          fresh,
          add_missing_of_AllPresent sat_key (joined source now i v) (t ++ new_row source now i ∷ [])
              (copies-AllPresent v t),
        )
        | inr there ↦ ground (arith, there, add_missing-joined v t (ground (arith, h, there)) fresh)
      ]

      lost_row :
          (u : List (SatRow C)) (s : SatRow C)
          → 2 ≤ times i.effective_from (times_of i.hk u)
          → is_same_time i s ≡ true
          → is_version_of i (reconciled pick u s) ≡ false
      lost_row u s twice h = elim (Bool-cases (str_eq s.hk i.hk)) [
        | inr other ↦ ground (arith, other, hk-reconciled pick u s)
        | inl same ↦
            let e = (str_eq_iff s.hk i.hk).0 same in
            let at : s.effective_from ≡ i.effective_from = ground (arith, h, same) in
            let past = superseded_by_tie pick u s (
              subst (λ x. 2 ≤ times x (times_of s.hk u)) {x = i.effective_from}
                {y = s.effective_from} (sym at)
                (subst (λ x. 2 ≤ times i.effective_from (times_of x u)) {x = i.hk} {y = s.hk}
                  (sym e) twice)) in
            ground (arith, past)
      ]

      lost_rows :
          (u v : List (SatRow C))
          → 2 ≤ times i.effective_from (times_of i.hk u)
          → all (is_same_time i) v ≡ true
          → any (is_version_of i) (map (reconciled pick u) v) ≡ false
      lost_rows u [] twice h = refl
      lost_rows u (s ∷ v) twice h =
          ground
            (arith, lost_row u s twice (ground (arith, h)), lost_rows u v twice (ground (arith, h)))

      all_appended :
          (t : List (SatRow C))
          → all (is_same_time i) t ≡ true
          → all (is_same_time i) (t ++ new_row source now i ∷ []) ≡ true
      unfolding new_row
      all_appended [] h = ground arith
      all_appended (s ∷ t) h = ground (arith, h, all_appended t (ground (arith, h)))

      loaded_changed :
          (hub : List HubRow) (t : List (SatRow C)) (n : ℕ) (t' : List (SatRow C))
          → all (is_same_time i) t ≡ true
          → any (is_changed i) t ≡ true
          → has_key sat_key (i.hk, now) t ≡ false
          → load_satellite pick source now (i ∷ []) hub t ≡ ok (n, t')
          → t' ≡ t ++ new_row source now i ∷ []
      unfolding load_satellite candidates
      loaded_changed hub t n t' same changed fresh h = ground (
        arith,
        h,
        close_rows_none t same,
        version_of_changed t changed,
        append-nil (joined source now i t),
        statement-do_nothing sat_key [] (joined source now i t) t,
        add_missing-joined t t changed fresh,
      )

      two_times :
          (t : List (SatRow C))
          → all (is_same_time i) t ≡ true
          → any (is_changed i) t ≡ true
          → 2 ≤ times i.effective_from (times_of i.hk (t ++ new_row source now i ∷ []))
      two_times t same changed = ground (
        arith,
        times_of_changed t same changed,
        times_of-append i.hk t (new_row source now i ∷ []),
        new_times,
        times-append i.effective_from (times_of i.hk t) (i.effective_from ∷ []),
      )
        where
          new_times : times_of i.hk (new_row source now i ∷ []) ≡ i.effective_from ∷ []
          new_times = unfold times_of new_row in ground (arith, (str_eq_iff i.hk i.hk).1 refl)

      -- Where all versions of the key have the time of the row of the inbox, a current one has another
      -- hash, and no version of the key has the load's own time of loading: after a load of that one row
      -- that succeeds, and the reconciliation, no version of the key is current.
      pub load_satellite-lost :
          (hub : List HubRow) (t : List (SatRow C)) (n : ℕ) (t' : List (SatRow C))
          → all (is_same_time i) t ≡ true
          → any (is_changed i) t ≡ true
          → has_key sat_key (i.hk, now) t ≡ false
          → load_satellite pick source now (i ∷ []) hub t ≡ ok (n, t')
          → any (is_version_of i) (reconcile pick t') ≡ false
      unfolding reconcile
      load_satellite-lost hub t n t' same changed fresh h =
          subst (λ x. any (is_version_of i) (map (reconciled pick x) x) ≡ false)
            {x = t ++ new_row source now i ∷ []} {y = t'}
            (sym (loaded_changed hub t n t' same changed fresh h))
            (lost_rows (t ++ new_row source now i ∷ []) (t ++ new_row source now i ∷ [])
              (two_times t same changed) (all_appended t same))
