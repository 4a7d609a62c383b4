-- ===== src/Vault/Current.antt =====
-- A load of one row of the inbox: the versions of its key before and after it.
use data_ops_showcase.Vault.{HubRow}
use data_ops_showcase.Storage.{has_key}
use data_ops_showcase.Vault.Reconcile.{is_current-reconciled, is_before, times}
use data_ops_showcase.Vault.Satellite.{
  sort, leads, superseding, reconcile, reconciled, version_key, new_row, candidates, load_satellite,
  is_version_of, sat_key, SatRow, ended, close_rows, closing, times_of, Inbox,
}
use data_ops_showcase.Storage.Insert.{statement-do_nothing, add_missing}
use data_ops_showcase.Prelude.{
  map-append, sym, map, subst, any-append, str_eq_iff, ◌==◌, ok, ltb, inl, inr, Bool-cases, refl,
  ◌||◌, [], ◌&&◌, false, arith, str_eq, any, true, ◌∷◌, ◌+◌, not, Bool, ◌++◌, ◌≡◌, all, String,
  List, ℕ,
}

pub times-append : (n : ℕ) (ms ns : List ℕ) → times n (ms ++ ns) ≡ times n ms + times n ns
times-append n [] ns = omega arith
times-append n (m ∷ ms) ns = omega (arith, times-append n ms ns)

module _ {C : Type 0} where
  pub times_of-append :
      (hk : String) (t u : List (SatRow C)) → times_of hk (t ++ u) ≡ times_of hk t ++ times_of hk u
  unfolding times_of
  times_of-append hk [] u = refl
  times_of-append hk (s ∷ t) u = ground (arith, times_of-append hk t u)

  pub add_missing_one :
      (r : SatRow C) (t : List (SatRow C))
      → has_key sat_key (sat_key r) t ≡ false
      → add_missing sat_key (r ∷ []) t ≡ t ++ r ∷ []
  unfolding add_missing
  add_missing_one r t fresh = ground (arith, fresh)

  -- A row of another key, or of an earlier time than that of the inbox.
  abbrev pub is_earlier : Inbox C → SatRow C → Bool
  is_earlier i s = not (str_eq s.hk i.hk) || ltb s.effective_from i.effective_from

  abbrev pub is_unchanged : Inbox C → SatRow C → Bool
  is_unchanged i s = is_version_of i s && str_eq s.hash_diff i.hash_diff

  -- A current version with the hash of the inbox, from the load at `now`.
  abbrev pub is_loaded : Inbox C → ℕ → SatRow C → Bool
  is_loaded i now s = is_unchanged i s && s.load_dts == now

  module _ (pick : ℕ → List ℕ → ℕ) (i : Inbox C) where
    ended-closing :
        (s : SatRow C)
        → is_earlier i s ≡ true
        → is_unchanged i s ≡ false
        → is_version_of i (ended pick s (closing s (i ∷ []))) ≡ false
    unfolding closing ended
    ended-closing s early new = elim (Bool-cases (str_eq s.hk i.hk)) [
      | inr other ↦ ground (arith, other)
      | inl same ↦ elim (Bool-cases s.is_current) [
        | inr past ↦ ground (arith, same, past)
        | inl now ↦ ground (arith, early, new, same, now)
      ]
    ]

    none_left :
        (t : List (SatRow C))
        → all (is_earlier i) t ≡ true
        → any (is_unchanged i) t ≡ false
        → any (is_version_of i) (close_rows pick (i ∷ []) t) ≡ false
    unfolding close_rows
    none_left [] early new = refl
    none_left (s ∷ t) early new = ground (
      arith,
      ended-closing s (ground (arith, early)) (ground (arith, new)),
      none_left t (ground (arith, early)) (ground (arith, new)),
    )

    ended_times :
        (s : SatRow C) (ns : List ℕ)
        → ((ended pick s ns).hk ≡ s.hk)
          × ((ended pick s ns).effective_from ≡ s.effective_from)
          × ((ended pick s ns).load_dts ≡ s.load_dts)
    unfolding ended
    ended_times s [] = (refl, refl, refl)
    ended_times s (n ∷ ns) = (refl, refl, refl)

    times_of-close_rows :
        (hk : String) (inbox : List (Inbox C)) (t : List (SatRow C))
        → times_of hk (close_rows pick inbox t) ≡ times_of hk t
    unfolding times_of close_rows
    times_of-close_rows hk inbox [] = refl
    times_of-close_rows hk inbox (s ∷ t) =
        let (a, b, c) = ended_times s (closing s inbox) in
        ground (arith, a, b, times_of-close_rows hk inbox t)

    has_key-close_rows :
        (k : String × ℕ) (inbox : List (Inbox C)) (t : List (SatRow C))
        → has_key sat_key k (close_rows pick inbox t) ≡ has_key sat_key k t
    unfolding close_rows
    has_key-close_rows k inbox [] = refl
    has_key-close_rows k inbox (s ∷ t) =
        let (a, b, c) = ended_times s (closing s inbox) in
        ground (arith, a, c, has_key-close_rows k inbox t)

    early_times :
        (t : List (SatRow C))
        → all (is_earlier i) t ≡ true
        → (is_before i.effective_from (times_of i.hk t) ≡ false)
          × (times i.effective_from (times_of i.hk t) ≡ 0)
    unfolding times_of
    early_times [] h = (refl, refl)
    early_times (s ∷ t) h =
        let (a, b) = early_times t (ground (arith, h)) in
        elim (Bool-cases (str_eq s.hk i.hk)) [
          | inl same ↦ (ground (arith, h, same, a), ground (arith, h, same, b))
          | inr other ↦ (ground (arith, other, a), ground (arith, other, b))
        ]

    module _ (source : String) (now : ℕ) (hub : List HubRow) (t : List (SatRow C))
        (early : all (is_earlier i) t ≡ true) (new : any (is_unchanged i) t ≡ false)
        (fresh : has_key sat_key (i.hk, now) t ≡ false) where
      loaded_rows :
          (n : ℕ) (t' : List (SatRow C))
          → load_satellite pick source now (i ∷ []) hub t ≡ ok (n, t')
          → t' ≡ close_rows pick (i ∷ []) t ++ new_row source now i ∷ []
      unfolding load_satellite candidates new_row
      loaded_rows n t' h = ground (
        arith,
        h,
        none_left t early new,
        statement-do_nothing sat_key [] (new_row source now i ∷ []) (close_rows pick (i ∷ []) t),
        add_missing_one (new_row source now i) (close_rows pick (i ∷ []) t),
        has_key-close_rows (i.hk, now) (i ∷ []) t,
        fresh,
      )

      new_row_stays :
          (reconciled pick
            (close_rows pick (i ∷ []) t ++ new_row source now i ∷ [])
            (new_row source now i)).is_current
          ≡ true
      new_row_stays =
          let r = new_row source now i in
          let u = close_rows pick (i ∷ []) t in
          let (a, b) = early_times t early in
          ground (
            arith,
            a,
            b,
            new_times,
            is_current-reconciled pick (u ++ r ∷ []) r,
            times_of-append i.hk u (r ∷ []),
            times_of-close_rows i.hk (i ∷ []) t,
            times-append i.effective_from (times_of i.hk t) (i.effective_from ∷ []),
            any-append (ltb i.effective_from) (times_of i.hk t) (i.effective_from ∷ []),
          )
        where
          new_times :
              (times_of i.hk (new_row source now i ∷ []) ≡ i.effective_from ∷ [])
              × ((new_row source now i).hk ≡ i.hk)
              × ((new_row source now i).effective_from ≡ i.effective_from)
              × ((new_row source now i).is_current ≡ true)
          new_times =
              unfold times_of new_row in
              (ground (arith, (str_eq_iff i.hk i.hk).1 refl), refl, refl, refl)

      kept : (s : SatRow C) (ns : List ℕ) → ((ended pick s ns).hash_diff ≡ s.hash_diff)
      unfolding ended
      kept s [] = refl
      kept s (n ∷ ns) = refl

      is_loaded-new_row :
          is_loaded i now (
            reconciled pick
              (close_rows pick (i ∷ []) t ++ new_row source now i ∷ [])
              (new_row source now i))
          ≡ true
      unfolding reconciled new_row
      is_loaded-new_row =
          let r = new_row source now i in
          let u = close_rows pick (i ∷ []) t ++ r ∷ [] in
          let ns = superseding r (leads (sort (times_of r.hk u))) in
          let (a, b, c) = ended_times r ns in
          ground (
            arith,
            a,
            c,
            kept r ns,
            new_row_stays,
            (str_eq_iff i.hk i.hk).1 refl,
            (str_eq_iff i.hash_diff i.hash_diff).1 refl,
          )

      -- Where every version of the key is earlier than the row of the inbox, no current one has its
      -- hash, and the key has no version from this time: after a load that succeeds, and the
      -- reconciliation, the key has a current version from this load, with the hash of the inbox.
      pub load_satellite-current :
          (n : ℕ) (t' : List (SatRow C))
          → load_satellite pick source now (i ∷ []) hub t ≡ ok (n, t')
          → any (is_loaded i now) (reconcile pick t') ≡ true
      unfolding reconcile
      load_satellite-current n t' h =
          let r = new_row source now i in
          let u = close_rows pick (i ∷ []) t in
          subst (λ x. any (is_loaded i now) (map (reconciled pick x) x) ≡ true) {x = u ++ r ∷ []}
            {y = t'} (sym (loaded_rows n t' h))
            (ground (
              arith,
              is_loaded-new_row,
              map-append (reconciled pick (u ++ r ∷ [])) u (r ∷ []),
              any-append (is_loaded i now) (map (reconciled pick (u ++ r ∷ [])) u)
                  (map (reconciled pick (u ++ r ∷ [])) (r ∷ [])),
            ))
