-- ===== src/Storage/Insert.antt =====
-- INSERT with DO NOTHING: rows whose key is there are passed over, the others are added in order.
use data_ops_showcase.Prelude.{
  subst, ap, ◌+◌, ◌∙◌, any-append, true, All, ◌||◌, ◌-◌, flatten, some, length-append, refl, ◌≡◌,
  ◌≤◌, if◌then◌else◌, ◌++◌, length, ◌∷◌, List, ℕ, arith, [],
}
use data_ops_showcase.Prelude.Dict.{Key}
use data_ops_showcase.Storage.{bulk_insert, has_key, do_nothing, statement, statements}

module _ {K R : Type 0} ⦃k : Key K⦄ (key : R → K) where
  -- The specification: one row at a time.
  unfoldable pub add_missing : List R → List R → List R
  add_missing [] t = t
  add_missing (r ∷ rows) t = add_missing rows (if has_key key (key r) t then t else t ++ r ∷ [])

  pub length-add_missing : (rows t : List R) → length t ≤ length (add_missing rows t)
  unfolding add_missing
  length-add_missing [] t = omega arith
  length-add_missing (r ∷ rows) t = ground (
    arith,
    length-add_missing rows (t ++ r ∷ []),
    length-add_missing rows t,
    length-append t (r ∷ []),
  )

  pub statement-do_nothing :
      (touched : List K) (rows t : List R)
      → statement key do_nothing touched rows t
        ≡ some (add_missing rows t, length (add_missing rows t) - length t)
  unfolding statement add_missing
  statement-do_nothing touched [] t = ground arith
  statement-do_nothing touched (r ∷ rows) t = ground (
    arith,
    statement-do_nothing touched rows t,
    statement-do_nothing (key r ∷ touched) rows (t ++ r ∷ []),
    length-append t (r ∷ []),
    length-add_missing rows (t ++ r ∷ []),
  )

  add_missing-append :
      (xs ys t : List R) → add_missing (xs ++ ys) t ≡ add_missing ys (add_missing xs t)
  unfolding add_missing
  add_missing-append [] ys t = refl
  add_missing-append (x ∷ xs) ys t = add_missing-append xs ys _

  statements-do_nothing :
      (pages : List (List R)) (t : List R) (last : ℕ)
      → (n : ℕ) × (statements key do_nothing pages t last ≡ some (add_missing (flatten pages) t, n))
  unfolding statements add_missing flatten
  statements-do_nothing [] t last = (last, refl)
  statements-do_nothing (page ∷ pages) t last =
      let (n, e) =
        statements-do_nothing pages (add_missing page t) (length (add_missing page t) - length t) in
      (
        n,
        ground
            (arith, statement-do_nothing [] page t, e, add_missing-append page (flatten pages) t),
      )

  has_key_of_same : (a b : K) (t : List R) → k.same a b ≡ true → has_key key a t ≡ has_key key b t
  has_key_of_same a b t h = ap (λ x. has_key key x t) ((k.same_iff a b).0 h)

  pub has_key-add_missing :
      (x : K) (rows t : List R)
      → has_key key x (add_missing rows t) ≡ (has_key key x t || has_key key x rows)
  unfolding add_missing
  has_key-add_missing x [] t = ground arith
  has_key-add_missing x (r ∷ rows) t = ground (
    arith,
    has_key_of_same (key r) x t,
    has_key-add_missing x rows t,
    has_key-add_missing x rows (t ++ r ∷ []),
    any-append (λ (q : R). k.same (key q) x) t (r ∷ []),
  )

  -- Rows whose keys are all there add nothing.
  abbrev pub AllPresent : List R → List R → Type 0
  AllPresent rows t = All (λ r. has_key key (key r) t ≡ true) rows

  pub add_missing_of_AllPresent : (rows t : List R) → AllPresent rows t → add_missing rows t ≡ t
  unfolding add_missing
  add_missing_of_AllPresent [] t h = refl
  add_missing_of_AllPresent (r ∷ rows) t h = ground (arith, add_missing_of_AllPresent rows t)

  AllPresent-weaken :
      (rows t u : List R)
      → ((x : K) → has_key key x t ≡ true → has_key key x u ≡ true)
      → AllPresent rows t
      → AllPresent rows u
  AllPresent-weaken [] t u w h = tt
  AllPresent-weaken (r ∷ rows) t u w (here, h) = (w (key r) here, AllPresent-weaken rows t u w h)

  pub has_key_after :
      (x : K) (rows t : List R) → has_key key x t ≡ true → has_key key x (add_missing rows t) ≡ true
  has_key_after x rows t h = ground (arith, has_key-add_missing x rows t)

  -- Every row that was handed in is there afterwards, by its key.
  pub add_missing-AllPresent : (rows t : List R) → AllPresent rows (add_missing rows t)
  unfolding add_missing
  add_missing-AllPresent [] t = tt
  add_missing-AllPresent (r ∷ rows) t = (
    ground (arith, has_key-add_missing (key r) (r ∷ rows) t, (k.same_iff (key r) (key r)).1 refl),
    add_missing-AllPresent rows (if has_key key (key r) t then t else t ++ r ∷ []),
  )

  module _ (paginate : ℕ → List R → List (List R)) where
    -- `bulk_insert` with DO NOTHING adds the missing rows, however the rows are cut into statements.
    pub bulk_insert-do_nothing :
        ((size : ℕ) (rows : List R) → flatten (paginate size rows) ≡ rows)
        → (size : ℕ) (rows t : List R)
        → (n : ℕ) × (bulk_insert key paginate size do_nothing rows t ≡ some (add_missing rows t, n))
    unfolding bulk_insert add_missing
    bulk_insert-do_nothing cut size [] t = (0, refl)
    bulk_insert-do_nothing cut size (r ∷ rows) t =
        let (n, e) = statements-do_nothing (paginate size (r ∷ rows)) t 0 in
        (n, e ∙ ap (λ xs. some (add_missing xs t, n)) (cut size (r ∷ rows)))

    -- A second `bulk_insert` of rows that are all there changes nothing.
    pub bulk_insert_again :
        (cut : (size : ℕ) (rows : List R) → flatten (paginate size rows) ≡ rows) (size size' : ℕ)
        (rows t t' : List R) (n : ℕ)
        → bulk_insert key paginate size do_nothing rows t ≡ some (t', n)
        → (m : ℕ) × (bulk_insert key paginate size' do_nothing rows t' ≡ some (t', m))
    bulk_insert_again cut size size' rows t t' n h =
        let (n', e) = bulk_insert-do_nothing cut size rows t in
        let (m, e') = bulk_insert-do_nothing cut size' rows t' in
        let same : add_missing rows t ≡ t' = cc (h, e) in
        (
          m,
          e'
              ∙ ap (λ xs. some (xs, m))
                  (add_missing_of_AllPresent rows t'
                    (subst (AllPresent rows) same (add_missing-AllPresent rows t))),
        )

    -- Where one statement holds all rows, the count that is returned is the number of rows added.
    pub bulk_insert_count :
        (size : ℕ) (rows t t' : List R) (n : ℕ)
        → paginate size rows ≡ rows ∷ []
        → bulk_insert key paginate size do_nothing rows t ≡ some (t', n)
        → length t' ≡ length t + n
    unfolding bulk_insert statements add_missing
    bulk_insert_count size [] t t' n one h = ground arith
    bulk_insert_count size (r ∷ rows) t t' n one h =
        ground (arith, one, statement-do_nothing [] (r ∷ rows) t, length-add_missing (r ∷ rows) t)
