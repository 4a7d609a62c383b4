-- ===== src/Quality/Rules.antt =====
-- The checks by what their configuration asks, and the round of the loop that runs them.
-- What a configured check asks.
use data_ops_showcase.Quality.Passed.{
  run_scd2_one_current-passed, run_referential-passed, run_range-passed, run_not_null-passed,
  run_unique-passed, answer,
}
use data_ops_showcase.Quality.Meaning.{
  is_current, keep, has_parent, outside, count_of, is_null, TableRow, agree_on, NoRepeat, Database,
}
use data_ops_showcase.Prelude.{
  refl, [], ◌∷◌, ◌∙◌, none, ◌↔◌, sym, not, true, arith, inl, false, Result-cases, err, inr, ok,
  Option-cases, Option, ℕ, any, Result, some, ◌≡◌, String, Bool, List,
}
use data_ops_showcase.Quality.{
  many_current, orphans, nulls, duplicates, out_of_range, run_scd2_one_current, run_referential,
  CheckResult, run_not_null, CheckFault, run_unique, fetch_count, raised_result, run_bounded,
  counted_result, dispatch, run_range, Query, run_check, Check,
}

pub data Rule : Type 0 where
  unique : List String → Rule
  not_null : List String → Rule
  range : String → Rule
  referential : String → String → String → Rule
  scd2_one_current : String → Rule

module _ {Cell : Type 0} where
  -- The check's entries are those of the rule.
  abbrev pub IsConfigured : Check Cell → Rule → Type 0
  IsConfigured check (unique columns) =
      (check.type ≡ some "unique") × (check.columns ≡ some columns)
  IsConfigured check (not_null columns) =
      (check.type ≡ some "not_null") × (check.columns ≡ some columns)
  IsConfigured check (range column) = (check.type ≡ some "range") × (check.column ≡ some column)
  IsConfigured check (referential parent child_column parent_column) =
      (check.type ≡ some "referential")
      × (check.parent_table ≡ some parent)
      × (check.child_column ≡ some child_column)
      × (check.parent_column ≡ some parent_column)
  IsConfigured check (scd2_one_current key) =
      (check.type ≡ some "scd2_one_current") × (check.business_hk ≡ some key)

module _ {Cell : Type 0} (same less : Cell → Cell → Bool) (is_true : Cell → Bool)
    (db : Database Cell) where
  abbrev asked_db : Query Cell → Result CheckFault (Option ℕ)
  asked_db = answer same less is_true db

  -- What the rule says of a table.
  abbrev pub Holds : Check Cell → String → Rule → Type 0
  Holds check table (unique columns) = NoRepeat (agree_on same less is_true columns) (db table)
  Holds check table (not_null columns) =
      any (λ (row : TableRow Cell). any (λ c. is_null (row c)) columns) (db table) ≡ false
  Holds check table (range column) =
      any (outside same less is_true check.min_value check.max_value column) (db table) ≡ false
  Holds check table (referential parent child_column parent_column) =
      any (λ c. not (has_parent same less is_true (db parent) child_column parent_column c))
        (db table)
      ≡ false
  Holds check table (scd2_one_current key) =
      NoRepeat (agree_on same less is_true (key ∷ []))
        (keep same less is_true (is_current same less is_true) (db table))

  raised_result_not_ok :
      (check : Check Cell) (n : ℕ) (x : CheckFault) (r : CheckResult)
      → ¬ ((counted_result check n ≡ err x) × (raised_result asked_db check x ≡ ok r))
  unfolding counted_result raised_result
  raised_result_not_ok check n x r (c, e) = elim (Option-cases check.name) [
    | inl no_name ↦ ground (arith, no_name, e)
    | inr (name, a) ↦ elim (Option-cases check.table) [
      | inl no_table ↦ ground (arith, a, no_table, e)
      | inr (table, b) ↦ elim (Option-cases check.severity) [
        | inl no_severity ↦ ground (arith, a, b, no_severity, e)
        | inr (severity, d) ↦ ground (arith, a, b, d, c)
      ]
    ]
  ]

  run_check_runner :
      (check : Check Cell) (type : String) (runner : Check Cell → Result CheckFault CheckResult)
      (n : ℕ) (r : CheckResult)
      → check.type ≡ some type
      → dispatch asked_db type ≡ some runner
      → runner check ≡ counted_result check n
      → run_check asked_db check ≡ ok r
      → runner check ≡ ok r
  unfolding run_check
  run_check_runner check type runner n r t d counts h = elim (Result-cases (runner check)) [
    | inl (r', e) ↦ ground (arith, t, d, e, h)
    | inr (x, e) ↦
        absurd (raised_result_not_ok check n x r (sym counts ∙ e, ground (arith, t, d, e, h)))
  ]

  run_range-counted_result :
      (check : Check Cell) (column table : String)
      → check.column ≡ some column
      → check.table ≡ some table
      → (n : ℕ) × (run_range asked_db check ≡ counted_result check n)
  unfolding run_range run_bounded fetch_count
  run_range-counted_result check column table c t = elim (Option-cases check.min_value) [
    | inr (low, l) ↦ (
      count_of same less is_true db (out_of_range table column (some low) check.max_value),
      ground (arith, c, t, l),
    )
    | inl no_low ↦ elim (Option-cases check.max_value) [
      | inr (high, u) ↦ (
        count_of same less is_true db (out_of_range table column none check.max_value),
        ground (arith, c, t, no_low, u),
      )
      | inl no_high ↦ (0, ground (arith, c, t, no_low, no_high))
    ]
  ]

  -- Where the database answers with its count and equality of values is symmetric, a round of the loop
  -- that returns a result for a check has passed it exactly if its table is as the check asks: no two
  -- rows agree on the columns of a uniqueness check; no row has a NULL in a column that must not be
  -- NULL; no value lies outside the bounds of a range check, a NULL or an absent bound apart; every
  -- row of a child table has a row with the same value in the parent's; and no two current rows have
  -- the key of an SCD2 check in common.
  pub run_check-passed :
      ((a b : Cell) → same a b ≡ same b a)
      → (check : Check Cell) (rule : Rule) (table : String) (r : CheckResult)
      → IsConfigured check rule
      → check.table ≡ some table
      → run_check asked_db check ≡ ok r
      → (r.passed ≡ true) ↔ Holds check table rule
  unfolding dispatch fetch_count run_unique run_not_null run_referential run_scd2_one_current
  run_check-passed same_sym check (unique columns) table r (y, c) t h =
      run_unique-passed same less is_true db same_sym check columns table r c t (
        run_check_runner check "unique" (run_unique asked_db)
          (count_of same less is_true db (duplicates table columns)) r y refl (ground (arith, c, t))
          h)
  run_check-passed same_sym check (not_null columns) table r (y, c) t h =
      run_not_null-passed same less is_true db check columns table r c t (
        run_check_runner check "not_null" (run_not_null asked_db)
          (count_of same less is_true db (nulls table columns)) r y refl (ground (arith, c, t)) h)
  run_check-passed same_sym check (range column) table r (y, c) t h =
      let (n, counts) = run_range-counted_result check column table c t in
      run_range-passed same less is_true db check column table r c t
        (run_check_runner check "range" (run_range asked_db) n r y refl counts h)
  run_check-passed same_sym check (referential parent child_column parent_column) table r
        (y, p, c, q) t h =
      run_referential-passed same less is_true db check table parent child_column parent_column r t
        p c q
        (run_check_runner check "referential" (run_referential asked_db)
          (count_of same less is_true db (orphans table child_column parent parent_column)) r y refl
          (ground (arith, t, p, c, q)) h)
  run_check-passed same_sym check (scd2_one_current key) table r (y, c) t h =
      run_scd2_one_current-passed same less is_true db same_sym check key table r c t (
        run_check_runner check "scd2_one_current" (run_scd2_one_current asked_db)
          (count_of same less is_true db (many_current table key)) r y refl (ground (arith, c, t))
          h)
