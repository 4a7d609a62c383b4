-- ===== src/Quality/Passed.antt =====
-- The checks that pass, and the tables that they are about.
use data_ops_showcase.Quality.Meaning.{
  count_rows-eq-zero, outside_unbounded, has_parent, is_current, repeated_groups_lem, is_null,
  outside, repeated_groups, keep, count_rows, NoRepeat, agree_on, TableRow, count_of, same_cell,
  Database,
}
use data_ops_showcase.Prelude.{
  inl, inr, Option-cases, none, false, not, any, refl, [], ◌∷◌, ==_iff, arith, true, some, String,
  List, ok, Option, Result, ◌↔◌, ◌≡◌, Bool, ℕ,
}
use data_ops_showcase.Quality.{
  run_scd2_one_current, run_bounded, fetch_count, CheckFault, run_unique, CheckResult,
  run_referential, run_range, run_not_null, Check, counted_result, Query,
}

passed-counted_result :
    {Cell : Type 0} (check : Check Cell) (n : ℕ) (r : CheckResult)
    → counted_result check n ≡ ok r
    → (r.passed ≡ true) ↔ (n ≡ 0)
unfolding counted_result
passed-counted_result check n r h =
    (λ p. ground (arith, ==_iff n 0), λ z. ground (arith, ==_iff n 0))

module _ {Cell : Type 0} (same less : Cell → Cell → Bool) (is_true : Cell → Bool)
    (db : Database Cell) where
  -- A database that answers every query with its count.
  abbrev pub answer : Query Cell → Result CheckFault (Option ℕ)
  answer q = ok (some (count_of same less is_true db q))

  iff_trans : {P Q R : Type 0} → P ↔ Q → Q ↔ R → P ↔ R
  iff_trans f g = (λ p. g.0 (f.0 p), λ r. f.1 (g.1 r))

  module _ (same_sym : (a b : Cell) → same a b ≡ same b a) where
    same_cell_sym :
        (a b : Option Cell) → same_cell same less is_true a b ≡ same_cell same less is_true b a
    same_cell_sym none none = refl
    same_cell_sym none (some b) = refl
    same_cell_sym (some a) none = refl
    same_cell_sym (some a) (some b) = same_sym a b

    agree_on_sym :
        (columns : List String) (a b : TableRow Cell)
        → agree_on same less is_true columns a b ≡ agree_on same less is_true columns b a
    agree_on_sym [] a b = refl
    agree_on_sym (c ∷ columns) a b =
        ground (arith, agree_on_sym columns a b, same_cell_sym (a c) (b c))

    -- Where the database answers with its count and equality of values is symmetric, a uniqueness check
    -- that returns a result passes exactly if no two rows of its table agree on its columns.
    pub run_unique-passed :
        (check : Check Cell) (columns : List String) (table : String) (r : CheckResult)
        → check.columns ≡ some columns
        → check.table ≡ some table
        → run_unique answer check ≡ ok r
        → (r.passed ≡ true) ↔ NoRepeat (agree_on same less is_true columns) (db table)
    unfolding run_unique fetch_count count_of
    run_unique-passed check columns table r c t h =
        iff_trans
          (passed-counted_result check
            (repeated_groups (agree_on same less is_true columns) [] (db table)) r
            (ground (arith, c, t, h)))
          (repeated_groups_lem (agree_on same less is_true columns) (agree_on_sym columns)
            (db table))

    -- Where the database answers with its count and equality of values is symmetric, an SCD2 check that
    -- returns a result passes exactly if no two current rows of its table have the same key.
    pub run_scd2_one_current-passed :
        (check : Check Cell) (key table : String) (r : CheckResult)
        → check.business_hk ≡ some key
        → check.table ≡ some table
        → run_scd2_one_current answer check ≡ ok r
        → (r.passed ≡ true)
          ↔ NoRepeat
              (agree_on same less is_true (key ∷ []))
              (keep same less is_true (is_current same less is_true) (db table))
    unfolding run_scd2_one_current fetch_count count_of
    run_scd2_one_current-passed check key table r c t h =
        iff_trans
          (passed-counted_result check
            (repeated_groups (agree_on same less is_true (key ∷ [])) []
              (keep same less is_true (is_current same less is_true) (db table)))
            r (ground (arith, c, t, h)))
          (repeated_groups_lem (agree_on same less is_true (key ∷ [])) (agree_on_sym (key ∷ []))
            (keep same less is_true (is_current same less is_true) (db table)))

  -- Where the database answers with its count, a NOT NULL check that returns a result passes exactly if no row of its table has a NULL in one of its columns.
  pub run_not_null-passed :
      (check : Check Cell) (columns : List String) (table : String) (r : CheckResult)
      → check.columns ≡ some columns
      → check.table ≡ some table
      → run_not_null answer check ≡ ok r
      → (r.passed ≡ true)
        ↔ (any (λ (row : TableRow Cell). any (λ c. is_null (row c)) columns) (db table) ≡ false)
  unfolding run_not_null fetch_count count_of
  run_not_null-passed check columns table r c t h =
      iff_trans
        (passed-counted_result check
          (count_rows (λ (row : TableRow Cell). any (λ x. is_null (row x)) columns) (db table)) r
          (ground (arith, c, t, h)))
        (count_rows-eq-zero (λ (row : TableRow Cell). any (λ x. is_null (row x)) columns)
          (db table))

  unbounded_count :
      (column : String) (rs : List (TableRow Cell))
      → count_rows (outside same less is_true none none column) rs ≡ 0
  unbounded_count column [] = refl
  unbounded_count column (x ∷ rs) =
      ground (arith, outside_unbounded same less is_true column x, unbounded_count column rs)

  -- With a bound or without, the check compares the rows outside the bounds with 0.
  run_range-counted :
      (check : Check Cell) (column table : String) (r : CheckResult)
      → check.column ≡ some column
      → check.table ≡ some table
      → run_range answer check ≡ ok r
      → (r.passed ≡ true) ↔ (
          count_rows (outside same less is_true check.min_value check.max_value column) (db table)
          ≡ 0)
  unfolding run_range run_bounded fetch_count count_of
  run_range-counted check column table r c t h = elim (Option-cases check.min_value) [
    | inr (low, l) ↦
        passed-counted_result check
          (count_rows (outside same less is_true check.min_value check.max_value column) (db table))
          r (ground (arith, c, t, h, l))
    | inl no_low ↦ elim (Option-cases check.max_value) [
      | inr (high, u) ↦
          passed-counted_result check
            (count_rows (outside same less is_true check.min_value check.max_value column)
              (db table))
            r (ground (arith, c, t, h, no_low, u))
      | inl no_high ↦
          iff_trans (passed-counted_result check 0 r (ground (arith, c, t, h, no_low, no_high)))
            (λ z. ground (arith, no_low, no_high, unbounded_count column (db table)), λ z. refl)
    ]
  ]

  -- Where the database answers with its count, a range check that returns a result passes exactly if no
  -- value of its column lies under the minimum or over the maximum;
  -- NULLs are passed over, and so is a bound that is not configured.
  pub run_range-passed :
      (check : Check Cell) (column table : String) (r : CheckResult)
      → check.column ≡ some column
      → check.table ≡ some table
      → run_range answer check ≡ ok r
      → (r.passed ≡ true) ↔ (
          any (outside same less is_true check.min_value check.max_value column) (db table) ≡ false)
  run_range-passed check column table r c t h =
      iff_trans (run_range-counted check column table r c t h) (
        count_rows-eq-zero (outside same less is_true check.min_value check.max_value column)
          (db table))

  -- Where the database answers with its count, a referential check that returns a result passes exactly
  -- if every row of the child table has a row in the parent table
  -- with the same value in the two columns.
  pub run_referential-passed :
      (check : Check Cell) (table parent child_column parent_column : String) (r : CheckResult)
      → check.table ≡ some table
      → check.parent_table ≡ some parent
      → check.child_column ≡ some child_column
      → check.parent_column ≡ some parent_column
      → run_referential answer check ≡ ok r
      → (r.passed ≡ true) ↔ (
          any
            (λ c. not (has_parent same less is_true (db parent) child_column parent_column c))
            (db table)
          ≡ false)
  unfolding run_referential fetch_count count_of
  run_referential-passed check table parent child_column parent_column r t p c q h =
      iff_trans
        (passed-counted_result check
          (count_rows
            (λ x. not (has_parent same less is_true (db parent) child_column parent_column x))
            (db table))
          r (ground (arith, t, p, c, q, h)))
        (count_rows-eq-zero
          (λ x. not (has_parent same less is_true (db parent) child_column parent_column x))
          (db table))
