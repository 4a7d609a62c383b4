-- ===== src/Quality.antt =====
-- services/quality/checks.py: the data-quality checks and the loop that runs them.
-- A check's SQL is a `Query`, and what PostgreSQL counts for it in a database is `count_of`; a cell is
-- `none` for NULL. The comparisons of column values are the arguments `same` and `less`.
pub mod Meaning
pub mod Loop
pub mod Passed
pub mod Rules
mod Tests
use data_ops_showcase.Prelude.{
  ◌==◌, ◌>>=◌, false, [], ◌++◌, true, any, ◌&&◌, ◌∷◌, none, ok, some, str_eq, not, if◌then◌else◌,
  Bool, err, String, Result, Option, List, ℕ,
}

pub data Query (Cell : Type 0) : Type 0 where
  -- groups of rows with equal `columns` and more than one row
  duplicates : String → List String → Query Cell
  -- rows with a NULL among `columns`
  nulls : String → List String → Query Cell
  -- rows with `column` under the first bound or over the second
  out_of_range : String → String → Option Cell → Option Cell → Query Cell
  -- rows of a child table whose column has no match in the parent's
  orphans : String → String → String → String → Query Cell
  -- keys with more than one row where `is_current` is true
  many_current : String → String → Query Cell

pub data CheckFault : Type 0 where
  key_error : String → CheckFault
  unknown_type : String → CheckFault
  database_error : CheckFault

-- The entries of a check's configuration, `none` for a missing key.
pub record Check (Cell : Type 0) : Type 0 where
  pub name : Option String
  pub type : Option String
  pub table : Option String
  pub severity : Option String
  pub columns : Option (List String)
  pub column : Option String
  pub min_value : Option Cell
  pub max_value : Option Cell
  pub parent_table : Option String
  pub parent_column : Option String
  pub child_column : Option String
  pub business_hk : Option String

-- `observed` and `expected` are texts of counts in the source. `details` repeats the configuration,
-- or holds the text of the exception; of it the model keeps that exception.
pub record CheckResult : Type 0 where
  pub name : String
  pub table : String
  pub severity : String
  pub passed : Bool
  pub observed : Option ℕ
  pub expected : Option ℕ
  pub error : Option CheckFault

-- check[key]
abbrev pub need : {A : Type 0} → String → Option A → Result CheckFault A
need key none = err (key_error key)
need key (some a) = ok a

module _ {Cell : Type 0} where
  -- The common end of the runners: `passed=count == 0`.
  pub counted_result : Check Cell → ℕ → Result CheckFault CheckResult
  counted_result check n = do
    name ← need "name" check.name
    table ← need "table" check.table
    severity ← need "severity" check.severity
    ok (record {
      name = name;
      table = table;
      severity = severity;
      passed = n == 0;
      observed = some n;
      expected = some 0;
      error = none;
    })

  -- `fetch_one`: the count in the row that the query returns, `none` for no row.
  module _ (fetch_one : Query Cell → Result CheckFault (Option ℕ)) where
    -- int(row[0]) if row else 0
    pub fetch_count : Query Cell → Result CheckFault ℕ
    fetch_count q = do row ← fetch_one q; ok (elim row [ none ↦ 0 | some n ↦ n ])

    pub run_unique : Check Cell → Result CheckFault CheckResult
    run_unique check = do
      columns ← need "columns" check.columns
      table ← need "table" check.table
      n ← fetch_count (duplicates table columns)
      counted_result check n

    pub run_not_null : Check Cell → Result CheckFault CheckResult
    run_not_null check = do
      columns ← need "columns" check.columns
      table ← need "table" check.table
      n ← fetch_count (nulls table columns)
      counted_result check n

    pub run_bounded : Check Cell → String → Option Cell → Result CheckFault CheckResult
    run_bounded check column low = do
      table ← need "table" check.table
      n ← fetch_count (out_of_range table column low check.max_value)
      counted_result check n

    -- Without bounds nothing is asked, and the check passes.
    pub run_range : Check Cell → Result CheckFault CheckResult
    run_range check = do
      column ← need "column" check.column
      elim check.min_value [
        | some low ↦ run_bounded check column (some low)
        | none ↦ elim check.max_value [
          | some high ↦ run_bounded check column none
          | none ↦ counted_result check 0
        ]
      ]

    pub run_referential : Check Cell → Result CheckFault CheckResult
    run_referential check = do
      table ← need "table" check.table
      parent ← need "parent_table" check.parent_table
      child_column ← need "child_column" check.child_column
      parent_column ← need "parent_column" check.parent_column
      n ← fetch_count (orphans table child_column parent parent_column)
      counted_result check n

    pub run_scd2_one_current : Check Cell → Result CheckFault CheckResult
    run_scd2_one_current check = do
      key ← need "business_hk" check.business_hk
      table ← need "table" check.table
      n ← fetch_count (many_current table key)
      counted_result check n

    -- _DISPATCH.get(check["type"])
    pub dispatch : String → Option (Check Cell → Result CheckFault CheckResult)
    dispatch type =
        if str_eq type "unique"
        then some run_unique
        else if str_eq type "not_null"
        then some run_not_null
        else if str_eq type "range"
        then some run_range
        else if str_eq type "referential"
        then some run_referential
        else if str_eq type "scd2_one_current"
        then some run_scd2_one_current
        else none

    -- The result of a runner that raised.
    pub raised_result : Check Cell → CheckFault → Result CheckFault CheckResult
    raised_result check e = do
      name ← need "name" check.name
      table ← need "table" check.table
      severity ← need "severity" check.severity
      ok (record {
        name = name;
        table = table;
        severity = severity;
        passed = false;
        observed = none;
        expected = none;
        error = some e;
      })

    -- One round, up to the result: the runner under its `try`.
    pub run_check : Check Cell → Result CheckFault CheckResult
    run_check check = do
      type ← need "type" check.type
      elim (dispatch type) [
        | none ↦ err (unknown_type type)
        | some runner ↦ elim (runner check) [ ok r ↦ ok r | err e ↦ raised_result check e ]
      ]

-- The lists that `execute_checks` builds, and the rows that `_record_result` has written.
pub record Outcome : Type 0 where
  pub results : List CheckResult
  pub failures : List CheckResult

abbrev pub is_failure : List String → CheckResult → Bool
is_failure fail_on r = not r.passed && any (λ s. str_eq s r.severity) fail_on

module _ {Cell : Type 0} (fetch_one : Query Cell → Result CheckFault (Option ℕ))
    (record_fails : CheckResult → Bool) where
  -- The table of recorded results is the second component: it keeps its rows where the loop raises.
  pub execute_checks :
      List String
      → List (Check Cell)
      → Outcome
      → List CheckResult
      → Result CheckFault Outcome × List CheckResult
  execute_checks fail_on [] o recorded = (ok o, recorded)
  execute_checks fail_on (check ∷ checks) o recorded = elim (run_check fetch_one check) [
    | err e ↦ (err e, recorded)
    | ok r ↦ elim (record_fails r) [
      | true ↦ (err database_error, recorded)
      | false ↦
          execute_checks fail_on checks
            (record {
              results = o.results ++ r ∷ [];
              failures = if is_failure fail_on r then o.failures ++ r ∷ [] else o.failures;
            })
            (recorded ++ r ∷ [])
    ]
  ]
