-- ===== src/Quality/Tests.antt =====
-- The checks over two small tables.
use data_ops_showcase.Quality.Rules.{run_check-passed, referential, Holds}
use data_ops_showcase.Quality.Passed.{answer}
use data_ops_showcase.Quality.Loop.{execute_checks_lem, select, each_result}
use data_ops_showcase.Quality.Meaning.{outside, count_of, TableRow, Database}
use data_ops_showcase.Prelude.{
  refl, ok, none, [], some, str_eq, if◌then◌else◌, ◌∷◌, ltb, ◌==◌, arith, ◌↔◌, ◌≡◌, Bool, false,
  Option, true, Result, String, ℕ,
}
use data_ops_showcase.Quality.{
  counted_result, dispatch, fetch_count, run_check, CheckFault, Check, CheckResult, run_bounded,
  run_range, run_unique, execute_checks, run_referential, Outcome, Query,
}

abbrev same : ℕ → ℕ → Bool
same a b = a == b

abbrev less : ℕ → ℕ → Bool
less a b = ltb a b

abbrev is_true : ℕ → Bool
is_true a = a == 1

same_sym : (a b : ℕ) → same a b ≡ same b a
same_sym a b = ground arith

abbrev order : Option ℕ → Option ℕ → ℕ → TableRow ℕ
order id customer current column =
    if str_eq column "order_id"
    then id
    else if str_eq column "customer_id"
    then customer
    else if str_eq column "is_current"
    then some current
    else none

-- Order 1 stands twice, once as an old version; order 2 has no customer.
abbrev db : Database ℕ
db table =
    if str_eq table "orders"
    then order (some 1) (some 7) 0 ∷ order (some 1) (some 7) 1 ∷ order (some 2) none 1 ∷ []
    else if str_eq table "customers"
    then order none (some 7) 1 ∷ []
    else []

abbrev check_of : String → Check ℕ
check_of type = record {
  name = some "check";
  type = some type;
  table = some "orders";
  severity = some "critical";
  columns = some ("order_id" ∷ []);
  column = some "order_id";
  min_value = some 1;
  max_value = none;
  parent_table = some "customers";
  parent_column = some "customer_id";
  child_column = some "customer_id";
  business_hk = some "order_id";
}

abbrev ask : Query ℕ → Result CheckFault (Option ℕ)
ask = answer same less is_true db

abbrev result : Bool → ℕ → CheckResult
result passed n = record {
  name = "check";
  table = "orders";
  severity = "critical";
  passed = passed;
  observed = some n;
  expected = some 0;
  error = none;
}

referential_fails : run_check ask (check_of "referential") ≡ ok (result false 1)
unfolding run_check dispatch run_referential fetch_count counted_result count_of
referential_fails = refl

run_check-passed_example :
    (false ≡ true)
    ↔ Holds same less is_true db
        (check_of "referential")
        "orders"
        (referential "customers" "customer_id" "customer_id")
run_check-passed_example =
    run_check-passed same less is_true db same_sym (check_of "referential")
      (referential "customers" "customer_id" "customer_id") "orders" (result false 1)
      (refl, refl, refl, refl) refl referential_fails

abbrev outcome : Outcome
outcome = record { results = result false 1 ∷ result true 0 ∷ []; failures = result false 1 ∷ [] }

both_run :
    execute_checks ask
      (λ r. false)
      ("critical" ∷ [])
      (check_of "unique" ∷ check_of "range" ∷ [])
      (record { results = []; failures = [] })
      []
    ≡ (ok outcome, result false 1 ∷ result true 0 ∷ [])
unfolding execute_checks run_check dispatch run_unique run_range run_bounded fetch_count
    counted_result count_of outside
both_run = refl

execute_checks_lem_example :
    (each_result ask (λ r. false) (check_of "unique" ∷ check_of "range" ∷ []) ≡ ok outcome.results)
    × (outcome.failures ≡ select ("critical" ∷ []) outcome.results)
    × (result false 1 ∷ result true 0 ∷ [] ≡ outcome.results)
execute_checks_lem_example =
    execute_checks_lem ask (λ r. false) ("critical" ∷ [])
      (check_of "unique" ∷ check_of "range" ∷ []) outcome (result false 1 ∷ result true 0 ∷ [])
      both_run
