-- ===== src/Quality/Loop.antt =====
-- What `execute_checks` returns and what it has recorded.
use data_ops_showcase.Prelude.{
  refl, Bool-cases, inl, inr, sym, Result-cases, append_assoc, ap, append-nil, err, arith, ◌∙◌, ◌≡◌,
  [], ◌++◌, ok, if◌then◌else◌, Bool, ◌∷◌, Option, String, List, Result, ℕ,
}
use data_ops_showcase.Quality.{
  is_failure, run_check, Outcome, execute_checks, Check, CheckResult, CheckFault, Query,
}

-- The specification of the second list.
pub select : List String → List CheckResult → List CheckResult
select fail_on [] = []
select fail_on (r ∷ rs) = if is_failure fail_on r then r ∷ select fail_on rs else select fail_on rs

module _ {Cell : Type 0} (fetch_one : Query Cell → Result CheckFault (Option ℕ))
    (record_fails : CheckResult → Bool) where
  -- The results of the checks one by one, up to the first that leaves the loop.
  pub each_result : List (Check Cell) → Result CheckFault (List CheckResult)
  each_result [] = ok []
  each_result (check ∷ checks) = elim (run_check fetch_one check) [
    | err e ↦ err e
    | ok r ↦ elim (each_result checks) [ err e ↦ err e | ok rs ↦ ok (r ∷ rs) ]
  ]

  record Extended (fail_on : List String) (checks : List (Check Cell)) (o : Outcome)
      (recorded : List CheckResult) (o' : Outcome) (recorded' : List CheckResult) : Type 0 where
    added : List CheckResult
    results : o'.results ≡ o.results ++ added
    failures : o'.failures ≡ o.failures ++ select fail_on added
    rows : recorded' ≡ recorded ++ added
    each : each_result checks ≡ ok added

  step_outcome : List String → CheckResult → Outcome → Outcome
  step_outcome fail_on r o = record {
    results = o.results ++ r ∷ [];
    failures = if is_failure fail_on r then o.failures ++ r ∷ [] else o.failures;
  }

  step-Extended :
      (fail_on : List String) (check : Check Cell) (checks : List (Check Cell)) (r : CheckResult)
      (o o' : Outcome) (recorded recorded' : List CheckResult)
      → run_check fetch_one check ≡ ok r
      → Extended fail_on checks (step_outcome fail_on r o) (recorded ++ r ∷ []) o' recorded'
      → Extended fail_on (check ∷ checks) o recorded o' recorded'
  unfolding select each_result step_outcome
  step-Extended fail_on check checks r o o' recorded recorded' e x = record {
    added = r ∷ x.added;
    results = x.results ∙ append_assoc o.results (r ∷ []) x.added;
    failures =
        ground (arith, x.failures, append_assoc o.failures (r ∷ []) (select fail_on x.added));
    rows = x.rows ∙ append_assoc recorded (r ∷ []) x.added;
    each = ground (arith, e, x.each);
  }

  execute_checks-Extended :
      (fail_on : List String) (checks : List (Check Cell)) (o : Outcome)
      (recorded : List CheckResult) (o' : Outcome) (recorded' : List CheckResult)
      → execute_checks fetch_one record_fails fail_on checks o recorded ≡ (ok o', recorded')
      → Extended fail_on checks o recorded o' recorded'
  unfolding execute_checks select each_result
  execute_checks-Extended fail_on [] o recorded o' recorded' h = record {
    added = [];
    results = ground (arith, append-nil o.results);
    failures = ground (arith, append-nil o.failures);
    rows = ground (arith, append-nil recorded);
    each = refl;
  }
  execute_checks-Extended fail_on (check ∷ checks) o recorded o' recorded' h =
      elim (Result-cases (run_check fetch_one check)) [
        | inr (x, e) ↦ absurd (ground (arith, e))
        | inl (r, e) ↦ elim (Bool-cases (record_fails r)) [
          | inl fails ↦ absurd (ground (arith, e, fails))
          | inr writes ↦ step-Extended fail_on check checks r o o' recorded recorded' e (
              execute_checks-Extended fail_on checks (step_outcome fail_on r o) (recorded ++ r ∷ [])
                o' recorded' (unfold step_outcome in ground (arith, e, writes, h)))
        ]
      ]

  -- Where the loop returns, the results are those of the checks in order, each was recorded once, in
  -- order, and the failures are the results that did not pass and whose severity is in `fail_on`.
  pub execute_checks_lem :
      (fail_on : List String) (checks : List (Check Cell)) (o : Outcome)
      (recorded : List CheckResult)
      → execute_checks fetch_one record_fails fail_on checks
          (record { results = []; failures = [] })
          []
        ≡ (ok o, recorded)
      → (each_result checks ≡ ok o.results)
        × (o.failures ≡ select fail_on o.results)
        × (recorded ≡ o.results)
  execute_checks_lem fail_on checks o recorded h =
      let x =
        execute_checks-Extended fail_on checks (record { results = []; failures = [] }) [] o
          recorded h in
      (
        x.each ∙ ap ok (sym x.results),
        x.failures ∙ ap (select fail_on) (sym x.results),
        x.rows ∙ sym x.results,
      )
