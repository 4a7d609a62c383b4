-- ===== src/DbtRest/Argv/Paths.antt =====
-- The command lines that are built, and the path that is put into them.
use data_ops_showcase.DbtRest.Argv.{
  web_words, web_vars, HttpFault, web_selection, argv_from_web_job, target_path, target_of,
  join_spaces, not_a_list, nothing, split, fails_on_test, flag_if, listed, text_of, strip,
  Selectors, Body, with_run_target_path, argv_from_airflow_body,
}
use data_ops_showcase.Prelude.{
  err, ◌>>=◌, Result, drop, not, refl, subst, str_eq_iff, inr, true, arith, inl, take, ◌&&◌, str_eq,
  Bool-cases, length, [], ◌≤◌, ◌++◌, ok, ◌∷◌, ◌≡◌, String, List, ℕ,
}

-- The words that `with_run_target_path` puts behind the subcommand are the only change.
pub with_run_target_path_lem :
    (argv : List String) (run_id : String) (out : List String)
    → with_run_target_path argv run_id ≡ ok out
    → (k : ℕ) × (k ≤ length argv)
      × (out ≡ take k argv ++ ("--target-path" ∷ target_path run_id ∷ drop k argv))
unfolding with_run_target_path
with_run_target_path_lem [] run_id out h = absurd (ground arith)
with_run_target_path_lem (a ∷ []) run_id out h = absurd (ground arith)
with_run_target_path_lem (a ∷ b ∷ []) run_id out h =
    (2, omega arith, ground (arith, h, str_eq_iff a "dbt"))
with_run_target_path_lem (a ∷ b ∷ c ∷ rest) run_id out h = elim (Bool-cases (str_eq a "dbt")) [
  | inr other ↦ absurd (ground (arith, other, h))
  | inl dbt ↦ elim (Bool-cases (str_eq b "source" && str_eq c "freshness")) [
    | inl fresh ↦ (
      3,
      omega arith,
      ground (
        arith,
        dbt,
        fresh,
        h,
        str_eq_iff a "dbt",
        str_eq_iff b "source",
        str_eq_iff c "freshness",
      ),
    )
    | inr stale ↦ elim (Bool-cases (str_eq b "docs" && str_eq c "generate")) [
      | inl docs ↦ (
        3,
        omega arith,
        ground (
          arith,
          dbt,
          stale,
          docs,
          h,
          str_eq_iff a "dbt",
          str_eq_iff b "docs",
          str_eq_iff c "generate",
        ),
      )
      | inr plain ↦ (2, omega arith, ground (arith, dbt, stale, plain, h, str_eq_iff a "dbt"))
    ]
  ]
]

-- A command of dbt with a word behind it takes the path.
takes_path :
    (b : String) (rest : List String) (run_id : String)
    → (out : List String) × (with_run_target_path ("dbt" ∷ b ∷ rest) run_id ≡ ok out)
unfolding with_run_target_path
takes_path b [] run_id = ("dbt" ∷ b ∷ "--target-path" ∷ target_path run_id ∷ [], refl)
takes_path b (c ∷ rest) run_id = elim (Bool-cases (str_eq b "source" && str_eq c "freshness")) [
  | inl fresh ↦ (
    "dbt" ∷ "source" ∷ "freshness" ∷ "--target-path" ∷ target_path run_id ∷ rest,
    ground (arith, fresh),
  )
  | inr stale ↦ elim (Bool-cases (str_eq b "docs" && str_eq c "generate")) [
    | inl docs ↦ (
      "dbt" ∷ "docs" ∷ "generate" ∷ "--target-path" ∷ target_path run_id ∷ rest,
      ground (arith, stale, docs),
    )
    | inr plain ↦
        ("dbt" ∷ b ∷ "--target-path" ∷ target_path run_id ∷ c ∷ rest, ground (arith, stale, plain))
  ]
]

takes_path_appended :
    (ws : List String) (x : String) (xs : List String) (run_id : String)
    → (out : List String) × (with_run_target_path ("dbt" ∷ (ws ++ (x ∷ xs))) run_id ≡ ok out)
takes_path_appended [] x xs run_id = takes_path x xs run_id
takes_path_appended (w ∷ ws) x xs run_id = takes_path w (ws ++ (x ∷ xs)) run_id

abbrev TakesPath : String → List String → Type 0
TakesPath run_id argv = (out : List String) × (with_run_target_path argv run_id ≡ ok out)

-- The command line of a request to /runs that is accepted takes the target path of every run.
pub argv_from_airflow_body_lem :
    (b : Body) (argv : List String) (run_id : String)
    → argv_from_airflow_body b ≡ ok argv
    → (out : List String) × (with_run_target_path argv run_id ≡ ok out)
unfolding argv_from_airflow_body
argv_from_airflow_body_lem b argv run_id h =
    elim (Bool-cases (str_eq (strip (text_of b.command)) "")) [
      | inr given ↦
          subst (TakesPath run_id)
            {x = "dbt" ∷ (split (strip (text_of b.command)) ++ ("--target" ∷ target_of b ∷ []))}
            {y = argv} (ground (arith, given, h))
            (takes_path_appended (split (strip (text_of b.command))) "--target" (target_of b ∷ [])
              run_id)
      | inl none_given ↦ go b.selectors refl none_given
    ]
  where
    go :
        (sel : Selectors)
        → b.selectors ≡ sel
        → str_eq (strip (text_of b.command)) "" ≡ true
        → TakesPath run_id argv
    go nothing e f = absurd (ground (arith, e, f, h))
    go not_a_list e f = absurd (ground (arith, e, f, h))
    go (listed s ss) e f =
        subst (TakesPath run_id)
          {x = ("dbt" ∷ "build" ∷ "--select" ∷ join_spaces (s ∷ ss) ∷ "--target" ∷ target_of b ∷ [])
            ++ flag_if (not (fails_on_test b)) "--no-fail-fast"}
          {y = argv} (ground (arith, e, f, h))
          (takes_path "build"
            ("--select"
              ∷ join_spaces (s ∷ ss)
              ∷ "--target"
              ∷ target_of b
              ∷ flag_if (not (fails_on_test b)) "--no-fail-fast")
            run_id)

built_takes_path :
    (selected : Result HttpFault String) (vars : Result HttpFault (List String))
    (f : String → List String → List String) (argv : List String) (run_id : String)
    → (selected >>= λ a. vars >>= λ v. ok ("dbt" ∷ "build" ∷ f a v)) ≡ ok argv
    → (out : List String) × (with_run_target_path argv run_id ≡ ok out)
built_takes_path (err e) vars f argv run_id h = absurd (ground (arith, h))
built_takes_path (ok a) (err e) f argv run_id h = absurd (ground (arith, h))
built_takes_path (ok a) (ok v) f argv run_id h =
    subst (TakesPath run_id) {x = "dbt" ∷ "build" ∷ f a v} {y = argv} (ground (arith, h))
      (takes_path "build" (f a v) run_id)

-- So does the command line of every layer's job.
pub argv_from_web_job_lem :
    (layer : String) (b : Body) (argv : List String) (run_id : String)
    → argv_from_web_job layer b ≡ ok argv
    → (out : List String) × (with_run_target_path argv run_id ≡ ok out)
unfolding argv_from_web_job
argv_from_web_job_lem layer b argv run_id h =
    built_takes_path (web_selection layer b) (web_vars b) (web_words b) argv run_id h
