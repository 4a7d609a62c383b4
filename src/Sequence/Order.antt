-- ===== src/Sequence/Order.antt =====
-- Which DAGs are triggered, and which of them have succeeded before.
use data_ops_showcase.Prelude.{
  Result-cases, err, ◌||◌, Bool-cases, subst, zero, false, refl, suc, take, ◌⊎◌, inr, append_assoc,
  [], str_eq, All, ◌≢◌, ◌++◌, any, append-nil, ok, ℕ, if◌then◌else◌, arith, Result, ◌∷◌, ◌≡◌, inl,
  List, String,
}
use data_ops_showcase.Sequence.{
  failed, success, timeout_error, called_process_error, main, default_dags, Airflow, run_dags,
  wait_run, run_of, Stop,
}

-- The DAGs that are not skipped, in their order.
unfoldable pub unskipped : List String → List String → List String
unskipped skip [] = []
unskipped skip (d ∷ ds) =
    let rest = unskipped skip ds in if any (str_eq d) skip then rest else d ∷ rest

-- All but the last of the first `k`.
abbrev pub before : ℕ → List String → List String
before zero ds = []
before (suc k) ds = take k ds

module _ (a : Airflow) (prefix : String) (skip : List String) where
  abbrev HasSucceeded : String → Type 0
  HasSucceeded d = wait_run a d (run_of a prefix skip d) ≡ ok success

  -- All of the DAGs were run, or some from the front, of which all but the last have succeeded.
  abbrev pub RunsInOrder : List String → List String → Result Stop ℕ × List String → Type 0
  RunsInOrder dags t p =
      ((p ≡ (ok 0, t ++ dags)) × All HasSucceeded dags)
      ⊎ ((k : ℕ) × (p.0 ≢ ok 0) × (p.1 ≡ t ++ take k dags) × All HasSucceeded (before k dags))

  stopped :
      (d : String) (ds t : List String) (r : Result Stop ℕ)
      → r ≢ ok 0
      → RunsInOrder (d ∷ ds) t (r, t ++ d ∷ [])
  stopped d ds t r bad = inr (1, bad, refl, tt)

  went_on :
      (d : String) (ds t : List String) (p : Result Stop ℕ × List String)
      → HasSucceeded d
      → RunsInOrder ds (t ++ d ∷ []) p
      → RunsInOrder (d ∷ ds) t p
  went_on d ds t p fine (inl (e, all)) =
      inl (ground (arith, e, append_assoc t (d ∷ []) ds), (fine, all))
  went_on d ds t p fine (inr (zero, bad, e, all)) =
      inr (1, bad, ground (arith, e, append_assoc t (d ∷ []) (take 0 ds)), tt)
  went_on d ds t p fine (inr (suc k, bad, e, all)) =
      inr (
        suc (suc k),
        bad,
        ground (arith, e, append_assoc t (d ∷ []) (take (suc k) ds)),
        (fine, all),
      )

  RunsInOrder-run_dags :
      (ds t : List String) → RunsInOrder (unskipped skip ds) t (run_dags a prefix skip ds t)
  unfolding run_dags unskipped
  RunsInOrder-run_dags [] t = inl (ground (arith, append-nil t), tt)
  RunsInOrder-run_dags (d ∷ ds) t = elim (Bool-cases (any (str_eq d) skip)) [
    | inl skipped ↦
        subst (λ x. RunsInOrder x t (run_dags a prefix skip (d ∷ ds) t)) {x = unskipped skip ds}
          {y = unskipped skip (d ∷ ds)} (ground (arith, skipped))
          (subst (RunsInOrder (unskipped skip ds) t) {x = run_dags a prefix skip ds t}
            {y = run_dags a prefix skip (d ∷ ds) t} (ground (arith, skipped))
            (RunsInOrder-run_dags ds t))
    | inr kept ↦ elim (Bool-cases (a.unpause_fails d || a.trigger_fails d)) [
      | inl fails ↦
          at kept (err called_process_error, t) (ground (arith, kept, fails))
            (inr (0, (λ e. ground (arith, e)), ground (arith, append-nil t), tt))
      | inr fine ↦ elim (Result-cases (wait_run a d (run_of a prefix skip d))) [
        | inl (success, waited) ↦
            at kept (run_dags a prefix skip ds (t ++ d ∷ [])) (ground (arith, kept, fine, waited)) (
              went_on d (unskipped skip ds) t (run_dags a prefix skip ds (t ++ d ∷ [])) waited
                (RunsInOrder-run_dags ds (t ++ d ∷ [])))
        | inl (failed, waited) ↦
            at kept (ok 1, t ++ d ∷ []) (ground (arith, kept, fine, waited))
              (stopped d (unskipped skip ds) t (ok 1) (λ e. ground (arith, e)))
        | inr (timeout_error, waited) ↦
            at kept (ok 1, t ++ d ∷ []) (ground (arith, kept, fine, waited))
              (stopped d (unskipped skip ds) t (ok 1) (λ e. ground (arith, e)))
        | inr (called_process_error, waited) ↦
            at kept (err called_process_error, t ++ d ∷ []) (ground (arith, kept, fine, waited))
              (stopped d (unskipped skip ds) t (err called_process_error) (λ e. ground (arith, e)))
      ]
    ]
  ]
    where
      at :
          any (str_eq d) skip ≡ false
          → (p : Result Stop ℕ × List String) → p ≡ run_dags a prefix skip (d ∷ ds) t
          → RunsInOrder (d ∷ unskipped skip ds) t p
          → RunsInOrder (unskipped skip (d ∷ ds)) t (run_dags a prefix skip (d ∷ ds) t)
      at kept p e h =
          subst (λ x. RunsInOrder x t (run_dags a prefix skip (d ∷ ds) t))
            {x = d ∷ unskipped skip ds} {y = unskipped skip (d ∷ ds)} (ground (arith, kept))
            (subst (RunsInOrder (d ∷ unskipped skip ds) t) e h)

  -- Either the exit code is 0, every DAG that is not skipped was triggered, in their order, and its run
  -- has succeeded; or it is not 0, some of them from the front were triggered, and all of these but the
  -- last have succeeded.
  pub main-RunsInOrder : RunsInOrder (unskipped skip default_dags) [] (main a prefix skip)
  main-RunsInOrder = RunsInOrder-run_dags default_dags []
