-- ===== src/DbtRest/Terminal.antt =====
-- The status of a run's row when its worker has ended.
use data_ops_showcase.DbtRest.Argv.{with_run_target_path}
use data_ops_showcase.DbtClient.{terminal_states}
use data_ops_showcase.DbtRest.Persist.{
  mark_finished_best_effort-HasEnded, Stores, find_run-update_run,
}
use data_ops_showcase.DbtRest.Worker.{
  no_output, with_newline_of, or_timeout, bytes_text, str_text, or_empty, plus_text, Captured,
  type_error, duration, run_process, worker, World, process_raised, timeout_expired, completed,
  Process, outcome_of,
}
use data_ops_showcase.DbtRest.{
  Ending, mark_finished_best_effort, find_run, Runs, RunRow, mark_running,
}
use data_ops_showcase.Prelude.{
  ◌++◌, ◌↔◌, ◌≢◌, Text, none, Result-cases, err, List, [], ◌∷◌, refl, str_eq_iff, inr, inl, sym,
  ◌==◌, subst, Bool-cases, arith, false, true, str_eq, ok, ◌≡◌, any, some, Bool, String, ℕ,
}

abbrev pub is_terminal : String → Bool
is_terminal status = any (str_eq status) terminal_states

outcome_of-terminal :
    (p : Process) (status : String) (logs : Text)
    → outcome_of p ≡ ok (status, logs)
    → is_terminal status ≡ true
unfolding outcome_of
outcome_of-terminal (completed returncode stdout stderr) status logs h =
    elim (Bool-cases (returncode == 0)) [
      | inl fine ↦
          subst (λ x. is_terminal x ≡ true) {x = "success"} {y = status} (ground (arith, fine, h))
            refl
      | inr bad ↦
          subst (λ x. is_terminal x ≡ true) {x = "failed"} {y = status} (ground (arith, bad, h))
            refl
    ]
outcome_of-terminal (timeout_expired stdout stderr) status logs h =
    elim (Result-cases (plus_text (or_empty stdout) (with_newline_of stderr))) [
      | inl (tail, fine) ↦
          subst (λ x. is_terminal x ≡ true) {x = "timeout"} {y = status} (ground (arith, fine, h))
            refl
      | inr (x, bad) ↦ absurd (ground (arith, bad, h))
    ]
outcome_of-terminal (process_raised text) status logs h =
    subst (λ x. is_terminal x ≡ true) {x = "error"} {y = status} (ground (arith, h)) refl

running_row : ℕ → RunRow → RunRow
running_row started r = record r { status = "running"; started_at = some started }

find_run-mark_running :
    (fails : Bool) (run_id : String) (started : ℕ) (rs rs' : Runs) (r : RunRow)
    → find_run run_id rs ≡ some r
    → mark_running fails run_id started rs ≡ ok rs'
    → (r' : RunRow) × (find_run run_id rs' ≡ some r') × (r'.status ≡ "running")
unfolding mark_running running_row
find_run-mark_running fails run_id started rs rs' r found h = elim (Bool-cases fails) [
  | inl raises ↦ absurd (ground (arith, h, raises))
  | inr fine ↦ (
    running_row started r,
    ground (
      arith,
      h,
      fine,
      found,
      find_run-update_run (running_row started) run_id run_id rs (λ x. refl),
      str_eq_iff run_id run_id,
    ),
    refl,
  )
]

not_running : (status : String) → is_terminal status ≡ true → status ≢ "running"
not_running status h e =
    absurd (ground (arith, subst (λ x. is_terminal x ≡ true) {x = status} {y = "running"} e h))

abbrev pub has_bytes : Captured → Bool
has_bytes no_output = false
has_bytes (str_text text) = false
has_bytes (bytes_text []) = false
has_bytes (bytes_text (c ∷ bytes)) = true

-- A row with a terminal status.
abbrev pub Ends : String → Runs → Type 0
Ends run_id rs = (r : RunRow) × (find_run run_id rs ≡ some r) × (is_terminal r.status ≡ true)

module _ (limit retries : ℕ) (w : World) (run_id : String) where
  run_process-Ends :
      (rs : Runs) (r : RunRow) (status : String) (logs : Text) (names : List String)
      → outcome_of w.process ≡ ok (status, logs)
      → w.artifacts ≡ some names
      → Stores retries w.end_calls
      → find_run run_id rs ≡ some r
      → Ends run_id (run_process limit retries w run_id rs).1
  unfolding run_process
  run_process-Ends rs r status logs names outcome artifacts stores found =
      let e : Ending = record {
        status = status;
        finished = w.finished;
        duration_sec = some (duration w.started w.finished);
        artifact_names = names;
      } in
      let (r', kept, ended) =
        mark_finished_best_effort-HasEnded limit w.end_calls run_id e logs retries rs r found
          stores in
      subst (Ends run_id) {x = mark_finished_best_effort limit retries w.end_calls run_id e logs rs}
        {y = (run_process limit retries w run_id rs).1} (ground (arith, outcome, artifacts))
        (
          r',
          kept,
          subst (λ x. is_terminal x ≡ true) {x = status} {y = r'.status} (sym ended.has_status)
              (outcome_of-terminal w.process status logs outcome),
        )

  -- The row of a run has a terminal status when its worker has ended, also where the row could not be
  -- set to "running", on these conditions: the command takes a target path, the directory is made, the
  -- artifacts are read, the outcome of the process raises nothing, and one of the calls that store the
  -- end succeeds.
  pub worker-Ends :
      (argv out : List String) (rs : Runs) (r : RunRow) (status : String) (logs : Text)
      (names : List String)
      → with_run_target_path argv run_id ≡ ok out
      → w.makedirs_fails ≡ false
      → outcome_of w.process ≡ ok (status, logs)
      → w.artifacts ≡ some names
      → Stores retries w.end_calls
      → find_run run_id rs ≡ some r
      → Ends run_id (worker limit retries w run_id argv rs).1
  unfolding worker
  worker-Ends argv out rs r status logs names path made outcome artifacts stores found =
      elim (Result-cases (mark_running w.running_fails run_id w.started rs)) [
        | inl (rs', h) ↦
            let (r', kept, _) =
              find_run-mark_running w.running_fails run_id w.started rs rs' r found h in
            subst (Ends run_id) {x = (run_process limit retries w run_id rs').1}
              {y = (worker limit retries w run_id argv rs).1} (ground (arith, path, made, h))
              (run_process-Ends rs' r' status logs names outcome artifacts stores kept)
        | inr (x, h) ↦
            let e : Ending = record {
              status = "error";
              finished = w.finished;
              duration_sec = none;
              artifact_names = [];
            } in
            let (r', kept, ended) =
              mark_finished_best_effort-HasEnded limit w.end_calls run_id e w.running_error retries
                rs r found stores in
            subst (Ends run_id)
              {x = mark_finished_best_effort limit retries w.end_calls run_id e w.running_error rs}
              {y = (worker limit retries w run_id argv rs).1} (ground (arith, path, made, h))
              (
                r',
                kept,
                subst (λ x. is_terminal x ≡ true) {x = "error"} {y = r'.status}
                    (sym ended.has_status) refl,
              )
      ]

  -- For a process that reaches its time limit, the run's row has a terminal status when the thread has
  -- ended exactly if no bytes of the standard output were captured, on these conditions: the command
  -- takes a target path, the directory is made, the row was set to "running", the artifacts can be read,
  -- and one of the calls that store the end would succeed.
  pub worker_timeout-Ends :
      (argv out : List String) (rs rs' : Runs) (r : RunRow) (stdout stderr : Captured)
      (names : List String)
      → with_run_target_path argv run_id ≡ ok out
      → w.makedirs_fails ≡ false
      → w.process ≡ timeout_expired stdout stderr
      → w.artifacts ≡ some names
      → Stores retries w.end_calls
      → find_run run_id rs ≡ some r
      → mark_running w.running_fails run_id w.started rs ≡ ok rs'
      → Ends run_id (worker limit retries w run_id argv rs).1 ↔ (has_bytes stdout ≡ false)
  unfolding worker run_process outcome_of
  worker_timeout-Ends argv out rs rs' r stdout stderr names path made timeout artifacts stores found
        marked =
      (forth stdout timeout, back stdout timeout)
    where
      ends :
          (tail : Text)
          → outcome_of w.process ≡ ok ("timeout", or_timeout tail)
          → Ends run_id (worker limit retries w run_id argv rs).1
      ends tail outcome =
          worker-Ends argv out rs r "timeout" (or_timeout tail) names path made outcome artifacts
            stores found

      back :
          (x : Captured)
          → w.process ≡ timeout_expired x stderr
          → has_bytes x ≡ false
          → Ends run_id (worker limit retries w run_id argv rs).1
      back no_output e h = ends (with_newline_of stderr) (ground (arith, e))
      back (str_text text) e h = ends (text ++ with_newline_of stderr) (ground (arith, e))
      back (bytes_text []) e h = ends (with_newline_of stderr) (ground (arith, e))
      back (bytes_text (c ∷ bytes)) e h = absurd (ground (arith, h))

      -- The thread ends with the error of the addition, and the row stays as `mark_running` left it.
      stuck :
          (c : ℕ) (bytes : Text)
          → w.process ≡ timeout_expired (bytes_text (c ∷ bytes)) stderr
          → worker limit retries w run_id argv rs ≡ (err type_error, rs')
      stuck c bytes e = ground (arith, path, made, e, marked)

      forth :
          (x : Captured)
          → w.process ≡ timeout_expired x stderr
          → Ends run_id (worker limit retries w run_id argv rs).1
          → has_bytes x ≡ false
      forth no_output e h = refl
      forth (str_text text) e h = refl
      forth (bytes_text []) e h = refl
      forth (bytes_text (c ∷ bytes)) e h =
          let (r', kept, running) =
            find_run-mark_running w.running_fails run_id w.started rs rs' r found marked in
          let (q, found', over) =
            subst (λ x. Ends run_id x.1) {x = worker limit retries w run_id argv rs}
              {y = (err type_error, rs')} (stuck c bytes e) h in
          absurd (not_running q.status over (ground (arith, kept, found', running)))
