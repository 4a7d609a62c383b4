-- ===== src/DbtRest/Worker.antt =====
-- services/dbt_rest/app/main.py: `_worker`, the thread of a run. What the process, the disk and the
-- database do is `World`. An exception that leaves the thread ends it; the rows stay as they are then.
use data_ops_showcase.DbtRest.Argv.{with_run_target_path, ArgvFault}
use data_ops_showcase.DbtRest.{
  mark_finished_best_effort, mark_running, EndCalls, Runs, text_or_empty,
}
use data_ops_showcase.Exec.{Exec, lift, ◌>>=◌, ◌>>◌}
use data_ops_showcase.Prelude.{
  codes, Text, some, ◌==◌, if◌then◌else◌, [], none, ◌++◌, err, List, ◌∷◌, ok, String, Result, Bool,
  ◌-◌, Option, ℕ,
}

-- An output that an exception of `subprocess.run` carries. A `TimeoutExpired` of a child on POSIX has what
-- was read so far as bytes, also where `text=True`.
pub data Captured : Type 0 where
  no_output : Captured  -- None
  str_text : Text → Captured
  bytes_text : Text → Captured

-- What `subprocess.run` comes to.
pub data Process : Type 0 where
  completed : ℕ → Option Text → Option Text → Process
  timeout_expired : Captured → Captured → Process
  process_raised : Text → Process  -- another exception, with its text

pub record World : Type 0 where
  pub makedirs_fails : Bool
  pub running_fails : Bool
  pub started : ℕ
  pub process : Process
  pub finished : ℕ
  pub artifacts : Option (List String)  -- `none` where reading them raises
  pub running_error : Text
  pub end_calls : EndCalls

pub data WorkerFault : Type 0 where
  argv_error : ArgvFault → WorkerFault
  os_error : WorkerFault
  type_error : WorkerFault  -- of an addition

abbrev pub with_newline : Text → Text
with_newline [] = []
with_newline (c ∷ text) = 10 ∷ c ∷ text

-- (stdout or "") + ((stderr or "") and f"\n{stderr}" or "")
unfoldable pub output_of : Option Text → Option Text → Text
output_of stdout stderr = text_or_empty stdout ++ with_newline (text_or_empty stderr)

-- The text of bytes in an f-string, b'...', for bytes that print as they are.
abbrev pub shown_bytes : Text → Text
shown_bytes bytes = codes "b'" ++ (bytes ++ codes "'")

-- x or ""
abbrev pub or_empty : Captured → Captured
or_empty no_output = str_text []
or_empty (str_text text) = str_text text
or_empty (bytes_text []) = str_text []
or_empty (bytes_text (c ∷ bytes)) = bytes_text (c ∷ bytes)

-- x and f"\n{x}" or ""
abbrev pub with_newline_of : Captured → Text
with_newline_of no_output = []
with_newline_of (str_text text) = with_newline text
with_newline_of (bytes_text []) = []
with_newline_of (bytes_text (c ∷ bytes)) = with_newline (shown_bytes (c ∷ bytes))

-- x + text, for a str on the right
abbrev pub plus_text : Captured → Text → Result WorkerFault Text
plus_text no_output text = err type_error
plus_text (str_text start) text = ok (start ++ text)
plus_text (bytes_text bytes) text = err type_error

-- tail or "timeout"
abbrev pub or_timeout : Text → Text
or_timeout [] = codes "timeout"
or_timeout (c ∷ tail) = c ∷ tail

-- The `try` around the process: the status and the text of the log.
unfoldable pub outcome_of : Process → Result WorkerFault (String × Text)
outcome_of (completed returncode stdout stderr) =
    ok (if returncode == 0 then "success" else "failed", output_of stdout stderr)
outcome_of (timeout_expired stdout stderr) =
    elim (plus_text (or_empty stdout) (with_newline_of stderr)) [
      | err x ↦ err x
      | ok tail ↦ ok ("timeout", or_timeout tail)
    ]
outcome_of (process_raised text) = ok ("error", text)

abbrev pub with_argv : {A : Type 0} → Result ArgvFault A → Result WorkerFault A
with_argv (ok a) = ok a
with_argv (err e) = err (argv_error e)

-- max(0.0, finished - started)
abbrev pub duration : ℕ → ℕ → ℕ
duration started finished = finished - started

module _ (limit retries : ℕ) (w : World) where
  -- From the process on, for a run whose row is "running".
  unfoldable pub run_process : String → Exec Runs WorkerFault (Unit {0})
  run_process run_id = do
    (status, logs) ← lift (outcome_of w.process)
    names ← lift (elim w.artifacts [ none ↦ err os_error | some names ↦ ok names ])
    λ rs. (
      ok tt,
      mark_finished_best_effort limit retries w.end_calls run_id
          (record {
            status = status;
            finished = w.finished;
            duration_sec = some (duration w.started w.finished);
            artifact_names = names;
          })
          logs rs,
    )

  unfoldable pub worker : String → List String → Exec Runs WorkerFault (Unit {0})
  worker run_id argv = do
    argv_tp ← lift (with_argv (with_run_target_path argv run_id))
    lift (if w.makedirs_fails then err os_error else ok tt)
    λ rs. elim (mark_running w.running_fails run_id w.started rs) [
      | ok rs' ↦ run_process run_id rs'
      | err x ↦ (
        ok tt,
        mark_finished_best_effort limit retries w.end_calls run_id
            (record {
              status = "error";
              finished = w.finished;
              duration_sec = none;
              artifact_names = [];
            })
            w.running_error rs,
      )
    ]
