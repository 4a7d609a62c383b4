-- ===== src/DbtRest/Tests.antt =====
-- Runs of the dbt service on concrete requests and outcomes.
use data_ops_showcase.DbtRest.Argv.{
  words, pieces, strip_right, join_spaces, strip_left, Body, listed, with_run_target_path,
  argv_from_airflow_body, object,
}
use data_ops_showcase.DbtRest.Guard.{create_run_airflow_refused, create_run_airflow-Ends, Accepted}
use data_ops_showcase.DbtRest.Http.{
  Service, Start, parsed, create_run_airflow, auth, ApiFault, after, unauthorized, start_run, queue,
  start_thread, read_json_body,
}
use data_ops_showcase.DbtRest.Terminal.{worker_timeout-Ends, has_bytes, Ends}
use data_ops_showcase.DbtRest.Worker.{
  bytes_text, World, completed, timeout_expired, worker, outcome_of, output_of,
}
use data_ops_showcase.DbtRest.{
  Runs, EndCalls, Ending, queued_row, mark_running, update_run, insert_queued,
}
use data_ops_showcase.Prelude.{
  ◌↔◌, codes, arith, ok, refl, true, inl, err, ◌≡◌, some, false, [], none, ◌∷◌, ◌++◌, ◌==◌, String,
  List,
}

abbrev marts_build : Body
marts_build = record {
  target = none;
  command = none;
  selectors = listed "tag:marts" ("stg_orders" ∷ []);
  fail_on_test_failure = some false;
  full_refresh = false;
  defer = false;
  vars = object "{}";
  job = some "nightly";
}

argv_of_selectors :
    argv_from_airflow_body marts_build
    ≡ ok (
        "dbt" ∷ "build" ∷ "--select" ∷ "tag:marts stg_orders" ∷ "--target" ∷ "dwh"
        ∷ "--no-fail-fast" ∷ [])
unfolding argv_from_airflow_body join_spaces strip_left strip_right
argv_of_selectors = refl

argv_of_command :
    argv_from_airflow_body
      (record marts_build { command = some "  test --select  a "; target = some " prod " })
    ≡ ok ("dbt" ∷ "test" ∷ "--select" ∷ "a" ∷ "--target" ∷ "prod" ∷ [])
unfolding argv_from_airflow_body join_spaces strip_left strip_right pieces words
argv_of_command = refl

auth_cases :
    (auth "t0ken" (some "Bearer  t0ken ") ≡ ok tt)
    × (auth "t0ken" (some "bearer t0ken") ≡ err unauthorized)
    × (auth "t0ken" none ≡ err unauthorized)
    × (auth "" none ≡ ok tt)
unfolding auth after strip_left strip_right
auth_cases = (refl, refl, refl, refl)

-- The first attempt fails, the second does not.
abbrev second_attempt : EndCalls
second_attempt = record {
  finish_fails = λ k. k == 0;
  force_fails = true;
  failure = codes "retries";
}

abbrev two_runs : Runs
two_runs = queued_row "a" (some "nightly") none ∷ queued_row "b" none (some "marts") ∷ []

abbrev success_at_9 : Ending
success_at_9 = record {
  status = "success";
  finished = 9;
  duration_sec = some 4;
  artifact_names = "manifest.json" ∷ [];
}

abbrev fine_start : Start
fine_start = record { new_id = "c"; insert_fails = false; thread_fails = false }

abbrev service : Service
service = record { runs = two_runs; threads = [] }

create_run_airflow_refused_example :
    (x : ApiFault) × (create_run_airflow "t0ken" fine_start
        (parsed marts_build)
        (some "Bearer other")
        service
      ≡ (err x, service))
create_run_airflow_refused_example =
    create_run_airflow_refused "t0ken" fine_start (some "Bearer other") (parsed marts_build)
      unauthorized service (unfold auth after strip_left strip_right in refl)

abbrev world : World
world = record {
  makedirs_fails = false;
  running_fails = false;
  started = 5;
  process = completed 1 (some (codes "1 of 2 failed")) none;
  finished = 9;
  artifacts = some ("run_results.json" ∷ []);
  running_error = [];
  end_calls = second_attempt;
}

abbrev served : Service
served = record {
  runs = two_runs ++ queued_row "c" (some "nightly") none ∷ [];
  threads =
      (
        "c",
        "dbt" ∷ "build" ∷ "--select" ∷ "tag:marts stg_orders" ∷ "--target" ∷ "dwh"
            ∷ "--no-fail-fast" ∷ [],
      )
      ∷ [];
}

accepted_run :
    create_run_airflow "t0ken" fine_start (parsed marts_build) (some "Bearer t0ken") service
    ≡ (ok "c", served)
unfolding create_run_airflow read_json_body argv_from_airflow_body join_spaces strip_left
    strip_right start_run auth after queue insert_queued queued_row start_thread
accepted_run = refl

create_run_airflow-Ends_example :
    (argv : List String) × Accepted fine_start "c" argv service served
    × Ends "c" (worker 1000 3 world "c" argv served.runs).1
create_run_airflow-Ends_example =
    create_run_airflow-Ends "t0ken" fine_start (some "Bearer t0ken") 1000 3 world
      (parsed marts_build) "c" service served "failed" (codes "1 of 2 failed")
      ("run_results.json" ∷ []) accepted_run refl (unfold outcome_of output_of in refl) refl
      (inl (1, omega arith, refl))

abbrev slow_world : World
slow_world = record world {
  process = timeout_expired (bytes_text (codes "Running")) (bytes_text []);
}

abbrev after_mark : Runs
after_mark =
    queued_row "a" (some "nightly") none
    ∷ record (queued_row "b" none (some "marts")) { status = "running"; started_at = some 5 }
    ∷ []

worker_timeout-Ends_example :
    Ends "b" (worker 1000 3 slow_world "b" ("dbt" ∷ "build" ∷ []) two_runs).1
    ↔ (has_bytes (bytes_text (codes "Running")) ≡ false)
worker_timeout-Ends_example =
    worker_timeout-Ends 1000 3 slow_world "b" ("dbt" ∷ "build" ∷ [])
      ("dbt" ∷ "build" ∷ "--target-path" ∷ "target/runs/b" ∷ []) two_runs after_mark
      (queued_row "b" none (some "marts")) (bytes_text (codes "Running")) (bytes_text [])
      ("run_results.json" ∷ []) (unfold with_run_target_path in refl) refl refl refl
      (inl (1, omega arith, refl)) (unfold queued_row in refl)
      (unfold mark_running update_run queued_row in refl)
