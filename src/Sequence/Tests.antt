-- ===== src/Sequence/Tests.antt =====
-- A run of the sequence on a concrete Airflow.
use data_ops_showcase.Prelude.{
  refl, zero, str_eq, if◌then◌else◌, ok, suc, ◌<>◌, ◌∷◌, ℕ, some, ◌≡◌, false, List, lower, String,
  [],
}
use data_ops_showcase.Sequence.Order.{main-RunsInOrder, RunsInOrder, unskipped}
use data_ops_showcase.Sequence.{
  Airflow, ListedRun, main, default_dags, run_dags, wait_loop, state_in,
}

abbrev listed : String → String → List ListedRun
listed dag_id state =
    record { run_id = some "other"; state = some "failed" }
    ∷ record { run_id = some ("e2e" <> ("__" <> (dag_id <> ("__" <> "1")))); state = some state }
    ∷ []

abbrev rows : String → ℕ → List ListedRun
rows dag_id zero = listed dag_id "running"
rows dag_id (suc n) =
    listed dag_id (if str_eq dag_id "dag_scd2_satellites" then "Failed" else "success")

abbrev airflow : Airflow
airflow = record {
  unpause_fails = λ d. false;
  trigger_fails = λ d. false;
  time = λ d. "1";
  rounds = λ d. 3;
  runs_json = λ d n. some (rows d n);
}

abbrev skipped : List String
skipped =
    "dag_ingest_kafka_orders_to_raw" ∷ "dag_ingest_kafka_payments_to_raw"
    ∷ "dag_ingest_minio_files_to_raw" ∷ "dag_ingest_kafka_extensions_to_raw" ∷ []

stops_at_failure : main airflow "e2e" skipped ≡ (
  ok 1,
  "dag_ingest_oltp_to_stg" ∷ "dag_spark_preprocess_to_stg" ∷ "dag_load_datavault"
      ∷ "dag_scd2_satellites" ∷ [],
)
unfolding run_dags wait_loop state_in lower
stops_at_failure = refl

main-RunsInOrder_example :
    RunsInOrder airflow "e2e" skipped
      (unskipped skipped default_dags)
      []
      (main airflow "e2e" skipped)
main-RunsInOrder_example = main-RunsInOrder airflow "e2e" skipped
