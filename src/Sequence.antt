-- ===== src/Sequence.antt =====
-- pipelines/tools/airflow_run_dags_sequence.py: the DAGs of the pipeline, one after the other, by Airflow's
-- command line. `Airflow` says what its commands come to, and how often the clock is read before the
-- deadline of a DAG's run.
pub mod Order
mod Tests
use data_ops_showcase.Exec.{Exec}
use data_ops_showcase.Prelude.{
  true, ◌||◌, zero, lower, str_eq, any, ◌+◌, suc, if◌then◌else◌, false, ◌++◌, [], ok, err, none,
  some, Result, Option, ◌<>◌, Bool, ◌∷◌, String, List, ℕ,
}

pub data Terminal : Type 0 where
  success : Terminal
  failed : Terminal

pub data Stop : Type 0 where
  timeout_error : Stop
  called_process_error : Stop

pub record ListedRun : Type 0 where
  pub run_id : Option String
  pub state : Option String

pub record Airflow : Type 0 where
  pub unpause_fails : String → Bool
  pub trigger_fails : String → Bool
  pub time : String → String  -- int(time.time()), as a text
  pub rounds : String → ℕ
  pub runs_json : String → ℕ → Option (List ListedRun)  -- the n-th list of a DAG's runs

abbrev pub default_dags : List String
default_dags =
    "dag_ingest_oltp_to_stg" ∷ "dag_ingest_kafka_orders_to_raw" ∷ "dag_ingest_kafka_payments_to_raw"
    ∷ "dag_ingest_minio_files_to_raw" ∷ "dag_ingest_kafka_extensions_to_raw"
    ∷ "dag_spark_preprocess_to_stg" ∷ "dag_load_datavault" ∷ "dag_scd2_satellites"
    ∷ "dag_dbt_staging_rest" ∷ "dag_dbt_vault_rest" ∷ "dag_dbt_marts_rest" ∷ "dag_dbt_dqc_rest"
    ∷ "dag_data_quality_checks" ∷ "dag_serving_optimizations" ∷ "dag_ml_train_spark" ∷ []

abbrev pub has_run_id : String → ListedRun → Bool
has_run_id run_id r = elim r.run_id [ none ↦ false | some id ↦ str_eq id run_id ]

abbrev pub terminal_of : Option String → Option Terminal
terminal_of none = none
terminal_of (some st) =
    if str_eq (lower st) "success"
    then some success
    else if str_eq (lower st) "failed"
    then some failed
    else none

-- The terminal state in the first row of the run, if it has one.
unfoldable pub state_in : String → List ListedRun → Option Terminal
state_in run_id [] = none
state_in run_id (r ∷ rs) =
    let later = state_in run_id rs in if has_run_id run_id r then terminal_of r.state else later

module _ (a : Airflow) where
  -- With the rounds that are left before the deadline, and the number of the next one.
  unfoldable pub wait_loop : String → String → ℕ → ℕ → Result Stop Terminal
  wait_loop dag_id run_id zero n = err timeout_error
  wait_loop dag_id run_id (suc left) n = elim (a.runs_json dag_id n) [
    | none ↦ err called_process_error
    | some rows ↦
        let later = wait_loop dag_id run_id left (n + 1) in
        elim (state_in run_id rows) [ some st ↦ ok st | none ↦ later ]
  ]

  abbrev pub wait_run : String → String → Result Stop Terminal
  wait_run dag_id run_id = wait_loop dag_id run_id (a.rounds dag_id) 0

  module _ (prefix : String) (skip : List String) where
    abbrev pub run_of : String → String
    run_of dag_id = prefix <> ("__" <> (dag_id <> ("__" <> a.time dag_id)))

    -- The exit code, or the exception; the state is the DAGs that were triggered.
    unfoldable pub run_dags : List String → Exec (List String) Stop ℕ
    run_dags [] triggered = (ok 0, triggered)
    run_dags (dag_id ∷ dags) triggered = elim (any (str_eq dag_id) skip) [
      | true ↦ run_dags dags triggered
      | false ↦ elim (a.unpause_fails dag_id || a.trigger_fails dag_id) [
        | true ↦ (err called_process_error, triggered)
        | false ↦ elim (wait_run dag_id (run_of dag_id)) [
          | ok st ↦ elim st [
            | success ↦ run_dags dags (triggered ++ dag_id ∷ [])
            | failed ↦ (ok 1, triggered ++ dag_id ∷ [])
          ]
          | err x ↦ elim x [
            | timeout_error ↦ (ok 1, triggered ++ dag_id ∷ [])
            | called_process_error ↦ (err called_process_error, triggered ++ dag_id ∷ [])
          ]
        ]
      ]
    ]

    abbrev pub main : Result Stop ℕ × List String
    main = run_dags default_dags []
