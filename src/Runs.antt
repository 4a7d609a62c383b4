-- ===== src/Runs.antt =====
-- services/common/run_metadata.py: the ledger of pipeline runs. `run_id` is a serial column.
pub mod Rows
use data_ops_showcase.Prelude.{
  [], none, ◌==◌, ◌++◌, ◌+◌, if◌then◌else◌, Option, ◌∷◌, String, List, ℕ,
}
use data_ops_showcase.Prelude.Dict.{merge, Dict, nat_key, string_key}

-- The values that the callers put into `payload`.
pub data PayloadValue : Type 0 where
  text : String → PayloadValue
  number : ℕ → PayloadValue
  offset_map : Dict ℕ ℕ → PayloadValue

abbrev pub Payload : Type 0
Payload = Dict String PayloadValue

pub record PipelineRun (E : Type 0) : Type 0 where
  pub run_id : ℕ
  pub dag_id : String
  pub task_id : String
  pub source : Option String
  pub layer : Option String
  pub status : String
  pub rows_in : Option ℕ
  pub rows_out : Option ℕ
  pub rows_quarantined : Option ℕ
  pub error_message : Option E
  pub payload : Payload

pub record Ledger (E : Type 0) : Type 0 where
  pub next_id : ℕ
  pub runs : List (PipelineRun E)

-- What `finish_run` writes over a row.
pub record Finish (E : Type 0) : Type 0 where
  pub status : String
  pub rows_in : Option ℕ
  pub rows_out : Option ℕ
  pub rows_quarantined : Option ℕ
  pub error_message : Option E
  pub payload : Payload

module _ {E : Type 0} where
  unfoldable pub start_run :
      String → String → Option String → Option String → Payload → Ledger E → ℕ × Ledger E
  start_run dag task source layer payload l = (
    l.next_id,
    record {
      next_id = l.next_id + 1;
      runs =
          l.runs
          ++ record {
            run_id = l.next_id;
            dag_id = dag;
            task_id = task;
            source = source;
            layer = layer;
            status = "running";
            rows_in = none;
            rows_out = none;
            rows_quarantined = none;
            error_message = none;
            payload = payload;
          }
            ∷ [];
    },
  )

  -- The columns of UPDATE ... SET; `||` on jsonb writes the new keys over the old ones.
  unfoldable pub finished : Finish E → PipelineRun E → PipelineRun E
  finished f r = record r {
    status = f.status;
    rows_in = f.rows_in;
    rows_out = f.rows_out;
    rows_quarantined = f.rows_quarantined;
    error_message = f.error_message;
    payload = merge r.payload f.payload;
  }

  -- WHERE run_id = %s
  unfoldable pub finish_rows : ℕ → Finish E → List (PipelineRun E) → List (PipelineRun E)
  finish_rows id f [] = []
  finish_rows id f (r ∷ rs) = (if r.run_id == id then finished f r else r) ∷ finish_rows id f rs

  unfoldable pub finish_run : ℕ → Finish E → Ledger E → Ledger E
  finish_run id f l = record l { runs = finish_rows id f l.runs }
