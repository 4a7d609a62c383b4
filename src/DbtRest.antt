-- ===== src/DbtRest.antt =====
-- services/dbt_rest/app/db.py: the table of dbt runs. Its rows are a list, with the run id as the key of
-- a row; a time is a number, and a text a list of characters. A Boolean argument says whether the
-- database raises in a call, before it changes the table.
pub mod Persist
pub mod Argv
pub mod Worker
pub mod Terminal
pub mod Http
pub mod Guard
mod Tests
use data_ops_showcase.Prelude.{
  codes, Text, zero, ◌+◌, suc, ok, err, ◌-◌, take, [], any, Result, length, none, leb, max, ◌++◌,
  ◌∷◌, str_eq, if◌then◌else◌, String, List, some, drop, Bool, Option, ℕ,
}

pub record RunRow : Type 0 where
  pub run_id : String
  pub status : String
  pub started_at : Option ℕ
  pub finished_at : Option ℕ
  pub duration_sec : Option ℕ
  pub job_name : Option String
  pub web_target : Option String
  pub logs : Option Text
  pub artifact_names : List String

pub data DbFault : Type 0 where
  unavailable : DbFault
  unique_violation : DbFault

abbrev pub Runs : Type 0
Runs = List RunRow

abbrev pub is_run : String → RunRow → Bool
is_run run_id r = str_eq r.run_id run_id

abbrev pub find_run : String → Runs → Option RunRow
find_run run_id [] = none
find_run run_id (r ∷ rs) = if is_run run_id r then some r else find_run run_id rs

unfoldable pub queued_row : String → Option String → Option String → RunRow
queued_row run_id job_name web_target = record {
  run_id = run_id;
  status = "queued";
  started_at = none;
  finished_at = none;
  duration_sec = none;
  job_name = job_name;
  web_target = web_target;
  logs = some [];
  artifact_names = [];
}

unfoldable pub insert_queued :
    Bool → String → Option String → Option String → Runs → Result DbFault Runs
insert_queued fails run_id job_name web_target rs =
    if fails
    then err unavailable
    else if any (is_run run_id) rs
    then err unique_violation
    else ok (rs ++ queued_row run_id job_name web_target ∷ [])

-- UPDATE ... WHERE run_id = ...
unfoldable pub update_run : (RunRow → RunRow) → String → Runs → Runs
update_run f run_id [] = []
update_run f run_id (r ∷ rs) = (if is_run run_id r then f r else r) ∷ update_run f run_id rs

unfoldable pub mark_running : Bool → String → ℕ → Runs → Result DbFault Runs
mark_running fails run_id started rs =
    if fails
    then err unavailable
    else ok (update_run (λ r. record r { status = "running"; started_at = some started }) run_id rs)

-- logs[: limit - 128], where a negative bound counts from the end
unfoldable pub cut : ℕ → Text → Text
cut limit text =
    if leb 128 limit then take (limit - 128) text else take (length text - (128 - limit)) text

unfoldable pub truncated : ℕ → Text → Text
truncated limit text =
    if leb (length text) limit then text else cut limit text ++ codes "\n... [truncated]\n"

-- What the worker knows of a run when it ends.
pub record Ending : Type 0 where
  pub status : String
  pub finished : ℕ
  pub duration_sec : Option ℕ
  pub artifact_names : List String

unfoldable pub finished_row : ℕ → Ending → Text → RunRow → RunRow
finished_row limit e logs r = record r {
  status = e.status;
  finished_at = some e.finished;
  duration_sec = e.duration_sec;
  logs = some (truncated limit logs);
  artifact_names = e.artifact_names;
}

unfoldable pub mark_finished : ℕ → Bool → String → Ending → Text → Runs → Result DbFault Runs
mark_finished limit fails run_id e logs rs =
    if fails then err unavailable else ok (update_run (finished_row limit e logs) run_id rs)

abbrev pub coalesce : {A : Type 0} → Option A → Option A → Option A
coalesce none b = b
coalesce (some a) b = some a

abbrev pub text_or_empty : Option Text → Text
text_or_empty none = []
text_or_empty (some t) = t

unfoldable pub forced_row : ℕ → Ending → Text → RunRow → RunRow
forced_row limit e note r = record r {
  status = e.status;
  finished_at = some e.finished;
  duration_sec = coalesce e.duration_sec r.duration_sec;
  logs = some (take limit (text_or_empty r.logs ++ (10 ∷ 10 ∷ truncated limit note)));
  artifact_names = e.artifact_names;
}

unfoldable pub force_terminal_persist :
    ℕ → Bool → String → Ending → Text → Runs → Result DbFault Runs
force_terminal_persist limit fails run_id e note rs =
    if fails then err unavailable else ok (update_run (forced_row limit e note) run_id rs)

-- The last 12000 characters.
unfoldable pub log_tail : Text → Text
log_tail logs = drop (length logs - 12000) logs

-- The note of the fallback; `failure` is its first line, which shows the number of attempts and the last
-- exception.
unfoldable pub fallback_note : Text → String → Text → Text
fallback_note failure status logs =
    failure
    ++ (codes "intended_status="
        ++ (codes status ++ (codes "\n--- log tail ---\n" ++ log_tail logs)))

-- Which calls of the database raise while a run's end is stored.
pub record EndCalls : Type 0 where
  pub finish_fails : ℕ → Bool  -- in the n-th attempt
  pub force_fails : Bool
  pub failure : Text

-- `left` attempts of FINISH_RETRIES are left; `none` when all have failed.
unfoldable pub finish_attempts : ℕ → EndCalls → ℕ → ℕ → String → Ending → Text → Runs → Option Runs
finish_attempts limit calls zero n run_id e logs rs = none
finish_attempts limit calls (suc left) n run_id e logs rs =
    elim (mark_finished limit (calls.finish_fails n) run_id e logs rs) [
      | ok rs' ↦ some rs'
      | err x ↦ finish_attempts limit calls left (n + 1) run_id e logs rs
    ]

-- FINISH_RETRIES = max(1, int(...)); nothing is raised.
unfoldable pub mark_finished_best_effort : ℕ → ℕ → EndCalls → String → Ending → Text → Runs → Runs
mark_finished_best_effort limit retries calls run_id e logs rs =
    elim (finish_attempts limit calls (max 1 retries) 0 run_id e logs rs) [
      | some rs' ↦ rs'
      | none ↦
          elim (force_terminal_persist limit calls.force_fails run_id e
            (fallback_note calls.failure e.status logs) rs) [ ok rs' ↦ rs' | err x ↦ rs ]
    ]

unfoldable pub get_logs : String → Runs → Option Text
get_logs run_id rs = elim (find_run run_id rs) [
  | none ↦ none
  | some r ↦ some (text_or_empty r.logs)
]

abbrev pub run_exists : String → Runs → Bool
run_exists run_id rs = any (is_run run_id) rs
