-- ===== src/Nl2sql/Chain.antt =====
-- services/nl2sql_app/nl2sql/chain.py and `is_retryable_execution_error` of db.py: the answer to a
-- question. Each call of the model and of the database has a number, and the parameters say what the
-- calls come to. Metrics, log lines and the stages shown are left out.
use data_ops_showcase.Nl2sql.{
  contains, strip, value_error, parse_error, text_same, lower_text, ValueFault, validate_sql,
  Statement,
}
use data_ops_showcase.Exec.{Exec, raise, pure, ◌>>=◌}
use data_ops_showcase.Prelude.{
  zero, ◌&&◌, true, ok, ◌==◌, ◌||◌, length, any, codes, suc, false, none, not, ◌++◌, ◌∷◌, some, err,
  if◌then◌else◌, [], Text, ◌+◌, String, Result, Option, Bool, List, ℕ,
}

-- What a database error shows: the code of PostgreSQL, where there is one, and its text.
pub record ExecFault : Type 0 where
  pub pgcode : Option Text
  pub message : Text

abbrev pub has_code : Option Text → Bool
has_code none = false
has_code (some code) = any (text_same code) (codes "42601" ∷ codes "42P01" ∷ codes "42703" ∷ [])

unfoldable pub is_retryable_execution_error : ExecFault → Bool
is_retryable_execution_error x =
    let msg = lower_text x.message in
    has_code x.pgcode
    || (contains (codes "syntax error") msg
        || contains (codes "does not exist") msg
          && (contains (codes "relation") msg || contains (codes "column") msg))

pub data Prompt : Type 0 where
  question : Prompt
  correction : Text → ValueFault → Prompt
  execution_correction : Text → ExecFault → Prompt

abbrev pub SelectRow : Type 0
SelectRow = List (Text × Text)

unfoldable pub choose_chart : List SelectRow → String
choose_chart [] = "none"
choose_chart (row ∷ rows) =
    if length row == 1 then "none" else if length row == 2 then "bar" else "table"

pub record Llm : Type 0 where
  pub is_loaded : Bool
  pub load_error : Option Text

-- The service while it answers one question.
pub record Chat : Type 0 where
  pub llm : Llm
  pub prompt : Prompt
  pub generations : ℕ
  pub executed : List Text
  pub validation_retries : ℕ
  pub execution_retries : ℕ
  pub sql_before_retry : Option Text

pub data ChatFault : Type 0 where
  model_unavailable : ChatFault
  rag_failed : ChatFault
  generation_failed : ChatFault
  sqlglot_error : ChatFault
  validation_failed : ValueFault → ChatFault
  execution_failed : ExecFault → ChatFault
  logging_failed : ChatFault
  assertion_error : ChatFault

pub record Answer : Type 0 where
  pub sql : Text
  pub rows : List SelectRow
  pub chart : String

pub record Answers : Type 0 where
  pub parse_one : Text → Option Statement
  pub load : ℕ → Option Text  -- the error of an attempt to load the model
  pub rag_fails : Bool
  pub generate : ℕ → Prompt → Option Text  -- `none` where the model raises
  pub run_select : ℕ → Text → Result ExecFault (List SelectRow)
  pub log_fails : Bool

abbrev pub asked_once : Chat → Chat
asked_once c = record c { generations = c.generations + 1 }

abbrev pub corrected : Text → ValueFault → Chat → Chat
corrected raw x c = record c {
  validation_retries = c.validation_retries + 1;
  prompt = correction (strip raw) x;
}

abbrev pub ran : Text → Chat → Chat
ran sql c = record c { executed = c.executed ++ sql ∷ [] }

abbrev pub first_of : Option Text → Text → Option Text
first_of none sql = some sql
first_of (some before) sql = some before

abbrev pub retried : Text → ExecFault → Chat → Chat
retried sql x c = record c {
  execution_retries = c.execution_retries + 1;
  sql_before_retry = first_of c.sql_before_retry sql;
  prompt = execution_correction sql x;
}

abbrev pub asked : Llm → Chat
asked llm = record {
  llm = llm;
  prompt = question;
  generations = 0;
  executed = [];
  validation_retries = 0;
  execution_retries = 0;
  sql_before_retry = none;
}

module _ (a : Answers) where
  -- The attempts that are left, and the number of the next one.
  unfoldable pub load_loop : ℕ → ℕ → Text → Llm
  load_loop zero n last = record { is_loaded = false; load_error = some last }
  load_loop (suc left) n last = elim (a.load n) [
    | none ↦ record { is_loaded = true; load_error = none }
    | some x ↦ load_loop left (n + 1) x
  ]

  unfoldable pub ensure_pyfunc_loaded : Llm → Llm
  ensure_pyfunc_loaded llm = if llm.is_loaded then llm else elim llm.load_error [
    | some x ↦ llm
    | none ↦ load_loop 3 0 (codes "MLflow pyfunc load failed")
  ]

  -- The loop over validation attempts; `left` of them are left.
  unfoldable pub generate_sql : ℕ → Exec Chat ChatFault Text
  generate_sql zero c = (err assertion_error, c)
  generate_sql (suc left) c = elim (a.generate c.generations c.prompt) [
    | none ↦ (err generation_failed, asked_once c)
    | some raw ↦ elim (validate_sql a.parse_one raw) [
      | ok sql ↦ (ok sql, asked_once c)
      | err x ↦ elim x [
        | parse_error ↦ (err sqlglot_error, asked_once c)
        | value_error v ↦
            let again = generate_sql left (corrected raw v (asked_once c)) in
            if left == 0 then (err (validation_failed v), asked_once c) else again
      ]
    ]
  ]

  -- The loop over execution attempts.
  unfoldable pub execute_sql : ℕ → Exec Chat ChatFault (Text × List SelectRow)
  execute_sql zero = raise assertion_error
  execute_sql (suc left) = do
    sql ← generate_sql 2
    λ c. elim (a.run_select (length c.executed) sql) [
      | ok rows ↦ (ok (sql, rows), ran sql c)
      | err x ↦
          let again = execute_sql left (retried sql x (ran sql c)) in
          if is_retryable_execution_error x && not (left == 0)
          then again
          else (err (execution_failed x), ran sql c)
    ]

  unfoldable pub run_and_log : Exec Chat ChatFault Answer
  run_and_log = do
    (sql, rows) ← execute_sql 2
    if a.log_fails
        then raise logging_failed
        else pure (record { sql = sql; rows = rows; chart = choose_chart rows })

  unfoldable pub answer_question : Llm → Result ChatFault Answer × Chat
  answer_question llm =
      let loaded = ensure_pyfunc_loaded llm in
      if not loaded.is_loaded
      then (err model_unavailable, asked loaded)
      else if a.rag_fails
      then (err rag_failed, asked loaded)
      else run_and_log (asked loaded)
