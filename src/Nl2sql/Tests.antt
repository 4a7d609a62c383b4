-- ===== src/Nl2sql/Tests.antt =====
-- The validation of concrete answers.
use data_ops_showcase.Nl2sql.Unparsed.{answer_question-StopsThere, StopsThere}
use data_ops_showcase.Nl2sql.Answered.{answer_question-LastOf, LastOf}
use data_ops_showcase.Nl2sql.Chain.{choose_chart, ChatFault}
use data_ops_showcase.Nl2sql.{parse_error, contains}
use data_ops_showcase.Nl2sql.Limits.{answer_question-AllSafe, AllSafe}
use data_ops_showcase.Nl2sql.Chain.{
  is_retryable_execution_error, generate_sql, execute_sql, run_and_log, Chat, SelectRow, load_loop,
  Answer, ensure_pyfunc_loaded, ExecFault, Answers, Llm, answer_question,
}
use data_ops_showcase.Prelude.{
  zero, [], ◌∷◌, ok, err, if◌then◌else◌, some, length, List, Option, suc, none, false, ◌≤◌, Text, ℕ,
  Result, refl, ◌≡◌, codes,
}
use data_ops_showcase.Nl2sql.{
  text_same, extract_table_name, unknown_tables, accept, validate_sql, select, Statement, Table,
  squeeze, up_to_semicolon, from_select, without_label, without_trailing_ticks,
  without_leading_ticks, drop_trailing, last_piece, drop_leading, behind, replace_word,
  before_first, replace_all, behind_first, qualify_allowed_tables, fenced, normalize_llm_sql,
}

fenced_answer :
    normalize_llm_sql (codes "Sure:\n```sql\nselect  a\nfrom t ; -- x```")
    ≡ codes "select a from t ;"
unfolding normalize_llm_sql fenced behind_first before_first behind drop_leading drop_trailing
    without_leading_ticks without_trailing_ticks without_label from_select up_to_semicolon squeeze
fenced_answer = refl

labelled_answer : normalize_llm_sql (codes " sql: SELECT 1`` ") ≡ codes "SELECT 1"
unfolding normalize_llm_sql fenced behind_first before_first behind drop_leading drop_trailing
    without_leading_ticks without_trailing_ticks without_label from_select up_to_semicolon squeeze
labelled_answer = refl

qualified :
    qualify_allowed_tables (codes "select * from Employees e join x.employees")
    ≡ codes "select * from raw.oltp_employees e join x.employees"
unfolding qualify_allowed_tables replace_all replace_word behind last_piece
qualified = refl

abbrev employees : Table
employees = record { db = codes "raw"; this = codes "oltp_employees" }

-- A parser that takes every text with FROM for a SELECT of the table.
abbrev parses : Text → Option Statement
parses t = if contains (codes " from ") t then some (select (employees ∷ []) false) else none

abbrev answer_of : ℕ → Text
answer_of zero = codes "drop table employees"
answer_of (suc zero) = codes "select nme from employees"
answer_of (suc (suc n)) = codes "select name from employees"

abbrev rows_of : ℕ → Result ExecFault (List SelectRow)
rows_of zero = err (record { pgcode = some (codes "42703"); message = codes "no nme" })
rows_of (suc n) = ok (((codes "name", codes "A") ∷ []) ∷ [])

abbrev answers : Answers
answers = record {
  parse_one = parses;
  load = λ n. none;
  rag_fails = false;
  generate = λ n p. some (answer_of n);
  run_select = λ n sql. rows_of n;
  log_fails = false;
}

abbrev cold : Llm
cold = record { is_loaded = false; load_error = none }

answer_question-AllSafe_example :
    ((answer_question answers cold).1.generations ≤ 4)
    × (length (answer_question answers cold).1.executed ≤ 2)
    × AllSafe answers (answer_question answers cold).1.executed
answer_question-AllSafe_example = answer_question-AllSafe answers cold

abbrev final : Result ChatFault Answer × Chat
final = answer_question answers cold

final_sql :
    final.1.executed
    ≡ codes "select nme from raw.oltp_employees LIMIT 100"
      ∷ codes "select name from raw.oltp_employees LIMIT 100"
      ∷ []
unfolding answer_question ensure_pyfunc_loaded load_loop run_and_log execute_sql generate_sql
    validate_sql normalize_llm_sql fenced behind_first before_first behind drop_leading
    drop_trailing without_leading_ticks without_trailing_ticks without_label from_select
    up_to_semicolon squeeze qualify_allowed_tables replace_all replace_word last_piece contains
    accept unknown_tables extract_table_name text_same is_retryable_execution_error
final_sql = refl

abbrev named : Answer
named = record {
  sql = codes "select name from raw.oltp_employees LIMIT 100";
  rows = ((codes "name", codes "A") ∷ []) ∷ [];
  chart = "none";
}

answered : answer_question answers cold ≡ (ok named, final.1)
unfolding answer_question ensure_pyfunc_loaded load_loop run_and_log execute_sql generate_sql
    validate_sql normalize_llm_sql fenced behind_first before_first behind drop_leading
    drop_trailing without_leading_ticks without_trailing_ticks without_label from_select
    up_to_semicolon squeeze qualify_allowed_tables replace_all replace_word last_piece contains
    accept unknown_tables extract_table_name text_same is_retryable_execution_error choose_chart
answered = refl

answer_question-LastOf_example :
    LastOf answers named.sql named.rows final.1 × (named.chart ≡ choose_chart named.rows)
answer_question-LastOf_example = answer_question-LastOf answers cold named final.1 answered

-- A model that leaves out the FROM, which the parser above does not take.
abbrev fragments : Answers
fragments = record answers { generate = λ n p. some (codes "select a b") }

unparsed : validate_sql parses (codes "select a b") ≡ err parse_error
unfolding answer_question ensure_pyfunc_loaded load_loop run_and_log execute_sql generate_sql
    validate_sql normalize_llm_sql fenced behind_first before_first behind drop_leading
    drop_trailing without_leading_ticks without_trailing_ticks without_label from_select
    up_to_semicolon squeeze qualify_allowed_tables replace_all replace_word last_piece contains
    accept unknown_tables extract_table_name text_same is_retryable_execution_error
unparsed = refl

answer_question-StopsThere_example : StopsThere fragments 0 (answer_question fragments cold)
answer_question-StopsThere_example =
    answer_question-StopsThere fragments 0 (λ p. (codes "select a b", refl, unparsed)) cold
