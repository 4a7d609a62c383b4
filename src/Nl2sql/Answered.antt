-- ===== src/Nl2sql/Answered.antt =====
-- The answer of a question that was answered.
use data_ops_showcase.Nl2sql.Chain.{ChatFault}
use data_ops_showcase.Prelude.{
  refl, ◌==◌, not, ◌&&◌, inr, inl, Result-cases, Bool-cases, err, length, [], Result, ◌∷◌, suc,
  false, true, zero, arith, ◌++◌, ok, List, ◌≡◌, ℕ, Text,
}
use data_ops_showcase.Nl2sql.Chain.{
  Answers, Chat, Llm, SelectRow, Answer, answer_question, execute_sql, generate_sql, run_and_log,
  retried, ran, asked, is_retryable_execution_error, choose_chart, ensure_pyfunc_loaded,
}

module _ (a : Answers) where
  -- The last text that the database was given, and the rows of that call.
  pub record LastOf (sql : Text) (rows : List SelectRow) (c : Chat) : Type 0 where
    pub before : List Text
    pub is_last : c.executed ≡ before ++ sql ∷ []
    pub gives : a.run_select (length before) sql ≡ ok rows

  execute_sql-LastOf :
      (left : ℕ) (c c' : Chat) (sql : Text) (rows : List SelectRow)
      → execute_sql a left c ≡ (ok (sql, rows), c')
      → LastOf sql rows c'
  unfolding execute_sql
  execute_sql-LastOf zero c c' sql rows h = absurd (ground arith)
  execute_sql-LastOf (suc left) c c' sql rows h =
      go (λ d. execute_sql-LastOf left d c' sql rows) (generate_sql a 2 c).0 (generate_sql a 2 c).1
        refl
    where
      go :
          ((d : Chat) → execute_sql a left d ≡ (ok (sql, rows), c') → LastOf sql rows c')
          → (r : Result ChatFault Text) (d : Chat) → generate_sql a 2 c ≡ (r, d)
          → LastOf sql rows c'
      go later (err x) d e = absurd (ground (arith, e, h))
      go later (ok valid) d e = elim (Result-cases (a.run_select (length d.executed) valid)) [
        | inl (found, fine) ↦
            let stays : ran valid d ≡ c' = ground (arith, e, fine, h) in
            let same_sql : valid ≡ sql = ground (arith, e, fine, h) in
            let same_rows : found ≡ rows = ground (arith, e, fine, h) in
            record {
              before = d.executed;
              is_last = ground (arith, stays, same_sql);
              gives = ground (arith, same_sql, same_rows, fine);
            }
        | inr (x, bad) ↦ elim (Bool-cases (is_retryable_execution_error x && not (left == 0))) [
          | inr last ↦ absurd (ground (arith, e, bad, last, h))
          | inl more ↦ later (retried valid x (ran valid d)) (ground (arith, e, bad, more, h))
        ]
      ]

  -- The answer that a question returns has the last text that the database was given, and the rows and
  -- the chart of that call.
  pub answer_question-LastOf :
      (llm : Llm) (answer : Answer) (c : Chat)
      → answer_question a llm ≡ (ok answer, c)
      → LastOf answer.sql answer.rows c × (answer.chart ≡ choose_chart answer.rows)
  unfolding answer_question run_and_log
  answer_question-LastOf llm answer c h =
      let loaded = ensure_pyfunc_loaded a llm in
      elim (Bool-cases loaded.is_loaded) [
        | inr not_loaded ↦ absurd (ground (arith, not_loaded, h))
        | inl ready ↦ elim (Bool-cases a.rag_fails) [
          | inl fails ↦ absurd (ground (arith, ready, fails, h))
          | inr found ↦
              go ready found (execute_sql a 2 (asked loaded)).0 (execute_sql a 2 (asked loaded)).1
                refl
        ]
      ]
    where
      go :
          (ensure_pyfunc_loaded a llm).is_loaded ≡ true
          → a.rag_fails ≡ false
          → (r : Result ChatFault (Text × List SelectRow)) (d : Chat)
          → execute_sql a 2 (asked (ensure_pyfunc_loaded a llm)) ≡ (r, d)
          → LastOf answer.sql answer.rows c × (answer.chart ≡ choose_chart answer.rows)
      go ready found (err x) d e = absurd (ground (arith, ready, found, e, h))
      go ready found (ok (sql, rows)) d e = elim (Bool-cases a.log_fails) [
        | inl fails ↦ absurd (ground (arith, ready, found, e, fails, h))
        | inr fine ↦ (
          execute_sql-LastOf 2 (asked (ensure_pyfunc_loaded a llm)) c answer.sql answer.rows
              (ground (arith, ready, found, e, fine, h)),
          ground (arith, ready, found, e, fine, h),
        )
      ]
