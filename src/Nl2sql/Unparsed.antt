-- ===== src/Nl2sql/Unparsed.antt =====
-- An answer of the model that sqlglot cannot parse, in both loops of `answer_question`.
use data_ops_showcase.Prelude.{
  not, zero, Option-cases, ◌&&◌, length, ap, Result-cases, sym, refl, ok, ==_iff, ◌==◌, arith, err,
  ◌+◌, subst, some, suc, List, inr, ◌⊎◌, inl, ◌≡◌, ◌≤◌, Text, Result, Bool-cases, ℕ,
}
use data_ops_showcase.Nl2sql.{parse_error, value_error, validate_sql}
use data_ops_showcase.Nl2sql.Chain.{
  rag_failed, model_unavailable, asked, ensure_pyfunc_loaded, Llm, answer_question, run_and_log,
  retried, Prompt, execution_failed, SelectRow, is_retryable_execution_error, ran,
  validation_failed, sqlglot_error, generation_failed, execute_sql, Answers, Answer, Chat,
  ChatFault, generate_sql, corrected, asked_once,
}

module _ (a : Answers) (k : ℕ) where
  -- Whatever prompt the `k`-th call of the model gets, its answer does not parse.
  abbrev pub IsUnparsed : ℕ → Type 0
  IsUnparsed n =
      (p : Prompt)
      → (raw : Text) × (a.generate n p ≡ some raw)
        × (validate_sql a.parse_one raw ≡ err parse_error)

  -- The call has not been made, or it is the last one and its error is the end.
  abbrev pub StopsThere : {A : Type 0} → Result ChatFault A × Chat → Type 0
  StopsThere p = (p.1.generations ≤ k) ⊎ ((p.1.generations ≡ k + 1) × (p.0 ≡ err sqlglot_error))

  module _ (unparsed : IsUnparsed k) where
    generate_sql-StopsThere :
        (left : ℕ) (c : Chat) → c.generations ≤ k → StopsThere (generate_sql a left c)
    unfolding generate_sql
    generate_sql-StopsThere zero c le = inl le
    generate_sql-StopsThere (suc left) c le = elim (Bool-cases (c.generations == k)) [
      | inl same ↦
          let e = (==_iff c.generations k).0 same in
          let (raw, generated, bad) = subst IsUnparsed (sym e) unparsed c.prompt in
          subst (StopsThere {A = Text}) {x = (err sqlglot_error, asked_once c)}
            {y = generate_sql a (suc left) c} (ground (arith, generated, bad))
            (inr (ap (λ x. x + 1) e, refl))
      | inr other ↦
          let lt : c.generations + 1 ≤ k = ground (arith, other, le) in
          elim (Option-cases (a.generate c.generations c.prompt)) [
            | inl fails ↦ stop generation_failed lt (ground (arith, fails))
            | inr (raw, generated) ↦ elim (Result-cases (validate_sql a.parse_one raw)) [
              | inl (valid, fine) ↦
                  subst (StopsThere {A = Text}) {x = (ok valid, asked_once c)}
                    {y = generate_sql a (suc left) c} (ground (arith, generated, fine)) (inl lt)
              | inr (parse_error, bad) ↦ stop sqlglot_error lt (ground (arith, generated, bad))
              | inr (value_error v, bad) ↦ elim (Bool-cases (left == 0)) [
                | inl last ↦ stop (validation_failed v) lt (ground (arith, generated, bad, last))
                | inr more ↦
                    subst (StopsThere {A = Text})
                      {x = generate_sql a left (corrected raw v (asked_once c))}
                      {y = generate_sql a (suc left) c} (ground (arith, generated, bad, more))
                      (generate_sql-StopsThere left (corrected raw v (asked_once c)) lt)
              ]
            ]
          ]
    ]
      where
        stop :
            (x : ChatFault)
            → c.generations + 1 ≤ k
            → (err x, asked_once c) ≡ generate_sql a (suc left) c
            → StopsThere (generate_sql a (suc left) c)
        stop x lt e =
            subst (StopsThere {A = Text}) {x = (err x, asked_once c)}
              {y = generate_sql a (suc left) c} e (inl lt)

    execute_sql-StopsThere :
        (left : ℕ) (c : Chat) → c.generations ≤ k → StopsThere (execute_sql a left c)
    unfolding execute_sql
    execute_sql-StopsThere zero c le = inl le
    execute_sql-StopsThere (suc left) c le =
        go (λ d. execute_sql-StopsThere left d) (generate_sql a 2 c).0 (generate_sql a 2 c).1 refl
          (generate_sql-StopsThere 2 c le)
      where
        go :
            ((d : Chat) → d.generations ≤ k → StopsThere (execute_sql a left d))
            → (r : Result ChatFault Text) (c' : Chat) → generate_sql a 2 c ≡ (r, c')
            → StopsThere (generate_sql a 2 c)
            → StopsThere (execute_sql a (suc left) c)
        go later (err x) c' e (inl le') =
            subst (StopsThere {A = Text × List SelectRow}) {x = (err x, c')}
              {y = execute_sql a (suc left) c} (ground (arith, e)) (inl (ground (arith, e, le')))
        go later (err x) c' e (inr (last, failed)) =
            subst (StopsThere {A = Text × List SelectRow}) {x = (err x, c')}
              {y = execute_sql a (suc left) c} (ground (arith, e))
              (inr (ground (arith, e, last), ground (arith, e, failed)))
        go later (ok sql) c' e (inr (last, failed)) = absurd (ground (arith, e, failed))
        go later (ok sql) c' e (inl le') =
            let few : c'.generations ≤ k = ground (arith, e, le') in
            elim (Result-cases (a.run_select (length c'.executed) sql)) [
              | inl (rows, fine) ↦
                  subst (StopsThere {A = Text × List SelectRow}) {x = (ok (sql, rows), ran sql c')}
                    {y = execute_sql a (suc left) c} (ground (arith, e, fine)) (inl few)
              | inr (x, bad) ↦
                  elim (Bool-cases (is_retryable_execution_error x && not (left == 0))) [
                    | inr last ↦
                        subst (StopsThere {A = Text × List SelectRow})
                          {x = (err (execution_failed x), ran sql c')}
                          {y = execute_sql a (suc left) c} (ground (arith, e, bad, last)) (inl few)
                    | inl more ↦
                        subst (StopsThere {A = Text × List SelectRow})
                          {x = execute_sql a left (retried sql x (ran sql c'))}
                          {y = execute_sql a (suc left) c} (ground (arith, e, bad, more))
                          (later (retried sql x (ran sql c')) few)
                  ]
            ]

    run_and_log-StopsThere : (c : Chat) → c.generations ≤ k → StopsThere (run_and_log a c)
    unfolding run_and_log
    run_and_log-StopsThere c le =
        go (execute_sql a 2 c).0 (execute_sql a 2 c).1 refl (execute_sql-StopsThere 2 c le)
      where
        go :
            (r : Result ChatFault (Text × List SelectRow)) (c' : Chat)
            → execute_sql a 2 c ≡ (r, c')
            → StopsThere (execute_sql a 2 c)
            → StopsThere (run_and_log a c)
        go (err x) c' e (inl le') =
            subst (StopsThere {A = Answer}) {x = (err x, c')} {y = run_and_log a c}
              (ground (arith, e)) (inl (ground (arith, e, le')))
        go (err x) c' e (inr (last, failed)) =
            subst (StopsThere {A = Answer}) {x = (err x, c')} {y = run_and_log a c}
              (ground (arith, e)) (inr (ground (arith, e, last), ground (arith, e, failed)))
        go (ok (sql, rows)) c' e (inr (last, failed)) = absurd (ground (arith, e, failed))
        go (ok (sql, rows)) c' e (inl le') = elim (Bool-cases a.log_fails) [
          | inl fails ↦ inl (ground (arith, e, fails, le'))
          | inr fine ↦ inl (ground (arith, e, fine, le'))
        ]

    -- Where whatever the model answers to its `k`-th call (from 0 on, over both loops and their correction
    -- prompts) does not parse, a question either ends without that call, or that call is its last one and
    -- it ends with the error of sqlglot.
    pub answer_question-StopsThere : (llm : Llm) → StopsThere (answer_question a llm)
    unfolding answer_question
    answer_question-StopsThere llm =
        let loaded = ensure_pyfunc_loaded a llm in
        elim (Bool-cases loaded.is_loaded) [
          | inr not_loaded ↦
              subst (StopsThere {A = Answer}) {x = (err model_unavailable, asked loaded)}
                {y = answer_question a llm} (ground (arith, not_loaded)) (inl (omega arith))
          | inl ready ↦ elim (Bool-cases a.rag_fails) [
            | inl fails ↦
                subst (StopsThere {A = Answer}) {x = (err rag_failed, asked loaded)}
                  {y = answer_question a llm} (ground (arith, ready, fails)) (inl (omega arith))
            | inr found ↦
                subst (StopsThere {A = Answer}) {x = run_and_log a (asked loaded)}
                  {y = answer_question a llm} (ground (arith, ready, found))
                  (run_and_log-StopsThere (asked loaded) (omega arith))
          ]
        ]
