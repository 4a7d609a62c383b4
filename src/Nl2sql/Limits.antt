-- ===== src/Nl2sql/Limits.antt =====
-- How often a question is put to the model and to the database, and what the database is given.
use data_ops_showcase.Prelude.{
  length-append, not, ◌&&◌, sym, ◌*◌, [], length, ◌∷◌, ◌++◌, err, ◌==◌, Bool-cases, subst,
  Result-cases, refl, inr, zero, inl, Option-cases, ◌+◌, ◌≤◌, ok, suc, ◌≡◌, All, arith, Text,
  Result, ℕ, List,
}
use data_ops_showcase.Nl2sql.{parse_error, value_error, validate_sql}
use data_ops_showcase.Nl2sql.Whitelist.{IsSafe, validate_sql-IsSafe}
use data_ops_showcase.Nl2sql.Chain.{
  asked, ensure_pyfunc_loaded, Llm, answer_question, run_and_log, retried, execution_failed,
  SelectRow, is_retryable_execution_error, ran, validation_failed, sqlglot_error, generation_failed,
  execute_sql, Answers, Chat, ChatFault, generate_sql, corrected, asked_once,
}

module _ (a : Answers) where
  abbrev pub AllSafe : List Text → Type 0
  AllSafe = All (IsSafe a.parse_one)

  -- What the validation attempts leave behind.
  record Asked (left : ℕ) (c : Chat) (p : Result ChatFault Text × Chat) : Type 0 where
    executes_none : p.1.executed ≡ c.executed
    asks : p.1.generations ≤ c.generations + left

  Asked-generate_sql : (left : ℕ) (c : Chat) → Asked left c (generate_sql a left c)
  unfolding generate_sql
  Asked-generate_sql zero c = record { executes_none = refl; asks = omega arith }
  Asked-generate_sql (suc left) c = elim (Option-cases (a.generate c.generations c.prompt)) [
    | inl fails ↦ stop (generation_failed) (ground (arith, fails))
    | inr (raw, generated) ↦ elim (Result-cases (validate_sql a.parse_one raw)) [
      | inl (valid, fine) ↦
          subst (Asked (suc left) c) {x = (ok valid, asked_once c)}
            {y = generate_sql a (suc left) c} (ground (arith, generated, fine))
            (record { executes_none = refl; asks = omega arith })
      | inr (parse_error, bad) ↦ stop sqlglot_error (ground (arith, generated, bad))
      | inr (value_error v, bad) ↦ elim (Bool-cases (left == 0)) [
        | inl last ↦ stop (validation_failed v) (ground (arith, generated, bad, last))
        | inr more ↦
            let rest = Asked-generate_sql left (corrected raw v (asked_once c)) in
            subst (Asked (suc left) c) {x = generate_sql a left (corrected raw v (asked_once c))}
              {y = generate_sql a (suc left) c} (ground (arith, generated, bad, more))
              (record { executes_none = rest.executes_none; asks = omega (arith, rest.asks) })
      ]
    ]
  ]
    where
      stop :
          (x : ChatFault)
          → (err x, asked_once c) ≡ generate_sql a (suc left) c
          → Asked (suc left) c (generate_sql a (suc left) c)
      stop x e =
          subst (Asked (suc left) c) {x = (err x, asked_once c)} {y = generate_sql a (suc left) c} e
            (record { executes_none = refl; asks = omega arith })

  generate_sql-IsSafe :
      (left : ℕ) (c c' : Chat) (sql : Text)
      → generate_sql a left c ≡ (ok sql, c')
      → IsSafe a.parse_one sql
  unfolding generate_sql
  generate_sql-IsSafe zero c c' sql h = absurd (ground arith)
  generate_sql-IsSafe (suc left) c c' sql h =
      elim (Option-cases (a.generate c.generations c.prompt)) [
        | inl fails ↦ absurd (ground (arith, fails, h))
        | inr (raw, generated) ↦ elim (Result-cases (validate_sql a.parse_one raw)) [
          | inl (valid, fine) ↦
              subst (IsSafe a.parse_one) {x = valid} {y = sql} (ground (arith, generated, fine, h))
                (validate_sql-IsSafe a.parse_one raw valid fine)
          | inr (parse_error, bad) ↦ absurd (ground (arith, generated, bad, h))
          | inr (value_error v, bad) ↦ elim (Bool-cases (left == 0)) [
            | inl last ↦ absurd (ground (arith, generated, bad, last, h))
            | inr more ↦
                generate_sql-IsSafe left (corrected raw v (asked_once c)) c' sql
                  (ground (arith, generated, bad, more, h))
          ]
        ]
      ]

  -- What the execution attempts leave behind.
  record Ran (left : ℕ) (c : Chat) (p : Result ChatFault (Text × List SelectRow) × Chat)
      : Type 0 where
    executes : length p.1.executed ≤ length c.executed + left
    asks : p.1.generations ≤ c.generations + 2 * left
    keeps_safe : AllSafe p.1.executed

  All-append_one :
      (t : List Text) (sql : Text) → AllSafe t → IsSafe a.parse_one sql → AllSafe (t ++ sql ∷ [])
  All-append_one [] sql h here = (here, tt)
  All-append_one (x ∷ t) sql (first, h) here = (first, All-append_one t sql h here)

  Ran-execute_sql : (left : ℕ) (c : Chat) → AllSafe c.executed → Ran left c (execute_sql a left c)
  unfolding execute_sql
  Ran-execute_sql zero c safe = record {
    executes = omega arith;
    asks = omega arith;
    keeps_safe = safe;
  }
  Ran-execute_sql (suc left) c safe =
      go (λ d. Ran-execute_sql left d) (generate_sql a 2 c).0 (generate_sql a 2 c).1 refl
    where
      ended :
          (c' : Chat) (sql : Text) {r : Result ChatFault Text}
          {q : Result ChatFault (Text × List SelectRow)}
          → Asked 2 c (r, c')
          → AllSafe (ran sql c').executed
          → Ran (suc left) c (q, ran sql c')
      ended c' sql asked' safe' = record {
        executes = ground (arith, asked'.executes_none, length-append c'.executed (sql ∷ []));
        asks = omega (arith, asked'.asks);
        keeps_safe = safe';
      }

      go :
          ((d : Chat) → AllSafe d.executed → Ran left d (execute_sql a left d))
          → (r : Result ChatFault Text) (c' : Chat) → generate_sql a 2 c ≡ (r, c')
          → Ran (suc left) c (execute_sql a (suc left) c)
      go later (err x) c' e =
          let asked' = subst (Asked 2 c) e (Asked-generate_sql 2 c) in
          subst (Ran (suc left) c) {x = (err x, c')} {y = execute_sql a (suc left) c}
            (ground (arith, e))
            (record {
              executes = ground (arith, asked'.executes_none);
              asks = omega (arith, asked'.asks);
              keeps_safe = subst AllSafe (sym asked'.executes_none) safe;
            })
      go later (ok sql) c' e =
          let asked' = subst (Asked 2 c) e (Asked-generate_sql 2 c) in
          let safe' : AllSafe (ran sql c').executed =
            All-append_one c'.executed sql (subst AllSafe (sym asked'.executes_none) safe)
              (generate_sql-IsSafe 2 c c' sql e) in
          elim (Result-cases (a.run_select (length c'.executed) sql)) [
            | inl (rows, fine) ↦
                subst (Ran (suc left) c) {x = (ok (sql, rows), ran sql c')}
                  {y = execute_sql a (suc left) c} (ground (arith, e, fine))
                  (ended c' sql asked' safe')
            | inr (x, bad) ↦ elim (Bool-cases (is_retryable_execution_error x && not (left == 0))) [
              | inr last ↦
                  subst (Ran (suc left) c) {x = (err (execution_failed x), ran sql c')}
                    {y = execute_sql a (suc left) c} (ground (arith, e, bad, last))
                    (ended c' sql asked' safe')
              | inl more ↦
                  let rest = later (retried sql x (ran sql c')) safe' in
                  subst (Ran (suc left) c) {x = execute_sql a left (retried sql x (ran sql c'))}
                    {y = execute_sql a (suc left) c} (ground (arith, e, bad, more))
                    (record {
                      executes = ground (
                        arith,
                        rest.executes,
                        asked'.executes_none,
                        length-append c'.executed (sql ∷ []),
                      );
                      asks = omega (arith, rest.asks, asked'.asks);
                      keeps_safe = rest.keeps_safe;
                    })
            ]
          ]

  run_and_log_lem : (c : Chat) → (run_and_log a c).1 ≡ (execute_sql a 2 c).1
  unfolding run_and_log
  run_and_log_lem c = go (execute_sql a 2 c).0 (execute_sql a 2 c).1 refl
    where
      go :
          (r : Result ChatFault (Text × List SelectRow)) (c' : Chat)
          → execute_sql a 2 c ≡ (r, c')
          → (run_and_log a c).1 ≡ (execute_sql a 2 c).1
      go (err x) c' e = ground (arith, e)
      go (ok (sql, rows)) c' e = elim (Bool-cases a.log_fails) [
        | inl fails ↦ ground (arith, e, fails)
        | inr fine ↦ ground (arith, e, fine)
      ]

  abbrev WithinLimits : Chat → Type 0
  WithinLimits c = (c.generations ≤ 4) × (length c.executed ≤ 2) × AllSafe c.executed

  -- A question is put to the model at most four times and to the database at most twice, and every text
  -- that the database is given is, up to an appended limit, one that parses as a SELECT of allowed
  -- tables in which no blocked word occurs.
  pub answer_question-AllSafe :
      (llm : Llm)
      → ((answer_question a llm).1.generations ≤ 4)
        × (length (answer_question a llm).1.executed ≤ 2)
        × AllSafe (answer_question a llm).1.executed
  unfolding answer_question
  answer_question-AllSafe llm =
      let loaded = ensure_pyfunc_loaded a llm in
      elim (Bool-cases loaded.is_loaded) [
        | inr not_loaded ↦
            subst WithinLimits {x = asked loaded} {y = (answer_question a llm).1}
              (ground (arith, not_loaded)) (omega arith, omega arith, tt)
        | inl ready ↦ elim (Bool-cases a.rag_fails) [
          | inl fails ↦
              subst WithinLimits {x = asked loaded} {y = (answer_question a llm).1}
                (ground (arith, ready, fails)) (omega arith, omega arith, tt)
          | inr found ↦
              let r = Ran-execute_sql 2 (asked loaded) tt in
              subst WithinLimits {x = (execute_sql a 2 (asked loaded)).1}
                {y = (answer_question a llm).1}
                (ground (arith, ready, found, run_and_log_lem (asked loaded)))
                (omega (arith, r.asks), omega (arith, r.executes), r.keeps_safe)
        ]
      ]
