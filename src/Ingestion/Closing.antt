-- ===== src/Ingestion/Closing.antt =====
-- The ledger of runs under `consume_topic`: what each path writes to the row of its run.
use data_ops_showcase.Runs.Rows.{statuses-finish_run, statuses, IsSerial}
use data_ops_showcase.Exec.{raise, ◌>>◌, handle}
use data_ops_showcase.Storage.{do_nothing, bulk_insert}
use data_ops_showcase.Prelude.Dict.{nat_key, merge, Dict}
use data_ops_showcase.Watermarks.{get_kafka_offsets, OffsetsText}
use data_ops_showcase.Runs.{start_run, text, Payload, finish_run, Finish, Ledger}
use data_ops_showcase.Kafka.{fetch, KafkaMessage, commit_offsets, MicroBatchResult, Consumer, Codec}
use data_ops_showcase.Prelude.{
  append-nil, some, [], ◌++◌, ◌∷◌, none, refl, Option-cases, Bool-cases, inl, arith, inr,
  Result-cases, Option, false, ok, subst₂, String, err, ◌≡◌, Result, List, ℕ,
}
use data_ops_showcase.Ingestion.{
  connected, bad_watermark, failure, batch_finish, resolve_topic, finish, batch_stats,
  consume_topic, attempt, consume_body, on_batch, row_key_key, success, kafka, row_key, database,
  build_rows, store_batch, Env, Store, Stats, Row, Fault, Task,
}

abbrev pub verdict : Result Fault Stats → String
verdict (ok stats) = "success"
verdict (err e) = "failed"

-- What the body of the `try` does to the ledger: the success row is its last write.
data LedgerEffect (id : ℕ) (l : Ledger Fault) : Result Fault Stats → Ledger Fault → Type 0 where
  raises : (e : Fault) → LedgerEffect id l (err e) l
  closes :
      (a : Stats) (f : Finish Fault)
      → f.status ≡ "success"
      → LedgerEffect id l (ok a) (finish_run id f l)

-- A run that ended with one write of its row, whose status is the run's verdict.
record Closed {C : Type 0} (id : ℕ) (l : Ledger Fault) (r : Result Fault Stats × Store C)
    : Type 0 where
  write : Finish Fault
  wrote : r.1.ledger ≡ finish_run id write l
  agrees : write.status ≡ verdict r.0

abbrev LedgerEffectOf : {C : Type 0} → ℕ → Ledger Fault → Result Fault Stats × Store C → Type 0
LedgerEffectOf id l r = LedgerEffect id l r.0 r.1.ledger

LedgerEffect-of :
    {id : ℕ} {l l' l'' : Ledger Fault} {r r' : Result Fault Stats}
    → LedgerEffect id l r l'
    → r ≡ r'
    → l' ≡ l''
    → LedgerEffect id l r' l''
LedgerEffect-of {id} {l} e p q = subst₂ (LedgerEffect id l) p q e

module _ {V C : Type 0} (codec : Codec V) (offsets_text : OffsetsText)
    (paginate : ℕ → List (Row C) → List (List (Row C))) (task : Task V C) (env : Env)
    (topic : String) (finishes : env.finish_fails ≡ false) where
  -- Every value that the blocks bind is split on, with the writes left shut.
  store_batch-LedgerEffect :
      (id : ℕ) (s : Store C) (consumer : Option Consumer) (offsets : Dict ℕ ℕ)
      (batch : MicroBatchResult V)
      → LedgerEffectOf id s.ledger
          (store_batch codec offsets_text paginate task env topic id consumer offsets batch s)
  unfolding store_batch
  store_batch-LedgerEffect id s consumer offsets batch =
      elim (Result-cases (build_rows task.record_builder batch.messages)) [
        | inr (x, b) ↦ LedgerEffect-of (raises x) (ground (arith, b)) (ground (arith, b))
        | inl (rows, b) ↦ elim (Bool-cases env.insert_fails) [
          | inl fails ↦
              LedgerEffect-of (raises database) (ground (arith, b, fails))
                (ground (arith, b, fails))
          | inr runs ↦
              elim (Option-cases (bulk_insert row_key paginate 1000 do_nothing rows s.rows)) [
                | inl bad ↦
                    LedgerEffect-of (raises database) (ground (arith, b, runs, bad))
                      (ground (arith, b, runs, bad))
                | inr ((t, n), e) ↦ elim (Bool-cases env.watermark_fails) [
                  | inl fails ↦
                      LedgerEffect-of (raises database) (ground (arith, b, runs, e, fails))
                        (ground (arith, b, runs, e, fails))
                  | inr writes ↦
                      elim (Result-cases (commit_offsets consumer env.commit batch.last_offsets)) [
                        | inr (x, c) ↦
                            LedgerEffect-of (raises (kafka x))
                              (ground (arith, b, runs, e, writes, c))
                              (ground (arith, b, runs, e, writes, c))
                        | inl (done, c) ↦
                            LedgerEffect-of
                              (closes (batch_stats topic batch (merge offsets batch.last_offsets) n)
                                (batch_finish batch rows (merge offsets batch.last_offsets) n) refl)
                              (ground (arith, b, runs, e, writes, c, finishes))
                              (ground (arith, b, runs, e, writes, c, finishes))
                      ]
                ]
              ]
        ]
      ]

  on_batch-LedgerEffect :
      (id : ℕ) (s : Store C) (consumer : Option Consumer) (offsets : Dict ℕ ℕ)
      (batch : MicroBatchResult V)
      → LedgerEffectOf id s.ledger
          (on_batch codec offsets_text paginate task env topic id consumer offsets batch s)
  unfolding on_batch
  on_batch-LedgerEffect id s consumer offsets batch = go batch.messages refl
    where
      go :
          (ms : List (KafkaMessage V))
          → batch.messages ≡ ms
          → LedgerEffectOf id s.ledger
              (on_batch codec offsets_text paginate task env topic id consumer offsets batch s)
      go [] e =
          LedgerEffect-of
            (closes
              (record { topic = topic; messages = 0; offsets = offsets; rows_inserted = none })
              (success 0 0 []) refl)
            (ground (arith, e, finishes)) (ground (arith, e, finishes))
      go (m ∷ ms) e = rw (e, on_batch) (store_batch-LedgerEffect id s consumer offsets batch)

  consume_body-LedgerEffect :
      (id : ℕ) (s : Store C)
      → LedgerEffectOf id s.ledger (consume_body codec offsets_text paginate task env topic id s)
  unfolding consume_body
  consume_body-LedgerEffect id s = elim (Bool-cases env.read_fails) [
    | inl fails ↦ LedgerEffect-of (raises database) (ground (arith, fails)) (ground (arith, fails))
    | inr reads ↦
        elim (Option-cases (get_kafka_offsets offsets_text task.pipeline_name s.watermarks)) [
          | inl bad ↦
              LedgerEffect-of (raises bad_watermark) (ground (arith, reads, bad))
                (ground (arith, reads, bad))
          | inr (offsets, r) ↦ elim (Result-cases (connected env topic offsets)) [
            | inr (x, c) ↦
                LedgerEffect-of (raises (kafka x)) (ground (arith, reads, r, c))
                  (ground (arith, reads, r, c))
            | inl (consumer, c) ↦ elim (Result-cases (fetch codec task.limits env.poll consumer)) [
              | inr (x, f) ↦
                  LedgerEffect-of (raises (kafka x)) (ground (arith, reads, r, c, f))
                    (ground (arith, reads, r, c, f))
              | inl (batch, f) ↦
                  LedgerEffect-of (on_batch-LedgerEffect id s consumer offsets batch)
                    (ground (arith, reads, r, c, f)) (ground (arith, reads, r, c, f))
            ]
          ]
        ]
  ]

  module _ (reports : env.finish_failed_fails ≡ false) where
    handled :
        (id : ℕ) {l l' : Ledger Fault} {r : Result Fault Stats}
        → LedgerEffect id l r l'
        → (s' : Store C) → s'.ledger ≡ l'
        → Closed id l (handle (λ x. finish env.finish_failed_fails id (failure x) >> raise x) r s')
    handled id (raises x) s' q = record {
      write = failure x;
      wrote = ground (arith, reports, q);
      agrees = ground (arith, reports);
    }
    handled id (closes a f fine) s' q = record { write = f; wrote = q; agrees = fine }

    -- The attempt ends with one `finish_run`, whose status says whether it raised.
    attempt-Closed :
        (id : ℕ) (s : Store C)
        → Closed id s.ledger (attempt codec offsets_text paginate task env topic id s)
    unfolding attempt
    attempt-Closed id s =
        handled id (consume_body-LedgerEffect id s)
          (consume_body codec offsets_text paginate task env topic id s).1 refl

    named_closes_run :
        (s : Store C)
        → resolve_topic env.topic ≡ ok topic
        → env.start_fails ≡ false
        → IsSerial s.ledger
        → statuses (consume_topic codec offsets_text paginate task env s).1.ledger.runs
          ≡ statuses s.ledger.runs
            ++ verdict (consume_topic codec offsets_text paginate task env s).0 ∷ []
    unfolding consume_topic
    named_closes_run s named starts serial =
        let payload : Payload = ("topic", text topic) ∷ ("group_id", text task.group_id) ∷ [] in
        let begun =
          start_run task.dag_id task.task_id (some task.source) (some "ingestion") payload
            s.ledger in
        let s1 : Store C = record s { ledger = begun.1 } in
        let c = attempt-Closed begun.0 s1 in
        let e =
          statuses-finish_run task.dag_id task.task_id (some task.source) (some "ingestion") payload
            c.write s.ledger serial in
        ground (arith, named, starts, c.wrote, c.agrees, e)

-- The rows that a run adds: none where it has no topic and raises before `start_run`.
abbrev pub closing : Result Fault String → Result Fault Stats → List String
closing (ok topic) r = verdict r ∷ []
closing (err e) r = []

-- Where the database accepts the writes to the ledger, and the rows of the ledger have the ids of a serial
-- column, a run with a topic adds one row, whose status is "success" if the run returned and "failed" if
-- it raised, and a run whose topic is missing adds none; the other rows keep their status.
pub consume_topic-closes_run :
    {V C : Type 0} (codec : Codec V) (offsets_text : OffsetsText)
    (paginate : ℕ → List (Row C) → List (List (Row C))) (task : Task V C) (env : Env) (s : Store C)
    → env.start_fails ≡ false
    → env.finish_fails ≡ false
    → env.finish_failed_fails ≡ false
    → IsSerial s.ledger
    → statuses (consume_topic codec offsets_text paginate task env s).1.ledger.runs
      ≡ statuses s.ledger.runs
        ++ closing
            (resolve_topic env.topic)
            (consume_topic codec offsets_text paginate task env s).0
unfolding consume_topic
consume_topic-closes_run {V} {C} codec offsets_text paginate task env s starts finishes reports
      serial =
    elim (Result-cases (resolve_topic env.topic)) [
      | inl (topic, named) ↦ ground (
        arith,
        named,
        named_closes_run codec offsets_text paginate task env topic finishes reports s named starts
            serial,
      )
      | inr (x, missing) ↦ ground (arith, missing, append-nil (statuses s.ledger.runs))
    ]
