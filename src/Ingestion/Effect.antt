-- ===== src/Ingestion/Effect.antt =====
-- What one run of `consume_topic` does to the table and to the watermarks, on every path.
use data_ops_showcase.Exec.{handle, raise, ◌>>◌}
use data_ops_showcase.Runs.{text, start_run, Finish}
use data_ops_showcase.Storage.Insert.{bulk_insert-do_nothing, add_missing}
use data_ops_showcase.Prelude.Dict.{nat_key, merge, Dict}
use data_ops_showcase.Watermarks.{get_kafka_offsets, set_kafka_offsets, Watermarks, OffsetsText}
use data_ops_showcase.Kafka.{KafkaMessage, fetch, MicroBatchResult, Consumer, Codec}
use data_ops_showcase.Prelude.{
  err, Result, false, refl, true, [], ◌∷◌, Option-cases, Bool, Result-cases, ok, inr, arith, some,
  inl, Bool-cases, subst₂, Option, String, ◌≡◌, flatten, List, ℕ,
}
use data_ops_showcase.Ingestion.{
  attempt, resolve_topic, consume_topic, failure, Stats, finish, Fault, on_batch, consume_body,
  row_key_key, build_rows, connected, row_key, store_batch, Store, Row, Env, Task,
}

abbrev pub IsCut : {R : Type 0} → (ℕ → List R → List (List R)) → Type 0
IsCut {R} paginate = (size : ℕ) (rows : List R) → flatten (paginate size rows) ≡ rows

module _ {V C : Type 0} (codec : Codec V) (offsets_text : OffsetsText) (task : Task V C) (env : Env)
    (topic : String) where
  -- The values that a run with a batch has computed before it writes.
  pub record Fetched (w : Watermarks) : Type 0 where
    pub offsets : Dict ℕ ℕ
    pub consumer : Option Consumer
    pub batch : MicroBatchResult V
    pub rows : List (Row C)
    pub read : get_kafka_offsets offsets_text task.pipeline_name w ≡ some offsets
    pub connects : connected env topic offsets ≡ ok consumer
    pub fetched : fetch codec task.limits env.poll consumer ≡ ok batch
    pub built : build_rows task.record_builder batch.messages ≡ ok rows

  -- The table and the watermarks after a run that began in `s`.
  pub data Effect (t : List (Row C)) (w : Watermarks) : List (Row C) → Watermarks → Type 0 where
    unchanged : Effect t w t w
    inserted : (f : Fetched w) → Effect t w (add_missing row_key f.rows t) w
    advanced :
        (f : Fetched w) (n : ℕ)
        → Effect t w (add_missing row_key f.rows t) (
            set_kafka_offsets offsets_text task.pipeline_name
              (merge f.offsets f.batch.last_offsets)
              (some n)
              w)

  abbrev pub EffectOf : Store C → Store C → Type 0
  EffectOf s s' = Effect s.rows s.watermarks s'.rows s'.watermarks

  Effect-of :
      {t rows rows' : List (Row C)} {v w w' : Watermarks}
      → Effect t v rows w
      → rows ≡ rows'
      → w ≡ w'
      → Effect t v rows' w'
  Effect-of {t} {v} e p q = subst₂ (Effect t v) p q e

  module _ (paginate : ℕ → List (Row C) → List (List (Row C))) (cut : IsCut paginate) where
    store_batch-Effect :
        (run_id : ℕ) (s : Store C) (f : Fetched s.watermarks)
        → EffectOf s
            (store_batch codec offsets_text paginate task env topic run_id f.consumer f.offsets
              f.batch s).1
    unfolding store_batch
    store_batch-Effect run_id s f =
        let (n, e) = bulk_insert-do_nothing row_key paginate cut 1000 f.rows s.rows in
        elim (Bool-cases env.insert_fails) [
          | inl fails ↦
              Effect-of unchanged (ground (arith, f.built, fails)) (ground (arith, f.built, fails))
          | inr runs ↦ elim (Bool-cases env.watermark_fails) [
            | inl fails ↦
                Effect-of (inserted f) (ground (arith, f.built, runs, fails, e))
                  (ground (arith, f.built, runs, fails, e))
            | inr writes ↦
                Effect-of (advanced f n) (ground (arith, f.built, runs, writes, e))
                  (ground (arith, f.built, runs, writes, e))
          ]
        ]

    -- Building the rows may raise; then nothing is written.
    store_batch_built :
        (run_id : ℕ) (s : Store C) (consumer : Option Consumer) (offsets : Dict ℕ ℕ)
        (batch : MicroBatchResult V)
        → get_kafka_offsets offsets_text task.pipeline_name s.watermarks ≡ some offsets
        → connected env topic offsets ≡ ok consumer
        → fetch codec task.limits env.poll consumer ≡ ok batch
        → EffectOf s
            (store_batch codec offsets_text paginate task env topic run_id consumer offsets batch
              s).1
    store_batch_built run_id s consumer offsets batch r c f =
        elim (Result-cases (build_rows task.record_builder batch.messages)) [
          | inl (rows, b) ↦ store_batch-Effect run_id s (record {
            offsets = offsets;
            consumer = consumer;
            batch = batch;
            rows = rows;
            read = r;
            connects = c;
            fetched = f;
            built = b;
          })
          | inr (x, b) ↦
              unfold store_batch in Effect-of unchanged (ground (arith, b)) (ground (arith, b))
        ]

    finish-Effect :
        (fails : Bool) (run_id : ℕ) (f : Finish Fault) (s s' : Store C)
        → EffectOf s s'
        → EffectOf s (finish fails run_id f s').1
    finish-Effect true run_id f s s' e = e
    finish-Effect false run_id f s s' e = e

    on_batch-Effect :
        (run_id : ℕ) (s : Store C) (consumer : Option Consumer) (offsets : Dict ℕ ℕ)
        (batch : MicroBatchResult V)
        → get_kafka_offsets offsets_text task.pipeline_name s.watermarks ≡ some offsets
        → connected env topic offsets ≡ ok consumer
        → fetch codec task.limits env.poll consumer ≡ ok batch
        → EffectOf s
            (on_batch codec offsets_text paginate task env topic run_id consumer offsets batch s).1
    unfolding on_batch
    on_batch-Effect run_id s consumer offsets batch r c f = go batch.messages refl
      where
        go :
            (ms : List (KafkaMessage V))
            → batch.messages ≡ ms
            → EffectOf s
                (on_batch codec offsets_text paginate task env topic run_id consumer offsets batch
                  s).1
        go [] e = Effect-of unchanged (ground (arith, e)) (ground (arith, e))
        go (m ∷ ms) e = rw (e, on_batch) (store_batch_built run_id s consumer offsets batch r c f)

    consume_body-Effect :
        (run_id : ℕ) (s : Store C)
        → EffectOf s (consume_body codec offsets_text paginate task env topic run_id s).1
    unfolding consume_body
    consume_body-Effect run_id s = elim (Bool-cases env.read_fails) [
      | inl fails ↦ Effect-of unchanged (ground (arith, fails)) (ground (arith, fails))
      | inr reads ↦
          elim (Option-cases (get_kafka_offsets offsets_text task.pipeline_name s.watermarks)) [
            | inl bad ↦
                Effect-of unchanged (ground (arith, reads, bad)) (ground (arith, reads, bad))
            | inr (offsets, r) ↦ elim (Result-cases (connected env topic offsets)) [
              | inr (x, c) ↦
                  Effect-of unchanged (ground (arith, reads, r, c)) (ground (arith, reads, r, c))
              | inl (consumer, c) ↦
                  elim (Result-cases (fetch codec task.limits env.poll consumer)) [
                    | inr (x, f) ↦
                        Effect-of unchanged (ground (arith, reads, r, c, f))
                          (ground (arith, reads, r, c, f))
                    | inl (batch, f) ↦
                        Effect-of (on_batch-Effect run_id s consumer offsets batch r c f)
                          (ground (arith, reads, r, c, f)) (ground (arith, reads, r, c, f))
                  ]
            ]
          ]
    ]

    finish-raise-Effect :
        (fails : Bool) (run_id : ℕ) (x : Fault) (s s' : Store C)
        → EffectOf s s'
        → EffectOf s ((finish fails run_id (failure x) >> raise {A = Stats} x) s').1
    finish-raise-Effect true run_id x s s' e = e
    finish-raise-Effect false run_id x s s' e = e

    attempt-Effect :
        (run_id : ℕ) (s : Store C)
        → EffectOf s (attempt codec offsets_text paginate task env topic run_id s).1
    unfolding attempt
    attempt-Effect run_id s =
        go (consume_body codec offsets_text paginate task env topic run_id s)
          (consume_body-Effect run_id s)
      where
        go :
            (r : Result Fault Stats × Store C)
            → EffectOf s r.1
            → EffectOf s
                (handle
                  (λ x. finish env.finish_failed_fails run_id (failure x) >> raise x)
                  r.0
                  r.1).1
        go (ok a, s') e = e
        go (err x, s') e = finish-raise-Effect env.finish_failed_fails run_id x s s' e

    -- Whatever fails, a run leaves the table and the watermarks in one of three ways: unchanged, with
    -- the batch's rows added, or with the rows added and the watermark advanced.
    pub consume_topic-Effect :
        (s : Store C)
        → resolve_topic env.topic ≡ ok topic
        → EffectOf s (consume_topic codec offsets_text paginate task env s).1
    unfolding consume_topic
    consume_topic-Effect s named = elim (Bool-cases env.start_fails) [
      | inl fails ↦
          Effect-of unchanged (ground (arith, named, fails)) (ground (arith, named, fails))
      | inr starts ↦
          let begun =
            start_run task.dag_id task.task_id (some task.source) (some "ingestion")
              (("topic", text topic) ∷ ("group_id", text task.group_id) ∷ []) s.ledger in
          let s1 : Store C = record s { ledger = begun.1 } in
          Effect-of (attempt-Effect begun.0 s1) (ground (arith, named, starts))
            (ground (arith, named, starts))
    ]
