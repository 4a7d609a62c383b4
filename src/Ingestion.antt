-- ===== src/Ingestion.antt =====
-- pipelines/dags/ingestion/_kafka_common.py: `consume_topic`, one micro-batch run from Kafka into a
-- raw table. The store is what the DWH holds: the table, the watermarks and the ledger of runs. What
-- the world outside answers in a run is `Env`. The two blocks that only push metrics swallow their
-- exceptions and change no table; they are left out, as are the log lines.
pub mod Effect
pub mod Broker
pub mod NoLoss
pub mod Starvation
pub mod Closing
mod Sample
mod Tests
use data_ops_showcase.Storage.{do_nothing, bulk_insert}
use data_ops_showcase.Runs.{
  number, offset_map, text, start_run, finish_run, Finish, Payload, Ledger,
}
use data_ops_showcase.Exec.{raise, try_except, lift, ◌>>=◌, ◌>>◌, pure, Exec}
use data_ops_showcase.Watermarks.{get_kafka_offsets, set_kafka_offsets, OffsetsText, Watermarks}
use data_ops_showcase.Prelude.{
  length, false, str_eq_iff, [], arith, ◌==◌, if◌then◌else◌, none, ◌∷◌, ◌↔◌, some, ◌&&◌, str_eq, ok,
  true, err, List, Result, Option, ◌≡◌, Bool, String, ℕ,
}
use data_ops_showcase.Prelude.Dict.{merge, Dict, Key, nat_key, string_key}
use data_ops_showcase.Kafka.{
  commit_offsets, fetch, enter, seek_to_offsets, MicroBatchResult, Codec, Consumer, CommitReply,
  Limits, RawMessage, KafkaMessage, KafkaFault,
}

-- A row of a raw table: the key of `ON CONFLICT (topic, partition_id, kafka_offset)`, and the rest.
pub record Row (C : Type 0) : Type 0 where
  pub topic : String
  pub partition_id : ℕ
  pub kafka_offset : ℕ
  pub columns : C

pub record RowKey : Type 0 where
  pub topic : String
  pub partition_id : ℕ
  pub kafka_offset : ℕ

abbrev pub row_key : {C : Type 0} → Row C → RowKey
row_key r = record { topic = r.topic; partition_id = r.partition_id; kafka_offset = r.kafka_offset }

abbrev same_row : RowKey → RowKey → Bool
same_row a b =
    str_eq a.topic b.topic && (a.partition_id == b.partition_id && a.kafka_offset == b.kafka_offset)

pub same_row_iff : (a b : RowKey) → (same_row a b ≡ true) ↔ (a ≡ b)
same_row_iff a b = ground (arith, str_eq_iff a.topic b.topic)

instance abbrev pub row_key_key : Key RowKey
row_key_key = record { same = same_row; same_iff = same_row_iff }

pub data Fault : Type 0 where
  missing_topic : Fault  -- RuntimeError("env ... is not configured")
  bad_watermark : Fault
  kafka : KafkaFault → Fault
  builder_error : Fault  -- an exception of the record builder
  database : Fault

pub record Store (C : Type 0) : Type 0 where
  pub rows : List (Row C)
  pub watermarks : Watermarks
  pub ledger : Ledger Fault

-- The arguments of `consume_topic`, with what it takes from the configuration.
pub record Task (V C : Type 0) : Type 0 where
  pub dag_id : String
  pub task_id : String
  pub pipeline_name : String
  pub source : String
  pub group_id : String
  pub limits : Limits
  pub record_builder : KafkaMessage V → Result Fault (Option (Row C))

-- What the outside answers in one run. A Boolean says whether the database raises in that call.
pub record Env : Type 0 where
  pub topic : Option String  -- os.environ.get(topic_env)
  pub connect : Option KafkaFault  -- raised by `__enter__` or `seek_to_offsets`
  pub poll : ℕ → Option RawMessage
  pub commit : CommitReply
  pub start_fails : Bool
  pub read_fails : Bool
  pub insert_fails : Bool
  pub watermark_fails : Bool
  pub finish_fails : Bool
  pub finish_failed_fails : Bool  -- of the `finish_run` in the handler

pub record Stats : Type 0 where
  pub topic : String
  pub messages : ℕ
  pub offsets : Dict ℕ ℕ
  pub rows_inserted : Option ℕ

-- `os.environ[...]`, where an empty value counts as missing
pub resolve_topic : Option String → Result Fault String
resolve_topic none = err missing_topic
resolve_topic (some topic) = if str_eq topic "" then err missing_topic else ok topic

module _ {V C : Type 0} where
  -- for msg in batch.messages: built = record_builder(msg); if built is not None: rows.append(built)
  pub build_rows :
      (KafkaMessage V → Result Fault (Option (Row C)))
      → List (KafkaMessage V)
      → Result Fault (List (Row C))
  build_rows builder [] = ok []
  build_rows builder (m ∷ ms) = elim (builder m) [
    | err e ↦ err e
    | ok built ↦ elim (build_rows builder ms) [
      | err e ↦ err e
      | ok rows ↦ elim built [ none ↦ ok rows | some row ↦ ok (row ∷ rows) ]
    ]
  ]

abbrev pub from_kafka : {A : Type 0} → Result KafkaFault A → Result Fault A
from_kafka (ok a) = ok a
from_kafka (err e) = err (kafka e)

-- One call to the database, which raises before it commits.
abbrev pub query :
    {C A : Type 0} → Bool → (Store C → Result Fault A × Store C) → Exec (Store C) Fault A
query true f s = (err database, s)
query false f s = f s

abbrev pub read_offsets : {C : Type 0} → OffsetsText → String → Exec (Store C) Fault (Dict ℕ ℕ)
read_offsets offsets_text pipeline s = elim (get_kafka_offsets offsets_text pipeline s.watermarks) [
  | none ↦ (err bad_watermark, s)
  | some d ↦ (ok d, s)
]

-- The consumer inside `with`, after `seek_to_offsets`.
pub connected : Env → String → Dict ℕ ℕ → Result KafkaFault (Option Consumer)
connected env topic offsets = elim env.connect [
  | some e ↦ err e
  | none ↦ ok (seek_to_offsets (some (enter topic)) offsets)
]

abbrev pub finish : {C : Type 0} → Bool → ℕ → Finish Fault → Exec (Store C) Fault (Unit {0})
finish fails run_id f =
    query fails (λ s. (ok tt, record s { ledger = finish_run run_id f s.ledger }))

-- status="success"; rows_quarantined and error_message keep their default None.
abbrev pub success : ℕ → ℕ → Payload → Finish Fault
success rows_in rows_out payload = record {
  status = "success";
  rows_in = some rows_in;
  rows_out = some rows_out;
  rows_quarantined = none;
  error_message = none;
  payload = payload;
}

abbrev pub batch_finish :
    {V C : Type 0} → MicroBatchResult V → List (Row C) → Dict ℕ ℕ → ℕ → Finish Fault
batch_finish batch rows new_offsets inserted = success (length batch.messages) inserted (
    ("offsets", offset_map new_offsets)
    ∷ ("kafka_messages_in_batch", number (length batch.messages))
    ∷ ("rows_after_filter", number (length rows))
    ∷ [])

abbrev pub batch_stats : {V : Type 0} → String → MicroBatchResult V → Dict ℕ ℕ → ℕ → Stats
batch_stats topic batch new_offsets inserted = record {
  topic = topic;
  messages = length batch.messages;
  offsets = new_offsets;
  rows_inserted = some inserted;
}

abbrev pub failure : Fault → Finish Fault
failure e = record {
  status = "failed";
  rows_in = none;
  rows_out = none;
  rows_quarantined = none;
  error_message = some e;
  payload = [];
}

abbrev pub begin_run : {V C : Type 0} → Task V C → String → Exec (Store C) Fault ℕ
begin_run task topic s =
    let (run_id, l) =
      start_run task.dag_id task.task_id (some task.source) (some "ingestion")
        (("topic", text topic) ∷ ("group_id", text task.group_id) ∷ []) s.ledger in
    (ok run_id, record s { ledger = l })

module _ {V C : Type 0} (codec : Codec V) (offsets_text : OffsetsText)
    (paginate : ℕ → List (Row C) → List (List (Row C))) where
  abbrev pub insert_rows : List (Row C) → Exec (Store C) Fault ℕ
  insert_rows rows s = elim (bulk_insert row_key paginate 1000 do_nothing rows s.rows) [
    | none ↦ (err database, s)
    | some (t, n) ↦ (ok n, record s { rows = t })
  ]

  abbrev pub write_offsets : String → Dict ℕ ℕ → ℕ → Exec (Store C) Fault (Unit {0})
  write_offsets pipeline offsets inserted s = (
    ok tt,
    record s {
      watermarks = set_kafka_offsets offsets_text pipeline offsets (some inserted) s.watermarks;
    },
  )

  -- From `rows = []` to the `return` after it, for a batch with messages.
  pub store_batch :
      Task V C
      → Env
      → String
      → ℕ
      → Option Consumer
      → Dict ℕ ℕ
      → MicroBatchResult V
      → Exec (Store C) Fault Stats
  store_batch task env topic run_id consumer offsets batch = do
    rows ← lift (build_rows task.record_builder batch.messages)
    inserted ← query env.insert_fails (insert_rows rows)
    let new_offsets = merge offsets batch.last_offsets
    query env.watermark_fails (write_offsets task.pipeline_name new_offsets inserted)
    lift (from_kafka (commit_offsets consumer env.commit batch.last_offsets))
    finish env.finish_fails run_id (batch_finish batch rows new_offsets inserted)
    pure (batch_stats topic batch new_offsets inserted)

  pub on_batch :
      Task V C
      → Env
      → String
      → ℕ
      → Option Consumer
      → Dict ℕ ℕ
      → MicroBatchResult V
      → Exec (Store C) Fault Stats
  on_batch task env topic run_id consumer offsets batch = elim batch.messages [
    | [] ↦
        finish env.finish_fails run_id (success 0 0 [])
        >> pure (record { topic = topic; messages = 0; offsets = offsets; rows_inserted = none })
    | m ∷ ms ↦ store_batch task env topic run_id consumer offsets batch
  ]

  -- The body of the `try`.
  pub consume_body : Task V C → Env → String → ℕ → Exec (Store C) Fault Stats
  consume_body task env topic run_id = do
    offsets ← query env.read_fails (read_offsets offsets_text task.pipeline_name)
    consumer ← lift (from_kafka (connected env topic offsets))
    batch ← lift (from_kafka (fetch codec task.limits env.poll consumer))
    on_batch task env topic run_id consumer offsets batch

  -- The `try` with its handler.
  pub attempt : Task V C → Env → String → ℕ → Exec (Store C) Fault Stats
  attempt task env topic run_id =
      try_except (consume_body task env topic run_id)
        λ e. finish env.finish_failed_fails run_id (failure e) >> raise e

  pub consume_topic : Task V C → Env → Exec (Store C) Fault Stats
  consume_topic task env = do
    topic ← lift (resolve_topic env.topic)
    run_id ← query env.start_fails (begin_run task topic)
    attempt task env topic run_id
