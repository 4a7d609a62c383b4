-- ===== src/Ingestion/Tests.antt =====
-- Runs of the ingestion at concrete inputs, and the theorems applied to them.
use data_ops_showcase.Kafka.Delivery.Batch.{fetch-Sound}
use data_ops_showcase.Kafka.Termination.{fetch_ends}
use data_ops_showcase.Ingestion.Closing.{closing, consume_topic-closes_run}
use data_ops_showcase.Storage.Insert.{bulk_insert-do_nothing, add_missing}
use data_ops_showcase.Ingestion.Starvation.{IsStarved, Reaches-IsStarved}
use data_ops_showcase.Kafka.Delivery.{Sound, Delivers}
use data_ops_showcase.Runs.Rows.{statuses}
use data_ops_showcase.Runs.{finished, finish_rows, finish_run, start_run}
use data_ops_showcase.Ingestion.NoLoss.{no_loss, at_key}
use data_ops_showcase.Kafka.{
  MicroBatchResult, out_of_fuel, commit_offsets, read_key, read_value, advance, enter, to_message,
  append_message, seek_to_offsets, absorb, poll_once, fetch_loop, fetch, Bytes,
}
use data_ops_showcase.Ingestion.Sample.{
  unary, entries, one_message-Delivers, one_cursor, sample_builder-KeepsKey, one_message,
  one_page-IsCut, sample_text-IsRoundTrip, healthy, one_page, one_record, read_entries, empty_store,
  sample_task, sample_text, read_braces, sample_codec,
}
use data_ops_showcase.Ingestion.Broker.{begins_at, begin, Broker, next, Reaches}
use data_ops_showcase.Watermarks.{
  set_watermark, set_kafka_offsets, get_watermark, get_kafka_offsets,
}
use data_ops_showcase.Storage.{do_nothing, statement, statements, bulk_insert, has_key}
use data_ops_showcase.Prelude.{
  ok, ◌++◌, err, none, List, ◌≢◌, map, ◌∷◌, arith, subst, refl, some, [], true, ◌≡◌, Result, ℕ,
}
use data_ops_showcase.Prelude.Dict.{Dict, nat_key, string_key}
use data_ops_showcase.Ingestion.{
  Env, build_rows, resolve_topic, connected, Stats, store_batch, Fault, on_batch, consume_body,
  row_key, attempt, Store, consume_topic, row_key_key,
}

abbrev run_once : Store Bytes → Result Fault Stats × Store Bytes
run_once = consume_topic sample_codec sample_text one_page sample_task healthy

-- The message is stored under its key, and the watermark is its offset.
run_once_rows : map row_key (run_once empty_store).1.rows ≡ at_key "orders" 0 0 ∷ []
unfolding consume_topic attempt consume_body on_batch store_batch connected resolve_topic build_rows
    fetch fetch_loop poll_once absorb append_message to_message advance read_value read_key
    get_kafka_offsets get_watermark set_kafka_offsets set_watermark bulk_insert statements statement
    start_run finish_run finish_rows finished seek_to_offsets enter commit_offsets read_braces
    entries read_entries unary
run_once_rows = refl

run_once_offsets :
    get_kafka_offsets sample_text "kafka.orders" (run_once empty_store).1.watermarks
    ≡ some ((0, 0) ∷ [])
unfolding consume_topic attempt consume_body on_batch store_batch connected resolve_topic build_rows
    fetch fetch_loop poll_once absorb append_message to_message advance read_value read_key
    get_kafka_offsets get_watermark set_kafka_offsets set_watermark bulk_insert statements statement
    start_run finish_run finish_rows finished seek_to_offsets enter commit_offsets read_braces
    entries read_entries unary
run_once_offsets = refl

first-Broker : Broker "orders" one_record [] one_message
unfolding seek_to_offsets enter
first-Broker = record { cursor = one_cursor; begins = λ p. refl; delivers = one_message-Delivers }

empty-Broker :
    (d : Dict ℕ ℕ)
    → get_kafka_offsets sample_text "kafka.orders" [] ≡ some d
    → Broker "orders" one_record d one_message
unfolding get_kafka_offsets get_watermark read_braces read_entries
empty-Broker d e = subst (λ x. Broker "orders" one_record x one_message) (ground arith) first-Broker

ran_once :
    Reaches sample_codec sample_text sample_task "orders" one_record one_page empty_store
      (run_once empty_store).1
ran_once = next begin healthy (unfold resolve_topic in refl) empty-Broker

no_loss_example : has_key row_key (at_key "orders" 0 0) (run_once empty_store).1.rows ≡ true
no_loss_example =
    no_loss sample_codec sample_text sample_text-IsRoundTrip one_page one_page-IsCut sample_task
      sample_builder-KeepsKey "orders" one_record ran_once refl ((0, 0) ∷ []) 0 0 0 run_once_offsets
      refl (omega arith) refl

consume_topic-closes_run_example :
    statuses (run_once empty_store).1.ledger.runs
    ≡ [] ++ closing (resolve_topic healthy.topic) (run_once empty_store).0
consume_topic-closes_run_example =
    consume_topic-closes_run sample_codec sample_text one_page sample_task healthy empty_store refl
      refl refl tt

-- A store whose watermark names partition 1 alone.
abbrev narrow_store : Store Bytes
narrow_store = record empty_store {
  watermarks = set_kafka_offsets sample_text "kafka.orders" ((1, 5) ∷ []) none [];
}

abbrev silent : Env
silent = record healthy { poll = λ n. none }

silent_cursor :
    (d : Dict ℕ ℕ)
    → Delivers "orders" one_record
        (λ n p. begins_at (seek_to_offsets (some (enter "orders")) d) p)
        (λ n. none)
silent_cursor d = record {
  subscribed = λ n m e f. absurd (ground arith);
  assigned = λ n m e f. absurd (ground arith);
  in_order = λ n m c o e f g h l. absurd (ground arith);
  moves = λ n m p e f. absurd (ground arith);
  rests = λ n p e. refl;
  rests_on_error = λ n m x p e f. absurd (ground arith);
}

silent-Broker : (d : Dict ℕ ℕ) → Broker "orders" one_record d (λ n. none)
silent-Broker d = record {
  cursor = λ n p. begins_at (seek_to_offsets (some (enter "orders")) d) p;
  begins = λ p. refl;
  delivers = silent_cursor d;
}

narrow_next :
    Reaches sample_codec sample_text sample_task "orders" one_record one_page narrow_store
      (consume_topic sample_codec sample_text one_page sample_task silent narrow_store).1
narrow_next = next begin silent (unfold resolve_topic in refl) (λ d e. silent-Broker d)

narrow_offsets :
    get_kafka_offsets sample_text "kafka.orders" narrow_store.watermarks ≡ some ((1, 5) ∷ [])
unfolding set_kafka_offsets set_watermark get_kafka_offsets get_watermark read_braces entries
    read_entries unary
narrow_offsets = refl

abbrev silent_store : Store Bytes
silent_store = (consume_topic sample_codec sample_text one_page sample_task silent narrow_store).1

silent_offsets :
    get_kafka_offsets sample_text "kafka.orders" silent_store.watermarks ≡ some ((1, 5) ∷ [])
unfolding consume_topic attempt consume_body on_batch store_batch connected resolve_topic build_rows
    fetch fetch_loop poll_once absorb append_message to_message advance read_value read_key
    get_kafka_offsets get_watermark set_kafka_offsets set_watermark bulk_insert statements statement
    start_run finish_run finish_rows finished seek_to_offsets enter commit_offsets read_braces
    entries read_entries unary
silent_offsets = refl

Reaches-IsStarved_example : IsStarved 0 ((1, 5) ∷ [])
Reaches-IsStarved_example =
    Reaches-IsStarved sample_codec sample_text sample_text-IsRoundTrip one_page one_page-IsCut
      sample_task "orders" one_record 0 narrow_next ((1, 5) ∷ []) ((1, 5) ∷ []) narrow_offsets
      (record { names_some = cc; absent = refl }) silent_offsets

fetch_ends_example :
    fetch sample_codec sample_task.limits one_message (some (enter "orders")) ≢ err out_of_fuel
fetch_ends_example = fetch_ends sample_codec sample_task.limits one_message (some (enter "orders"))

abbrev twice : List (ℕ × ℕ)
twice = (1, 10) ∷ (1, 11) ∷ (2, 20) ∷ []

first_key : ℕ × ℕ → ℕ
first_key r = r.0

inserted_twice :
    bulk_insert first_key one_page 1000 do_nothing twice [] ≡ some ((1, 10) ∷ (2, 20) ∷ [], 2)
unfolding bulk_insert statements statement first_key
inserted_twice = refl

bulk_insert-do_nothing_example :
    (n : ℕ) × (bulk_insert first_key one_page 1000 do_nothing twice []
      ≡ some (add_missing first_key twice [], n))
bulk_insert-do_nothing_example =
    bulk_insert-do_nothing first_key one_page one_page-IsCut 1000 twice []

abbrev one_batch : MicroBatchResult Bytes
one_batch = record {
  messages =
      record {
        topic = "orders";
        partition = 0;
        offset = 0;
        key = none;
        value = 123 ∷ 125 ∷ [];
        timestamp_ms = some 1000;
        raw = 123 ∷ 125 ∷ [];
      }
      ∷ [];
  last_offsets = (0, 0) ∷ [];
}

fetched_one :
    fetch sample_codec sample_task.limits one_message (some (enter "orders")) ≡ ok one_batch
unfolding fetch fetch_loop poll_once absorb append_message to_message advance read_value read_key
    enter
fetched_one = refl

fetch-Sound_example : Sound "orders" one_record (one_cursor 0) one_batch
fetch-Sound_example =
    fetch-Sound sample_codec one_message-Delivers (one_cursor 0) sample_task.limits (enter "orders")
      one_batch (λ p. refl) fetched_one
