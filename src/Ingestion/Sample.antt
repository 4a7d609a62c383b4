-- ===== src/Ingestion/Sample.antt =====
-- Concrete values for the parameters of the ingestion model, with their laws.
use text.Mathlib.TextLemmas.{cons-ne-nil}
use data_ops_showcase.Ingestion.Effect.{IsCut}
use data_ops_showcase.Kafka.Delivery.{Delivers}
use data_ops_showcase.Ingestion.NoLoss.{KeepsKey}
use data_ops_showcase.Ingestion.{Row, Fault, Task, Env, Store}
use data_ops_showcase.Watermarks.{not_json, IsRoundTrip, OffsetsText, offsets, Parsed}
use data_ops_showcase.Kafka.{json, Bytes, committed, RawMessage, Codec, KafkaMessage}
use Prim.Native.Char.{code}
use data_ops_showcase.Prelude.{
  ◌≤◌, ◌<◌, ◌≢◌, append-nil, ok, Result, refl, ◌&&◌, List, ◌∙◌, if◌then◌else◌, Bool, flatten, ◌∷◌,
  some, none, arith, false, ap, true, zero, ◌+◌, ◌==◌, suc, [], ◌≡◌, String, Option, ℕ,
}
use data_ops_showcase.Prelude.Dict.{Dict, nat_key}

-- Offsets as text with unary numbers: "a" for each unit, "," behind each number, in braces.
unfoldable pub unary : ℕ → String → String
unary zero rest = String.◌∷◌ "," rest
unary (suc n) rest = String.◌∷◌ "a" (unary n rest)

unfoldable pub entries : Dict ℕ ℕ → String
entries [] = "}"
entries ((k, v) ∷ d) = unary k (unary v (entries d))

-- The number read so far, and the key in front of it, if one was read.
unfoldable pub read_entries : Option ℕ → ℕ → String → Dict ℕ ℕ
read_entries key n String.[] = []
read_entries key n (String.◌∷◌ c s) = elim (code c == b'a') [
  | true ↦ read_entries key (suc n) s
  | false ↦ elim (code c == b',') [
    | false ↦ []
    | true ↦ elim key [ none ↦ read_entries (some n) 0 s | some k ↦ (k, n) ∷ read_entries none 0 s ]
  ]
]

read_entries-unary :
    (key : Option ℕ) (m n : ℕ) (rest : String)
    → read_entries key m (unary n rest) ≡ read_entries key (n + m) (String.◌∷◌ "," rest)
unfolding unary read_entries
read_entries-unary key m zero rest =
    ap (λ x. read_entries key x (String.◌∷◌ "," rest)) (omega arith)
read_entries-unary key m (suc n) rest =
    read_entries-unary key (suc m) n rest
    ∙ ap (λ x. read_entries key x (String.◌∷◌ "," rest)) (omega arith)

read_entries-entries : (d : Dict ℕ ℕ) → read_entries none 0 (entries d) ≡ d
unfolding read_entries entries
read_entries-entries [] = refl
read_entries-entries ((k, v) ∷ d) =
    read_entries-unary none 0 k (unary v (entries d))
    ∙ read_entries-unary (some (k + 0)) 0 v (entries d)
    ∙ ground (arith, read_entries-entries d)

unfoldable pub read_braces : String → Parsed
unfolding read_entries
read_braces String.[] = not_json
read_braces (String.◌∷◌ c s) = offsets (read_entries none 0 s)

abbrev pub sample_text : OffsetsText
sample_text = record { dumps = λ d. String.◌∷◌ "{" (entries d); loads = read_braces }

read_braces-entries : (d : Dict ℕ ℕ) → read_braces (String.◌∷◌ "{" (entries d)) ≡ offsets d
unfolding read_braces
read_braces-entries d = ap offsets (read_entries-entries d)

braces-ne-empty : (d : Dict ℕ ℕ) → String.◌∷◌ "{" (entries d) ≢ ""
braces-ne-empty d = cons-ne-nil "{" (entries d)

pub sample_text-IsRoundTrip : IsRoundTrip sample_text
unfolding read_braces read_entries
sample_text-IsRoundTrip = record {
  loads-dumps = read_braces-entries;
  dumps-ne-empty = braces-ne-empty;
  loads_braces = refl;
}

-- Every row in one statement.
abbrev pub one_page : {R : Type 0} → ℕ → List R → List (List R)
one_page size rows = rows ∷ []

pub one_page-IsCut : {R : Type 0} → IsCut {R = R} one_page
unfolding flatten
one_page-IsCut size rows = append-nil rows

-- Payloads are not read, and every payload is JSON.
abbrev pub sample_codec : Codec Bytes
sample_codec = record {
  loads = λ b. json b;
  decode = λ b. some "key";
  empty = [];
  raw_text = λ b. b;
}

abbrev pub sample_builder : KafkaMessage Bytes → Result Fault (Option (Row Bytes))
sample_builder m = ok (
    some (record {
      topic = m.topic;
      partition_id = m.partition;
      kafka_offset = m.offset;
      columns = m.value;
    }))

pub sample_builder-KeepsKey : KeepsKey sample_builder
sample_builder-KeepsKey m built e = (
  record {
    topic = m.topic;
    partition_id = m.partition;
    kafka_offset = m.offset;
    columns = m.value;
  },
  ground arith,
  refl,
)

abbrev pub sample_task : Task Bytes Bytes
sample_task = record {
  dag_id = "dag_ingest_kafka_orders_to_raw";
  task_id = "consume";
  pipeline_name = "kafka.orders";
  source = "kafka.orders";
  group_id = "dataops-orders-1";
  limits = record { max_messages = 5; max_empty_polls = 2 };
  record_builder = sample_builder;
}

abbrev pub order_message : RawMessage
order_message = record {
  error = none;
  topic = "orders";
  partition = 0;
  offset = 0;
  key = none;
  value = some (123 ∷ 125 ∷ []);
  timestamp = some (1, 1000);
}

-- One message, and then silence.
abbrev pub one_message : ℕ → Option RawMessage
one_message zero = some order_message
one_message (suc n) = none

abbrev pub healthy : Env
healthy = record {
  topic = some "orders";
  connect = none;
  poll = one_message;
  commit = committed;
  start_fails = false;
  read_fails = false;
  insert_fails = false;
  watermark_fails = false;
  finish_fails = false;
  finish_failed_fails = false;
}

abbrev pub one_record : ℕ → ℕ → Bool
one_record p o = p == 0 && o == 0

abbrev pub one_cursor : ℕ → ℕ → Option ℕ
one_cursor zero p = some 0
one_cursor (suc n) p = if 0 == p then some 1 else some 0

first_message : (n : ℕ) (m : RawMessage) → one_message n ≡ some m → (n ≡ 0) × (order_message ≡ m)
first_message zero m e = (refl, ground arith)
first_message (suc n) m e = absurd (ground arith)

one_cursor_before :
    (n : ℕ) (m : RawMessage)
    → one_message n ≡ some m
    → (c : ℕ) × (one_cursor n m.partition ≡ some c) × (c ≤ m.offset)
one_cursor_before zero m e = (0, refl, ground arith)
one_cursor_before (suc n) m e = absurd (ground arith)

one_record_skips :
    (n : ℕ) (m : RawMessage) (c o : ℕ)
    → one_message n ≡ some m
    → o < m.offset
    → one_record m.partition o ≡ false
one_record_skips zero m c o e h = absurd (ground arith)
one_record_skips (suc n) m c o e h = absurd (ground arith)

one_cursor_moves :
    (n : ℕ) (m : RawMessage) (p : ℕ)
    → one_message n ≡ some m
    → one_cursor (n + 1) p ≡ (if m.partition == p then some (m.offset + 1) else one_cursor n p)
one_cursor_moves zero m p e = ground arith
one_cursor_moves (suc n) m p e = absurd (ground arith)

one_cursor_rests : (n p : ℕ) → one_message n ≡ none → one_cursor (n + 1) p ≡ one_cursor n p
one_cursor_rests zero p e = absurd (ground arith)
one_cursor_rests (suc n) p e = ground arith

pub one_message-Delivers : Delivers "orders" one_record one_cursor one_message
one_message-Delivers = record {
  subscribed = λ n m e f. ground (arith, first_message n m e);
  assigned = λ n m e f. one_cursor_before n m e;
  in_order = λ n m c o e f g h l. one_record_skips n m c o e l;
  moves = λ n m p e f. one_cursor_moves n m p e;
  rests = one_cursor_rests;
  rests_on_error = λ n m x p e f. absurd (ground (arith, first_message n m e));
}

abbrev pub empty_store : Store Bytes
empty_store = record { rows = []; watermarks = []; ledger = record { next_id = 1; runs = [] } }
