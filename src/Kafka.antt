-- ===== src/Kafka.antt =====
-- services/kafka/microbatch_consumer.py: the micro-batch consumer over `confluent_kafka.Consumer`.
-- The broker is not part of the repository: what the `n`-th `poll` of a run returns is the argument
-- `poll`. Reading a payload (`bytes.decode` and `json.loads`) is the argument `codec`, of which the
-- consumer uses only whether it succeeds. `KafkaMessage` carries the decoded value unchanged.
pub mod Termination
pub mod Delivery
use data_ops_showcase.Prelude.{
  ℕ, zero, suc, ◌+◌, max, String, true, false, ◌&&◌, Option, none, some, List, [], ◌∷◌, ◌++◌, map,
  length, ltb, Result, ok, err, ◌>>=◌, ◌*◌,
}
use data_ops_showcase.Prelude.Dict.{Dict, lookup, insert, nat_key}

abbrev pub Bytes : Type 0
Bytes = List ℕ

-- What reading a payload as JSON comes to: `UnicodeDecodeError` is not a `JSONDecodeError`.
pub data Loads (V : Type 0) : Type 0 where
  json : V → Loads V
  json_decode_error : Loads V
  unicode_decode_error : Loads V

pub record Codec (V : Type 0) : Type 0 where
  pub loads : Bytes → Loads V  -- json.loads(b.decode("utf-8"))
  pub decode : Bytes → Option String  -- b.decode("utf-8"), `none` for UnicodeDecodeError
  pub empty : V  -- {}
  pub raw_text : Bytes → V  -- {"_raw": b.decode("utf-8", errors="replace")}

-- The codes of `KafkaError` that the consumer tells apart.
pub data ErrorCode : Type 0 where
  partition_eof : ErrorCode
  illegal_generation : ErrorCode
  other_error : ℕ → ErrorCode

-- The exceptions that leave the consumer.
pub data KafkaFault : Type 0 where
  not_started : KafkaFault  -- RuntimeError("consumer is not started")
  kafka_exception : ErrorCode → KafkaFault
  unicode_error : KafkaFault
  out_of_fuel : KafkaFault  -- of the model alone

-- A `confluent_kafka.Message`.
pub record RawMessage : Type 0 where
  pub error : Option ErrorCode
  pub topic : String
  pub partition : ℕ
  pub offset : ℕ
  pub key : Option Bytes
  pub value : Option Bytes
  pub timestamp : Option (ℕ × ℕ)

pub record KafkaMessage (V : Type 0) : Type 0 where
  pub topic : String
  pub partition : ℕ
  pub offset : ℕ
  pub key : Option String
  pub value : V
  pub timestamp_ms : Option ℕ
  pub raw : Bytes

pub record MicroBatchResult (V : Type 0) : Type 0 where
  pub messages : List (KafkaMessage V)
  pub last_offsets : Dict ℕ ℕ

abbrev pub empty_batch : {V : Type 0} → MicroBatchResult V
empty_batch = record { messages = []; last_offsets = [] }

-- The fields of `MicroBatchKafkaConsumer` that `fetch` reads, and the state of its `_consumer`.
pub record Limits : Type 0 where
  pub max_messages : ℕ
  pub max_empty_polls : ℕ

-- `assigned` is `none` while the consumer reads by its group subscription.
pub record Consumer : Type 0 where
  pub topic : String
  pub assigned : Option (Dict ℕ ℕ)

-- `__enter__`: subscribe.
unfoldable pub enter : String → Consumer
enter topic = record { topic = topic; assigned = none }

-- [TopicPartition(topic, p, o + 1) for p, o in offsets.items()]
unfoldable pub partitions_of : Dict ℕ ℕ → Dict ℕ ℕ
partitions_of = map (λ po. (po.0, po.1 + 1))

unfoldable pub seek_to_offsets : Option Consumer → Dict ℕ ℕ → Option Consumer
unfolding partitions_of
seek_to_offsets none offsets = none
seek_to_offsets (some c) [] = some c
seek_to_offsets (some c) (po ∷ offsets) =
    some (record c { assigned = some (partitions_of (po ∷ offsets)) })

-- What the broker answers to a commit.
pub data CommitReply : Type 0 where
  committed : CommitReply
  refused : ErrorCode → CommitReply

-- The partitions that the broker stores as committed, with the reply that it gives.
unfoldable pub commit_offsets :
    Option Consumer → CommitReply → Dict ℕ ℕ → Result KafkaFault (Option (Dict ℕ ℕ))
unfolding partitions_of
commit_offsets none reply offsets = ok none
commit_offsets (some c) reply [] = ok none
commit_offsets (some c) committed (po ∷ offsets) = ok (some (partitions_of (po ∷ offsets)))
commit_offsets (some c) (refused code) (po ∷ offsets) = elim code [
  | illegal_generation ↦ ok none
  | code' ↦ err (kafka_exception code')
]

-- `b""` and a missing payload are both false in Python.
abbrev pub present : Option Bytes → Option Bytes
present none = none
present (some []) = none
present (some (b ∷ bs)) = some (b ∷ bs)

abbrev bytes_or_empty : Option Bytes → Bytes
bytes_or_empty none = []
bytes_or_empty (some b) = b

-- result.last_offsets[p] = max(result.last_offsets.get(p, -1), offset)
unfoldable pub advance : ℕ → ℕ → Dict ℕ ℕ → Dict ℕ ℕ
advance p o offsets =
    insert p (elim (lookup p offsets) [ none ↦ o | some last ↦ max last o ]) offsets

-- KafkaMessage(topic=msg.topic(), ...)
unfoldable pub to_message : {V : Type 0} → RawMessage → V → Option String → KafkaMessage V
to_message msg value key = record {
  topic = msg.topic;
  partition = msg.partition;
  offset = msg.offset;
  key = key;
  value = value;
  timestamp_ms = elim msg.timestamp [ none ↦ none | some t ↦ some t.1 ];
  raw = bytes_or_empty msg.value;
}

unfoldable pub append_message :
    {V : Type 0} → RawMessage → V → Option String → MicroBatchResult V → MicroBatchResult V
append_message msg value key r = record {
  messages = r.messages ++ to_message msg value key ∷ [];
  last_offsets = advance msg.partition msg.offset r.last_offsets;
}

pub data PollOutcome (V : Type 0) : Type 0 where
  quiet : PollOutcome V
  grown : MicroBatchResult V → PollOutcome V
  raised : KafkaFault → PollOutcome V

module _ {V : Type 0} (codec : Codec V) where
  -- The `try` of `fetch`: a payload that is not JSON is kept as text.
  unfoldable pub read_value : Option Bytes → Result KafkaFault V
  read_value none = ok codec.empty
  read_value (some b) = elim (codec.loads b) [
    | json v ↦ ok v
    | json_decode_error ↦ ok (codec.raw_text b)
    | unicode_decode_error ↦ err unicode_error
  ]

  unfoldable pub read_key : Option Bytes → Result KafkaFault (Option String)
  read_key none = ok none
  read_key (some b) = elim (codec.decode b) [ none ↦ err unicode_error | some s ↦ ok (some s) ]

  -- The rest of the body of the loop, for a message without an error.
  unfoldable pub absorb : RawMessage → MicroBatchResult V → Result KafkaFault (MicroBatchResult V)
  unfolding read_value read_key
  absorb msg r = do
    value ← read_value (present msg.value)
    key ← read_key (present msg.key)
    ok (append_message msg value key r)

  -- One round of the loop, up to `continue`: what `poll` brought, and what it does to the batch.
  unfoldable pub poll_once : Option RawMessage → MicroBatchResult V → PollOutcome V
  poll_once none r = quiet
  poll_once (some msg) r = elim msg.error [
    | some code ↦ elim code [ partition_eof ↦ quiet | other ↦ raised (kafka_exception other) ]
    | none ↦ elim (absorb msg r) [ ok r' ↦ grown r' | err e ↦ raised e ]
  ]

  module _ (limits : Limits) (poll : ℕ → Option RawMessage) where
    -- `n` polls are done, `empty` of them in a row brought nothing.
    unfoldable pub fetch_loop :
        ℕ → ℕ → ℕ → MicroBatchResult V → Result KafkaFault (MicroBatchResult V)
    fetch_loop zero n empty r = err out_of_fuel
    fetch_loop (suc fuel) n empty r =
        elim (ltb (length r.messages) limits.max_messages && ltb empty limits.max_empty_polls) [
          | false ↦ ok r
          | true ↦ elim (poll_once (poll n) r) [
            | quiet ↦ fetch_loop fuel (n + 1) (empty + 1) r
            | grown r' ↦ fetch_loop fuel (n + 1) 0 r'
            | raised e ↦ err e
          ]
        ]

    unfoldable pub fetch : Option Consumer → Result KafkaFault (MicroBatchResult V)
    fetch none = err not_started
    fetch (some c) =
        fetch_loop (limits.max_messages * limits.max_empty_polls + limits.max_empty_polls + 1) 0 0
          empty_batch
