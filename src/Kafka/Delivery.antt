-- ===== src/Kafka/Delivery.antt =====
-- What a batch holds, when the broker hands over the records of each partition in offset order.
pub mod Message
pub mod Batch
use data_ops_showcase.Prelude.{
  str_eq, ℕ, ◌+◌, ◌≤◌, ◌<◌, ◌≡◌, any, Option, none, some, String, Bool, true, false, ◌&&◌, List,
  ◌==◌, if◌then◌else◌,
}
use data_ops_showcase.Prelude.Dict.{HasDistinctKeys, lookup, nat_key}
use data_ops_showcase.Kafka.{RawMessage, KafkaMessage, MicroBatchResult, ErrorCode}

abbrev pub is_at : {V : Type 0} → String → ℕ → ℕ → KafkaMessage V → Bool
is_at topic p o m = str_eq m.topic topic && (m.partition == p && m.offset == o)

abbrev pub holds : {V : Type 0} → String → ℕ → ℕ → List (KafkaMessage V) → Bool
holds topic p o messages = any (is_at topic p o) messages

-- The broker's side of a run: `log p o` says that partition `p` has a record at offset `o`, and
-- `cursor n p` is the next offset of `p` before poll `n`, `none` where `p` is not assigned. Kafka
-- hands the records of an assigned partition over in offset order, and skips no record.
pub record Delivers (topic : String) (log : ℕ → ℕ → Bool) (cursor : ℕ → ℕ → Option ℕ)
    (poll : ℕ → Option RawMessage) : Type 0 where
  pub subscribed : (n : ℕ) (m : RawMessage) → poll n ≡ some m → m.error ≡ none → m.topic ≡ topic
  pub assigned :
      (n : ℕ) (m : RawMessage)
      → poll n ≡ some m
      → m.error ≡ none
      → (c : ℕ) × (cursor n m.partition ≡ some c) × (c ≤ m.offset)
  pub in_order :
      (n : ℕ) (m : RawMessage) (c o : ℕ)
      → poll n ≡ some m
      → m.error ≡ none
      → cursor n m.partition ≡ some c
      → c ≤ o
      → o < m.offset
      → log m.partition o ≡ false
  pub moves :
      (n : ℕ) (m : RawMessage) (p : ℕ)
      → poll n ≡ some m
      → m.error ≡ none
      → cursor (n + 1) p ≡ (if m.partition == p then some (m.offset + 1) else cursor n p)
  pub rests : (n : ℕ) (p : ℕ) → poll n ≡ none → cursor (n + 1) p ≡ cursor n p
  pub rests_on_error :
      (n : ℕ) (m : RawMessage) (e : ErrorCode) (p : ℕ)
      → poll n ≡ some m
      → m.error ≡ some e
      → cursor (n + 1) p ≡ cursor n p

-- One past the last offset that a batch has of a partition, from where the run began.
abbrev pub resume : Option ℕ → Option ℕ → Option ℕ
resume start none = start
resume start (some last) = some (last + 1)

abbrev pub Covered :
    {V : Type 0}
    → (topic : String) (log : ℕ → ℕ → Bool) (start : ℕ → Option ℕ) → MicroBatchResult V
    → ℕ
    → Type 0
Covered topic log start r p =
    (s o l : ℕ)
    → start p ≡ some s
    → lookup p r.last_offsets ≡ some l
    → s ≤ o
    → o ≤ l
    → log p o ≡ true
    → holds topic p o r.messages ≡ true

-- What a finished batch says of each partition.
pub record Sound {V : Type 0} (topic : String) (log : ℕ → ℕ → Bool) (start : ℕ → Option ℕ)
    (r : MicroBatchResult V) : Type 0 where
  pub started : (p l : ℕ) → lookup p r.last_offsets ≡ some l → (s : ℕ) × (start p ≡ some s)
  pub covered : (p : ℕ) → Covered topic log start r p
  pub distinct : HasDistinctKeys r.last_offsets
