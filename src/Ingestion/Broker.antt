-- ===== src/Ingestion/Broker.antt =====
-- The broker's side of `consume_topic`, and the stores that sequences of runs lead to.
use data_ops_showcase.Ingestion.Effect.{Fetched}
use data_ops_showcase.Kafka.Delivery.{Sound, Delivers}
use data_ops_showcase.Kafka.Delivery.Batch.{fetch-Sound}
use data_ops_showcase.Watermarks.{get_kafka_offsets, Watermarks, OffsetsText}
use data_ops_showcase.Ingestion.{consume_topic, resolve_topic, Store, Row, Task, Env, connected}
use data_ops_showcase.Kafka.{RawMessage, enter, Consumer, partitions_of, Codec, seek_to_offsets}
use data_ops_showcase.Prelude.{
  inr, inl, refl, Option-cases, List, arith, [], ◌+◌, ◌≤◌, none, ◌∷◌, ◌<◌, ok, ◌≡◌, Bool, some,
  String, Option, ℕ,
}
use data_ops_showcase.Prelude.Dict.{lookup, Dict, nat_key}

-- Where the broker lets a consumer begin: with a fresh group and `auto.offset.reset` "earliest" at the
-- first record of every partition, and after `assign` and `seek` at the given offsets only.
abbrev pub begins_at : Option Consumer → ℕ → Option ℕ
begins_at none p = none
begins_at (some c) p = elim c.assigned [ none ↦ some 0 | some d ↦ lookup p d ]

abbrev pub resumes : Dict ℕ ℕ → ℕ → Option ℕ
resumes [] p = some 0
resumes (po ∷ offsets) p = elim (lookup p (po ∷ offsets)) [
  | none ↦ none
  | some last ↦ some (last + 1)
]

lookup-partitions_of :
    (d : Dict ℕ ℕ) (p : ℕ)
    → lookup p (partitions_of d) ≡ elim (lookup p d) [ none ↦ none | some last ↦ some (last + 1) ]
unfolding partitions_of
lookup-partitions_of [] p = refl
lookup-partitions_of ((q, o) ∷ d) p = ground (arith, lookup-partitions_of d p)

-- A run with stored offsets reads just the partitions that they name, from one past each.
pub begins_at-seek :
    (topic : String) (d : Dict ℕ ℕ) (p : ℕ)
    → begins_at (seek_to_offsets (some (enter topic)) d) p ≡ resumes d p
unfolding seek_to_offsets enter
begins_at-seek topic [] p = refl
begins_at-seek topic (po ∷ d) p = lookup-partitions_of (po ∷ d) p

pub resumes_before :
    (d : Dict ℕ ℕ) (p s o : ℕ)
    → resumes d p ≡ some s
    → o < s
    → (l : ℕ) × (lookup p d ≡ some l) × (o ≤ l)
resumes_before [] p s o h lt = absurd (ground arith)
resumes_before (po ∷ d) p s o h lt = elim (Option-cases (lookup p (po ∷ d))) [
  | inl e ↦ absurd (ground (arith, e))
  | inr (l, e) ↦ (l, e, ground (arith, e))
]

seek_to_offsets-some :
    (c : Consumer) (d : Dict ℕ ℕ) → (c' : Consumer) × (seek_to_offsets (some c) d ≡ some c')
unfolding seek_to_offsets
seek_to_offsets-some c [] = (c, refl)
seek_to_offsets-some c (po ∷ d) = (_, refl)

connected-eq-ok :
    (env : Env) (topic : String) (d : Dict ℕ ℕ) (c : Option Consumer)
    → connected env topic d ≡ ok c
    → seek_to_offsets (some (enter topic)) d ≡ c
unfolding connected
connected-eq-ok env topic d c h = ground arith

-- The broker during one run that starts from the stored offsets `d`.
pub record Broker (topic : String) (log : ℕ → ℕ → Bool) (d : Dict ℕ ℕ)
    (poll : ℕ → Option RawMessage) : Type 0 where
  pub cursor : ℕ → ℕ → Option ℕ
  pub begins : (p : ℕ) → cursor 0 p ≡ begins_at (seek_to_offsets (some (enter topic)) d) p
  pub delivers : Delivers topic log cursor poll

module _ {V C : Type 0} (codec : Codec V) (offsets_text : OffsetsText) (task : Task V C)
    (topic : String) (log : ℕ → ℕ → Bool) where
  -- The batch of a run is sound from where the stored offsets let it begin.
  pub Fetched-Sound :
      (env : Env) {w : Watermarks} (f : Fetched codec offsets_text task env topic w)
      → Broker topic log f.offsets env.poll
      → Sound topic log (begins_at (seek_to_offsets (some (enter topic)) f.offsets)) f.batch
  Fetched-Sound env f b =
      let e = connected-eq-ok env topic f.offsets f.consumer f.connects in
      let (c, some_c) = seek_to_offsets-some (enter topic) f.offsets in
      fetch-Sound codec b.delivers (begins_at (seek_to_offsets (some (enter topic)) f.offsets))
        task.limits c f.batch b.begins (cc (e, some_c, f.fetched))

  module _ (paginate : ℕ → List (Row C) → List (List (Row C))) where
    -- The stores that runs of the task can lead to, each with a broker that delivers to it.
    pub data Reaches (s : Store C) : Store C → Type 0 where
      begin : Reaches s s
      next :
          {s' : Store C}
          → Reaches s s'
          → (env : Env) → resolve_topic env.topic ≡ ok topic
          → ((d : Dict ℕ ℕ)
              → get_kafka_offsets offsets_text task.pipeline_name s'.watermarks ≡ some d
              → Broker topic log d env.poll)
          → Reaches s (consume_topic codec offsets_text paginate task env s').1
