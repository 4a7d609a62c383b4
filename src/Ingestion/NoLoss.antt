-- ===== src/Ingestion/NoLoss.antt =====
-- The stored offsets and the rows of the table, over sequences of runs.
use data_ops_showcase.Ingestion.Broker.{
  begin, begins_at-seek, resumes_before, Fetched-Sound, begins_at, next, Broker, Reaches,
}
use data_ops_showcase.Storage.Insert.{has_key-add_missing, has_key_after, add_missing}
use data_ops_showcase.Ingestion.Effect.{
  unchanged, consume_topic-Effect, advanced, inserted, Effect, Fetched, IsCut,
}
use data_ops_showcase.Watermarks.{
  get_kafka_offsets_unset, get_kafka_offsets-set, get_kafka_offsets, Watermarks, IsRoundTrip,
  OffsetsText,
}
use data_ops_showcase.Storage.{has_key}
use data_ops_showcase.Kafka.Delivery.{Sound, holds}
use data_ops_showcase.Kafka.{Codec, enter, seek_to_offsets, KafkaMessage}
use data_ops_showcase.Prelude.{
  ◌∙◌, sym, subst, dec_le, Option-cases, str_eq_iff, inl, inr, Result-cases, true, arith, ok, ◌≤◌,
  [], none, ◌∷◌, List, ◌≡◌, Result, some, Bool, String, Option, ℕ,
}
use data_ops_showcase.Prelude.Dict.{string_key, lookup-merge, or_else, merge, lookup, Dict, nat_key}
use data_ops_showcase.Ingestion.{
  consume_topic, resolve_topic, Store, Env, Task, row_key, Row, Fault, RowKey, build_rows,
  row_key_key,
}

abbrev pub at_key : String → ℕ → ℕ → RowKey
at_key topic p o = record { topic = topic; partition_id = p; kafka_offset = o }

-- The builder makes a row of every message, under the message's own key.
abbrev pub KeepsKey : {V C : Type 0} → (KafkaMessage V → Result Fault (Option (Row C))) → Type 0
KeepsKey {V} {C} builder =
    (m : KafkaMessage V) (built : Option (Row C))
    → builder m ≡ ok built
    → (r : Row C) × (built ≡ some r) × (row_key r ≡ at_key m.topic m.partition m.offset)

-- Every record up to the stored offset of its partition is in the table.
abbrev pub IsStored : {C : Type 0} → String → (ℕ → ℕ → Bool) → Dict ℕ ℕ → List (Row C) → Type 0
IsStored topic log d t =
    (p l o : ℕ)
    → lookup p d ≡ some l
    → o ≤ l
    → log p o ≡ true
    → has_key row_key (at_key topic p o) t ≡ true

has_key-build_rows :
    {V C : Type 0} (builder : KafkaMessage V → Result Fault (Option (Row C)))
    → KeepsKey builder
    → (topic : String) (p o : ℕ) (ms : List (KafkaMessage V)) (rows : List (Row C))
    → build_rows builder ms ≡ ok rows
    → holds topic p o ms ≡ true
    → has_key row_key (at_key topic p o) rows ≡ true
unfolding build_rows
has_key-build_rows builder keeps topic p o [] rows b h = absurd (ground (arith))
has_key-build_rows builder keeps topic p o (m ∷ ms) rows b h = elim (Result-cases (builder m)) [
  | inr (x, e) ↦ absurd (ground (arith, e))
  | inl (built, e) ↦
      let (r, same, keyed) = keeps m built e in
      elim (Result-cases (build_rows builder ms)) [
        | inr (x, e') ↦ absurd (ground (arith, e, e'))
        | inl (rest, e') ↦
            let made : rows ≡ r ∷ rest = ground (arith, e, same, e') in
            rw made (
              ground (
                arith,
                keyed,
                has_key-build_rows builder keeps topic p o ms rest e',
                str_eq_iff m.topic topic,
                str_eq_iff r.topic topic,
              ))
      ]
]

module _ {V C : Type 0} (codec : Codec V) (offsets_text : OffsetsText)
    (law : IsRoundTrip offsets_text) (paginate : ℕ → List (Row C) → List (List (Row C)))
    (cut : IsCut paginate) (task : Task V C) (keeps : KeepsKey task.record_builder) (topic : String)
    (log : ℕ → ℕ → Bool) where
  abbrev pub IsStoredIn : List (Row C) → Watermarks → Type 0
  IsStoredIn t w =
      (d : Dict ℕ ℕ)
      → get_kafka_offsets offsets_text task.pipeline_name w ≡ some d
      → IsStored topic log d t

  grown-IsStored :
      (d : Dict ℕ ℕ) (rows t : List (Row C))
      → IsStored topic log d t
      → IsStored topic log d (add_missing row_key rows t)
  grown-IsStored d rows t h p l o e le rec =
      has_key_after row_key (at_key topic p o) rows t (h p l o e le rec)

  module _ (env : Env) where
    -- The stored offsets with those of the batch written over them.
    merged-IsStored :
        (t : List (Row C)) (w : Watermarks) (f : Fetched codec offsets_text task env topic w)
        → Broker topic log f.offsets env.poll
        → IsStored topic log f.offsets t
        → IsStored topic log (merge f.offsets f.batch.last_offsets) (add_missing row_key f.rows t)
    merged-IsStored t w f b h p l o e le rec = elim (Option-cases (lookup p f.batch.last_offsets)) [
      | inl unseen ↦
          grown-IsStored f.offsets f.rows t h p l o (ground (arith, unseen, merged)) le rec
      | inr (last, seen) ↦
          let (s, begun) = sound.started p last seen in
          elim (dec_le s o) [
            | yes from ↦ ground (
              arith,
              has_key-add_missing row_key (at_key topic p o) f.rows t,
              has_key-build_rows task.record_builder keeps topic p o f.batch.messages f.rows
                  f.built,
              sound.covered p s o last begun seen from,
              merged,
              seen,
            )
            | no before ↦
                let (l0, known, under) =
                  resumes_before f.offsets p s o (sym (begins_at-seek topic f.offsets p) ∙ begun)
                    (omega arith) in
                grown-IsStored f.offsets f.rows t h p l0 o known under rec
          ]
    ]
      where
        sound : Sound topic log (begins_at (seek_to_offsets (some (enter topic)) f.offsets)) f.batch
        sound = Fetched-Sound codec offsets_text task topic log env f b

        merged :
            lookup p (merge f.offsets f.batch.last_offsets)
            ≡ or_else (lookup p f.batch.last_offsets) (lookup p f.offsets)
        merged = lookup-merge p f.offsets f.batch.last_offsets sound.distinct

    Effect-keeps :
        {t : List (Row C)} {w : Watermarks} {t' : List (Row C)} {w' : Watermarks}
        → IsStoredIn t w
        → ((d : Dict ℕ ℕ)
            → get_kafka_offsets offsets_text task.pipeline_name w ≡ some d
            → Broker topic log d env.poll)
        → Effect codec offsets_text task env topic t w t' w'
        → IsStoredIn t' w'
    Effect-keeps h broker unchanged = h
    Effect-keeps {t} h broker (inserted f) = λ d e. grown-IsStored d f.rows t (h d e)
    Effect-keeps {t} {w} h broker (advanced f n) = λ d e.
        let new =
          get_kafka_offsets-set offsets_text law task.pipeline_name task.pipeline_name
            (merge f.offsets f.batch.last_offsets) (some n) w in
        let same : merge f.offsets f.batch.last_offsets ≡ d =
          ground (arith, new, e, str_eq_iff task.pipeline_name task.pipeline_name) in
        subst (λ x. IsStored topic log x (add_missing row_key f.rows t)) same
          (merged-IsStored t w f (broker f.offsets f.read) (h f.offsets f.read))

    -- A run keeps the table and the watermark in step, whatever fails in it.
    pub consume_topic-IsStored :
        (s : Store C)
        → resolve_topic env.topic ≡ ok topic
        → ((d : Dict ℕ ℕ)
            → get_kafka_offsets offsets_text task.pipeline_name s.watermarks ≡ some d
            → Broker topic log d env.poll)
        → IsStoredIn s.rows s.watermarks
        → IsStoredIn
            (consume_topic codec offsets_text paginate task env s).1.rows
            (consume_topic codec offsets_text paginate task env s).1.watermarks
    consume_topic-IsStored s named broker h =
        Effect-keeps h broker
          (consume_topic-Effect codec offsets_text task env topic paginate cut s named)

  Reaches-IsStored :
      {s s' : Store C}
      → Reaches codec offsets_text task topic log paginate s s'
      → IsStoredIn s.rows s.watermarks
      → IsStoredIn s'.rows s'.watermarks
  Reaches-IsStored begin h = h
  Reaches-IsStored (next {s' = s'} r env named broker) h =
      consume_topic-IsStored env s' named broker (Reaches-IsStored r h)

  -- Where the broker hands over each partition in offset order and the record builder makes a row of
  -- every message under the message's key: from a store that has no watermark of the pipeline, after
  -- any sequence of runs, failing or not,
  -- every record of the topic at or below the stored offset of its partition has its row in the table.
  pub no_loss :
      {s s' : Store C}
      → Reaches codec offsets_text task topic log paginate s s'
      → lookup task.pipeline_name s.watermarks ≡ none
      → (d : Dict ℕ ℕ) (p l o : ℕ)
      → get_kafka_offsets offsets_text task.pipeline_name s'.watermarks ≡ some d
      → lookup p d ≡ some l
      → o ≤ l
      → log p o ≡ true
      → has_key row_key (at_key topic p o) s'.rows ≡ true
  no_loss {s} {s'} r fresh d p l o read = Reaches-IsStored r first d read p l o
    where
      first : IsStoredIn s.rows s.watermarks
      first d' e p' l' o' known = absurd (
          ground (
            arith,
            get_kafka_offsets_unset offsets_text law task.pipeline_name s.watermarks fresh,
            e,
            known,
          ))
