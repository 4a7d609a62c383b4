-- ===== src/Ingestion/Starvation.antt =====
-- The partitions that the stored offsets do not name; `seek_to_offsets` assigns just those they do.
use data_ops_showcase.Ingestion.Effect.{
  unchanged, advanced, inserted, consume_topic-Effect, Effect, Fetched, IsCut,
}
use data_ops_showcase.Ingestion.{Env, Store, Task, Row}
use data_ops_showcase.Ingestion.Broker.{
  begins_at-seek, begin, Fetched-Sound, Broker, next, Reaches, resumes,
}
use data_ops_showcase.Watermarks.{
  get_kafka_offsets-set, get_kafka_offsets, Watermarks, IsRoundTrip, OffsetsText,
}
use data_ops_showcase.Kafka.{Codec}
use data_ops_showcase.Prelude.{
  some-injective, subst, str_eq_iff, inr, inl, Option-cases, some, Bool, String, refl, arith, ◌∷◌,
  none, List, ◌≡◌, [], ◌≢◌, ℕ,
}
use data_ops_showcase.Prelude.Dict.{lookup-merge, lookup, merge, insert, Dict, nat_key}

insert-ne-nil : (q v : ℕ) (d : Dict ℕ ℕ) → insert q v d ≢ []
insert-ne-nil q v [] h = cc
insert-ne-nil q v ((i, w) ∷ d) h = ground arith

merge-ne-nil : (d e : Dict ℕ ℕ) → d ≢ [] → merge d e ≢ []
merge-ne-nil d [] h = h
merge-ne-nil d ((q, v) ∷ e) h = merge-ne-nil (insert q v d) e (insert-ne-nil q v d)

-- The stored offsets name some partition, and not `p`.
pub record IsStarved (p : ℕ) (d : Dict ℕ ℕ) : Type 0 where
  pub names_some : d ≢ []
  pub absent : lookup p d ≡ none

resumes_of_IsStarved : (p : ℕ) (d : Dict ℕ ℕ) → IsStarved p d → resumes d p ≡ none
resumes_of_IsStarved p [] h = absurd (h.names_some refl)
resumes_of_IsStarved p (po ∷ d) h = ground (arith, h.absent)

module _ {V C : Type 0} (codec : Codec V) (offsets_text : OffsetsText)
    (law : IsRoundTrip offsets_text) (paginate : ℕ → List (Row C) → List (List (Row C)))
    (cut : IsCut paginate) (task : Task V C) (topic : String) (log : ℕ → ℕ → Bool) (p : ℕ) where
  abbrev StarvedIn : Watermarks → Type 0
  StarvedIn w =
      (d : Dict ℕ ℕ) → get_kafka_offsets offsets_text task.pipeline_name w ≡ some d → IsStarved p d

  module _ (env : Env) where
    unseen :
        {w : Watermarks} (f : Fetched codec offsets_text task env topic w)
        → Broker topic log f.offsets env.poll
        → IsStarved p f.offsets
        → lookup p f.batch.last_offsets ≡ none
    unseen f b h = elim (Option-cases (lookup p f.batch.last_offsets)) [
      | inl e ↦ e
      | inr (l, e) ↦
          let (s, begun) =
            (Fetched-Sound codec offsets_text task topic log env f b).started p l e in
          absurd (
            ground
              (arith, begun, begins_at-seek topic f.offsets p, resumes_of_IsStarved p f.offsets h))
    ]

    merged-IsStarved :
        {w : Watermarks} (f : Fetched codec offsets_text task env topic w)
        → Broker topic log f.offsets env.poll
        → IsStarved p f.offsets
        → IsStarved p (merge f.offsets f.batch.last_offsets)
    merged-IsStarved f b h = record {
      names_some = merge-ne-nil f.offsets f.batch.last_offsets h.names_some;
      absent = ground (
        arith,
        unseen f b h,
        h.absent,
        lookup-merge p f.offsets f.batch.last_offsets
            (Fetched-Sound codec offsets_text task topic log env f b).distinct,
      );
    }

    Effect-starves :
        {t : List (Row C)} {w : Watermarks} {t' : List (Row C)} {w' : Watermarks}
        → StarvedIn w
        → ((d : Dict ℕ ℕ)
            → get_kafka_offsets offsets_text task.pipeline_name w ≡ some d
            → Broker topic log d env.poll)
        → Effect codec offsets_text task env topic t w t' w'
        → StarvedIn w'
    Effect-starves h broker unchanged = h
    Effect-starves h broker (inserted f) = h
    Effect-starves {w} h broker (advanced f n) = λ d e.
        let new =
          get_kafka_offsets-set offsets_text law task.pipeline_name task.pipeline_name
            (merge f.offsets f.batch.last_offsets) (some n) w in
        let same : merge f.offsets f.batch.last_offsets ≡ d =
          ground (arith, new, e, str_eq_iff task.pipeline_name task.pipeline_name) in
        subst (IsStarved p) same (merged-IsStarved f (broker f.offsets f.read) (h f.offsets f.read))

  Reaches-StarvedIn :
      {s s' : Store C}
      → Reaches codec offsets_text task topic log paginate s s'
      → StarvedIn s.watermarks
      → StarvedIn s'.watermarks
  Reaches-StarvedIn begin h = h
  Reaches-StarvedIn (next {s' = s'} r env named broker) h =
      Effect-starves env (Reaches-StarvedIn r h) broker
        (consume_topic-Effect codec offsets_text task env topic paginate cut s' named)

  -- Once the stored offsets name some partition and not `p`, then after any sequence of runs, failing
  -- or not, the offsets that are stored still name some partition and not `p`. The broker hands over to
  -- each run only what it has assigned or subscribed to, the offsets read back as they were written, and
  -- the pages of an insert are its rows.
  pub Reaches-IsStarved :
      {s s' : Store C}
      → Reaches codec offsets_text task topic log paginate s s'
      → (d d' : Dict ℕ ℕ) → get_kafka_offsets offsets_text task.pipeline_name s.watermarks ≡ some d
      → IsStarved p d
      → get_kafka_offsets offsets_text task.pipeline_name s'.watermarks ≡ some d'
      → IsStarved p d'
  Reaches-IsStarved r d d' at_first h at_last =
      Reaches-StarvedIn r
        (λ x e. subst (IsStarved p) (some-injective d x (ground (arith, at_first, e))) h) d' at_last
