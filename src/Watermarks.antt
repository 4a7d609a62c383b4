-- ===== src/Watermarks.antt =====
-- services/common/watermarks.py: the table of pipeline watermarks, and the Kafka offsets in it.
-- Printing and parsing a JSON object of offsets is the argument `text`, with the law that a printed
-- object is parsed back; the log lines are left out.
use data_ops_showcase.Prelude.{
  ◌≢◌, str_eq_iff, [], arith, none, str_eq, some, if◌then◌else◌, Option, ◌≡◌, String, ℕ,
}
use data_ops_showcase.Prelude.Dict.{lookup-insert, lookup, insert, Dict, nat_key, string_key}

pub record Watermark : Type 0 where
  pub watermark_value : String
  pub records_processed : Option ℕ
  pub notes : Option String

abbrev pub Watermarks : Type 0
Watermarks = Dict String Watermark

-- `json.loads` followed by `int(k)`, `int(v)` on the entries.
pub data Parsed : Type 0 where
  offsets : Dict ℕ ℕ → Parsed
  not_json : Parsed  -- JSONDecodeError
  not_offsets : Parsed  -- AttributeError or ValueError

pub record OffsetsText : Type 0 where
  pub dumps : Dict ℕ ℕ → String
  pub loads : String → Parsed

pub record IsRoundTrip (text : OffsetsText) : Type 0 where
  pub loads-dumps : (d : Dict ℕ ℕ) → text.loads (text.dumps d) ≡ offsets d
  pub dumps-ne-empty : (d : Dict ℕ ℕ) → text.dumps d ≢ ""
  pub loads_braces : text.loads "{}" ≡ offsets []

abbrev pub default_fallback_ts : String
default_fallback_ts = "1970-01-01T00:00:00+00:00"

abbrev pub fallback_or_default : Option String → String
fallback_or_default none = default_fallback_ts
fallback_or_default (some f) = f

-- An empty value is false in Python, and the fallback is returned for it too.
unfoldable pub get_watermark : String → Option String → Watermarks → String
get_watermark pipeline fallback t = elim (lookup pipeline t) [
  | none ↦ fallback_or_default fallback
  | some w ↦ if str_eq w.watermark_value "" then fallback_or_default fallback else w.watermark_value
]

-- INSERT ... ON CONFLICT (pipeline_name) DO UPDATE
unfoldable pub set_watermark : String → String → Option ℕ → Option String → Watermarks → Watermarks
set_watermark pipeline value records notes t =
    insert pipeline (record { watermark_value = value; records_processed = records; notes = notes })
      t

module _ (text : OffsetsText) where
  -- `none` where the stored text makes `int` or `.items()` raise.
  unfoldable pub get_kafka_offsets : String → Watermarks → Option (Dict ℕ ℕ)
  get_kafka_offsets pipeline t = elim (text.loads (get_watermark pipeline (some "{}") t)) [
    | offsets d ↦ some d
    | not_json ↦ some []
    | not_offsets ↦ none
  ]

  unfoldable pub set_kafka_offsets : String → Dict ℕ ℕ → Option ℕ → Watermarks → Watermarks
  set_kafka_offsets pipeline d records t = set_watermark pipeline (text.dumps d) records none t

  -- What is read back is what was written last for the pipeline; other pipelines keep theirs.
  pub get_kafka_offsets-set :
      IsRoundTrip text
      → (p q : String) (d : Dict ℕ ℕ) (n : Option ℕ) (t : Watermarks)
      → get_kafka_offsets q (set_kafka_offsets p d n t)
        ≡ (if str_eq p q then some d else get_kafka_offsets q t)
  unfolding get_kafka_offsets set_kafka_offsets get_watermark set_watermark
  get_kafka_offsets-set law p q d n t = ground (
    arith,
    lookup-insert p q
        (record { watermark_value = text.dumps d; records_processed = n; notes = none }) t,
    law.loads-dumps d,
    law.dumps-ne-empty d,
    str_eq_iff (text.dumps d) "",
  )

  pub get_kafka_offsets_unset :
      IsRoundTrip text
      → (p : String) (t : Watermarks) → lookup p t ≡ none
      → get_kafka_offsets p t ≡ some []
  unfolding get_kafka_offsets get_watermark
  get_kafka_offsets_unset law p t h = ground (arith, law.loads_braces)
