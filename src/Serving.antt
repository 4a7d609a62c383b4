-- ===== src/Serving.antt =====
-- services/serving/redis_materializer.py. What a query, Redis and the database answer is a parameter, by the
-- number of the metric; so is the number that a text is parsed as. A number is the texts of it and of
-- its whole part, and whether it is zero, and whether it is finite: NaN and the infinities are Decimals too.
pub mod Agreement
mod Tests
use data_ops_showcase.Exec.{◌>>=◌, ◌>>◌}
use data_ops_showcase.Watermarks.{set_watermark, Watermarks}
use data_ops_showcase.Storage.{do_update, bulk_insert}
use data_ops_showcase.Exec.{lift, pure, Exec}
use data_ops_showcase.Prelude.Dict.{string_key, insert, Dict}
use data_ops_showcase.Prelude.{
  not, true, ◌&&◌, length, [], ◌+◌, ◌∷◌, ◌||◌, err, ok, none, str_eq, Result, List, if◌then◌else◌,
  ◌<>◌, some, ℕ, String, Bool, Option,
}

pub record Decimal : Type 0 where
  pub shown : String
  pub whole : String
  pub is_zero : Bool
  pub is_finite : Bool

pub data SqlValue : Type 0 where
  null : SqlValue
  decimal : Decimal → SqlValue
  words : String → SqlValue
  other : String → Bool → SqlValue  -- its text, and whether it counts as false

pub record ServingMetric : Type 0 where
  pub metric_key : String
  pub value_type : String
  pub redis_key : String
  pub sql : String

pub record SnapshotRow : Type 0 where
  pub metric_key : String
  pub metric_value_num : Option Decimal
  pub metric_value_text : Option String
  pub source_sql : String
  pub updated_at : String

pub record ServingStore : Type 0 where
  pub redis : Dict String String
  pub snapshot : List SnapshotRow
  pub watermarks : Watermarks

pub data ServingFault : Type 0 where
  database_error : ServingFault
  redis_error : ServingFault
  invalid_operation : ServingFault
  not_integer : ServingFault  -- ValueError or OverflowError of int()

pub record ServingCalls : Type 0 where
  pub fetch_one : ℕ → Option (Option SqlValue)  -- `none` where it raises, `some none` for no row
  pub set_fails : ℕ → Bool
  pub upsert_fails : Bool
  pub watermark_fails : Bool
  pub now : String

abbrev pub value_of : Option SqlValue → SqlValue
value_of none = null
value_of (some v) = v

abbrev pub num_text : Option Decimal → String
num_text none = "0"
num_text (some d) = if d.is_zero then "0" else d.shown

-- Whether int(number or 0) returns.
abbrev pub has_int : Option Decimal → Bool
has_int none = true
has_int (some d) = d.is_zero || d.is_finite

-- str(int(number or 0)), where it returns
abbrev pub int_text : Option Decimal → String
int_text none = "0"
int_text (some d) = if d.is_zero then "0" else d.whole

-- str(value or "")
abbrev pub plain_text : SqlValue → String
plain_text null = ""
plain_text (decimal d) = if d.is_zero then "" else d.shown
plain_text (words s) = s
plain_text (other s absent) = if absent then "" else s

abbrev pub text_or_empty : Option String → String
text_or_empty none = ""
text_or_empty (some s) = s

abbrev pub is_numeric : ServingMetric → Bool
is_numeric m = str_eq m.value_type "numeric" || str_eq m.value_type "integer"

-- What Redis is given for a row.
unfoldable pub redis_text : ServingMetric → SnapshotRow → String
redis_text m r =
    if str_eq m.value_type "numeric"
    then num_text r.metric_value_num
    else if str_eq m.value_type "integer"
    then int_text r.metric_value_num
    else text_or_empty r.metric_value_text

abbrev pub row_of : String → ServingMetric → Option Decimal → Option String → SnapshotRow
row_of now m num text = record {
  metric_key = m.metric_key;
  metric_value_num = num;
  metric_value_text = text;
  source_sql = m.sql;
  updated_at = now;
}

abbrev pub metric_key_of : SnapshotRow → String
metric_key_of r = r.metric_key

module _ (parse_decimal : String → Option Decimal) where
  abbrev pub parsed : Option Decimal → Result ServingFault (Option Decimal)
  parsed none = err invalid_operation
  parsed (some d) = ok (some d)

  unfoldable pub as_num : SqlValue → Result ServingFault (Option Decimal)
  as_num null = ok none
  as_num (decimal d) = ok (some d)
  as_num (words s) = parsed (parse_decimal s)
  as_num (other s absent) = parsed (parse_decimal s)

  unfoldable pub metric_row : String → ServingMetric → SqlValue → Result ServingFault SnapshotRow
  metric_row now m v =
      if is_numeric m
      then elim (as_num v) [
        | err x ↦ err x
        | ok num ↦
            if str_eq m.value_type "integer" && not (has_int num)
            then err not_integer
            else ok (row_of now m num none)
      ]
      else ok (row_of now m none (some (plain_text v)))

  module _ (key_prefix : String) (calls : ServingCalls) where
    abbrev pub full_key : ServingMetric → String
    full_key m = key_prefix <> (":" <> m.redis_key)

    abbrev pub set_redis :
        Bool → ServingMetric → SnapshotRow → Exec ServingStore ServingFault SnapshotRow
    set_redis fails m r s =
        if fails
        then (err redis_error, s)
        else (ok r, record s { redis = insert (full_key m) (redis_text m r) s.redis })

    abbrev pub fetched : Option (Option SqlValue) → Result ServingFault SqlValue
    fetched none = err database_error
    fetched (some row) = ok (value_of row)

    -- One round of the loop.
    unfoldable pub materialize_metric :
        ℕ → ServingMetric → Exec ServingStore ServingFault SnapshotRow
    materialize_metric n m = do
      value ← lift (fetched (calls.fetch_one n))
      row ← lift (metric_row calls.now m value)
      set_redis (calls.set_fails n) m row

    unfoldable pub materialize_loop :
        ℕ → List ServingMetric → Exec ServingStore ServingFault (List SnapshotRow)
    materialize_loop n [] = pure []
    materialize_loop n (m ∷ ms) = do
      row ← materialize_metric n m
      rows ← materialize_loop (n + 1) ms
      pure (row ∷ rows)

    module _ (paginate : ℕ → List SnapshotRow → List (List SnapshotRow)) where
      -- EXCLUDED's columns over those of the old row, which has the same key.
      abbrev pub upsert_rows : List SnapshotRow → List SnapshotRow → Option (List SnapshotRow × ℕ)
      upsert_rows rows t = bulk_insert metric_key_of paginate 1000 (do_update (λ old r. r)) rows t

      abbrev pub upsert_snapshot :
          Bool → List SnapshotRow → Exec ServingStore ServingFault (Unit {0})
      upsert_snapshot fails rows s =
          if fails then (err database_error, s) else elim (upsert_rows rows s.snapshot) [
            | none ↦ (err database_error, s)
            | some (t, n) ↦ (ok tt, record s { snapshot = t })
          ]

      abbrev pub mark_served : Bool → ℕ → Exec ServingStore ServingFault ℕ
      mark_served fails processed s = if fails then (err database_error, s) else (
        ok processed,
        record s {
          watermarks = set_watermark "serving.redis" calls.now (some processed) none s.watermarks;
        },
      )

      unfoldable pub materialize_redis_and_snapshot :
          List ServingMetric → Exec ServingStore ServingFault ℕ
      materialize_redis_and_snapshot [] = pure 0
      materialize_redis_and_snapshot (m ∷ ms) = do
        rows ← materialize_loop 0 (m ∷ ms)
        upsert_snapshot calls.upsert_fails rows
        mark_served calls.watermark_fails (length rows)
