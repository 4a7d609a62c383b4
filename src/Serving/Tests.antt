-- ===== src/Serving/Tests.antt =====
-- Two metrics, one of which has no row.
use data_ops_showcase.Storage.{statement, statements, bulk_insert}
use data_ops_showcase.Serving.Agreement.{materialize_redis_and_snapshot-Agrees, Agrees}
use data_ops_showcase.Prelude.{
  true, length, refl, ok, zero, suc, some, ◌≡◌, none, ◌∷◌, [], false, Option, String, List, ℕ,
}
use data_ops_showcase.Serving.{
  redis_text, as_num, upsert_rows, decimal, metric_row, SqlValue, materialize_metric,
  materialize_loop, ServingMetric, SnapshotRow, Decimal, ServingCalls, ServingStore,
  materialize_redis_and_snapshot,
}

abbrev whole_page : ℕ → List SnapshotRow → List (List SnapshotRow)
whole_page size rows = rows ∷ []

abbrev no_numbers : String → Option Decimal
no_numbers s = none

abbrev metric : String → String → ServingMetric
metric name type = record { metric_key = name; value_type = type; redis_key = name; sql = "SELECT" }

abbrev ninety : Decimal
ninety = record { shown = "90.5"; whole = "90"; is_zero = false; is_finite = true }

abbrev first_only : ℕ → Option (Option SqlValue)
first_only zero = some (some (decimal ninety))
first_only (suc n) = some none

abbrev calls : ServingCalls
calls = record {
  fetch_one = first_only;
  set_fails = λ n. false;
  upsert_fails = false;
  watermark_fails = false;
  now = "2026-01-01T00:00:00+00:00";
}

abbrev two_metrics : List ServingMetric
two_metrics = metric "sales" "integer" ∷ metric "top" "text" ∷ []

abbrev nothing : ServingStore
nothing = record { redis = []; snapshot = []; watermarks = [] }

abbrev served : ServingStore
served =
    (materialize_redis_and_snapshot no_numbers "techmart" calls whole_page two_metrics nothing).1

served_redis : served.redis ≡ ("techmart:sales", "90") ∷ ("techmart:top", "") ∷ []
unfolding materialize_redis_and_snapshot materialize_loop materialize_metric metric_row as_num
    redis_text bulk_insert statements statement
served_redis = refl

two_served :
    materialize_redis_and_snapshot no_numbers "techmart" calls whole_page two_metrics nothing
    ≡ (ok 2, served)
unfolding materialize_redis_and_snapshot materialize_loop materialize_metric metric_row as_num
    redis_text bulk_insert statements statement
two_served = refl

materialize_redis_and_snapshot-Agrees_example :
    (rows : List SnapshotRow) × (k : ℕ) × Agrees no_numbers "techmart" calls two_metrics rows
      served.redis
    × (2 ≡ length two_metrics)
    × (upsert_rows no_numbers "techmart" calls whole_page rows [] ≡ some (served.snapshot, k))
materialize_redis_and_snapshot-Agrees_example =
    materialize_redis_and_snapshot-Agrees no_numbers "techmart" calls whole_page two_metrics nothing
      served 2 (refl, (refl, tt)) two_served
