-- ===== src/Vault/Tests.antt =====
-- The data vault at concrete tables, and the theorems applied to them.
use data_ops_showcase.Runs.{finished, finish_rows, finish_run, start_run}
use data_ops_showcase.Vault.Dag.Validation.{validate_scd2_after_tasks}
use data_ops_showcase.Vault.Dag.{
  satellite_body, SatStats, validate_scd2, satellite_task, Calls, SatStore,
}
use data_ops_showcase.Vault.Link.{load_link_after_hubs, is_linked, order_keys}
use data_ops_showcase.Vault.Lost.{load_satellite-lost}
use data_ops_showcase.Storage.{statement}
use data_ops_showcase.Vault.OneCurrent.{NoRepeat-reconcile, current_rows, same_hk}
use data_ops_showcase.Vault.Current.{load_satellite-current, is_loaded}
use data_ops_showcase.Quality.Meaning.{NoRepeat}
use data_ops_showcase.Vault.{
  repeats, record_source, load_link, distinct_keys, HubRow, LinkRow, hub_rows, StgOrder,
  VaultConfig, load_hub, EntityConfig, LoadStats,
}
use data_ops_showcase.Vault.Satellite.{
  affected_from, times_of, insert_sorted, sort, leads, superseding, reconciled, order_inbox,
  reconcile_late_arriving, customer_inbox, load_sat_order_status, load_sat_customer_details,
  load_satellite_scd2, StgCustomer, new_row, joined, candidates, ended, closing, reconcile,
  close_rows, is_version_of, Inbox, load_satellite, SatRow, version_key,
}
use data_ops_showcase.Prelude.{
  all, refl, ok, ◌≡◌, zero, [], ◌∷◌, ◌<>◌, false, true, none, suc, some, any, String, List, ℕ,
}

abbrev as_is : String → String
as_is s = s

unfoldable unary_text : ℕ → String
unary_text zero = "0"
unary_text (suc n) = "1" <> unary_text n

abbrev first_of_them : ℕ → List ℕ → ℕ
first_of_them n ns = n

abbrev no_source : EntityConfig
no_source = record { record_source_value = none }

abbrev config : VaultConfig
config = record {
  record_source_default = none;
  hubs = ("hub_customers", no_source) ∷ ("hub_orders", no_source) ∷ [];
  links = ("link_customer_orders", no_source) ∷ [];
  satellites = ("sat_customer_details", no_source) ∷ ("sat_order_status", no_source) ∷ [];
}

abbrev hub_row : String → HubRow
hub_row k = record { hk = k; bk = k; load_dts = 7; record_source = "dataops" }

abbrev one_order : StgOrder
one_order = record {
  order_id = some 0;
  customer_id = some 0;
  order_ts = 3;
  status = "new";
  total_amount = "10.00";
  currency_code = "EUR";
}

hub_loaded :
    load_hub as_is config 7 "hub_customers" (some "0" ∷ none ∷ some "0" ∷ []) []
    ≡ ok (record { name = "hub_customers"; inserted = 1; updated = 0 }, hub_row "0" ∷ [])
unfolding load_hub repeats hub_rows distinct_keys statement record_source
hub_loaded = refl

orders_loaded :
    load_hub as_is config 7 "hub_orders" (order_keys as_is unary_text (one_order ∷ [])) []
    ≡ ok (record { name = "hub_orders"; inserted = 1; updated = 0 }, hub_row "0" ∷ [])
unfolding load_hub repeats hub_rows distinct_keys statement record_source unary_text
orders_loaded = refl

load_link_after_hubs_example :
    (stats : LoadStats) × (t' : List LinkRow) × (load_link as_is unary_text config 8
        "link_customer_orders"
        (one_order ∷ [])
        (hub_row "0" ∷ [])
        (hub_row "0" ∷ [])
        []
      ≡ ok (stats, t'))
    × (all (is_linked as_is unary_text t') (one_order ∷ []) ≡ true)
load_link_after_hubs_example =
    load_link_after_hubs as_is unary_text (λ a b. a <> ("||" <> b)) (λ c i. refl) config 7 7 8
      no_source (some "0" ∷ none ∷ some "0" ∷ []) (one_order ∷ []) [] [] (hub_row "0" ∷ [])
      (hub_row "0" ∷ []) (record { name = "hub_customers"; inserted = 1; updated = 0 })
      (record { name = "hub_orders"; inserted = 1; updated = 0 }) [] hub_loaded orders_loaded refl
      (unfold unary_text in refl) refl refl (unfold repeats in refl)

-- Customer "0" registered at 3, with one version of the details.
abbrev version : String → ℕ → SatRow String
version hash at = record {
  hk = "0";
  load_dts = at;
  effective_from = 3;
  effective_to = none;
  is_current = true;
  hash_diff = hash;
  columns = hash;
  record_source = "dataops";
}

abbrev change_at : ℕ → Inbox String
change_at n = record { hk = "0"; effective_from = n; hash_diff = "b"; columns = "b" }

same_time :
    load_satellite first_of_them "dataops" 9
      (change_at 3 ∷ [])
      (hub_row "0" ∷ [])
      (version "a" 5 ∷ [])
    ≡ ok (1, version "a" 5 ∷ version "b" 9 ∷ [])
unfolding load_satellite close_rows closing ended candidates joined new_row statement
same_time = refl

load_satellite-lost_example :
    any (is_version_of (change_at 3)) (reconcile first_of_them (version "a" 5 ∷ version "b" 9 ∷ []))
    ≡ false
load_satellite-lost_example =
    load_satellite-lost first_of_them (change_at 3) "dataops" 9 (hub_row "0" ∷ [])
      (version "a" 5 ∷ []) 1 (version "a" 5 ∷ version "b" 9 ∷ []) refl refl refl same_time

abbrev closed_version : SatRow String
closed_version = record (version "a" 5) { effective_to = some 4; is_current = false }

abbrev later_version : SatRow String
later_version = record (version "b" 9) { effective_from = 4 }

later_time :
    load_satellite first_of_them "dataops" 9
      (change_at 4 ∷ [])
      (hub_row "0" ∷ [])
      (version "a" 5 ∷ [])
    ≡ ok (1, closed_version ∷ later_version ∷ [])
unfolding load_satellite close_rows closing ended candidates joined new_row statement
later_time = refl

load_satellite-current_example :
    any (is_loaded (change_at 4) 9) (reconcile first_of_them (closed_version ∷ later_version ∷ []))
    ≡ true
load_satellite-current_example =
    load_satellite-current first_of_them (change_at 4) "dataops" 9 (hub_row "0" ∷ [])
      (version "a" 5 ∷ []) refl refl refl 1 (closed_version ∷ later_version ∷ []) later_time

NoRepeat-reconcile_example :
    NoRepeat same_hk (current_rows (reconcile first_of_them (version "a" 5 ∷ version "b" 9 ∷ [])))
NoRepeat-reconcile_example = NoRepeat-reconcile first_of_them (version "a" 5 ∷ version "b" 9 ∷ [])

abbrev one_customer : StgCustomer
one_customer = record {
  customer_id = some 0;
  customer_hash = some "h";
  masked_email = none;
  masked_name = none;
  registered_at = some 3;
}

abbrev start_store : SatStore
start_store = record {
  vault = record {
    customers = one_customer ∷ [];
    orders = one_order ∷ [];
    hub_customers = hub_row "0" ∷ [];
    hub_orders = hub_row "0" ∷ [];
    sat_customer_details = [];
    sat_order_status = [];
  };
  ledger = record { next_id = 1; runs = [] };
}

abbrev no_failure : Calls
no_failure = record {
  start_fails = false;
  load_fails = false;
  reconcile_fails = false;
  finish_fails = false;
  finish_failed_fails = false;
  load_time = 9;
}

abbrev sat_stats : String → SatStats
sat_stats name = record { sat = name; inserted = 1; reconciled = 0 }

abbrev after_task : String → SatStore → SatStore
after_task name s = (satellite_task as_is unary_text first_of_them config no_failure name s).1

customers_done :
    satellite_task as_is unary_text first_of_them config no_failure "sat_customer_details"
      start_store
    ≡ (ok (sat_stats "sat_customer_details"), after_task "sat_customer_details" start_store)
unfolding satellite_task satellite_body load_satellite_scd2 load_sat_customer_details load_satellite
    customer_inbox close_rows closing ended candidates joined new_row statement unary_text
    reconcile_late_arriving reconcile reconciled superseding leads sort insert_sorted times_of
    affected_from start_run finish_run finish_rows finished record_source
customers_done = refl

orders_done :
    satellite_task as_is unary_text first_of_them config no_failure "sat_order_status"
      (after_task "sat_customer_details" start_store)
    ≡ (
      ok (sat_stats "sat_order_status"),
      after_task "sat_order_status" (after_task "sat_customer_details" start_store),
    )
unfolding satellite_task satellite_body load_satellite_scd2 load_sat_customer_details load_satellite
    load_sat_order_status order_inbox customer_inbox close_rows closing ended candidates joined
    new_row statement unary_text reconcile_late_arriving reconcile reconciled superseding leads sort
    insert_sorted times_of affected_from start_run finish_run finish_rows finished record_source
orders_done = refl

validate_scd2_after_tasks_example :
    validate_scd2
      (after_task "sat_order_status" (after_task "sat_customer_details" start_store)).vault
    ≡ ok (0, 0)
validate_scd2_after_tasks_example =
    validate_scd2_after_tasks as_is unary_text first_of_them config no_failure no_failure
      start_store (after_task "sat_customer_details" start_store)
      (after_task "sat_order_status" (after_task "sat_customer_details" start_store))
      (sat_stats "sat_customer_details") (sat_stats "sat_order_status") customers_done orders_done
