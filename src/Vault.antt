-- ===== src/Vault.antt =====
-- services/vault/loaders.py: the hubs and the link of the data vault. The SQL of each loader is a
-- function on the lists of rows of its tables. PostgreSQL's `ENCODE(SHA256(CONVERT_TO(...)), 'hex')` is
-- the argument `digest`, and `CAST(... AS TEXT)` of a number the argument `text_of`. `now` is the time
-- of the transaction. The log lines are left out.
pub mod Keys
pub mod Satellite
pub mod Reconcile
pub mod OneCurrent
pub mod Current
pub mod Lost
pub mod Dag
pub mod Pairs
pub mod Link
mod Tests
use data_ops_showcase.Storage.{do_nothing, has_key, statement}
use data_ops_showcase.Prelude.Dict.{string_key, lookup, Dict, Key}
use data_ops_showcase.Prelude.{
  all, true, false, ◌<>◌, ok, ◌||◌, any, ◌&&◌, [], err, str_eq, ◌>>◌, if◌then◌else◌, ◌>>=◌, none,
  Bool, ◌∷◌, Result, map, some, List, String, Option, ℕ,
}

pub data VaultFault : Type 0 where
  key_error : String → VaultFault
  unsupported : String → VaultFault  -- ValueError
  unique_violation : VaultFault  -- a violated UNIQUE beside the primary key
  foreign_key : VaultFault  -- a violated REFERENCES
  invariant_violation : VaultFault  -- the ValueError of validate_scd2

pub record LoadStats : Type 0 where
  pub name : String
  pub inserted : ℕ
  pub updated : ℕ

-- An entry of hubs, links or satellites in the configuration.
pub record EntityConfig : Type 0 where
  pub record_source_value : Option String

pub record VaultConfig : Type 0 where
  pub record_source_default : Option String
  pub hubs : Dict String EntityConfig
  pub links : Dict String EntityConfig
  pub satellites : Dict String EntityConfig

abbrev pub get_text : Option String → String → String
get_text none text = text
get_text (some s) text = s

-- override or default
unfoldable pub record_source : String → Option String → String
record_source default none = default
record_source default (some s) = if str_eq s "" then default else s

abbrev pub source_of : VaultConfig → EntityConfig → String
source_of cfg entity =
    record_source (get_text cfg.record_source_default "dataops") entity.record_source_value

abbrev pub config_of : String → Dict String EntityConfig → Result VaultFault EntityConfig
config_of name entities = elim (lookup name entities) [
  | none ↦ err (key_error name)
  | some entity ↦ ok entity
]

pub record HubRow : Type 0 where
  pub hk : String
  pub bk : String
  pub load_dts : ℕ
  pub record_source : String

abbrev pub hub_key : HubRow → String
hub_key r = r.hk

-- SELECT DISTINCT of the business keys that are not NULL, as text
unfoldable pub distinct_keys : List (Option String) → List String
distinct_keys [] = []
distinct_keys (none ∷ bks) = distinct_keys bks
distinct_keys (some bk ∷ bks) =
    let rest = distinct_keys bks in if any (str_eq bk) rest then rest else bk ∷ rest

-- One INSERT with DO NOTHING, with its row count.
abbrev pub insert_missing : {K R : Type 0} → ⦃k : Key K⦄ → (R → K) → List R → List R → List R × ℕ
insert_missing key rows t = elim (statement key do_nothing [] rows t) [ none ↦ (t, 0) | some r ↦ r ]

-- Whether two rows of a table agree in the columns of a constraint.
unfoldable pub repeats : {R : Type 0} → (R → R → Bool) → List R → Bool
repeats same [] = false
repeats same (r ∷ rs) = any (same r) rs || repeats same rs

abbrev pub same_bk : HubRow → HubRow → Bool
same_bk a b = str_eq a.bk b.bk

module _ (digest : String → String) where
  unfoldable pub hub_rows : String → ℕ → List (Option String) → List HubRow
  hub_rows source now bks =
      map (λ bk. record { hk = digest bk; bk = bk; load_dts = now; record_source = source })
        (distinct_keys bks)

  -- `bks` is the column business_key of the hub's source, as text.
  unfoldable pub load_hub :
      VaultConfig
      → ℕ
      → String
      → List (Option String)
      → List HubRow
      → Result VaultFault (LoadStats × List HubRow)
  load_hub cfg now name bks t = do
    entity ← config_of name cfg.hubs
    elim (str_eq name "hub_customers" || str_eq name "hub_orders") [
      | false ↦ err (unsupported name)
      | true ↦
          let (t', inserted) = insert_missing hub_key (hub_rows (source_of cfg entity) now bks) t in
          if repeats same_bk t'
          then err unique_violation
          else ok (record { name = name; inserted = inserted; updated = 0 }, t')
    ]

-- The columns of staging.stg_orders that the loaders read.
pub record StgOrder : Type 0 where
  pub order_id : Option ℕ
  pub customer_id : Option ℕ
  pub order_ts : ℕ
  pub status : String
  pub total_amount : String  -- as text
  pub currency_code : String

pub record LinkRow : Type 0 where
  pub link_hk : String
  pub customer_hk : String
  pub order_hk : String
  pub load_dts : ℕ
  pub record_source : String

abbrev pub link_key : LinkRow → String
link_key r = r.link_hk

-- UNIQUE(customer_hk, order_hk)
abbrev pub same_pair : LinkRow → LinkRow → Bool
same_pair a b = str_eq a.customer_hk b.customer_hk && str_eq a.order_hk b.order_hk

module _ (digest : String → String) (text_of : ℕ → String) where
  -- WHERE customer_id IS NOT NULL AND order_id IS NOT NULL
  unfoldable pub link_rows : String → ℕ → List StgOrder → List LinkRow
  link_rows source now [] = []
  link_rows source now (o ∷ os) =
      let rest = link_rows source now os in
      elim o.customer_id [
        | none ↦ rest
        | some c ↦ elim o.order_id [
          | none ↦ rest
          | some i ↦
              record {
                link_hk = digest (text_of c <> ("||" <> text_of i));
                customer_hk = digest (text_of c);
                order_hk = digest (text_of i);
                load_dts = now;
                record_source = source;
              }
              ∷ rest
        ]
      ]

  -- REFERENCES vault.hub_customers, vault.hub_orders
  abbrev pub refers : List HubRow → List HubRow → LinkRow → Bool
  refers customers orders r =
      has_key hub_key r.customer_hk customers && has_key hub_key r.order_hk orders

  unfoldable pub load_link :
      VaultConfig
      → ℕ
      → String
      → List StgOrder
      → List HubRow
      → List HubRow
      → List LinkRow
      → Result VaultFault (LoadStats × List LinkRow)
  load_link cfg now name staged customers orders t = do
    entity ← config_of name cfg.links
    elim (str_eq name "link_customer_orders") [
      | false ↦ err (unsupported name)
      | true ↦
          let (t', inserted) =
            insert_missing link_key (link_rows (source_of cfg entity) now staged) t in
          if repeats same_pair t'
          then err unique_violation
          else if all (refers customers orders) t'
          then ok (record { name = name; inserted = inserted; updated = 0 }, t')
          else err foreign_key
    ]
