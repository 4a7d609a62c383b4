-- ===== src/Vault/Satellite.antt =====
-- services/vault/loaders.py: the satellites. `load_satellite` is the sequence of statements that
-- `_load_sat_customer_details` and `_load_sat_order_status` share, in one transaction; a row carries its
-- descriptive columns as `columns`. Where an UPDATE joins a row to more than one, PostgreSQL takes one of
-- them: the argument `pick` says which. Timestamps are numbers.
use data_ops_showcase.Storage.{has_key}
use data_ops_showcase.Vault.{
  foreign_key, source_of, hub_key, unsupported, config_of, get_text, insert_missing, LoadStats,
  VaultFault, VaultConfig, StgOrder, HubRow,
}
use data_ops_showcase.Prelude.Dict.{string_key, Key}
use data_ops_showcase.Prelude.{
  none, ◌+◌, all, err, ◌++◌, str_eq_iff, ◌>>=◌, ok, leb, any, ◌<>◌, arith, ltb, ◌||◌, false,
  if◌then◌else◌, ◌↔◌, ◌==◌, some, [], not, ◌≡◌, map, ◌∷◌, str_eq, true, ◌&&◌, Result, String,
  Option, Bool, List, ℕ,
}

pub record SatRow (C : Type 0) : Type 0 where
  pub hk : String
  pub load_dts : ℕ
  pub effective_from : ℕ
  pub effective_to : Option ℕ
  pub is_current : Bool
  pub hash_diff : String
  pub columns : C
  pub record_source : String

-- A row of the temporary table of a load.
pub record Inbox (C : Type 0) : Type 0 where
  pub hk : String
  pub effective_from : ℕ
  pub hash_diff : String
  pub columns : C

-- The primary key (hk, load_dts).
abbrev same_version : String × ℕ → String × ℕ → Bool
same_version a b = str_eq a.0 b.0 && a.1 == b.1

pub same_version_iff : (a b : String × ℕ) → (same_version a b ≡ true) ↔ (a ≡ b)
same_version_iff a b = ground (arith, str_eq_iff a.0 b.0)

instance abbrev pub version_key : Key (String × ℕ)
version_key = record { same = same_version; same_iff = same_version_iff }

module _ {C : Type 0} where
  abbrev pub sat_key : SatRow C → String × ℕ
  sat_key s = (s.hk, s.load_dts)

  -- The rows of the inbox that close_sql joins to a row, by their effective_from.
  unfoldable pub closing : SatRow C → List (Inbox C) → List ℕ
  closing s [] = []
  closing s (i ∷ is) =
      let rest = closing s is in
      if str_eq s.hk i.hk
        && (s.is_current
            && (not (str_eq s.hash_diff i.hash_diff) && ltb s.effective_from i.effective_from))
      then i.effective_from ∷ rest
      else rest

  -- SET effective_to = ..., is_current = FALSE, from one of the joined rows
  unfoldable pub ended : (ℕ → List ℕ → ℕ) → SatRow C → List ℕ → SatRow C
  ended pick s [] = s
  ended pick s (n ∷ ns) = record s { effective_to = some (pick n ns); is_current = false }

  unfoldable pub close_rows : (ℕ → List ℕ → ℕ) → List (Inbox C) → List (SatRow C) → List (SatRow C)
  close_rows pick inbox t = map (λ s. ended pick s (closing s inbox)) t

  abbrev pub is_version_of : Inbox C → SatRow C → Bool
  is_version_of i s = str_eq s.hk i.hk && s.is_current

  abbrev pub is_changed : Inbox C → SatRow C → Bool
  is_changed i s = is_version_of i s && not (str_eq s.hash_diff i.hash_diff)

  unfoldable pub new_row : String → ℕ → Inbox C → SatRow C
  new_row source now i = record {
    hk = i.hk;
    load_dts = now;
    effective_from = i.effective_from;
    effective_to = none;
    is_current = true;
    hash_diff = i.hash_diff;
    columns = i.columns;
    record_source = source;
  }

  -- The LEFT JOIN of insert_sql: a row for each current version that differs, or one where there is none.
  unfoldable pub joined : String → ℕ → Inbox C → List (SatRow C) → List (SatRow C)
  joined source now i [] = []
  joined source now i (s ∷ t) =
      let rest = joined source now i t in
      if is_changed i s then new_row source now i ∷ rest else rest

  unfoldable pub candidates : String → ℕ → List (Inbox C) → List (SatRow C) → List (SatRow C)
  candidates source now [] t = []
  candidates source now (i ∷ is) t =
      (if any (is_version_of i) t then joined source now i t else new_row source now i ∷ [])
      ++ candidates source now is t

  -- The transaction; REFERENCES the hub, whose keys are `hubs`.
  unfoldable pub load_satellite :
      (ℕ → List ℕ → ℕ)
      → String
      → ℕ
      → List (Inbox C)
      → List HubRow
      → List (SatRow C)
      → Result VaultFault (ℕ × List (SatRow C))
  load_satellite pick source now inbox hub t =
      let closed = close_rows pick inbox t in
      let (t', inserted) = insert_missing sat_key (candidates source now inbox closed) closed in
      if all (λ (s : SatRow C). has_key hub_key s.hk hub) t'
      then ok (inserted, t')
      else err foreign_key

-- The columns of staging.stg_customers that the loaders read.
pub record StgCustomer : Type 0 where
  pub customer_id : Option ℕ
  pub customer_hash : Option String
  pub masked_email : Option String
  pub masked_name : Option String
  pub registered_at : Option ℕ

pub record CustomerColumns : Type 0 where
  pub customer_hash : String
  pub masked_email : Option String
  pub masked_name : Option String

pub record OrderColumns : Type 0 where
  pub status : String
  pub total_amount : String
  pub currency : String

module _ (digest : String → String) (text_of : ℕ → String) where
  -- The rows of staging.stg_customers with an id and a hash; COALESCE(registered_at, NOW()).
  unfoldable pub customer_inbox : ℕ → List StgCustomer → List (Inbox CustomerColumns)
  customer_inbox now [] = []
  customer_inbox now (c ∷ cs) =
      let rest = customer_inbox now cs in
      elim c.customer_id [
        | none ↦ rest
        | some id ↦ elim c.customer_hash [
          | none ↦ rest
          | some hash ↦
              record {
                hk = digest (text_of id);
                effective_from = elim c.registered_at [ none ↦ now | some at ↦ at ];
                hash_diff = digest (
                    hash
                    <> ("||"
                        <> (get_text c.masked_email "" <> ("||" <> get_text c.masked_name ""))));
                columns = record {
                  customer_hash = hash;
                  masked_email = c.masked_email;
                  masked_name = c.masked_name;
                };
              }
              ∷ rest
        ]
      ]

  -- The rows of staging.stg_orders with an id.
  unfoldable pub order_inbox : List StgOrder → List (Inbox OrderColumns)
  order_inbox [] = []
  order_inbox (o ∷ os) =
      let rest = order_inbox os in
      elim o.order_id [
        | none ↦ rest
        | some id ↦
            record {
              hk = digest (text_of id);
              effective_from = o.order_ts;
              hash_diff =
                  digest (o.status <> ("||" <> (o.total_amount <> ("||" <> o.currency_code))));
              columns = record {
                status = o.status;
                total_amount = o.total_amount;
                currency = o.currency_code;
              };
            }
            ∷ rest
      ]

abbrev pub stats_of :
    {A : Type 0} → String → Result VaultFault (ℕ × A) → Result VaultFault (LoadStats × A)
stats_of name r = do
  (inserted, t) ← r
  ok (record { name = name; inserted = inserted; updated = 0 }, t)

-- The tables of the data vault with what the loads read.
pub record Vault : Type 0 where
  pub customers : List StgCustomer
  pub orders : List StgOrder
  pub hub_customers : List HubRow
  pub hub_orders : List HubRow
  pub sat_customer_details : List (SatRow CustomerColumns)
  pub sat_order_status : List (SatRow OrderColumns)

module _ (digest : String → String) (text_of : ℕ → String) (pick : ℕ → List ℕ → ℕ) where
  unfoldable pub load_sat_customer_details :
      String → ℕ → Vault → Result VaultFault (LoadStats × Vault)
  load_sat_customer_details source now v = do
    (stats, t) ← stats_of "sat_customer_details" (
        load_satellite pick source now (customer_inbox digest text_of now v.customers)
          v.hub_customers v.sat_customer_details)
    ok (stats, record v { sat_customer_details = t })

  unfoldable pub load_sat_order_status : String → ℕ → Vault → Result VaultFault (LoadStats × Vault)
  load_sat_order_status source now v = do
    (stats, t) ← stats_of "sat_order_status" (
        load_satellite pick source now (order_inbox digest text_of v.orders) v.hub_orders
          v.sat_order_status)
    ok (stats, record v { sat_order_status = t })

  unfoldable pub load_satellite_scd2 :
      VaultConfig → ℕ → String → Vault → Result VaultFault (LoadStats × Vault)
  load_satellite_scd2 cfg now name v = do
    entity ← config_of name cfg.satellites
    if str_eq name "sat_customer_details"
        then load_sat_customer_details (source_of cfg entity) now v
        else if str_eq name "sat_order_status"
        then load_sat_order_status (source_of cfg entity) now v
        else err (unsupported name)

abbrev pub some_of : List ℕ → ℕ
some_of [] = 0
some_of (n ∷ ns) = 1

-- LEAD(effective_from) OVER (PARTITION BY hk ORDER BY effective_from): the sorted times of a key, each
-- with the next one. The order among equal times does not change the list.
unfoldable pub insert_sorted : ℕ → List ℕ → List ℕ
insert_sorted n [] = n ∷ []
insert_sorted n (m ∷ ms) = if leb n m then n ∷ m ∷ ms else m ∷ insert_sorted n ms

unfoldable pub sort : List ℕ → List ℕ
sort [] = []
sort (n ∷ ns) = insert_sorted n (sort ns)

unfoldable pub leads : List ℕ → List (ℕ × Option ℕ)
leads [] = []
leads (n ∷ []) = (n, none) ∷ []
leads (n ∷ m ∷ ms) = (n, some m) ∷ leads (m ∷ ms)

-- effective_to IS DISTINCT FROM next_from
abbrev pub is_distinct : Option ℕ → ℕ → Bool
is_distinct none n = true
is_distinct (some m) n = not (m == n)

module _ {C : Type 0} where
  unfoldable pub times_of : String → List (SatRow C) → List ℕ
  times_of hk [] = []
  times_of hk (s ∷ t) =
      let rest = times_of hk t in if str_eq s.hk hk then s.effective_from ∷ rest else rest

  -- The next_from of the rows of `late` that the UPDATE joins to a row.
  unfoldable pub superseding : SatRow C → List (ℕ × Option ℕ) → List ℕ
  superseding s [] = []
  superseding s ((from, next) ∷ late) =
      let rest = superseding s late in
      elim next [
        | none ↦ rest
        | some n ↦
            if from == s.effective_from && (is_distinct s.effective_to n || s.is_current)
            then n ∷ rest
            else rest
      ]

  unfoldable pub reconciled : (ℕ → List ℕ → ℕ) → List (SatRow C) → SatRow C → SatRow C
  reconciled pick t s = ended pick s (superseding s (leads (sort (times_of s.hk t))))

  -- The UPDATE of reconcile_late_arriving, and its row count.
  unfoldable pub reconcile : (ℕ → List ℕ → ℕ) → List (SatRow C) → List (SatRow C)
  reconcile pick t = map (reconciled pick t) t

  unfoldable pub affected_from : List (SatRow C) → List (SatRow C) → ℕ
  affected_from t [] = 0
  affected_from t (s ∷ ss) =
      some_of (superseding s (leads (sort (times_of s.hk t)))) + affected_from t ss

unfoldable pub reconcile_late_arriving :
    (ℕ → List ℕ → ℕ) → String → Vault → Result VaultFault (ℕ × Vault)
reconcile_late_arriving pick satellite v =
    if str_eq satellite "sat_customer_details"
    then ok (
      affected_from v.sat_customer_details v.sat_customer_details,
      record v { sat_customer_details = reconcile pick v.sat_customer_details },
    )
    else if str_eq satellite "sat_order_status"
    then ok (
      affected_from v.sat_order_status v.sat_order_status,
      record v { sat_order_status = reconcile pick v.sat_order_status },
    )
    else err (unsupported satellite)
