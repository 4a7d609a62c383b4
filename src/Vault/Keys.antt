-- ===== src/Vault/Keys.antt =====
-- The keys of the hubs and of the link after their loads.
use data_ops_showcase.Storage.{has_key}
use data_ops_showcase.Storage.Insert.{
  add_missing-AllPresent, statement-do_nothing, add_missing_of_AllPresent, add_missing, AllPresent,
}
use data_ops_showcase.Vault.{
  same_bk, repeats, config_of, source_of, EntityConfig, hub_key, LoadStats, HubRow, insert_missing,
  VaultConfig, load_hub, hub_rows, distinct_keys,
}
use data_ops_showcase.Prelude.Dict.{string_key, Key}
use data_ops_showcase.Prelude.{
  refl, ◌∙◌, inr, str_eq_iff, >>=-eq-ok, inl, Bool-cases, some, sym, ◌||◌, [], subst, false, ◌-◌,
  length, true, none, str_eq, ok, ◌∷◌, arith, any, ◌≡◌, map, Option, List, String, ℕ,
}

-- A table after an INSERT with DO NOTHING.
pub insert_missing_lem :
    {K R : Type 0} ⦃k : Key K⦄ (key : R → K) (rows t : List R)
    → insert_missing key rows t
      ≡ (add_missing key rows t, length (add_missing key rows t) - length t)
insert_missing_lem key rows t = ground (arith, statement-do_nothing key [] rows t)

insert_missing_none :
    {K R : Type 0} ⦃k : Key K⦄ (key : R → K) (rows t : List R)
    → AllPresent key rows t
    → insert_missing key rows t ≡ (t, 0)
insert_missing_none key rows t h =
    ground (arith, insert_missing_lem key rows t, add_missing_of_AllPresent key rows t h)

any-distinct_keys :
    (bk : String) (bks : List (Option String))
    → any (str_eq bk) (distinct_keys bks)
      ≡ any (λ (o : Option String). elim o [ none ↦ false | some b ↦ str_eq bk b ]) bks
unfolding distinct_keys
any-distinct_keys bk [] = refl
any-distinct_keys bk (none ∷ bks) = any-distinct_keys bk bks
any-distinct_keys bk (some b ∷ bks) =
    ground (arith, any-distinct_keys bk bks, any-distinct_keys b bks, str_eq_iff bk b)

module _ (digest : String → String) where
  abbrev hub_rows_of : String → ℕ → List String → List HubRow
  hub_rows_of source now keys =
      map (λ bk. record { hk = digest bk; bk = bk; load_dts = now; record_source = source }) keys

  AllPresent-hub_rows_of :
      (source source' : String) (now now' : ℕ) (keys : List String) (t : List HubRow)
      → AllPresent hub_key (hub_rows_of source now keys) t
      → AllPresent hub_key (hub_rows_of source' now' keys) t
  AllPresent-hub_rows_of source source' now now' [] t h = tt
  AllPresent-hub_rows_of source source' now now' (bk ∷ keys) t (here, h) =
      (here, AllPresent-hub_rows_of source source' now now' keys t h)

  present_key :
      (source : String) (now : ℕ) (keys : List String) (t : List HubRow) (bk : String)
      → AllPresent hub_key (hub_rows_of source now keys) t
      → any (str_eq bk) keys ≡ true
      → has_key hub_key (digest bk) t ≡ true
  present_key source now [] t bk h e = absurd (ground arith)
  present_key source now (b ∷ keys) t bk (here, h) e = elim (Bool-cases (str_eq bk b)) [
    | inl same ↦
        subst (λ x. has_key hub_key (digest x) t ≡ true) {x = b} {y = bk}
          (sym ((str_eq_iff bk b).0 same)) here
    | inr other ↦ present_key source now keys t bk h (ground (arith, e, other))
  ]

  loaded_hub :
      (cfg : VaultConfig) (now : ℕ) (name : String) (bks : List (Option String))
      (t t' : List HubRow) (stats : LoadStats)
      → load_hub digest cfg now name bks t ≡ ok (stats, t')
      → (entity : EntityConfig) × (config_of name cfg.hubs ≡ ok entity)
        × ((str_eq name "hub_customers" || str_eq name "hub_orders") ≡ true)
        × (t' ≡ add_missing hub_key (hub_rows digest (source_of cfg entity) now bks) t)
        × (repeats same_bk t' ≡ false)
  unfolding load_hub
  loaded_hub cfg now name bks t t' stats h =
      let (entity, found, rest) = >>=-eq-ok (config_of name cfg.hubs) _ h in
      elim (Bool-cases (str_eq name "hub_customers" || str_eq name "hub_orders")) [
        | inr unknown ↦ absurd (ground (arith, unknown, rest))
        | inl known ↦
            let rows = hub_rows digest (source_of cfg entity) now bks in
            let added = insert_missing_lem hub_key rows t in
            elim (Bool-cases (repeats same_bk (add_missing hub_key rows t))) [
              | inl twice ↦ absurd (ground (arith, known, rest, added, twice))
              | inr distinct ↦
                  let same : t' ≡ add_missing hub_key rows t =
                    ground (arith, known, rest, added, distinct) in
                  (
                    entity,
                    found,
                    known,
                    same,
                    subst (λ x. repeats same_bk x ≡ false) (sym same) distinct,
                  )
            ]
      ]

  -- A second load of the same hub from the same rows inserts nothing, at whatever time.
  pub load_hub_again :
      (cfg : VaultConfig) (now now' : ℕ) (name : String) (bks : List (Option String))
      (t t' : List HubRow) (stats : LoadStats)
      → load_hub digest cfg now name bks t ≡ ok (stats, t')
      → load_hub digest cfg now' name bks t'
        ≡ ok (record { name = name; inserted = 0; updated = 0 }, t')
  unfolding load_hub hub_rows
  load_hub_again cfg now now' name bks t t' stats h =
      let (entity, found, known, e, distinct) = loaded_hub cfg now name bks t t' stats h in
      let source = source_of cfg entity in
      ground (
        arith,
        found,
        known,
        distinct,
        insert_missing_none hub_key (hub_rows_of source now' (distinct_keys bks)) t' (
            AllPresent-hub_rows_of source source now now' (distinct_keys bks) t' (
              subst (AllPresent hub_key (hub_rows_of source now (distinct_keys bks))) (sym e)
                (add_missing-AllPresent hub_key (hub_rows_of source now (distinct_keys bks)) t))),
      )

  -- After a load that succeeds, the hub has the key of every row of the source whose business key is
  -- not NULL.
  pub has_key-load_hub :
      (cfg : VaultConfig) (now : ℕ) (name : String) (bks : List (Option String))
      (t t' : List HubRow) (stats : LoadStats) (bk : String)
      → load_hub digest cfg now name bks t ≡ ok (stats, t')
      → any (λ (o : Option String). elim o [ none ↦ false | some b ↦ str_eq bk b ]) bks ≡ true
      → has_key hub_key (digest bk) t' ≡ true
  unfolding hub_rows
  has_key-load_hub cfg now name bks t t' stats bk h e =
      let (entity, found, known, same, distinct) = loaded_hub cfg now name bks t t' stats h in
      let source = source_of cfg entity in
      present_key source now (distinct_keys bks) t' bk
        (subst (AllPresent hub_key (hub_rows_of source now (distinct_keys bks))) (sym same)
          (add_missing-AllPresent hub_key (hub_rows_of source now (distinct_keys bks)) t))
        (any-distinct_keys bk bks ∙ e)
