-- ===== src/Vault/Link.antt =====
-- The link after its load, when the hubs were loaded before it.
use data_ops_showcase.Vault.Pairs.{
  repeats-add_missing, all-add_missing, repeats-same_pair, same_link_hk, names_pair,
}
use data_ops_showcase.Vault.Keys.{insert_missing_lem, has_key-load_hub}
use data_ops_showcase.Storage.{has_key}
use data_ops_showcase.Vault.{
  repeats, source_of, load_hub, LoadStats, config_of, EntityConfig, load_link, VaultConfig, hub_key,
  link_key, refers, HubRow, LinkRow, StgOrder, link_rows,
}
use data_ops_showcase.Prelude.Dict.{string_key}
use data_ops_showcase.Storage.Insert.{add_missing-AllPresent, AllPresent, add_missing}
use data_ops_showcase.Prelude.{
  ◌-◌, length, str_eq, ok, false, map, any, str_eq_iff, Option, refl, inr, inl, [], arith,
  Option-cases, ◌&&◌, ◌∷◌, some, ◌≡◌, true, none, all, List, ◌<>◌, String, Bool, ℕ,
}

module _ (digest : String → String) (text_of : ℕ → String) where
  -- A test of the two ids of an order, where it has both.
  abbrev on_ids : (ℕ → ℕ → Bool) → StgOrder → Bool
  on_ids test o = elim o.customer_id [
    | none ↦ true
    | some c ↦ elim o.order_id [ none ↦ true | some i ↦ test c i ]
  ]

  abbrev link_of : ℕ → ℕ → String
  link_of c i = digest (text_of c <> ("||" <> text_of i))

  abbrev pub is_linked : List LinkRow → StgOrder → Bool
  is_linked t = on_ids (λ c i. has_key link_key (link_of c i) t)

  abbrev in_hubs : List HubRow → List HubRow → StgOrder → Bool
  in_hubs customers orders = on_ids (λ c i.
      has_key hub_key (digest (text_of c)) customers && has_key hub_key (digest (text_of i)) orders)

  link_rows-refer :
      (customers orders : List HubRow) (source : String) (now : ℕ) (staged : List StgOrder)
      → all (in_hubs customers orders) staged ≡ true
      → all (refers digest text_of customers orders) (link_rows digest text_of source now staged)
        ≡ true
  unfolding link_rows
  link_rows-refer customers orders source now [] h = refl
  link_rows-refer customers orders source now (o ∷ os) h =
      let rest = link_rows-refer customers orders source now os (ground (arith, h)) in
      elim (Option-cases o.customer_id) [
        | inl no_customer ↦ ground (arith, no_customer, rest)
        | inr (c, e) ↦ elim (Option-cases o.order_id) [
          | inl no_order ↦ ground (arith, e, no_order, rest)
          | inr (i, f) ↦ ground (arith, e, f, h, rest)
        ]
      ]

  linked_orders :
      (source : String) (now : ℕ) (staged : List StgOrder) (t : List LinkRow)
      → AllPresent link_key (link_rows digest text_of source now staged) t
      → all (is_linked t) staged ≡ true
  unfolding link_rows
  linked_orders source now [] t h = refl
  linked_orders source now (o ∷ os) t h = elim (Option-cases o.customer_id) [
    | inl no_customer ↦
        ground (arith, no_customer, linked_orders source now os t (ground (arith, h, no_customer)))
    | inr (c, e) ↦ elim (Option-cases o.order_id) [
      | inl no_order ↦
          ground
            (arith, e, no_order, linked_orders source now os t (ground (arith, h, e, no_order)))
      | inr (i, f) ↦ ground (arith, e, f, h, linked_orders source now os t)
    ]
  ]

  abbrev pub order_keys : List StgOrder → List (Option String)
  order_keys staged = map (λ o. elim o.order_id [ none ↦ none | some i ↦ some (text_of i) ]) staged

  abbrev pub has_bk : List (Option String) → String → Bool
  has_bk bks bk = any (λ (o : Option String). elim o [ none ↦ false | some b ↦ str_eq bk b ]) bks

  -- The customer of an order is in the source of the customers' hub.
  abbrev pub knows_customer : List (Option String) → StgOrder → Bool
  knows_customer bks = on_ids (λ c i. has_bk bks (text_of c))

  hubs_cover :
      (customers orders : List HubRow) (bks all_bks : List (Option String)) (staged : List StgOrder)
      → ((bk : String) → has_bk bks bk ≡ true → has_key hub_key (digest bk) customers ≡ true)
      → ((bk : String) → has_bk all_bks bk ≡ true → has_key hub_key (digest bk) orders ≡ true)
      → ((i : ℕ)
          → has_bk (order_keys staged) (text_of i) ≡ true
          → has_bk all_bks (text_of i) ≡ true)
      → all (knows_customer bks) staged ≡ true
      → all (in_hubs customers orders) staged ≡ true
  hubs_cover customers orders bks all_bks [] hc ho sub h = refl
  hubs_cover customers orders bks all_bks (o ∷ os) hc ho sub h =
      let rest =
        hubs_cover customers orders bks all_bks os hc ho (λ i e. sub i (ground (arith, e)))
          (ground (arith, h)) in
      elim (Option-cases o.customer_id) [
        | inl no_customer ↦ ground (arith, no_customer, rest)
        | inr (c, e) ↦ elim (Option-cases o.order_id) [
          | inl no_order ↦ ground (arith, e, no_order, rest)
          | inr (i, f) ↦
              let a = hc (text_of c) (ground (arith, h, e, f)) in
              let b =
                ho (text_of i)
                  (sub i (ground (arith, f, (str_eq_iff (text_of i) (text_of i)).1 refl))) in
              ground (arith, e, f, a, b, rest)
        ]
      ]

  -- The digest of a pair of ids is determined by the digests of the ids.
  module _ (link_for : String → String → String)
      (pair_digest : (c i : ℕ)
        → link_of c i ≡ link_for (digest (text_of c)) (digest (text_of i))) where
    link_rows-named :
        (source : String) (now : ℕ) (staged : List StgOrder)
        → all (names_pair link_for) (link_rows digest text_of source now staged) ≡ true
    unfolding link_rows
    link_rows-named source now [] = refl
    link_rows-named source now (o ∷ os) =
        let rest = link_rows-named source now os in
        elim (Option-cases o.customer_id) [
          | inl no_customer ↦ ground (arith, no_customer, rest)
          | inr (c, e) ↦ elim (Option-cases o.order_id) [
            | inl no_order ↦ ground (arith, e, no_order, rest)
            | inr (i, f) ↦
                let named =
                  (str_eq_iff (link_of c i) (link_for (digest (text_of c)) (digest (text_of i)))).1
                    (pair_digest c i) in
                ground (arith, e, f, named, rest)
          ]
        ]

    -- Where every order's ids are in the hubs, and the links that are there refer to them and have the key
    -- of their pair, `load_link` returns, and every order with both ids has its link.
    load_link-ok :
        (cfg : VaultConfig) (now : ℕ) (entity : EntityConfig) (staged : List StgOrder)
        (customers orders : List HubRow) (t : List LinkRow)
        → config_of "link_customer_orders" cfg.links ≡ ok entity
        → all (in_hubs customers orders) staged ≡ true
        → all (refers digest text_of customers orders) t ≡ true
        → all (names_pair link_for) t ≡ true
        → repeats same_link_hk t ≡ false
        → (stats : LoadStats) × (t' : List LinkRow) × (load_link digest text_of cfg now
              "link_customer_orders" staged customers orders t
            ≡ ok (stats, t'))
          × (all (is_linked t') staged ≡ true)
    unfolding load_link
    load_link-ok cfg now entity staged customers orders t found known fine named distinct =
        let rows = link_rows digest text_of (source_of cfg entity) now staged in
        let t' = add_missing link_key rows t in
        (
          record { name = "link_customer_orders"; inserted = length t' - length t; updated = 0 },
          t',
          ground (
            arith,
            found,
            insert_missing_lem link_key rows t,
            repeats-same_pair link_for t'
                (all-add_missing link_key (names_pair link_for) rows t
                  (link_rows-named (source_of cfg entity) now staged) named)
                (repeats-add_missing rows t distinct),
            all-add_missing link_key (refers digest text_of customers orders) rows t
                (link_rows-refer customers orders (source_of cfg entity) now staged known) fine,
          ),
          linked_orders (source_of cfg entity) now staged t'
              (add_missing-AllPresent link_key rows t),
        )

    -- After the hubs' loads, the second from the staged orders, where the configuration has the link,
    -- every order's customer is in the source of the first hub, the digest of a pair of ids is determined
    -- by those of the ids, and the links that are there refer to the hubs, have the key of their pair and
    -- no key twice: `load_link` returns, and every order with both ids has its link.
    pub load_link_after_hubs :
        (cfg : VaultConfig) (n1 n2 now : ℕ) (entity : EntityConfig) (bks : List (Option String))
        (staged : List StgOrder) (hc ho hc' ho' : List HubRow) (s1 s2 : LoadStats)
        (t : List LinkRow)
        → load_hub digest cfg n1 "hub_customers" bks hc ≡ ok (s1, hc')
        → load_hub digest cfg n2 "hub_orders" (order_keys staged) ho ≡ ok (s2, ho')
        → config_of "link_customer_orders" cfg.links ≡ ok entity
        → all (knows_customer bks) staged ≡ true
        → all (refers digest text_of hc' ho') t ≡ true
        → all (names_pair link_for) t ≡ true
        → repeats same_link_hk t ≡ false
        → (stats : LoadStats) × (t' : List LinkRow) × (load_link digest text_of cfg now
              "link_customer_orders" staged hc' ho' t
            ≡ ok (stats, t'))
          × (all (is_linked t') staged ≡ true)
    load_link_after_hubs cfg n1 n2 now entity bks staged hc ho hc' ho' s1 s2 t h1 h2 found known
          fine named distinct =
        load_link-ok cfg now entity staged hc' ho' t found
          (hubs_cover hc' ho' bks (order_keys staged) staged
            (λ bk e. has_key-load_hub digest cfg n1 "hub_customers" bks hc hc' s1 bk h1 e)
            (λ bk e.
              has_key-load_hub digest cfg n2 "hub_orders" (order_keys staged) ho ho' s2 bk h2 e)
            (λ i e. e) known)
          fine named distinct
