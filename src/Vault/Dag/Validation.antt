-- ===== src/Vault/Dag/Validation.antt =====
-- The validation of the satellites after their tasks.
use data_ops_showcase.Runs.{start_run}
use data_ops_showcase.Vault.{source_of, config_of, LoadStats, VaultConfig}
use data_ops_showcase.Quality.Meaning.{repeated_groups_lem}
use data_ops_showcase.Vault.OneCurrent.{NoRepeat-reconcile, current_rows, same_hk}
use data_ops_showcase.Vault.Satellite.{
  order_inbox, load_satellite, stats_of, load_sat_order_status, reconcile_late_arriving,
  load_satellite_scd2, Vault, reconcile, SatRow,
}
use data_ops_showcase.Vault.Dag.{
  start_task, validate_scd2, satellite_task, SatStats, SatStore, satellite_body, Calls, violations,
}
use data_ops_showcase.Prelude.{
  >>=-eq-ok, Result-cases, inr, inl, Bool-cases, ok, String, str_eq_iff, arith, ◌≡◌, List, ℕ,
}

violations-reconcile :
    {C : Type 0} (pick : ℕ → List ℕ → ℕ) (t : List (SatRow C)) → violations (reconcile pick t) ≡ 0
unfolding violations
violations-reconcile pick t =
    (repeated_groups_lem same_hk (λ a b. same_hk_sym a b) (current_rows (reconcile pick t))).1
      (NoRepeat-reconcile pick t)
  where
    same_hk_sym : {D : Type 0} (a b : SatRow D) → same_hk a b ≡ same_hk b a
    same_hk_sym a b = ground (arith, str_eq_iff a.hk b.hk, str_eq_iff b.hk a.hk)

module _ (digest : String → String) (text_of : ℕ → String) (pick : ℕ → List ℕ → ℕ)
    (cfg : VaultConfig) (calls : Calls) where
  -- What a task that returned did to the vault.
  record Done (name : String) (v v' : Vault) : Type 0 where
    loaded : Vault
    stats : LoadStats
    fixed : ℕ
    loads : load_satellite_scd2 digest text_of pick cfg calls.load_time name v ≡ ok (stats, loaded)
    reconciles : reconcile_late_arriving pick name loaded ≡ ok (fixed, v')

  satellite_body-Done :
      (name : String) (run_id : ℕ) (s : SatStore) (r : SatStats) (s' : SatStore)
      → satellite_body digest text_of pick cfg calls name run_id s ≡ (ok r, s')
      → Done name s.vault s'.vault
  unfolding satellite_body
  satellite_body-Done name run_id s r s' h = elim (Bool-cases calls.load_fails) [
    | inl fails ↦ absurd (ground (arith, fails, h))
    | inr runs ↦
        elim (Result-cases
          (load_satellite_scd2 digest text_of pick cfg calls.load_time name s.vault)) [
            | inr (x, e) ↦ absurd (ground (arith, runs, e, h))
            | inl ((stats, v), e) ↦ elim (Bool-cases calls.reconcile_fails) [
              | inl fails ↦ absurd (ground (arith, runs, e, fails, h))
              | inr runs2 ↦ elim (Result-cases (reconcile_late_arriving pick name v)) [
                | inr (x, f) ↦ absurd (ground (arith, runs, e, runs2, f, h))
                | inl ((fixed, v'), f) ↦ elim (Bool-cases calls.finish_fails) [
                  | inl fails ↦ absurd (ground (arith, runs, e, runs2, f, fails, h))
                  | inr finishes ↦ record {
                    loaded = v;
                    stats = stats;
                    fixed = fixed;
                    loads = e;
                    reconciles = ground (arith, runs, e, runs2, f, finishes, h);
                  }
                ]
              ]
            ]
          ]
  ]

  satellite_task-Done :
      (name : String) (s : SatStore) (r : SatStats) (s' : SatStore)
      → satellite_task digest text_of pick cfg calls name s ≡ (ok r, s')
      → Done name s.vault s'.vault
  unfolding satellite_task start_run
  satellite_task-Done name s r s' h = elim (Bool-cases calls.start_fails) [
    | inl fails ↦ absurd (ground (arith, fails, h))
    | inr starts ↦
        let begun = start_task name s in
        let s1 : SatStore = begun.1 in
        let body = satellite_body digest text_of pick cfg calls name s.ledger.next_id s1 in
        elim (Result-cases body.0) [
          | inr (x, e) ↦ elim (Bool-cases calls.finish_failed_fails) [
            | inl f ↦ absurd (ground (arith, starts, e, f, h))
            | inr f ↦ absurd (ground (arith, starts, e, f, h))
          ]
          | inl (stats, e) ↦
              satellite_body-Done name s.ledger.next_id s1 r s' (ground (arith, starts, e, h))
        ]
  ]

customers-reconcile_late_arriving :
    (pick : ℕ → List ℕ → ℕ) (v v' : Vault) (n : ℕ)
    → reconcile_late_arriving pick "sat_customer_details" v ≡ ok (n, v')
    → v'.sat_customer_details ≡ reconcile pick v.sat_customer_details
unfolding reconcile_late_arriving
customers-reconcile_late_arriving pick v v' n h = ground (arith, h)

orders-reconcile_late_arriving :
    (pick : ℕ → List ℕ → ℕ) (v v' : Vault) (n : ℕ)
    → reconcile_late_arriving pick "sat_order_status" v ≡ ok (n, v')
    → (v'.sat_order_status ≡ reconcile pick v.sat_order_status)
      × (v'.sat_customer_details ≡ v.sat_customer_details)
unfolding reconcile_late_arriving
orders-reconcile_late_arriving pick v v' n h = ground (arith, h)

orders-load_satellite_scd2 :
    (digest : String → String) (text_of : ℕ → String) (pick : ℕ → List ℕ → ℕ) (cfg : VaultConfig)
    (now : ℕ) (v v' : Vault) (stats : LoadStats)
    → load_satellite_scd2 digest text_of pick cfg now "sat_order_status" v ≡ ok (stats, v')
    → v'.sat_customer_details ≡ v.sat_customer_details
unfolding load_satellite_scd2 load_sat_order_status
orders-load_satellite_scd2 digest text_of pick cfg now v v' stats h =
    let (entity, found, rest) = >>=-eq-ok (config_of "sat_order_status" cfg.satellites) _ h in
    let (loaded, e, last) =
      >>=-eq-ok
        (stats_of "sat_order_status" (
          load_satellite pick (source_of cfg entity) now (order_inbox digest text_of v.orders)
            v.hub_orders v.sat_order_status))
        _ rest in
    ground (arith, last)

-- Where the tasks of both satellites have returned, in this order, the validation finds no key with
-- two current versions in either of them.
pub validate_scd2_after_tasks :
    (digest : String → String) (text_of : ℕ → String) (pick : ℕ → List ℕ → ℕ) (cfg : VaultConfig)
    (calls calls' : Calls) (s s1 s2 : SatStore) (r1 r2 : SatStats)
    → satellite_task digest text_of pick cfg calls "sat_customer_details" s ≡ (ok r1, s1)
    → satellite_task digest text_of pick cfg calls' "sat_order_status" s1 ≡ (ok r2, s2)
    → validate_scd2 s2.vault ≡ ok (0, 0)
unfolding validate_scd2
validate_scd2_after_tasks digest text_of pick cfg calls calls' s s1 s2 r1 r2 h1 h2 =
    let d1 = satellite_task-Done digest text_of pick cfg calls "sat_customer_details" s r1 s1 h1 in
    let d2 = satellite_task-Done digest text_of pick cfg calls' "sat_order_status" s1 r2 s2 h2 in
    let a = customers-reconcile_late_arriving pick d1.loaded s1.vault d1.fixed d1.reconciles in
    let (b, c) = orders-reconcile_late_arriving pick d2.loaded s2.vault d2.fixed d2.reconciles in
    let d =
      orders-load_satellite_scd2 digest text_of pick cfg calls'.load_time s1.vault d2.loaded
        d2.stats d2.loads in
    ground (
      arith,
      a,
      b,
      c,
      d,
      violations-reconcile pick d1.loaded.sat_customer_details,
      violations-reconcile pick d2.loaded.sat_order_status,
    )
