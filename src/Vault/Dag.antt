-- ===== src/Vault/Dag.antt =====
-- pipelines/dags/transformation/scd2_satellites.py: the tasks of `dag_scd2_satellites`. A task is a run
-- on the vault and the ledger of runs; the Booleans of `Calls` say which of its database calls raise
-- before they commit. The two satellite tasks differ in the name of the satellite alone.
pub mod Validation
use data_ops_showcase.Vault.OneCurrent.{current_rows, same_hk}
use data_ops_showcase.Quality.Meaning.{repeated_groups}
use data_ops_showcase.Vault.{invariant_violation, VaultConfig, VaultFault}
use data_ops_showcase.Vault.Satellite.{reconcile_late_arriving, load_satellite_scd2, SatRow, Vault}
use data_ops_showcase.Runs.{number, finish_run, start_run, Ledger, Finish}
use data_ops_showcase.Exec.{Exec, try_except, raise, pure, ◌>>=◌, ◌>>◌}
use data_ops_showcase.Prelude.{
  ◌||◌, false, ◌==◌, ◌∷◌, [], not, true, if◌then◌else◌, err, ◌<>◌, some, ok, none, Result, Bool,
  String, List, ℕ,
}

pub record Calls : Type 0 where
  pub start_fails : Bool
  pub load_fails : Bool
  pub reconcile_fails : Bool
  pub finish_fails : Bool
  pub finish_failed_fails : Bool
  pub load_time : ℕ  -- NOW() of the load's transaction

pub data TaskFault : Type 0 where
  vault : VaultFault → TaskFault
  database : TaskFault

pub record SatStore : Type 0 where
  pub vault : Vault
  pub ledger : Ledger TaskFault

pub record SatStats : Type 0 where
  pub sat : String
  pub inserted : ℕ
  pub reconciled : ℕ

abbrev pub call :
    {A : Type 0} → Bool → (SatStore → Result TaskFault A × SatStore) → Exec SatStore TaskFault A
call true f s = (err database, s)
call false f s = f s

-- A change of the vault, which raises before it commits.
abbrev pub on_vault :
    {A : Type 0} → (Vault → Result VaultFault (A × Vault)) → Exec SatStore TaskFault A
on_vault f s = elim (f s.vault) [
  | err e ↦ (err (vault e), s)
  | ok (a, v) ↦ (ok a, record s { vault = v })
]

abbrev pub start_task : String → Exec SatStore TaskFault ℕ
start_task name s =
    let (run_id, l) =
      start_run "dag_scd2_satellites" ("satellites." <> name) (some "vault.scd2") (some "vault") []
        s.ledger in
    (ok run_id, record s { ledger = l })

abbrev pub finish_task : Bool → ℕ → Finish TaskFault → Exec SatStore TaskFault (Unit {0})
finish_task fails run_id f =
    call fails (λ s. (ok tt, record s { ledger = finish_run run_id f s.ledger }))

abbrev pub task_success : ℕ → ℕ → Finish TaskFault
task_success inserted fixed = record {
  status = "success";
  rows_in = none;
  rows_out = some inserted;
  rows_quarantined = none;
  error_message = none;
  payload = ("late_arriving_rows_fixed", number fixed) ∷ [];
}

abbrev pub task_failure : TaskFault → Finish TaskFault
task_failure e = record {
  status = "failed";
  rows_in = none;
  rows_out = none;
  rows_quarantined = none;
  error_message = some e;
  payload = [];
}

module _ (digest : String → String) (text_of : ℕ → String) (pick : ℕ → List ℕ → ℕ)
    (cfg : VaultConfig) (calls : Calls) where
  unfoldable pub satellite_body : String → ℕ → Exec SatStore TaskFault SatStats
  satellite_body name run_id = do
    stats ←
        call calls.load_fails
          (on_vault (load_satellite_scd2 digest text_of pick cfg calls.load_time name))
    fixed ← call calls.reconcile_fails (on_vault (reconcile_late_arriving pick name))
    finish_task calls.finish_fails run_id (task_success stats.inserted fixed)
    pure (record { sat = stats.name; inserted = stats.inserted; reconciled = fixed })

  unfoldable pub satellite_task : String → Exec SatStore TaskFault SatStats
  satellite_task name = do
    run_id ← call calls.start_fails (start_task name)
    try_except (satellite_body name run_id)
        λ e. finish_task calls.finish_failed_fails run_id (task_failure e) >> raise e

-- The count of validate_scd2 for one satellite.
unfoldable pub violations : {C : Type 0} → List (SatRow C) → ℕ
violations t = repeated_groups same_hk [] (current_rows t)

unfoldable pub validate_scd2 : Vault → Result VaultFault (ℕ × ℕ)
validate_scd2 v =
    let customers = violations v.sat_customer_details in
    let orders = violations v.sat_order_status in
    if not (customers == 0) || not (orders == 0)
    then err invariant_violation
    else ok (customers, orders)
