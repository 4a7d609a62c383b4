-- ===== src/DbtRest/Guard.antt =====
-- What a request that starts a run leaves behind.
use data_ops_showcase.DbtRest.Argv.Paths.{argv_from_airflow_body_lem}
use data_ops_showcase.DbtRest.Terminal.{worker-Ends, Ends}
use data_ops_showcase.DbtRest.Persist.{Stores}
use data_ops_showcase.DbtRest.Worker.{worker, outcome_of, World}
use data_ops_showcase.DbtRest.{is_run, Runs, queued_row, insert_queued, find_run, RunRow}
use data_ops_showcase.Prelude.{
  Text, none, subst, str_eq_iff, refl, any, Bool-cases, ℕ, some, inl, arith, inr, [], false,
  Result-cases, ◌∷◌, ok, ◌++◌, err, ◌≡◌, List, Option, String,
}
use data_ops_showcase.DbtRest.Http.{
  start_run, create_run_airflow, auth, Service, Start, RequestBody, ApiFault, http, queue,
  start_thread, read_json_body,
}
use data_ops_showcase.DbtRest.Argv.{HttpFault, argv_from_airflow_body}

-- What an accepted request leaves behind: a queued row under the new id, and a thread for it.
pub record Accepted (call : Start) (id : String) (argv : List String) (s s' : Service)
    : Type 0 where
  pub is_new : id ≡ call.new_id
  pub has_threads : s'.threads ≡ s.threads ++ ((id, argv) ∷ [])
  pub has_row : (r : RunRow) × (find_run id s'.runs ≡ some r) × (r.status ≡ "queued")

module _ (token : String) (call : Start) (authorization : Option String) where
  -- A POST to /runs that `auth` refuses fails, whatever its body is, and leaves the table and the threads as they are.
  pub create_run_airflow_refused :
      (request : RequestBody) (e : HttpFault) (s : Service)
      → auth token authorization ≡ err e
      → (x : ApiFault) × (create_run_airflow token call request authorization s ≡ (err x, s))
  unfolding create_run_airflow start_run
  create_run_airflow_refused request e s refused =
      elim (Result-cases (read_json_body false request)) [
        | inr (x, bad) ↦ (http x, ground (arith, bad))
        | inl (body, good) ↦ elim (Result-cases (argv_from_airflow_body body)) [
          | inr (x, bad) ↦ (http x, ground (arith, good, bad))
          | inl (argv, fine) ↦ (http e, ground (arith, good, fine, refused))
        ]
      ]

  find_run-append :
      (id : String) (r : RunRow) (rs : Runs)
      → any (is_run id) rs ≡ false
      → r.run_id ≡ id
      → find_run id (rs ++ r ∷ []) ≡ some r
  find_run-append id r [] h k = ground (arith, k, str_eq_iff r.run_id id)
  find_run-append id r (x ∷ rs) h k = elim (Bool-cases (is_run id x)) [
    | inl same ↦ absurd (ground (arith, h, same))
    | inr other ↦ ground (arith, other, find_run-append id r rs (ground (arith, h, other)) k)
  ]

  find_run-queued :
      (id : String) (job target : Option String) (rs rs' : Runs)
      → insert_queued call.insert_fails id job target rs ≡ ok rs'
      → find_run id rs' ≡ some (queued_row id job target)
  unfolding insert_queued
  find_run-queued id job target rs rs' h = elim (Bool-cases call.insert_fails) [
    | inl fails ↦ absurd (ground (arith, fails, h))
    | inr fine ↦ elim (Bool-cases (any (is_run id) rs)) [
      | inl known ↦ absurd (ground (arith, fine, known, h))
      | inr new ↦
          subst (λ x. find_run id x ≡ some (queued_row id job target))
            {x = rs ++ queued_row id job target ∷ []} {y = rs'} (ground (arith, fine, new, h))
            (find_run-append id (queued_row id job target) rs new (unfold queued_row in refl))
    ]
  ]

  start_run-Accepted :
      (argv : List String) (job target : Option String) (id : String) (s s' : Service)
      → start_run token call argv job target authorization s ≡ (ok id, s')
      → Accepted call id argv s s'
  unfolding start_run queue start_thread
  start_run-Accepted argv job target id s s' h = elim (Result-cases (auth token authorization)) [
    | inr (x, bad) ↦ absurd (ground (arith, bad, h))
    | inl (x, fine) ↦
        elim (Result-cases (insert_queued call.insert_fails call.new_id job target s.runs)) [
          | inr (x, bad) ↦ absurd (ground (arith, fine, bad, h))
          | inl (rs, added) ↦ elim (Bool-cases call.thread_fails) [
            | inl bad ↦ absurd (ground (arith, fine, added, bad, h))
            | inr starts ↦ record {
              is_new = ground (arith, fine, added, starts, h);
              has_threads = ground (arith, fine, added, starts, h);
              has_row = (
                queued_row call.new_id job target,
                ground (
                  arith,
                  fine,
                  added,
                  starts,
                  h,
                  find_run-queued call.new_id job target s.runs rs added,
                ),
                unfold queued_row in refl,
              );
            }
          ]
        ]
  ]

  -- A POST to /runs that is accepted leaves a queued row and a thread behind. When that thread has ended, the row
  -- has a terminal status, on these conditions: the directory is made, the artifacts are read, the outcome of the
  -- process raises nothing, and one of the calls that store the end succeeds.
  pub create_run_airflow-Ends :
      (limit retries : ℕ) (w : World) (request : RequestBody) (id : String) (s s' : Service)
      (status : String) (logs : Text) (names : List String)
      → create_run_airflow token call request authorization s ≡ (ok id, s')
      → w.makedirs_fails ≡ false
      → outcome_of w.process ≡ ok (status, logs)
      → w.artifacts ≡ some names
      → Stores retries w.end_calls
      → (argv : List String) × Accepted call id argv s s'
        × Ends id (worker limit retries w id argv s'.runs).1
  unfolding create_run_airflow
  create_run_airflow-Ends limit retries w request id s s' status logs names h made outcome artifacts
        stores =
      elim (Result-cases (read_json_body false request)) [
        | inr (x, bad) ↦ absurd (ground (arith, bad, h))
        | inl (body, good) ↦ elim (Result-cases (argv_from_airflow_body body)) [
          | inr (x, bad) ↦ absurd (ground (arith, good, bad, h))
          | inl (argv, fine) ↦
              let accepted =
                start_run-Accepted argv body.job none id s s' (ground (arith, good, fine, h)) in
              let (r, found, queued) = accepted.has_row in
              let (out, path) = argv_from_airflow_body_lem body argv id fine in
              (
                argv,
                accepted,
                worker-Ends limit retries w id argv out s'.runs r status logs names path made
                    outcome artifacts stores found,
              )
        ]
      ]
