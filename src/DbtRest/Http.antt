-- ===== src/DbtRest/Http.antt =====
-- services/dbt_rest/app/main.py: the handlers of the routes. A run id is taken by `uuid`, which is the
-- text of `uuid.UUID`, or `none` where that raises.
use data_ops_showcase.DbtRest.Argv.{
  argv_from_airflow_body, argv_from_web_job, Body, HttpFault, http_error, strip, nothing, no_vars,
  text_of,
}
use data_ops_showcase.DbtRest.{Runs, RunRow, DbFault, insert_queued, find_run, get_logs, run_exists}
use data_ops_showcase.Exec.{Exec, ◌>>=◌, ◌>>◌, pure}
use data_ops_showcase.Prelude.{
  Text, ◌<>◌, true, [], ◌∷◌, not, ◌==◌, lower, any, ◌++◌, str_eq, if◌then◌else◌, none, ok, err,
  some, ℕ, false, String, Bool, Option, List, Result,
}
use Prim.Native.Char.{code}

-- What a request's bytes are.
pub data RequestBody : Type 0 where
  blank : RequestBody
  undecodable : RequestBody
  not_a_dict : RequestBody
  parsed : Body → RequestBody

abbrev pub empty_body : Body
empty_body = record {
  target = none;
  command = none;
  selectors = nothing;
  fail_on_test_failure = none;
  full_refresh = false;
  defer = false;
  vars = no_vars;
  job = none;
}

unfoldable pub read_json_body : Bool → RequestBody → Result HttpFault Body
read_json_body allow_empty blank =
    if allow_empty then ok empty_body else err (http_error 400 "JSON body required")
read_json_body allow_empty undecodable = err (http_error 400 "invalid JSON body")
read_json_body allow_empty not_a_dict = err (http_error 400 "JSON object required")
read_json_body allow_empty (parsed b) = ok b

-- The rest of a text behind a prefix.
unfoldable pub after : String → String → Option String
after String.[] s = some s
after (String.◌∷◌ c p) String.[] = none
after (String.◌∷◌ c p) (String.◌∷◌ d s) =
    let rest = after p s in if code c == code d then rest else none

abbrev pub unauthorized : HttpFault
unauthorized = http_error 401 "Unauthorized"

unfoldable pub auth : String → Option String → Result HttpFault (Unit {0})
auth token authorization =
    if str_eq token "" then ok tt else elim (after "Bearer " (text_of authorization)) [
      | none ↦ err unauthorized
      | some rest ↦ if str_eq (strip rest) token then ok tt else err unauthorized
    ]

-- The table, and the threads that were started: the run of each and its command.
pub record Service : Type 0 where
  pub runs : Runs
  pub threads : List (String × List String)

pub data ApiFault : Type 0 where
  http : HttpFault → ApiFault
  database : DbFault → ApiFault
  runtime_error : ApiFault  -- no thread can be started

-- What a request to start a run meets: the new id, and which calls raise.
pub record Start : Type 0 where
  pub new_id : String
  pub insert_fails : Bool
  pub thread_fails : Bool

abbrev pub checked : {A : Type 0} → Result HttpFault A → Exec Service ApiFault A
checked (ok a) s = (ok a, s)
checked (err e) s = (err (http e), s)

unfoldable pub start_thread : Bool → String → List String → Exec Service ApiFault (Unit {0})
start_thread fails run_id argv s =
    if fails
    then (err runtime_error, s)
    else (ok tt, record s { threads = s.threads ++ (run_id, argv) ∷ [] })

unfoldable pub queue : Start → Option String → Option String → Exec Service ApiFault (Unit {0})
queue call job_name web_target s =
    elim (insert_queued call.insert_fails call.new_id job_name web_target s.runs) [
      | ok rs ↦ (ok tt, record s { runs = rs })
      | err x ↦ (err (database x), s)
    ]

module _ (token : String) where
  unfoldable pub start_run :
      Start
      → List String
      → Option String
      → Option String
      → Option String
      → Exec Service ApiFault String
  start_run call argv job_name web_target authorization = do
    checked (auth token authorization)
    queue call job_name web_target
    start_thread call.thread_fails call.new_id argv
    pure call.new_id

  -- POST /runs
  unfoldable pub create_run_airflow :
      Start → RequestBody → Option String → Exec Service ApiFault String
  create_run_airflow call request authorization = do
    body ← checked (read_json_body false request)
    argv ← checked (argv_from_airflow_body body)
    start_run call argv body.job none authorization

  -- POST /jobs/run/{layer}
  unfoldable pub create_run_web :
      Start → String → RequestBody → Option String → Exec Service ApiFault String
  create_run_web call layer request authorization = do
    checked (
        if any (str_eq layer) ("staging" ∷ "vault" ∷ "marts" ∷ [])
        then ok tt
        else err (http_error 400 "invalid target"))
    body ← checked (read_json_body true request)
    argv ← checked (argv_from_web_job layer body)
    start_run call argv (some ("web_" <> layer)) (some layer) authorization

  module _ (uuid : String → Option String) where
    abbrev pub require_run_uuid : String → Result HttpFault String
    require_run_uuid run_id = elim (uuid run_id) [
      | none ↦ err (http_error 400 "invalid run_id")
      | some u ↦ ok u
    ]

    -- GET /runs/{run_id} and GET /runs/{run_id}/status
    unfoldable pub run_view : String → Runs → Result HttpFault RunRow
    run_view run_id rs = elim (require_run_uuid run_id) [
      | err e ↦ err e
      | ok u ↦ elim (find_run u rs) [
        | none ↦ err (http_error 404 "run not found")
        | some r ↦ ok (record r { status = lower r.status })
      ]
    ]

    unfoldable pub get_run : String → Option String → Runs → Result HttpFault RunRow
    get_run run_id authorization rs = elim (auth token authorization) [
      | err e ↦ err e
      | ok x ↦ run_view run_id rs
    ]

    -- GET /runs/{run_id}/logs
    unfoldable pub logs_of : String → Option String → Runs → Result HttpFault Text
    logs_of run_id authorization rs = elim (auth token authorization) [
      | err e ↦ err e
      | ok x ↦ elim (require_run_uuid run_id) [
        | err e ↦ err e
        | ok u ↦ elim (get_logs u rs) [
          | none ↦ err (http_error 404 "run not found")
          | some text ↦ ok text
        ]
      ]
    ]

    -- GET /artifacts/{run_id}/{name}; `file` is what is on the disk.
    unfoldable pub get_artifact :
        (String → String → Option Text)
        → String
        → String
        → Option String
        → Runs
        → Result HttpFault (Text × String)
    get_artifact file run_id name authorization rs = elim (auth token authorization) [
      | err e ↦ err e
      | ok x ↦ elim (require_run_uuid run_id) [
        | err e ↦ err e
        | ok u ↦
            if not (
              any (str_eq name)
                ("manifest.json" ∷ "catalog.json" ∷ "run_results.json" ∷ "graph.js" ∷ []))
            then err (http_error 400 "invalid artifact name")
            else if not (run_exists u rs)
            then err (http_error 404 "run not found")
            else elim (file u name) [
              | none ↦ err (http_error 404 "artifact not found")
              | some blob ↦ ok (
                blob,
                if str_eq name "graph.js" then "application/javascript" else "application/json",
              )
            ]
      ]
    ]

-- GET /health: the status of the answer
unfoldable pub health : Bool → Bool → ℕ
health has_dsn pings = if not has_dsn then 503 else if not pings then 503 else 200
