-- ===== src/DbtClient.antt =====
-- services/dbt_client/rest_client.py: starting a dbt run over HTTP and waiting for its end. The service
-- is not part of the client: `post n` is what the `n`-th POST of a trigger comes to, `get n` the `n`-th
-- GET of a run, and `expired n` whether the deadline has passed after it. The sleeps are left out.
pub mod Calls
mod Tests
use Prim.Native.Char.{code}
use data_ops_showcase.Prelude.{
  zero, ◌+◌, any, ok, suc, ◌==◌, ltb, ◌&&◌, [], none, some, ◌∷◌, not, false, ◌||◌, true, lower, err,
  str_eq, ◌>>=◌, Option, if◌then◌else◌, List, Bool, String, Result, ℕ,
}

pub data PostReply : Type 0 where
  refused : PostReply  -- requests.RequestException, also of raise_for_status, or ValueError of json()
  posted : Option String → Option String → PostReply  -- the entries "run_id" and "id"
  no_object : PostReply  -- JSON that has no `get`: AttributeError

pub data ClientFault : Type 0 where
  trigger_failed : ClientFault
  attribute_error : ClientFault
  request_failed : ClientFault
  run_failed : String → ClientFault  -- DbtRunFailed
  partial_refused : ClientFault
  did_not_finish : ClientFault
  fuel_spent : ClientFault  -- of the model alone

abbrev pub text_or : Option String → String → String
text_or none text = text
text_or (some s) text = if str_eq s "" then text else s

-- One round of the trigger's loop: the body of its `try`, and the exceptions that it catches.
pub data Attempt : Type 0 where
  accepted : String → Attempt
  again : Attempt
  escapes : ClientFault → Attempt

unfoldable pub attempt_of : PostReply → Attempt
attempt_of refused = again
attempt_of no_object = escapes attribute_error
attempt_of (posted run_id id) =
    let name = text_or run_id (text_or id "") in if str_eq name "" then again else accepted name

module _ (post : ℕ → PostReply) where
  -- `left` attempts of trigger_max_attempts are left, `n` are made; with the number made in the end.
  unfoldable pub trigger_loop : ℕ → ℕ → Result ClientFault String × ℕ
  trigger_loop zero n = (err trigger_failed, n)
  trigger_loop (suc left) n = elim (attempt_of (post n)) [
    | accepted name ↦ (ok name, n + 1)
    | again ↦ trigger_loop left (n + 1)
    | escapes e ↦ (err e, n + 1)
  ]

  unfoldable pub trigger_run : ℕ → Result ClientFault String × ℕ
  trigger_run max_attempts = trigger_loop max_attempts 0

unfoldable pub starts_with : String → String → Bool
starts_with String.[] s = true
starts_with (String.◌∷◌ c needle) String.[] = false
starts_with (String.◌∷◌ c needle) (String.◌∷◌ d s) = code c == code d && starts_with needle s

-- needle in s
unfoldable pub contains : String → String → Bool
contains needle String.[] = str_eq needle ""
contains needle (String.◌∷◌ c s) = starts_with needle (String.◌∷◌ c s) || contains needle s

-- The entries "failed" and "failures" that are true in Python: a number, a list of that length, or
-- another value.
pub data Failed : Type 0 where
  count : ℕ → Failed
  items : ℕ → Failed
  other_value : Failed

-- "run_results" or "results", where it is true in Python.
pub data RunResults : Type 0 where
  dict : Option Failed → Option Failed → RunResults
  no_dict : RunResults

-- The JSON of a run; `none` for an entry that is missing or false in Python.
pub record RunPayload : Type 0 where
  pub status : Option String
  pub partial_success : Bool
  pub status_detail : Option String
  pub run_results : Option RunResults
  pub results : Option RunResults

abbrev pub positive : Option Failed → Bool
positive none = false
positive (some (count n)) = ltb 0 n
positive (some (items n)) = ltb 0 n
positive (some other_value) = false

-- rr.get("failed") or rr.get("failures")
abbrev pub first_of : {A : Type 0} → Option A → Option A → Option A
first_of none b = b
first_of (some a) b = some a

unfoldable pub partial_from_payload : RunPayload → Bool
partial_from_payload p =
    p.partial_success
    || (contains "partial" (lower (text_or p.status_detail ""))
        || elim (first_of p.run_results p.results) [
          | none ↦ false
          | some r ↦ elim r [
            | no_dict ↦ false
            | dict failed failures ↦ positive (first_of failed failures)
          ]
        ])

pub record RunResult : Type 0 where
  pub run_id : String
  pub status : String
  pub partial : Bool

pub data GetReply : Type 0 where
  get_raises : GetReply  -- an exception of the GET, or of reading its reply
  payload : RunPayload → GetReply

abbrev pub terminal_states : List String
terminal_states = "success" ∷ "failed" ∷ "error" ∷ "cancelled" ∷ "timeout" ∷ []

abbrev pub status_of : RunPayload → String
status_of p = lower (text_or p.status "")

-- What `wait_for_completion` does with a terminal status.
unfoldable pub conclude : String → String → RunPayload → Result ClientFault RunResult
conclude policy run_id p =
    if not (str_eq (status_of p) "success")
    then err (run_failed (status_of p))
    else if partial_from_payload p && str_eq policy "fail"
    then err partial_refused
    else ok (record { run_id = run_id; status = status_of p; partial = partial_from_payload p })

module _ (policy : String) (get : String → ℕ → GetReply) (expired : ℕ → Bool) where
  unfoldable pub wait_loop : ℕ → ℕ → String → Result ClientFault RunResult
  wait_loop zero n run_id = err fuel_spent
  wait_loop (suc fuel) n run_id = elim (get run_id n) [
    | get_raises ↦ err request_failed
    | payload p ↦ elim (any (str_eq (status_of p)) terminal_states) [
      | true ↦ conclude policy run_id p
      | false ↦ elim (expired n) [
        | true ↦ err did_not_finish
        | false ↦ wait_loop fuel (n + 1) run_id
      ]
    ]
  ]

  -- A failed run's logs are fetched for a log line, and its exception is raised again.
  unfoldable pub run_and_wait : ℕ → (ℕ → PostReply) → ℕ → Result ClientFault RunResult
  run_and_wait fuel post max_attempts = do
    run_id ← (trigger_run post max_attempts).0
    wait_loop fuel 0 run_id
