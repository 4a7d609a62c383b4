-- ===== src/Nl2sql/Queue/Worker.antt =====
-- services/nl2sql_app/app.py: `_worker_loop`, round by round.
-- What one round of the loop meets.
use data_ops_showcase.Exec.{◌>>◌, ◌>>=◌}
use data_ops_showcase.Nl2sql.{is_empty}
use data_ops_showcase.Nl2sql.Chain.{answer_question, Llm, Answers, Answer, ChatFault}
use data_ops_showcase.Prelude.Dict.{string_key, lookup, Dict}
use data_ops_showcase.Prelude.{
  ◌++◌, false, err, ◌∷◌, some, codes, ok, List, [], none, if◌then◌else◌, Option, String, Text, ℕ,
  Bool, Result,
}
use data_ops_showcase.Nl2sql.Queue.{
  job_key, hgetall, json, text_or, set_job_state, chat_fault, redis_error, plain, classify_error,
  HashValue, QueueFault, SetCall, RedisStore,
}
use data_ops_showcase.Exec.{lift, try_except, pure, Exec}

pub record Round : Type 0 where
  pub blpop_fails : Bool
  pub hget_fails : Bool
  pub hget_at_ms : ℕ
  pub started : SetCall
  pub trace_id : Text
  pub stages : List (Text × SetCall)  -- the stages that `answer_question` shows
  pub answers : Answers
  pub llm : Llm
  pub closed : SetCall
  pub handled : SetCall

-- The thread: `job_id` and `trace_id` are the local variables, `none` before their first assignment.
pub record Worker : Type 0 where
  pub store : RedisStore
  pub job_id : Option String
  pub trace_id : Option Text
  pub is_alive : Bool

abbrev pub on_store : {A : Type 0} → Exec RedisStore QueueFault A → Exec Worker QueueFault A
on_store f w = let (r, s) = f w.store in (r, record w { store = s })

-- `none` where the time is up.
unfoldable pub blpop : Bool → Exec Worker QueueFault (Option String)
blpop fails w = if fails then (err redis_error, w) else elim w.store.queue [
  | [] ↦ (ok none, w)
  | j ∷ js ↦ (ok (some j), record w { store = record w.store { queue = js }; job_id = some j })
]

abbrev pub hget_question : Bool → ℕ → String → Exec Worker QueueFault Text
hget_question fails now job_id w =
    if fails
    then (err redis_error, w)
    else (ok (text_or [] (lookup "question" (hgetall now (job_key job_id) w.store))), w)

abbrev pub state_fields : Text → Text → Dict String HashValue
state_fields status stage = ("status", plain status) ∷ ("stage", plain stage) ∷ []

abbrev pub error_fields : Text → Text → Dict String HashValue
error_fields code message =
    state_fields (codes "error") (codes "error")
    ++ ("error_code", plain code) ∷ ("error_message", plain message) ∷ []

abbrev pub assign_trace_id : Text → Exec Worker QueueFault (Unit {0})
assign_trace_id trace_id w = (ok tt, record w { trace_id = some trace_id })

abbrev pub served : Result ChatFault Answer → Result QueueFault Answer
served (ok a) = ok a
served (err x) = err (chat_fault x)

module _ (ttl_sec : ℕ) where
  unfoldable pub show_stages : String → List (Text × SetCall) → Exec Worker QueueFault (Unit {0})
  show_stages job_id [] = pure tt
  show_stages job_id ((stage, call) ∷ stages) = do
    on_store (set_job_state ttl_sec call job_id (state_fields (codes "processing") stage))
    show_stages job_id stages

  abbrev pub close_unasked : Round → String → Exec Worker QueueFault (Unit {0})
  close_unasked r job_id = on_store (
      set_job_state ttl_sec r.closed job_id
        (error_fields (codes "validation_error") (codes "missing question")))

  abbrev pub close_done : Round → String → Answer → Exec Worker QueueFault (Unit {0})
  close_done r job_id result = on_store (
      set_job_state ttl_sec r.closed job_id
        (state_fields (codes "done") (codes "done") ++ ("result", json result) ∷ []))

  abbrev pub serve : Round → String → Exec Worker QueueFault (Unit {0})
  serve r job_id = do
    on_store (
        set_job_state ttl_sec r.started job_id
          (state_fields (codes "processing") (codes "processing")))
    assign_trace_id r.trace_id
    show_stages job_id r.stages
    result ← lift (served (answer_question r.answers r.llm).0)
    close_done r job_id result

  -- From the test of the question to the end of the `try`.
  unfoldable pub answer_job : Round → String → Text → Exec Worker QueueFault (Unit {0})
  answer_job r job_id question =
      if is_empty question then close_unasked r job_id else serve r job_id

  abbrev pub take_job : Round → Option String → Exec Worker QueueFault (Unit {0})
  take_job r none = pure tt
  take_job r (some job_id) = do
    question ← hget_question r.hget_fails r.hget_at_ms job_id
    answer_job r job_id question

  unfoldable pub round_body : Round → Exec Worker QueueFault (Unit {0})
  round_body r = do item ← blpop r.blpop_fails; take_job r item

  -- With the text of an exception.
  module _ (message_of : QueueFault → Text) where
    abbrev pub shown_message : QueueFault → Text
    shown_message x =
        if is_empty (message_of x) then codes "nl2sql queue worker failed" else message_of x

    abbrev pub trace_or_empty : Option Text → Text
    trace_or_empty none = []
    trace_or_empty (some t) = t

    abbrev pub failed_fields : QueueFault → Option Text → Dict String HashValue
    failed_fields x trace_id =
        error_fields (classify_error (shown_message x)) (shown_message x)
        ++ ("trace_id", plain (trace_or_empty trace_id)) ∷ []

    -- The handler; an exception that it raises itself ends the thread.
    unfoldable pub on_exception : SetCall → QueueFault → Exec Worker QueueFault (Unit {0})
    on_exception call x w = elim w.job_id [
      | none ↦ (ok tt, w)
      | some job_id ↦ on_store (set_job_state ttl_sec call job_id (failed_fields x w.trace_id)) w
    ]

    abbrev pub ended : Result QueueFault (Unit {0}) × Worker → Worker
    ended (ok u, w) = w
    ended (err x, w) = record w { is_alive = false }

    unfoldable pub worker_round : Round → Worker → Worker
    worker_round r w =
        if w.is_alive then ended (try_except (round_body r) (on_exception r.handled) w) else w

    unfoldable pub worker_loop : List Round → Worker → Worker
    worker_loop [] w = w
    worker_loop (r ∷ rs) w = worker_loop rs (worker_round r w)
