-- ===== src/Nl2sql/Http.antt =====
-- services/nl2sql_app/app.py: the routes of the queue, and the health of the service.
-- The body of a POST: `asks` has the text that `str` gives for the question, where there is one.
use data_ops_showcase.Nl2sql.Queue.Enqueued.{get_status-enqueue, queued_status}
use data_ops_showcase.Nl2sql.Queue.Written.{Works}
use data_ops_showcase.Nl2sql.{is_empty, strip}
use data_ops_showcase.Nl2sql.Queue.{
  position_in, job_key, hgetall, enqueue, get_status, RedisStore, EnqueueCalls, JobStatus,
  QueueFault,
}
use data_ops_showcase.Prelude.{
  arith, length, ◌∷◌, ◌++◌, ◌*◌, ◌+◌, ◌<◌, err, false, [], if◌then◌else◌, ok, ◌≡◌, some, none, Text,
  ◌&&◌, Result, ℕ, Bool, String, Option,
}

pub data QueryBody : Type 0 where
  no_json : QueryBody
  not_object : Bool → QueryBody  -- and whether it counts as false
  asks : Option Text → QueryBody

pub data Reply : Type 0 where
  question_required : Reply  -- 400
  accepted : String → Reply  -- 202
  job_not_found : Reply  -- 404
  shows : JobStatus → Reply  -- 200
  server_error : Reply  -- 500

abbrev pub asked_text : Option Text → Text
asked_text none = []
asked_text (some t) = t

-- `none` where the body has no `get`.
unfoldable pub question_of : QueryBody → Option Text
question_of no_json = some []
question_of (not_object absent) = if absent then some [] else none
question_of (asks q) = some (strip (asked_text q))

abbrev pub enqueue_reply : Result QueueFault String → Reply
enqueue_reply (ok job_id) = accepted job_id
enqueue_reply (err x) = server_error

unfoldable pub query : ℕ → EnqueueCalls → String → QueryBody → RedisStore → Reply × RedisStore
query ttl_sec calls job_id body s = elim (question_of body) [
  | none ↦ (server_error, s)
  | some question ↦
      if is_empty question
      then (question_required, s)
      else (let (r, v) = enqueue ttl_sec calls job_id question s in (enqueue_reply r, v))
]

abbrev pub status_reply : Result QueueFault (Option JobStatus) → Reply
status_reply (ok none) = job_not_found
status_reply (ok (some p)) = shows p
status_reply (err x) = server_error

unfoldable pub query_status : ℕ → String → RedisStore → Reply
query_status t job_id s = status_reply (get_status t job_id s)

pub record Health : Type 0 where
  pub status : String
  pub http_code : ℕ

unfoldable pub health : Bool → Bool → Bool → Bool → Health
health db_ok registry_ok loaded_ok rag_ok =
    let core_ok = db_ok && rag_ok in
    let full_ok = core_ok && registry_ok && loaded_ok in
    record {
      status = if full_ok then "ok" else (if core_ok then "degraded" else "unavailable");
      http_code = if core_ok then 200 else 503;
    }

-- Where the calls of Redis are accepted, a POST of a question with a new id is answered by that id, and a
-- GET of the id shows the job as "queued", behind those that wait, until its time to live is over. A
-- POST whose question is missing or blank leaves the store as it is and is refused.
pub query_status-query :
    (ttl_sec t : ℕ) (calls : EnqueueCalls) (job_id : String) (body : QueryBody) (question : Text)
    (s : RedisStore)
    → question_of body ≡ some question
    → calls.llen_fails ≡ false
    → Works calls.written
    → calls.rpush_fails ≡ false
    → hgetall calls.written.now_ms (job_key job_id) s ≡ []
    → position_in job_id s.queue ≡ none
    → t < calls.written.now_ms + 1000 * ttl_sec
    → if is_empty question
      then query ttl_sec calls job_id body s ≡ (question_required, s)
      else ((query ttl_sec calls job_id body s).0 ≡ accepted job_id)
        × ((query ttl_sec calls job_id body s).1.queue ≡ s.queue ++ job_id ∷ [])
        × (query_status t job_id (query ttl_sec calls job_id body s).1
            ≡ shows (queued_status calls.written.now_ms (length s.queue + 1)))
unfolding query query_status
query_status-query ttl_sec t calls job_id body [] s q counts works pushes fresh waits soon =
    ground (arith, q)
query_status-query ttl_sec t calls job_id body (c ∷ cs) s q counts works pushes fresh waits soon =
    let (e, f, g) =
      get_status-enqueue ttl_sec t calls job_id (c ∷ cs) s counts works pushes fresh waits soon in
    (ground (arith, q, e), ground (arith, q, f), ground (arith, q, g))
