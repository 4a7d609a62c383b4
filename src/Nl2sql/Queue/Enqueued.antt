-- ===== src/Nl2sql/Queue/Enqueued.antt =====
-- The status of a job that has been enqueued.
use data_ops_showcase.Prelude.Dict.{string_key, merge}
use data_ops_showcase.Nl2sql.{text_same}
use data_ops_showcase.Nl2sql.Queue.Written.{hgetall-write_hash, queue-write_hash, Works}
use data_ops_showcase.Prelude.{
  ap, ◌∙◌, refl, Option-cases, inr, inl, str_eq, ok, Bool-cases, ◌*◌, str_eq_iff, arith, ◌+◌, ◌<◌,
  length, [], ◌∷◌, ◌++◌, none, false, ◌≡◌, some, Text, List, codes, String, ℕ,
}
use data_ops_showcase.Nl2sql.Queue.{
  queued_fields, write_hash, find_hash, status_payload, get_status, enqueue, job_key, hgetall,
  RedisStore, EnqueueCalls, JobStatus, position_in,
}

position_in-append :
    (job_id : String) (queue : List String)
    → position_in job_id queue ≡ none
    → position_in job_id (queue ++ job_id ∷ []) ≡ some (length queue)
unfolding position_in
position_in-append job_id [] h = ground (arith, (str_eq_iff job_id job_id).1 refl)
position_in-append job_id (j ∷ js) h = elim (Bool-cases (str_eq j job_id)) [
  | inl same ↦ absurd (ground (arith, same, h))
  | inr apart ↦ elim (Option-cases (position_in job_id js)) [
    | inr (n, there) ↦ absurd (ground (arith, apart, there, h))
    | inl missing ↦ ground (arith, apart, missing, position_in-append job_id js missing)
  ]
]

abbrev pub queued_status : ℕ → ℕ → JobStatus
queued_status now position = record {
  status = codes "queued";
  stage = codes "queued";
  created_at_ms = now;
  updated_at_ms = now;
  elapsed_ms = 0;
  queue_position = some position;
  result = none;
  error_message = none;
  error_code = none;
  trace_id = none;
}

status_of_queued :
    (t now n k : ℕ) (job_id : String) (question : Text) (s : RedisStore)
    → hgetall t (job_key job_id) s ≡ queued_fields now k question
    → position_in job_id s.queue ≡ some n
    → get_status t job_id s ≡ ok (some (queued_status now (n + 1)))
unfolding get_status status_payload text_same
status_of_queued t now n k job_id question s e p = ground (arith, e, p)

abbrev pushed : ℕ → EnqueueCalls → String → Text → RedisStore → RedisStore
pushed ttl_sec calls job_id question s =
    let v =
      (write_hash ttl_sec calls.written (job_key job_id)
        (queued_fields calls.written.now_ms (length s.queue + 1) question) s).1 in
    record v { queue = v.queue ++ job_id ∷ [] }

enqueue_lem :
    (ttl_sec : ℕ) (calls : EnqueueCalls) (job_id : String) (question : Text) (s : RedisStore)
    → calls.llen_fails ≡ false
    → Works calls.written
    → calls.rpush_fails ≡ false
    → enqueue ttl_sec calls job_id question s ≡ (ok job_id, pushed ttl_sec calls job_id question s)
unfolding enqueue write_hash
enqueue_lem ttl_sec calls job_id question s counts (sets, expires) pushes =
    ground (arith, counts, sets, expires, pushes)

hgetall-pushed :
    (ttl_sec t : ℕ) (calls : EnqueueCalls) (job_id : String) (question : Text) (s : RedisStore)
    → Works calls.written
    → hgetall calls.written.now_ms (job_key job_id) s ≡ []
    → t < calls.written.now_ms + 1000 * ttl_sec
    → hgetall t (job_key job_id) (pushed ttl_sec calls job_id question s)
      ≡ queued_fields calls.written.now_ms (length s.queue + 1) question
unfolding hgetall find_hash
hgetall-pushed ttl_sec t calls job_id question s works fresh soon =
    let fields = queued_fields calls.written.now_ms (length s.queue + 1) question in
    hgetall-write_hash ttl_sec t calls.written (job_key job_id) fields s works soon
    ∙ ap (λ x. merge x fields) fresh

-- Where the calls are accepted, a job with a new id is put at the end of the queue, and until its time to
-- live is over its status is "queued" at that position.
pub get_status-enqueue :
    (ttl_sec t : ℕ) (calls : EnqueueCalls) (job_id : String) (question : Text) (s : RedisStore)
    → calls.llen_fails ≡ false
    → Works calls.written
    → calls.rpush_fails ≡ false
    → hgetall calls.written.now_ms (job_key job_id) s ≡ []
    → position_in job_id s.queue ≡ none
    → t < calls.written.now_ms + 1000 * ttl_sec
    → ((enqueue ttl_sec calls job_id question s).0 ≡ ok job_id)
      × ((enqueue ttl_sec calls job_id question s).1.queue ≡ s.queue ++ job_id ∷ [])
      × (get_status t job_id (enqueue ttl_sec calls job_id question s).1
          ≡ ok (some (queued_status calls.written.now_ms (length s.queue + 1))))
get_status-enqueue ttl_sec t calls job_id question s counts works pushes fresh waits soon =
    let e = enqueue_lem ttl_sec calls job_id question s counts works pushes in
    let fields = queued_fields calls.written.now_ms (length s.queue + 1) question in
    let kept = queue-write_hash ttl_sec calls.written (job_key job_id) fields s in
    (
      ap (λ x. x.0) e,
      ap (λ x. x.1.queue) e ∙ ap (λ q. q ++ job_id ∷ []) kept,
      ap (λ x. get_status t job_id x.1) e
          ∙ status_of_queued t calls.written.now_ms (length s.queue) (length s.queue + 1) job_id
              question (pushed ttl_sec calls job_id question s)
              (hgetall-pushed ttl_sec t calls job_id question s works fresh soon)
              (ap (λ q. position_in job_id (q ++ job_id ∷ [])) kept
                ∙ position_in-append job_id s.queue waits),
    )
