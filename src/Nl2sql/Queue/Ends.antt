-- ===== src/Nl2sql/Queue/Ends.antt =====
-- How a round of the worker leaves the job that it has taken.
use data_ops_showcase.Nl2sql.Queue.State.{queue-set_job_state}
use data_ops_showcase.Nl2sql.Queue.Endings.{
  error-IsFailed, raised, take_job-Ends, Holds, question_in, IsRaised, Reached, IsEnded,
}
use data_ops_showcase.Exec.{handle}
use data_ops_showcase.Nl2sql.Queue.Written.{Works}
use data_ops_showcase.Nl2sql.Queue.Worker.{
  blpop, round_body, failed_fields, trace_or_empty, ended, on_exception, take_job, worker_round,
  shown_message, Worker, Round,
}
use data_ops_showcase.Prelude.Dict.{string_key, Dict}
use data_ops_showcase.Nl2sql.Queue.{
  find_hash, write_hash, classify_error, plain, hgetall, HashValue, QueueFault, set_job_state,
}
use data_ops_showcase.Prelude.{
  sym, subst, arith, err, Result, refl, false, ◌∙◌, [], ◌∷◌, ◌*◌, true, ◌+◌, ok, some, ◌<◌, ◌≡◌,
  List, Text, String, ℕ,
}

module _ (ttl_sec : ℕ) (message_of : QueueFault → Text) (r : Round) (t : ℕ) (j : String)
    (js : List String) where
  module _ (in_time : t < r.closed.now_ms + 1000 * ttl_sec) where
    abbrev Post : Text → Worker → Type 0
    Post question w =
        (w.is_alive ≡ true)
        × (w.store.queue ≡ js)
        × (w.job_id ≡ some j)
        × IsEnded ttl_sec message_of r t j js question w.store

    abbrev failure : QueueFault → Worker → Dict String HashValue
    failure x w = failed_fields ttl_sec message_of x w.trace_id

    abbrev failed : QueueFault → Worker → Worker
    failed x w = record w { store = (set_job_state ttl_sec r.handled j (failure x w) w.store).1 }

    on_exception-Post :
        (question : Text) (x : QueueFault) (w : Worker)
        → IsRaised ttl_sec message_of r t j js question x
        → Works r.handled
        → t < r.handled.now_ms + 1000 * ttl_sec
        → Holds ttl_sec message_of r t j js w
        → Post question (failed x w)
    on_exception-Post question x w cause handles soon (q, k, a) =
        let message = shown_message ttl_sec message_of x in
        (
          a,
          queue-set_job_state ttl_sec r.handled j (failure x w) w.store ∙ q,
          k,
          raised x cause (
              error-IsFailed ttl_sec message_of r t j js r.handled (classify_error message) message
                (("trace_id", plain (trace_or_empty ttl_sec message_of w.trace_id)) ∷ []) w.store
                refl handles soon (refl, (refl, (refl, (refl, (refl, (refl, tt))))))),
        )

    handler-writes :
        (x : QueueFault) (w : Worker)
        → w.job_id ≡ some j
        → Works r.handled
        → ended ttl_sec message_of (on_exception ttl_sec message_of r.handled x w) ≡ failed x w
    unfolding on_exception set_job_state write_hash
    handler-writes x w k (sets, expires) = ground (arith, k, sets, expires)

    handled-Post :
        (question : Text) (x : Result QueueFault (Unit {0})) (w : Worker)
        → Works r.handled
        → t < r.handled.now_ms + 1000 * ttl_sec
        → Reached ttl_sec message_of r t j js in_time question (x, w)
        → Post question
            (ended ttl_sec message_of (handle (on_exception ttl_sec message_of r.handled) x w))
    handled-Post question (ok u) w handles soon ((q, k, a), ends, raises) = (a, q, k, ends u refl)
    handled-Post question (err x) w handles soon ((q, k, a), ends, raises) =
        subst (Post question) (sym (handler-writes x w k handles))
          (on_exception-Post question x w (raises x refl) handles soon (q, k, a))

    -- After a round that takes a job, whose handler's writes are accepted, the thread runs, holds the job
    -- and leaves the rest of the queue; and until its time to live is over, the job is "done" with what
    -- `answer_question` returns, where its hash holds a question and the answer has a JSON; or an "error"
    -- of a missing question, where it holds none; or an "error" with the class and the text of the
    -- exception of a call of Redis, of `answer_question`, or of an answer without a JSON.
    pub worker_round-IsEnded :
        (w : Worker)
        → w.is_alive ≡ true
        → w.store.queue ≡ j ∷ js
        → r.blpop_fails ≡ false
        → Works r.handled
        → t < r.handled.now_ms + 1000 * ttl_sec
        → ((worker_round ttl_sec message_of r w).is_alive ≡ true)
          × ((worker_round ttl_sec message_of r w).store.queue ≡ js)
          × ((worker_round ttl_sec message_of r w).job_id ≡ some j)
          × IsEnded ttl_sec message_of r t j js
              (question_in ttl_sec message_of r t j js w)
              (worker_round ttl_sec message_of r w).store
    unfolding worker_round round_body blpop hgetall find_hash
    worker_round-IsEnded w lives waits takes handles soon =
        let w1 : Worker = record w { store = record w.store { queue = js }; job_id = some j } in
        let b = take_job ttl_sec r (some j) w1 in
        subst (Post (question_in ttl_sec message_of r t j js w))
          {x = ended ttl_sec message_of
            (handle (on_exception ttl_sec message_of r.handled) b.0 b.1)}
          {y = worker_round ttl_sec message_of r w} (ground (arith, lives, waits, takes))
          (handled-Post (question_in ttl_sec message_of r t j js w) b.0 b.1 handles soon
            (take_job-Ends ttl_sec message_of r t j js in_time w1 (refl, refl, lives)))
