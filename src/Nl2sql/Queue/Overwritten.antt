-- ===== src/Nl2sql/Queue/Overwritten.antt =====
-- A job that has ended, and a call of Redis that raises later: `job_id` is still in `locals()`.
-- BLPOP comes back without an item.
use data_ops_showcase.Nl2sql.Queue.Endings.{error-IsFailed, IsFailed, question_in, IsEnded}
use data_ops_showcase.Nl2sql.Queue.Ends.{worker_round-IsEnded}
use data_ops_showcase.Nl2sql.Queue.Written.{Works}
use data_ops_showcase.Nl2sql.Queue.{
  plain, classify_error, write_hash, redis_error, set_job_state, QueueFault,
}
use data_ops_showcase.Nl2sql.Queue.Worker.{
  trace_or_empty, shown_message, failed_fields, on_exception, blpop, round_body, Worker,
  worker_loop, worker_round, Round,
}
use data_ops_showcase.Prelude.{
  append-nil, sym, subst, ◌*◌, refl, inr, ◌+◌, ◌∙◌, inl, arith, ap, ◌<◌, some, Bool-cases, ◌++◌, [],
  ◌∷◌, All, true, List, String, Text, false, ◌≡◌, ℕ,
}

abbrev pub IsIdle : Round → Type 0
IsIdle r = r.blpop_fails ≡ false

module _ (ttl_sec : ℕ) (message_of : QueueFault → Text) where
  abbrev HoldsLast : String → Worker → Type 0
  HoldsLast j w = (w.is_alive ≡ true) × (w.store.queue ≡ []) × (w.job_id ≡ some j)

  worker_round-idle :
      (r : Round) (w : Worker)
      → IsIdle r
      → w.store.queue ≡ []
      → worker_round ttl_sec message_of r w ≡ w
  unfolding worker_round round_body blpop
  worker_round-idle r w idle none_waits = elim (Bool-cases w.is_alive) [
    | inl lives ↦ ground (arith, idle, none_waits, lives)
    | inr dead ↦ ground (arith, dead)
  ]

  worker_loop-idle :
      (idles rest : List Round) (w : Worker)
      → All IsIdle idles
      → w.store.queue ≡ []
      → worker_loop ttl_sec message_of (idles ++ rest) w ≡ worker_loop ttl_sec message_of rest w
  unfolding worker_loop
  worker_loop-idle [] rest w hs none_waits = refl
  worker_loop-idle (r ∷ idles) rest w (h, hs) none_waits =
      ap (worker_loop ttl_sec message_of (idles ++ rest)) (worker_round-idle r w h none_waits)
      ∙ worker_loop-idle idles rest w hs none_waits

  abbrev failed_round : Round → String → Worker → Worker
  failed_round f j w = record w {
    store =
        (set_job_state ttl_sec f.handled j (failed_fields ttl_sec message_of redis_error w.trace_id)
          w.store).1;
  }

  worker_round-failed :
      (f : Round) (j : String) (w : Worker)
      → HoldsLast j w
      → f.blpop_fails ≡ true
      → Works f.handled
      → worker_round ttl_sec message_of f w ≡ failed_round f j w
  unfolding worker_round round_body blpop on_exception set_job_state write_hash
  worker_round-failed f j w (a, q, k) fails (sets, expires) =
      ground (arith, a, q, k, fails, sets, expires)

  -- Where the worker answers the one job of the queue and waits for any rounds without an item, and then a
  -- BLPOP raises, the handler writes an "error" with the class and the text of that exception over the
  -- job's end, whatever it was.
  pub worker_loop_overwrites :
      (r : Round) (idles : List Round) (f : Round) (j : String) (w : Worker) (t u : ℕ)
      → w.is_alive ≡ true
      → w.store.queue ≡ j ∷ []
      → r.blpop_fails ≡ false
      → Works r.handled
      → t < r.closed.now_ms + 1000 * ttl_sec
      → t < r.handled.now_ms + 1000 * ttl_sec
      → All IsIdle idles
      → f.blpop_fails ≡ true
      → Works f.handled
      → u < f.handled.now_ms + 1000 * ttl_sec
      → IsEnded ttl_sec message_of r t j []
          (question_in ttl_sec message_of r t j [] w)
          (worker_loop ttl_sec message_of (r ∷ idles) w).store
        × IsFailed ttl_sec message_of f u j []
            (classify_error (shown_message ttl_sec message_of redis_error))
            (shown_message ttl_sec message_of redis_error)
            (worker_loop ttl_sec message_of (r ∷ (idles ++ f ∷ [])) w).store
  unfolding worker_loop
  worker_loop_overwrites r idles f j w t u lives waits takes handles in_time soon hs fails works
        later =
      let (a, q, k, done) =
        worker_round-IsEnded ttl_sec message_of r t j [] in_time w lives waits takes handles soon in
      let v = worker_round ttl_sec message_of r w in
      let message = shown_message ttl_sec message_of redis_error in
      let trace = ("trace_id", plain (trace_or_empty ttl_sec message_of v.trace_id)) ∷ [] in
      (
        subst
            (λ x.
              IsEnded ttl_sec message_of r t j [] (question_in ttl_sec message_of r t j [] w)
                x.store)
            (sym (
              ap (λ x. worker_loop ttl_sec message_of x v) (sym (append-nil idles))
              ∙ worker_loop-idle idles [] v hs q))
            done,
        subst (λ x. IsFailed ttl_sec message_of f u j [] (classify_error message) message x.store)
            (sym (
              worker_loop-idle idles (f ∷ []) v hs q
              ∙ worker_round-failed f j v (a, q, k) fails works))
            (error-IsFailed ttl_sec message_of f u j [] f.handled (classify_error message) message
              trace v.store refl works later (refl, (refl, (refl, (refl, (refl, (refl, tt))))))),
      )
