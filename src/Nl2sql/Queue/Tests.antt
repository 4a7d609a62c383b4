-- ===== src/Nl2sql/Queue/Tests.antt =====
-- One job that is posted and served, and a BLPOP that raises after it.
use data_ops_showcase.Nl2sql.Queue.Endings.{IsFailed, question_in, IsEnded}
use data_ops_showcase.Nl2sql.Queue.Enqueued.{queued_status}
use data_ops_showcase.Nl2sql.Queue.Overwritten.{worker_loop_overwrites}
use data_ops_showcase.Nl2sql.{drop_trailing, drop_leading, behind, contains}
use data_ops_showcase.Nl2sql.Http.{
  question_of, query_status-query, shows, query_status, accepted, asks, query,
}
use data_ops_showcase.Nl2sql.Queue.Worker.{worker_loop, Round, worker_round, Worker}
use data_ops_showcase.Nl2sql.Chain.{Answers}
use data_ops_showcase.Nl2sql.Queue.Ends.{worker_round-IsEnded}
use data_ops_showcase.Nl2sql.Queue.{
  position_in, hgetall, find_hash, expire, hset, write_hash, SetCall, enqueue, classify_error,
  RedisStore, EnqueueCalls, QueueFault,
}
use data_ops_showcase.Prelude.{
  arith, ok, refl, true, ◌∷◌, codes, ◌≡◌, some, [], Bool, false, Text, none, ℕ, List,
}

abbrev at : ℕ → SetCall
at now = record { now_ms = now; is_json = λ a. true; hset_fails = false; expire_fails = false }

abbrev answers : Answers
answers = record {
  parse_one = λ t. none;
  load = λ n. none;
  rag_fails = false;
  generate = λ n p. some (codes "select 1");
  run_select = λ n sql. ok [];
  log_fails = false;
}

abbrev round_at : ℕ → Bool → Round
round_at now raises = record {
  blpop_fails = raises;
  hget_fails = false;
  hget_at_ms = now;
  started = at now;
  trace_id = codes "t";
  stages = (codes "rag_retrieval", at now) ∷ [];
  answers = answers;
  llm = record { is_loaded = true; load_error = none };
  closed = at now;
  handled = at now;
}

abbrev empty_store : RedisStore
empty_store = record { jobs = []; queue = [] }

abbrev calls : EnqueueCalls
calls = record { llen_fails = false; written = at 5; rpush_fails = false }

query_status-query_example :
    ((query 60 calls "j" (asks (some (codes " how many? "))) empty_store).0 ≡ accepted "j")
    × ((query 60 calls "j" (asks (some (codes " how many? "))) empty_store).1.queue ≡ "j" ∷ [])
    × (query_status 9 "j" (query 60 calls "j" (asks (some (codes " how many? "))) empty_store).1
        ≡ shows (queued_status 5 1))
query_status-query_example =
    query_status-query 60 9 calls "j" (asks (some (codes " how many? "))) (codes "how many?")
      empty_store (unfold question_of drop_leading drop_trailing in refl) refl (refl, refl) refl
      (unfold hgetall find_hash in refl) (unfold position_in in refl) (omega arith)

abbrev posted : Worker
posted = record {
  store = (enqueue 60 calls "j" (codes "how many?") empty_store).1;
  job_id = none;
  trace_id = none;
  is_alive = true;
}

abbrev shown : QueueFault → Text
shown x = codes "Connection timeout"

worker_round-IsEnded_example :
    ((worker_round 60 shown (round_at 7 false) posted).is_alive ≡ true)
    × ((worker_round 60 shown (round_at 7 false) posted).store.queue ≡ [])
    × ((worker_round 60 shown (round_at 7 false) posted).job_id ≡ some "j")
    × IsEnded 60 shown
        (round_at 7 false)
        100
        "j"
        []
        (question_in 60 shown (round_at 7 false) 100 "j" [] posted)
        (worker_round 60 shown (round_at 7 false) posted).store
worker_round-IsEnded_example =
    worker_round-IsEnded 60 shown (round_at 7 false) 100 "j" [] (omega arith) posted refl
      (unfold enqueue write_hash hset expire find_hash in refl) refl (refl, refl) (omega arith)

abbrev three_rounds : List Round
three_rounds = round_at 7 false ∷ round_at 8 false ∷ round_at 9 true ∷ []

worker_loop_overwrites_example :
    IsEnded 60 shown
      (round_at 7 false)
      100
      "j"
      []
      (question_in 60 shown (round_at 7 false) 100 "j" [] posted)
      (worker_loop 60 shown (round_at 7 false ∷ round_at 8 false ∷ []) posted).store
    × IsFailed 60 shown
        (round_at 9 true)
        200
        "j"
        []
        (classify_error (codes "Connection timeout"))
        (codes "Connection timeout")
        (worker_loop 60 shown three_rounds posted).store
worker_loop_overwrites_example =
    worker_loop_overwrites 60 shown (round_at 7 false) (round_at 8 false ∷ []) (round_at 9 true) "j"
      posted 100 200 refl (unfold enqueue write_hash hset expire find_hash in refl) refl
      (refl, refl) (omega arith) (omega arith) (refl, tt) refl (refl, refl) (omega arith)

timeout_class : classify_error (codes "Connection timeout") ≡ codes "timeout"
unfolding classify_error contains behind
timeout_class = refl
