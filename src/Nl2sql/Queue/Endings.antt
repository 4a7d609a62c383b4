-- ===== src/Nl2sql/Queue/Endings.antt =====
-- How a job may end in a round, and the body of the round up to its end or its exception.
use data_ops_showcase.Nl2sql.Queue.State.{
  set_job_state-refused, set_job_state-undumped, queue-set_job_state, refuses,
  set_job_state-written, job_field, set_job_state-field,
}
use data_ops_showcase.Exec.{Exec, ◌>>=◌, ◌>>◌}
use data_ops_showcase.Nl2sql.{is_empty}
use data_ops_showcase.Exec.{lift}
use data_ops_showcase.Exec.Rules.{bind-Ensures, bind-Keeps, Ensures, Keeps}
use data_ops_showcase.Nl2sql.Chain.{ChatFault, answer_question, Answer}
use data_ops_showcase.Nl2sql.Queue.Written.{write_hash-Works, Works}
use data_ops_showcase.Nl2sql.Queue.Worker.{
  take_job, close_done, served, assign_trace_id, answer_job, error_fields, serve, close_unasked,
  state_fields, shown_message, on_store, show_stages, Worker, Round,
}
use data_ops_showcase.Prelude.Dict.{HasDistinctKeys, string_key, lookup, Dict}
use data_ops_showcase.Nl2sql.Queue.{
  type_error, is_dumped, text_or, chat_fault, redis_error, number, classify_error, json, plain,
  job_key, hgetall, HashValue, RedisStore, QueueFault, SetCall, set_job_state,
}
use data_ops_showcase.Prelude.{
  ◌||◌, any, sym, subst, inr, inl, Bool-cases, arith, err, if◌then◌else◌, Bool, Result, refl, false,
  ap, ◌∙◌, [], ◌∷◌, ◌++◌, ◌*◌, codes, true, ◌+◌, ok, some, ◌<◌, ◌≡◌, List, Text, String, ℕ,
}

module _ (ttl_sec : ℕ) (message_of : QueueFault → Text) (r : Round) (t : ℕ) (j : String)
    (js : List String) where
  -- The thread holds the job, and the queue is the rest.
  abbrev pub Holds : Worker → Type 0
  Holds w = (w.store.queue ≡ js) × (w.job_id ≡ some j) × (w.is_alive ≡ true)

  abbrev pub IsAnswered : Answer → RedisStore → Type 0
  IsAnswered a s =
      (job_field t "status" j s ≡ some (plain (codes "done")))
      × (job_field t "result" j s ≡ some (json a))

  abbrev pub IsFailed : Text → Text → RedisStore → Type 0
  IsFailed code message s =
      (job_field t "status" j s ≡ some (plain (codes "error")))
      × (job_field t "error_code" j s ≡ some (plain code))
      × (job_field t "error_message" j s ≡ some (plain message))

  -- The question that the hash of the job holds.
  abbrev pub question_in : Worker → Text
  question_in w = text_or [] (lookup "question" (hgetall r.hget_at_ms (job_key j) w.store))

  abbrev pub any_refused : Bool
  any_refused =
      refuses r.started || (any (λ (x : Text × SetCall). refuses x.1) r.stages || refuses r.closed)

  -- What may raise in a round that has taken a job: the read of the question, a write, the answer to a
  -- question that is there, or the JSON of that answer.
  pub data IsRaised (question : Text) : QueueFault → Type 0 where
    read_failed : r.hget_fails ≡ true → IsRaised question redis_error
    write_failed : r.hget_fails ≡ false → any_refused ≡ true → IsRaised question redis_error
    answer_failed :
        (x : ChatFault)
        → r.hget_fails ≡ false
        → is_empty question ≡ false
        → (answer_question r.answers r.llm).0 ≡ err x
        → IsRaised question (chat_fault x)
    json_failed :
        (a : Answer)
        → r.hget_fails ≡ false
        → is_empty question ≡ false
        → (answer_question r.answers r.llm).0 ≡ ok a
        → r.closed.is_json a ≡ false
        → IsRaised question type_error

  -- The end of a job: its answer, the missing question, or an exception by its class.
  pub data IsEnded (question : Text) (s : RedisStore) : Type 0 where
    answered :
        (a : Answer)
        → r.hget_fails ≡ false
        → is_empty question ≡ false
        → (answer_question r.answers r.llm).0 ≡ ok a
        → r.closed.is_json a ≡ true
        → IsAnswered a s
        → IsEnded question s
    unasked :
        r.hget_fails ≡ false
        → is_empty question ≡ true
        → IsFailed (codes "validation_error") (codes "missing question") s
        → IsEnded question s
    raised :
        (x : QueueFault)
        → IsRaised question x
        → IsFailed
            (classify_error (shown_message ttl_sec message_of x))
            (shown_message ttl_sec message_of x)
            s
        → IsEnded question s

  set_job_state-Works :
      (call : SetCall) (mapping : Dict String HashValue) (s : RedisStore) (u : Unit {0})
      → is_dumped call mapping ≡ true
      → (set_job_state ttl_sec call j mapping s).0 ≡ ok u
      → Works call
  set_job_state-Works call mapping s u dumped h =
      write_hash-Works ttl_sec call (job_key j)
        (mapping ++ ("updated_at_ms", number call.now_ms) ∷ []) s u
        (ap (λ x. x.0) (sym (set_job_state-written ttl_sec call j mapping s dumped)) ∙ h)

  pub error-IsFailed :
      (call : SetCall) (code message : Text) (more : Dict String HashValue) (s : RedisStore)
      → is_dumped call (error_fields code message ++ more) ≡ true
      → Works call
      → t < call.now_ms + 1000 * ttl_sec
      → HasDistinctKeys
          ((error_fields code message ++ more) ++ ("updated_at_ms", number call.now_ms) ∷ [])
      → IsFailed code message (set_job_state ttl_sec call j (error_fields code message ++ more) s).1
  error-IsFailed call code message more s dumped works soon distinct = (
    set_job_state-field ttl_sec t call "status" j (error_fields code message ++ more) s
        (plain (codes "error")) dumped works soon distinct refl,
    set_job_state-field ttl_sec t call "error_code" j (error_fields code message ++ more) s
        (plain code) dumped works soon distinct refl,
    set_job_state-field ttl_sec t call "error_message" j (error_fields code message ++ more) s
        (plain message) dumped works soon distinct refl,
  )

  module _ (question : Text) (reads : r.hget_fails ≡ false) where
    state-Holds :
        (call : SetCall) (mapping : Dict String HashValue)
        → is_dumped call mapping ≡ true
        → (refuses call ≡ true → any_refused ≡ true)
        → Keeps Holds (IsRaised question) (on_store (set_job_state ttl_sec call j mapping))
    state-Holds call mapping dumped among w (q, k, a) = (
      (queue-set_job_state ttl_sec call j mapping w.store ∙ q, k, a),
      λ x h.
          let (refused, e) = set_job_state-refused ttl_sec call j mapping w.store x dumped h in
          subst (IsRaised question) e (write_failed reads (among refused)),
    )

    show_stages-Holds :
        (stages : List (Text × SetCall))
        → (any (λ (x : Text × SetCall). refuses x.1) stages ≡ true → any_refused ≡ true)
        → Keeps Holds (IsRaised question) (show_stages ttl_sec j stages)
    unfolding show_stages
    show_stages-Holds [] among = λ w h. (h, λ x g. absurd (ground (arith, g)))
    show_stages-Holds ((stage, call) ∷ stages) among =
        bind-Keeps Holds (IsRaised question)
          (on_store (set_job_state ttl_sec call j (state_fields (codes "processing") stage)))
          (λ u. show_stages ttl_sec j stages)
          (state-Holds call (state_fields (codes "processing") stage) refl
            (λ e. among (ground (arith, e))))
          (λ u. show_stages-Holds stages (λ e. among (ground (arith, e))))

  module _ (in_time : t < r.closed.now_ms + 1000 * ttl_sec) where
    module _ (question : Text) (reads : r.hget_fails ≡ false) where
      EndsWell : Worker → Type 0
      EndsWell w = IsEnded question w.store

      abbrev EndsJob : Exec Worker QueueFault (Unit {0}) → Type 0
      EndsJob m = Ensures Holds (IsRaised question) EndsWell m

      closed_among : refuses r.closed ≡ true → any_refused ≡ true
      closed_among e = ground (arith, e)

      module _ (asked : is_empty question ≡ false) where
        closed-done :
            (a : Answer)
            → (answer_question r.answers r.llm).0 ≡ ok a
            → EndsJob (close_done ttl_sec r j a)
        unfolding EndsWell
        closed-done a e w h =
            let fields = state_fields (codes "done") (codes "done") ++ ("result", json a) ∷ [] in
            elim (Bool-cases (r.closed.is_json a)) [
              | inl is_json ↦
                  let dumped : is_dumped r.closed fields ≡ true = ground (arith, is_json) in
                  let (kept, raises) =
                    state-Holds question reads r.closed fields dumped closed_among w h in
                  (
                    kept,
                    λ u g.
                        let works = set_job_state-Works r.closed fields w.store u dumped g in
                        answered a reads asked e is_json (
                          set_job_state-field ttl_sec t r.closed "status" j fields w.store
                              (plain (codes "done")) dumped works in_time
                              (refl, (refl, (refl, (refl, tt)))) refl,
                          set_job_state-field ttl_sec t r.closed "result" j fields w.store (json a)
                              dumped works in_time (refl, (refl, (refl, (refl, tt)))) refl,
                        ),
                    raises,
                  )
              | inr no_json ↦
                  let left =
                    set_job_state-undumped ttl_sec r.closed j fields w.store
                      (ground (arith, no_json)) in
                  (
                    (ground (arith, left, h), h.1, h.2),
                    λ u g. absurd (ground (arith, left, g)),
                    λ x g.
                        subst (IsRaised question) {x = type_error} {y = x} (ground (arith, left, g))
                          (json_failed a reads asked e no_json),
                  )
            ]

        outcome-Ends :
            (q : Result ChatFault Answer)
            → (answer_question r.answers r.llm).0 ≡ q
            → EndsJob (lift (served q) >>= close_done ttl_sec r j)
        outcome-Ends (ok a) e = closed-done a e
        outcome-Ends (err y) e = λ w h. (
          h,
          λ u g. absurd (ground (arith, g)),
          λ x g.
              subst (IsRaised question) {x = chat_fault y} {y = x} (ground (arith, g))
                (answer_failed y reads asked e),
        )

        serve-Ends : EndsJob (serve ttl_sec r j)
        serve-Ends =
            let fields = state_fields (codes "processing") (codes "processing") in
            let start = on_store (set_job_state ttl_sec r.started j fields) in
            let asks =
              lift (served (answer_question r.answers r.llm).0) >>= close_done ttl_sec r j in
            let shown = show_stages ttl_sec j r.stages >> asks in
            bind-Ensures Holds (IsRaised question) EndsWell start
              (λ u. assign_trace_id r.trace_id >> shown)
              (state-Holds question reads r.started fields refl (λ e. ground (arith, e)))
              (λ u.
                bind-Ensures Holds (IsRaised question) EndsWell (assign_trace_id r.trace_id)
                  (λ u. shown) (λ w h. (h, λ x g. absurd (ground (arith, g))))
                  (λ u.
                    bind-Ensures Holds (IsRaised question) EndsWell (show_stages ttl_sec j r.stages)
                      (λ u. asks)
                      (show_stages-Holds question reads r.stages (λ e. ground (arith, e)))
                      (λ u. outcome-Ends (answer_question r.answers r.llm).0 refl)))

      closed-unasked : is_empty question ≡ true → EndsJob (close_unasked ttl_sec r j)
      unfolding EndsWell
      closed-unasked empty w h =
          let fields = error_fields (codes "validation_error") (codes "missing question") in
          let (kept, raises) = state-Holds question reads r.closed fields refl closed_among w h in
          (
            kept,
            λ u g. unasked reads empty (
                error-IsFailed r.closed (codes "validation_error") (codes "missing question") []
                  w.store refl (set_job_state-Works r.closed fields w.store u refl g) in_time
                  (refl, (refl, (refl, (refl, (refl, tt)))))),
            raises,
          )

      answer_job-Ends : EndsJob (answer_job ttl_sec r j question)
      unfolding answer_job
      answer_job-Ends = go (is_empty question) refl
        where
          go :
              (b : Bool)
              → is_empty question ≡ b
              → EndsJob (if b then close_unasked ttl_sec r j else serve ttl_sec r j)
          go true e = closed-unasked e
          go false e = serve-Ends e

    -- What a round has reached when its body returns or raises.
    abbrev pub Reached : Text → Result QueueFault (Unit {0}) × Worker → Type 0
    Reached question p =
        Holds p.1
        × ((u : Unit {0}) → p.0 ≡ ok u → IsEnded question p.1.store)
        × ((x : QueueFault) → p.0 ≡ err x → IsRaised question x)

    pub take_job-Ends :
        (w : Worker) → Holds w → Reached (question_in w) (take_job ttl_sec r (some j) w)
    unfolding EndsWell
    take_job-Ends w h = elim (Bool-cases r.hget_fails) [
      | inl fails ↦
          subst (Reached (question_in w)) {x = (err redis_error, w)}
            {y = take_job ttl_sec r (some j) w} (ground (arith, fails))
            (
              h,
              λ u g. absurd (ground (arith, g)),
              λ x g.
                  subst (IsRaised (question_in w)) {x = redis_error} {y = x} (ground (arith, g))
                    (read_failed fails),
            )
      | inr reads ↦
          subst (Reached (question_in w)) {x = answer_job ttl_sec r j (question_in w) w}
            {y = take_job ttl_sec r (some j) w} (ground (arith, reads))
            (answer_job-Ends (question_in w) reads w h)
    ]
