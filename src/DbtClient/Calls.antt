-- ===== src/DbtClient/Calls.antt =====
-- How many requests the client makes, and what it returns.
use data_ops_showcase.DbtClient.{
  escapes, Attempt, partial_from_payload, get_raises, terminal_states, status_of, payload,
  RunResult, run_and_wait, fuel_spent, accepted, again, RunPayload, wait_loop, attempt_of, conclude,
  GetReply, PostReply, trigger_loop, trigger_run,
}
use data_ops_showcase.Prelude.{
  zero, refl, inr, ==_iff, sym, any, >>=-eq-ok, str_eq_iff, inl, str_eq, ◌==◌, Bool-cases, ◌&&◌, ap,
  false, ◌∙◌, subst, suc, arith, ok, err, ◌≢◌, true, ◌≡◌, ◌+◌, ◌≤◌, Bool, ◌<◌, String, ℕ,
}

trigger_loop-accepted :
    (post : ℕ → PostReply) (left m d : ℕ) (name : String)
    → d < left
    → ((k : ℕ) → m ≤ k → k < m + d → attempt_of (post k) ≡ again)
    → attempt_of (post (m + d)) ≡ accepted name
    → trigger_loop post left m ≡ (ok name, m + d + 1)
unfolding trigger_loop
trigger_loop-accepted post zero m d name lt before now = absurd (omega (arith, lt))
trigger_loop-accepted post (suc left) m zero name lt before now =
    let here : attempt_of (post m) ≡ accepted name =
      subst (λ x. attempt_of (post x) ≡ accepted name) {x = m + 0} {y = m} (omega arith) now in
    ground (arith, here)
trigger_loop-accepted post (suc left) m (suc d) name lt before now =
    let next : attempt_of (post (m + 1 + d)) ≡ accepted name =
      subst (λ x. attempt_of (post x) ≡ accepted name) {x = m + suc d} {y = m + 1 + d} (omega arith)
        now in
    let e =
      trigger_loop-accepted post left (m + 1) d name (omega (arith, lt))
        (λ k a b. before k (omega (arith, a)) (omega (arith, b))) next in
    ground (arith, before m (omega arith) (omega arith), e)

-- Where the replies before the `n`-th are ones that the client tries again after, and the `n`-th gives
-- a run id, `trigger_run` returns that id after `n + 1` requests, if so many attempts are allowed.
pub trigger_run-accepted :
    (post : ℕ → PostReply) (max_attempts n : ℕ) (name : String)
    → n < max_attempts
    → ((k : ℕ) → k < n → attempt_of (post k) ≡ again)
    → attempt_of (post n) ≡ accepted name
    → trigger_run post max_attempts ≡ (ok name, n + 1)
unfolding trigger_run
trigger_run-accepted post max_attempts n name lt before now =
    trigger_loop-accepted post max_attempts 0 n name lt (λ k a b. before k (omega (arith, b)))
      (subst (λ x. attempt_of (post x) ≡ accepted name) {x = n} {y = 0 + n} (omega arith) now)
    ∙ ap (λ x. (ok name, x + 1)) (omega arith)

module _ (post : ℕ → PostReply) (name : String) where
  -- With `left` attempts to go and `n` made: POSTs that are tried again after, and one that gives the id.
  pub data Triggered : ℕ → ℕ → Type 0 where
    gives : (left n : ℕ) → attempt_of (post n) ≡ accepted name → Triggered (suc left) n
    retries :
        (left n : ℕ) → attempt_of (post n) ≡ again → Triggered left (n + 1) → Triggered (suc left) n

  trigger_loop-Triggered : (left n : ℕ) → (trigger_loop post left n).0 ≡ ok name → Triggered left n
  unfolding trigger_loop
  trigger_loop-Triggered zero n h = absurd (ground (arith, h))
  trigger_loop-Triggered (suc left) n h =
      go (attempt_of (post n)) refl (trigger_loop-Triggered left (n + 1))
    where
      go :
          (a : Attempt)
          → attempt_of (post n) ≡ a
          → ((trigger_loop post left (n + 1)).0 ≡ ok name → Triggered left (n + 1))
          → Triggered (suc left) n
      go (accepted other) e ih = gives left n (ground (arith, e, h))
      go again e ih = retries left n e (ih (ground (arith, e, h)))
      go (escapes x) e ih = absurd (ground (arith, e, h))

module _ (policy : String) (get : String → ℕ → GetReply) (expired : ℕ → Bool) where
  conclude-ends : (run_id : String) (p : RunPayload) → conclude policy run_id p ≢ err fuel_spent
  unfolding conclude
  conclude-ends run_id p h = ground arith

  wait_loop-ends :
      (fuel n last : ℕ) (run_id : String)
      → n ≤ last
      → last < n + fuel
      → expired last ≡ true
      → wait_loop policy get expired fuel n run_id ≢ err fuel_spent
  unfolding wait_loop
  wait_loop-ends zero n last run_id le lt ends h = absurd (omega (arith, le, lt))
  wait_loop-ends (suc fuel) n last run_id le lt ends h = go (get run_id n) refl λ before rest.
      wait_loop-ends fuel (n + 1) last run_id (omega (arith, before)) (omega (arith, lt)) ends rest
    where
      passed : expired n ≡ false → n < last
      passed e = elim (Bool-cases (n == last)) [
        | inl same ↦ absurd (
            ground (
              arith,
              e,
              subst (λ x. expired x ≡ true) {x = last} {y = n} (sym ((==_iff n last).0 same)) ends,
            ))
        | inr other ↦ ground (arith, le, other)
      ]

      go :
          (reply : GetReply)
          → get run_id n ≡ reply
          → (n < last → wait_loop policy get expired fuel (n + 1) run_id ≢ err fuel_spent)
          → ⊥
      go get_raises e ih = absurd (ground (arith, e, h))
      go (payload p) e ih = elim (Bool-cases (any (str_eq (status_of p)) terminal_states)) [
        | inl over ↦ conclude-ends run_id p (ground (arith, e, over, h))
        | inr waits ↦ elim (Bool-cases (expired n)) [
          | inl late ↦ absurd (ground (arith, e, waits, late, h))
          | inr early ↦ ih (passed early) (ground (arith, e, waits, early, h))
        ]
      ]

  -- A GET that shows a run which has not ended, before the deadline.
  abbrev pub StillRuns : String → ℕ → Type 0
  StillRuns run_id n =
      (p : RunPayload) × (get run_id n ≡ payload p)
      × (any (str_eq (status_of p)) terminal_states ≡ false)
      × (expired n ≡ false)

  -- A GET that shows a success, and what is returned for it.
  abbrev pub ShowsSuccess : String → RunResult → ℕ → Type 0
  ShowsSuccess run_id r n =
      (p : RunPayload) × (get run_id n ≡ payload p)
      × (status_of p ≡ "success")
      × ((partial_from_payload p && str_eq policy "fail") ≡ false)
      × (r ≡ record { run_id = run_id; status = status_of p; partial = partial_from_payload p })

  -- From the `n`-th GET on, every GET shows the run as not ended up to the one that shows its success.
  pub data Polled (run_id : String) (r : RunResult) : ℕ → Type 0 where
    shows_success : (n : ℕ) → ShowsSuccess run_id r n → Polled run_id r n
    still_runs : (n : ℕ) → StillRuns run_id n → Polled run_id r (n + 1) → Polled run_id r n

  conclude-success :
      (run_id : String) (n : ℕ) (p : RunPayload) (r : RunResult)
      → get run_id n ≡ payload p
      → conclude policy run_id p ≡ ok r
      → ShowsSuccess run_id r n
  unfolding conclude
  conclude-success run_id n p r e h = elim (Bool-cases (str_eq (status_of p) "success")) [
    | inr fails ↦ absurd (ground (arith, fails, h))
    | inl succeeds ↦ elim (Bool-cases (partial_from_payload p && str_eq policy "fail")) [
      | inl refused ↦ absurd (ground (arith, succeeds, refused, h))
      | inr fine ↦ (
        p,
        e,
        (str_eq_iff (status_of p) "success").0 succeeds,
        fine,
        ground (arith, succeeds, fine, h),
      )
    ]
  ]

  wait_loop-Polled :
      (fuel n : ℕ) (run_id : String) (r : RunResult)
      → wait_loop policy get expired fuel n run_id ≡ ok r
      → Polled run_id r n
  unfolding wait_loop
  wait_loop-Polled zero n run_id r h = absurd (ground arith)
  wait_loop-Polled (suc fuel) n run_id r h =
      go (get run_id n) refl (wait_loop-Polled fuel (n + 1) run_id r)
    where
      go :
          (reply : GetReply)
          → get run_id n ≡ reply
          → (wait_loop policy get expired fuel (n + 1) run_id ≡ ok r → Polled run_id r (n + 1))
          → Polled run_id r n
      go get_raises e ih = absurd (ground (arith, e, h))
      go (payload p) e ih = elim (Bool-cases (any (str_eq (status_of p)) terminal_states)) [
        | inl over ↦ shows_success n (conclude-success run_id n p r e (ground (arith, e, over, h)))
        | inr running ↦ elim (Bool-cases (expired n)) [
          | inl late ↦ absurd (ground (arith, e, running, late, h))
          | inr early ↦
              still_runs n (p, e, running, early) (ih (ground (arith, e, running, early, h)))
        ]
      ]

  Polled-run_id : (run_id : String) (r : RunResult) (n : ℕ) → Polled run_id r n → r.run_id ≡ run_id
  Polled-run_id run_id r n (shows_success m (p, e, s, f, same)) = ap (λ x. x.run_id) same
  Polled-run_id run_id r n (still_runs m q rest) = Polled-run_id run_id r (n + 1) rest

  -- What `run_and_wait` returns comes from the service: one of the allowed POSTs gave its run id, after
  -- POSTs that the client tries again after; of the GETs of that run, in their order, each showed a
  -- status that is not terminal, within the deadline, up to one that shows "success"; and the returned
  -- status and partial flag are that GET's, which is not partial where the policy is "fail".
  pub run_and_wait-success :
      (fuel max_attempts : ℕ) (post : ℕ → PostReply) (r : RunResult)
      → run_and_wait policy get expired fuel post max_attempts ≡ ok r
      → Triggered post r.run_id max_attempts 0 × Polled r.run_id r 0
  unfolding run_and_wait trigger_run
  run_and_wait-success fuel max_attempts post r h =
      let (run_id, triggered, rest) = >>=-eq-ok (trigger_run post max_attempts).0 _ h in
      let polled = wait_loop-Polled fuel 0 run_id r rest in
      let same = Polled-run_id run_id r 0 polled in
      (
        subst (λ x. Triggered post x max_attempts 0) (sym same)
            (trigger_loop-Triggered post run_id max_attempts 0 triggered),
        subst (λ x. Polled x r 0) (sym same) polled,
      )

  -- Where the deadline has passed after the `last`-th GET, waiting ends within `last + 1` rounds.
  pub wait_loop-ends_by_deadline :
      (last : ℕ) (run_id : String)
      → expired last ≡ true
      → wait_loop policy get expired (last + 1) 0 run_id ≢ err fuel_spent
  wait_loop-ends_by_deadline last run_id ends =
      wait_loop-ends (last + 1) 0 last run_id (omega arith) (omega arith) ends
