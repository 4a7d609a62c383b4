-- ===== src/DbtClient/Tests.antt =====
-- The client at concrete replies, and the theorems applied to them.
use data_ops_showcase.DbtClient.Calls.{Polled, Triggered, run_and_wait-success}
use data_ops_showcase.DbtClient.{
  starts_with, contains, partial_from_payload, posted, conclude, trigger_loop, refused, GetReply,
  wait_loop, run_and_wait, attempt_of, RunResult, RunPayload, trigger_run, PostReply, payload,
}
use data_ops_showcase.Prelude.{lower, zero, refl, ok, none, suc, false, ◌≡◌, some, String, Bool, ℕ}

-- The first POST is refused, the second gives the id.
abbrev second_time : ℕ → PostReply
second_time zero = refused
second_time (suc n) = posted (some "run-7") none

abbrev done : RunPayload
done = record {
  status = some "success";
  partial_success = false;
  status_detail = none;
  run_results = none;
  results = none;
}

abbrev running : RunPayload
running = record done { status = some "running" }

abbrev get_third : String → ℕ → GetReply
get_third run_id zero = payload running
get_third run_id (suc n) = payload done

abbrev never_late : ℕ → Bool
never_late n = false

abbrev seven : RunResult
seven = record { run_id = "run-7"; status = "success"; partial = false }

ran_seven : run_and_wait "fail" get_third never_late 3 second_time 5 ≡ ok seven
unfolding run_and_wait trigger_run trigger_loop attempt_of wait_loop conclude partial_from_payload
    contains starts_with lower
ran_seven = refl

run_and_wait-success_example :
    Triggered second_time "run-7" 5 0 × Polled "fail" get_third never_late "run-7" seven 0
run_and_wait-success_example =
    run_and_wait-success "fail" get_third never_late 3 5 second_time seven ran_seven
