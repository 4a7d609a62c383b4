-- ===== src/Nl2sql/Queue/State.antt =====
-- What `set_job_state` writes, refuses and leaves.
use data_ops_showcase.Nl2sql.Queue.Written.{hgetall-write_hash, queue-write_hash, Works}
use data_ops_showcase.Prelude.Dict.{
  or_else, lookup-merge, HasDistinctKeys, string_key, lookup, Dict,
}
use data_ops_showcase.Nl2sql.Queue.{
  type_error, is_dumped, redis_error, write_hash, number, job_key, hgetall, HashValue, RedisStore,
  QueueFault, SetCall, set_job_state,
}
use data_ops_showcase.Prelude.{
  ◌||◌, inr, inl, Bool-cases, arith, err, Bool, false, ap, ◌∙◌, [], ◌∷◌, ◌++◌, ◌*◌, true, ◌+◌, some,
  ◌<◌, ◌≡◌, Option, String, ℕ,
}

abbrev pub job_field : ℕ → String → String → RedisStore → Option HashValue
job_field t name job_id s = lookup name (hgetall t (job_key job_id) s)

pub set_job_state-written :
    (ttl_sec : ℕ) (call : SetCall) (job_id : String) (mapping : Dict String HashValue)
    (s : RedisStore)
    → is_dumped call mapping ≡ true
    → set_job_state ttl_sec call job_id mapping s
      ≡ write_hash ttl_sec call
          (job_key job_id)
          (mapping ++ ("updated_at_ms", number call.now_ms) ∷ [])
          s
unfolding set_job_state
set_job_state-written ttl_sec call job_id mapping s dumped = ground (arith, dumped)

pub set_job_state-field :
    (ttl_sec t : ℕ) (call : SetCall) (name job_id : String) (mapping : Dict String HashValue)
    (s : RedisStore) (v : HashValue)
    → is_dumped call mapping ≡ true
    → Works call
    → t < call.now_ms + 1000 * ttl_sec
    → HasDistinctKeys (mapping ++ ("updated_at_ms", number call.now_ms) ∷ [])
    → lookup name (mapping ++ ("updated_at_ms", number call.now_ms) ∷ []) ≡ some v
    → job_field t name job_id (set_job_state ttl_sec call job_id mapping s).1 ≡ some v
set_job_state-field ttl_sec t call name job_id mapping s v dumped works soon distinct given =
    let whole = mapping ++ ("updated_at_ms", number call.now_ms) ∷ [] in
    ap (λ x. job_field t name job_id x.1)
      (set_job_state-written ttl_sec call job_id mapping s dumped)
    ∙ ap (lookup name) (hgetall-write_hash ttl_sec t call (job_key job_id) whole s works soon)
    ∙ lookup-merge name (hgetall call.now_ms (job_key job_id) s) whole distinct
    ∙ ap (λ x. or_else x (lookup name (hgetall call.now_ms (job_key job_id) s))) given

pub queue-set_job_state :
    (ttl_sec : ℕ) (call : SetCall) (job_id : String) (mapping : Dict String HashValue)
    (s : RedisStore)
    → (set_job_state ttl_sec call job_id mapping s).1.queue ≡ s.queue
unfolding set_job_state
queue-set_job_state ttl_sec call job_id mapping s = elim (Bool-cases (is_dumped call mapping)) [
  | inl dumped ↦ ground (
    arith,
    dumped,
    queue-write_hash ttl_sec call (job_key job_id)
        (mapping ++ ("updated_at_ms", number call.now_ms) ∷ []) s,
  )
  | inr no_json ↦ ground (arith, no_json)
]

abbrev pub refuses : SetCall → Bool
refuses call = call.hset_fails || call.expire_fails

pub set_job_state-refused :
    (ttl_sec : ℕ) (call : SetCall) (job_id : String) (mapping : Dict String HashValue)
    (s : RedisStore) (x : QueueFault)
    → is_dumped call mapping ≡ true
    → (set_job_state ttl_sec call job_id mapping s).0 ≡ err x
    → (refuses call ≡ true) × (redis_error ≡ x)
unfolding set_job_state write_hash
set_job_state-refused ttl_sec call job_id mapping s x dumped h = elim (Bool-cases call.hset_fails) [
  | inl fails ↦ (ground (arith, fails), ground (arith, dumped, fails, h))
  | inr sets ↦ elim (Bool-cases call.expire_fails) [
    | inl fails ↦ (ground (arith, fails), ground (arith, dumped, sets, fails, h))
    | inr expires ↦ absurd (ground (arith, dumped, sets, expires, h))
  ]
]

pub set_job_state-undumped :
    (ttl_sec : ℕ) (call : SetCall) (job_id : String) (mapping : Dict String HashValue)
    (s : RedisStore)
    → is_dumped call mapping ≡ false
    → set_job_state ttl_sec call job_id mapping s ≡ (err type_error, s)
unfolding set_job_state
set_job_state-undumped ttl_sec call job_id mapping s no_json = ground (arith, no_json)
