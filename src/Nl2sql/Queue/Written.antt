-- ===== src/Nl2sql/Queue/Written.antt =====
-- What a written state reads back as.
use data_ops_showcase.Prelude.Dict.{lookup-insert, string_key, merge, insert, lookup, Dict}
use data_ops_showcase.Prelude.{
  none, subst, Bool-cases, inr, refl, str_eq_iff, inl, Option-cases, ◌*◌, arith, ◌+◌, true, ok, ◌<◌,
  some, false, ◌≡◌, ℕ, String,
}
use data_ops_showcase.Nl2sql.Queue.{
  fields_of, expiry_of, is_live, HashValue, RedisStore, JobHash, hgetall, SetCall, expire, hset,
  find_hash, write_hash,
}

lookup-insert_same :
    (key : String) (h : JobHash) (d : Dict String JobHash) → lookup key (insert key h d) ≡ some h
lookup-insert_same key h d = ground (arith, lookup-insert key key h d, (str_eq_iff key key).1 refl)

is_live-find_hash :
    (now : ℕ) (key : String) (s : RedisStore) (h : JobHash)
    → find_hash now key s ≡ some h
    → is_live now h ≡ true
unfolding find_hash
is_live-find_hash now key s h e = elim (Option-cases (lookup key s.jobs)) [
  | inl missing ↦ absurd (ground (arith, missing, e))
  | inr (k, there) ↦ elim (Bool-cases (is_live now k)) [
    | inr gone ↦ absurd (ground (arith, there, gone, e))
    | inl live ↦
        subst (λ x. is_live now x ≡ true) {x = k} {y = h} (ground (arith, there, live, e)) live
  ]
]

find_hash-hset :
    (now : ℕ) (key : String) (mapping : Dict String HashValue) (s : RedisStore)
    → find_hash now key (hset now key mapping s)
      ≡ some (record {
        fields = merge (hgetall now key s) mapping;
        expires_at_ms = expiry_of (find_hash now key s);
      })
unfolding hset find_hash hgetall
find_hash-hset now key mapping s = elim (Option-cases (find_hash now key s)) [
  | inl missing ↦ ground (
    arith,
    missing,
    lookup-insert_same key
        (record { fields = merge (fields_of none) mapping; expires_at_ms = none }) s.jobs,
  )
  | inr (h, there) ↦ ground (
    arith,
    there,
    is_live-find_hash now key s h there,
    lookup-insert_same key
        (record { fields = merge h.fields mapping; expires_at_ms = h.expires_at_ms }) s.jobs,
  )
]

find_hash-expire :
    (now ttl_sec t : ℕ) (key : String) (s : RedisStore) (h : JobHash)
    → find_hash now key s ≡ some h
    → t < now + 1000 * ttl_sec
    → hgetall t key (expire now ttl_sec key s) ≡ h.fields
unfolding expire hgetall find_hash
find_hash-expire now ttl_sec t key s h e soon = ground (
  arith,
  e,
  soon,
  lookup-insert_same key (record h { expires_at_ms = some (now + 1000 * ttl_sec) }) s.jobs,
)

abbrev pub Works : SetCall → Type 0
Works call = (call.hset_fails ≡ false) × (call.expire_fails ≡ false)

pub hgetall-write_hash :
    (ttl_sec t : ℕ) (call : SetCall) (key : String) (mapping : Dict String HashValue)
    (s : RedisStore)
    → Works call
    → t < call.now_ms + 1000 * ttl_sec
    → hgetall t key (write_hash ttl_sec call key mapping s).1
      ≡ merge (hgetall call.now_ms key s) mapping
unfolding write_hash
hgetall-write_hash ttl_sec t call key mapping s (sets, expires) soon = ground (
  arith,
  sets,
  expires,
  find_hash-expire call.now_ms ttl_sec t key (hset call.now_ms key mapping s)
      (record {
        fields = merge (hgetall call.now_ms key s) mapping;
        expires_at_ms = expiry_of (find_hash call.now_ms key s);
      })
      (find_hash-hset call.now_ms key mapping s) soon,
)

pub queue-write_hash :
    (ttl_sec : ℕ) (call : SetCall) (key : String) (mapping : Dict String HashValue) (s : RedisStore)
    → (write_hash ttl_sec call key mapping s).1.queue ≡ s.queue
unfolding write_hash hset expire
queue-write_hash ttl_sec call key mapping s = elim (Bool-cases call.hset_fails) [
  | inl fails ↦ ground (arith, fails)
  | inr sets ↦ elim (Bool-cases call.expire_fails) [
    | inl fails ↦ ground (arith, sets, fails)
    | inr expires ↦
        elim (Option-cases (find_hash call.now_ms key (hset call.now_ms key mapping s))) [
          | inl missing ↦ ground (arith, sets, expires, missing)
          | inr (h, there) ↦ ground (arith, sets, expires, there)
        ]
  ]
]

pub write_hash-Works :
    (ttl_sec : ℕ) (call : SetCall) (key : String) (mapping : Dict String HashValue) (s : RedisStore)
    (u : Unit {0})
    → (write_hash ttl_sec call key mapping s).0 ≡ ok u
    → Works call
unfolding write_hash
write_hash-Works ttl_sec call key mapping s u h = elim (Bool-cases call.hset_fails) [
  | inl fails ↦ absurd (ground (arith, fails, h))
  | inr sets ↦ elim (Bool-cases call.expire_fails) [
    | inl fails ↦ absurd (ground (arith, sets, fails, h))
    | inr expires ↦ (sets, expires)
  ]
]
