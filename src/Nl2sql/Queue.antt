-- ===== src/Nl2sql/Queue.antt =====
-- services/nl2sql_app/app.py: `RedisQueryQueue` and `_classify_error`. A hash of Redis is a dict with
-- the time at which it expires; a value is the text, the number or the JSON of the answer that its text
-- reads back as. What a call of Redis comes to is a parameter. Log lines and latencies are left out.
pub mod Worker
pub mod Written
pub mod State
pub mod Endings
pub mod Ends
pub mod Overwritten
pub mod Enqueued
mod Tests
use data_ops_showcase.Exec.{◌>>◌}
use data_ops_showcase.Exec.{Exec}
use data_ops_showcase.Nl2sql.{text_same, is_empty, contains, lower_text}
use data_ops_showcase.Nl2sql.Chain.{Answer, ChatFault}
use data_ops_showcase.Prelude.Dict.{string_key, merge, insert, lookup, Dict}
use data_ops_showcase.Prelude.{
  all, length, ◌*◌, ltb, ◌||◌, str_eq, err, true, ◌∷◌, ok, ◌++◌, ◌+◌, ◌-◌, Result, List, [],
  if◌then◌else◌, none, ◌<>◌, some, codes, Text, ℕ, Bool, String, Option,
}

pub data HashValue : Type 0 where
  plain : Text → HashValue
  number : ℕ → HashValue
  json : Answer → HashValue

pub record JobHash : Type 0 where
  pub fields : Dict String HashValue
  pub expires_at_ms : Option ℕ  -- `none` where no EXPIRE has reached it

pub record RedisStore : Type 0 where
  pub jobs : Dict String JobHash
  pub queue : List String

pub data QueueFault : Type 0 where
  redis_error : QueueFault
  value_error : QueueFault
  type_error : QueueFault  -- of json.dumps
  chat_fault : ChatFault → QueueFault

unfoldable pub classify_error : Text → Text
classify_error error_text =
    let lowered = lower_text error_text in
    if contains (codes "forbidden sql statement") lowered
    then codes "forbidden_keyword"
    else if contains (codes "table is not whitelisted") lowered
    then codes "unknown_table"
    else if contains (codes "empty sql generated") lowered
    then codes "empty_sql"
    else if contains (codes "invalid expression") lowered
        || contains (codes "unexpected token") lowered
    then codes "parse_error"
    else if contains (codes "syntax error") lowered
    then codes "sql_syntax_error"
    else if contains (codes "timeout") lowered
    then codes "timeout"
    else codes "runtime_error"

abbrev pub job_key : String → String
job_key job_id = "nl2sql:job:" <> job_id

abbrev pub is_live : ℕ → JobHash → Bool
is_live now h = elim h.expires_at_ms [ none ↦ true | some t ↦ ltb now t ]

-- A key that has expired is no key.
unfoldable pub find_hash : ℕ → String → RedisStore → Option JobHash
find_hash now key s = elim (lookup key s.jobs) [
  | none ↦ none
  | some h ↦ if is_live now h then some h else none
]

abbrev pub fields_of : Option JobHash → Dict String HashValue
fields_of none = []
fields_of (some h) = h.fields

unfoldable pub hgetall : ℕ → String → RedisStore → Dict String HashValue
hgetall now key s = fields_of (find_hash now key s)

abbrev pub expiry_of : Option JobHash → Option ℕ
expiry_of none = none
expiry_of (some h) = h.expires_at_ms

unfoldable pub hset : ℕ → String → Dict String HashValue → RedisStore → RedisStore
hset now key mapping s =
    let h = find_hash now key s in
    record s {
      jobs =
          insert key (record { fields = merge (fields_of h) mapping; expires_at_ms = expiry_of h })
            s.jobs;
    }

unfoldable pub expire : ℕ → ℕ → String → RedisStore → RedisStore
expire now ttl_sec key s = elim (find_hash now key s) [
  | none ↦ s
  | some h ↦ record s {
    jobs = insert key (record h { expires_at_ms = some (now + 1000 * ttl_sec) }) s.jobs;
  }
]

-- One HSET with the EXPIRE behind it, at one time. `is_json` is whether json.dumps takes an answer: it
-- raises for a row with a value that has no JSON, such as a Decimal or a date.
pub record SetCall : Type 0 where
  pub now_ms : ℕ
  pub is_json : Answer → Bool
  pub hset_fails : Bool
  pub expire_fails : Bool

unfoldable pub write_hash :
    ℕ → SetCall → String → Dict String HashValue → Exec RedisStore QueueFault (Unit {0})
write_hash ttl_sec call key mapping s =
    let written = hset call.now_ms key mapping s in
    if call.hset_fails
    then (err redis_error, s)
    else if call.expire_fails
    then (err redis_error, written)
    else (ok tt, expire call.now_ms ttl_sec key written)

abbrev pub dumps : SetCall → HashValue → Bool
dumps call (plain t) = true
dumps call (number n) = true
dumps call (json a) = call.is_json a

abbrev pub is_dumped : SetCall → Dict String HashValue → Bool
is_dumped call mapping = all (λ (f : String × HashValue). dumps call f.1) mapping

unfoldable pub set_job_state :
    ℕ → SetCall → String → Dict String HashValue → Exec RedisStore QueueFault (Unit {0})
set_job_state ttl_sec call job_id mapping s =
    if is_dumped call mapping
    then write_hash ttl_sec call (job_key job_id)
        (mapping ++ ("updated_at_ms", number call.now_ms) ∷ []) s
    else (err type_error, s)

pub record EnqueueCalls : Type 0 where
  pub llen_fails : Bool
  pub written : SetCall
  pub rpush_fails : Bool

abbrev pub queued_fields : ℕ → ℕ → Text → Dict String HashValue
queued_fields now position question =
    ("status", plain (codes "queued"))
    ∷ ("stage", plain (codes "queued"))
    ∷ ("question", plain question)
    ∷ ("queue_position", number position)
    ∷ ("created_at_ms", number now)
    ∷ ("updated_at_ms", number now)
    ∷ []

abbrev pub rpush : Bool → String → Exec RedisStore QueueFault String
rpush fails job_id s =
    if fails then (err redis_error, s) else (ok job_id, record s { queue = s.queue ++ job_id ∷ [] })

-- With the id that `uuid4` gives.
unfoldable pub enqueue : ℕ → EnqueueCalls → String → Text → Exec RedisStore QueueFault String
enqueue ttl_sec calls job_id question s =
    if calls.llen_fails
    then (err redis_error, s)
    else (do
      write_hash ttl_sec calls.written (job_key job_id)
          (queued_fields calls.written.now_ms (length s.queue + 1) question)
      rpush calls.rpush_fails job_id)
        s

pub record JobStatus : Type 0 where
  pub status : Text
  pub stage : Text
  pub created_at_ms : ℕ
  pub updated_at_ms : ℕ
  pub elapsed_ms : ℕ
  pub queue_position : Option ℕ
  pub result : Option Answer
  pub error_message : Option Text
  pub error_code : Option Text
  pub trace_id : Option Text

-- data.get(name, default), as a text
abbrev pub text_or : Text → Option HashValue → Text
text_or default (some (plain t)) = t
text_or default v = default

-- int(data.get(name, "0") or 0)
abbrev pub int_or_zero : Option HashValue → Result QueueFault ℕ
int_or_zero none = ok 0
int_or_zero (some (number n)) = ok n
int_or_zero (some (json a)) = err value_error
int_or_zero (some (plain t)) = if is_empty t then ok 0 else err value_error

-- LPOS
unfoldable pub position_in : String → List String → Option ℕ
position_in job_id [] = none
position_in job_id (j ∷ js) =
    let rest = position_in job_id js in
    if str_eq j job_id then some 0 else elim rest [ none ↦ none | some n ↦ some (n + 1) ]

abbrev pub position_of : String → Dict String HashValue → List String → Option ℕ
position_of job_id hash queue = elim (position_in job_id queue) [
  | some n ↦ some (n + 1)
  | none ↦ elim (lookup "queue_position" hash) [
    | some (number n) ↦ some n
    | some (plain t) ↦ none
    | some (json a) ↦ none
    | none ↦ none
  ]
]

abbrev pub result_of : Option HashValue → Option Answer
result_of (some (json a)) = some a
result_of v = none

abbrev pub given_text : Option HashValue → Option Text
given_text v = if is_empty (text_or [] v) then none else some (text_or [] v)

abbrev pub shown_error : Dict String HashValue → Text
shown_error hash =
    text_or (text_or (codes "unknown error") (lookup "error" hash)) (lookup "error_message" hash)

abbrev pub payload_at : String → Dict String HashValue → List String → Text → ℕ → ℕ → JobStatus
payload_at job_id hash queue status created updated = record {
  status = status;
  stage = text_or (codes "queued") (lookup "stage" hash);
  created_at_ms = created;
  updated_at_ms = updated;
  elapsed_ms = updated - created;
  queue_position =
      if text_same status (codes "queued") then position_of job_id hash queue else none;
  result = if text_same status (codes "done") then result_of (lookup "result" hash) else none;
  error_message = if text_same status (codes "error") then some (shown_error hash) else none;
  error_code =
      if text_same status (codes "error")
      then some (text_or (codes "runtime_error") (lookup "error_code" hash))
      else none;
  trace_id = if text_same status (codes "error") then given_text (lookup "trace_id" hash) else none;
}

unfoldable pub status_payload :
    String → Dict String HashValue → List String → Result QueueFault JobStatus
status_payload job_id hash queue = elim (int_or_zero (lookup "created_at_ms" hash)) [
  | err x ↦ err x
  | ok created ↦ elim (int_or_zero (lookup "updated_at_ms" hash)) [
    | err x ↦ err x
    | ok updated ↦ ok (
        payload_at job_id hash queue (text_or (codes "queued") (lookup "status" hash)) created
          updated)
  ]
]

unfoldable pub get_status : ℕ → String → RedisStore → Result QueueFault (Option JobStatus)
get_status now job_id s = elim (hgetall now (job_key job_id) s) [
  | [] ↦ ok none
  | entry ∷ hash ↦ elim (status_payload job_id (entry ∷ hash) s.queue) [
    | err x ↦ err x
    | ok p ↦ ok (some p)
  ]
]
