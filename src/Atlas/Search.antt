-- ===== src/Atlas/Search.antt =====
-- infra/metadata/atlas/scripts/atlas_quality_gates.py: the searches page by page, and the gates.
-- An item of a reply: `nested` has the entity under the key "entity".
use data_ops_showcase.Atlas.{validate_entities, Entity, EntityError}
use data_ops_showcase.Prelude.{
  not, ◌||◌, ◌&&◌, true, ◌∷◌, any, zero, ◌++◌, ◌==◌, ltb, min, leb, max, length, false, map, [],
  if◌then◌else◌, suc, Bool, none, some, ◌+◌, List, String, ℕ, Option,
}

pub data SearchItem (Found : Type 0) : Type 0 where
  nested : Found → SearchItem Found
  bare : Found → SearchItem Found
  no_entity : SearchItem Found

pub record Payload (Found : Type 0) : Type 0 where
  pub approximate_count : Option ℕ  -- `none` where it is missing, negative or no number
  pub entities : List (SearchItem Found)

pub record SearchReply (Found : Type 0) : Type 0 where
  pub code : ℕ
  pub payload : Option (Payload Found)

-- `_BASIC_SEARCH_LIMIT`, with the number of the environment, `none` where it is no number; a number under
-- 0 stands as 0.
unfoldable pub basic_search_limit : Option ℕ → ℕ
basic_search_limit none = 1000
basic_search_limit (some n) = max 50 (min 10000 n)

module _ {Found : Type 0} where
  unfoldable pub normalize_entities : List (SearchItem Found) → List Found
  normalize_entities [] = []
  normalize_entities (nested x ∷ items) = x ∷ normalize_entities items
  normalize_entities (bare x ∷ items) = x ∷ normalize_entities items
  normalize_entities (no_entity ∷ items) = normalize_entities items

  -- The payload of a reply that is used.
  abbrev pub payload_of : SearchReply Found → Option (Payload Found)
  payload_of reply = if leb 400 reply.code then none else reply.payload

  -- By limit and offset.
  module _ (search : ℕ → ℕ → SearchReply Found) where
    -- The loop behind the first page. Out of fuel it returns what it has.
    unfoldable pub count_loop : (fuel lim offset total : ℕ) → ℕ
    count_loop zero lim offset total = total
    count_loop (suc fuel) lim offset total = elim (payload_of (search lim offset)) [
      | none ↦ total
      | some p ↦
          let n = length (normalize_entities p.entities) in
          let rest = count_loop fuel lim (offset + lim) (total + n) in
          if ltb n lim then total + n else rest
    ]

    -- `none` stands for -1.
    unfoldable pub search_basic_count : (fuel lim : ℕ) → Option ℕ
    search_basic_count fuel lim = elim (payload_of (search lim 0)) [
      | none ↦ none
      | some p ↦ elim p.approximate_count [
        | some n ↦ some n
        | none ↦
            let n = length (normalize_entities p.entities) in
            if ltb n lim then some n else some (count_loop fuel lim lim n)
      ]
    ]

    -- The search for a process whose name the predicate accepts.
    unfoldable pub qualname_matches : (Found → Bool) → (fuel lim offset : ℕ) → Bool
    qualname_matches predicate zero lim offset = false
    qualname_matches predicate (suc fuel) lim offset = elim (payload_of (search lim offset)) [
      | none ↦ false
      | some p ↦
          let chunk = normalize_entities p.entities in
          let rest = qualname_matches predicate fuel lim (offset + lim) in
          if length chunk == 0
          then false
          else if any predicate chunk
          then true
          else (if ltb (length chunk) lim then false else rest)
    ]

pub data GateFailure : Type 0 where
  invalid : EntityError → GateFailure
  too_few : ℕ → ℕ → GateFailure
  no_presence : GateFailure

abbrev pub at_least_zero : Option ℕ → ℕ
at_least_zero none = 0
at_least_zero (some n) = n

-- The sum of the counts of "Process", "kafka_topic", "hive_db" and "hive_table".
abbrev pub coarse_total : (String → Option ℕ) → ℕ
coarse_total count =
    at_least_zero (count "Process")
    + at_least_zero (count "kafka_topic")
    + at_least_zero (count "hive_db")
    + at_least_zero (count "hive_table")

unfoldable pub fail_msgs : List Entity → (String → Option ℕ) → ℕ → Bool → Bool → List GateFailure
fail_msgs es count min_any_total require_presence spark_seen =
    map invalid (validate_entities es)
    ++ ((if ltb (coarse_total count) min_any_total
          then too_few (coarse_total count) min_any_total ∷ []
          else [])
        ++ (if require_presence && (at_least_zero (count "kafka_topic") == 0 || not spark_seen)
            then no_presence ∷ []
            else []))
