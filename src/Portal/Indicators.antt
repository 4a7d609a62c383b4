-- ===== src/Portal/Indicators.antt =====
-- The three indicators of a node of the portal's diagram, from the containers behind it.
pub mod Snapshots
pub mod Agreement
use data_ops_showcase.Prelude.Dict.{string_key, lookup}
use data_ops_showcase.Portal.{Info, is_one_of, worst_status, Snapshot}
use data_ops_showcase.Prelude.{
  Option, all, lower, [], ◌&&◌, true, some, none, ◌∷◌, str_eq, any, map, false, if◌then◌else◌,
  String, Bool, List,
}

-- What the loop appends for one container to `states`, `health_flags` and `buckets`.
pub record Flags : Type 0 where
  pub state : String
  pub health_flag : String
  pub bucket : String

abbrev pub flags_from : Option Info → Flags
flags_from none = record { state = "missing"; health_flag = "missing"; bucket = "down" }
flags_from (some info) = record {
  state = lower info.state;
  health_flag = if info.has_health then lower info.health_status else "none";
  bucket = info.bucket;
}

unfoldable pub flags_of : Snapshot → String → Flags
flags_of snap cname = flags_from (lookup cname snap)

abbrev pub has_state : String → Flags → Bool
has_state name f = str_eq f.state name

abbrev pub has_flag : String → Flags → Bool
has_flag name f = str_eq f.health_flag name

pub record Triple : Type 0 where
  pub docker : String
  pub health : String
  pub reach : String

abbrev pub is_bad_state : Flags → Bool
is_bad_state f = is_one_of f.state ("missing" ∷ "exited" ∷ "dead" ∷ [])

abbrev pub nonempty : {A : Type 0} → List A → Bool
nonempty [] = false
nonempty (x ∷ xs) = true

unfoldable pub docker_cls : List Flags → String
docker_cls fs =
    if any is_bad_state fs
    then "bad"
    else if any (has_state "restarting") fs
    then "warn"
    else if nonempty fs && all (has_state "running") fs
    then "ok"
    else "warn"

unfoldable pub health_cls : List Flags → String
health_cls fs =
    if any (has_flag "unhealthy") fs
    then "bad"
    else if any (has_flag "starting") fs
    then "warn"
    else if any (has_flag "missing") fs
    then "bad"
    else "ok"

-- {...}.get(roll, "bad")
abbrev pub class_of : String → String
class_of roll =
    if str_eq roll "healthy"
    then "ok"
    else if str_eq roll "running"
    then "ok"
    else if str_eq roll "degraded"
    then "warn"
    else "bad"

unfoldable pub reach_cls : List Flags → String
reach_cls fs = class_of (worst_status (map (λ f. f.bucket) fs))

unfoldable pub diagram_indicator_triple : List String → Snapshot → Triple
diagram_indicator_triple names snap =
    let fs = map (flags_of snap) names in
    record { docker = docker_cls fs; health = health_cls fs; reach = reach_cls fs }
