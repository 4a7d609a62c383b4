-- ===== src/Portal.antt =====
-- services/portal_web/status_service.py: what the portal shows of the services.
-- The Docker daemon and the HTTP replies are not part of the repository: `container_snapshot` takes
-- the containers that Docker lists, and `reply` is what a GET of an address comes to.
pub mod Catalog
pub mod Indicators
pub mod Services
pub mod Graph
mod Tests
use Prim.Native.Char.{code}
use data_ops_showcase.Prelude.Dict.{string_key, insert, Dict}
use data_ops_showcase.Prelude.{
  ◌||◌, ◌==◌, ◌&&◌, leb, not, str_eq, ltb, none, true, some, [], ◌∷◌, any, false, if◌then◌else◌,
  Option, String, List, lower, Bool, ℕ,
}

-- _RANK.get(s, 3)
unfoldable pub rank : String → ℕ
rank s =
    if str_eq s "healthy"
    then 0
    else if str_eq s "running"
    then 1
    else if str_eq s "degraded"
    then 2
    else 3

-- Python's `max` keeps the first of equal ranks.
abbrev pub worst_from : String → List String → String
worst_from worst [] = worst
worst_from worst (s ∷ ss) = worst_from (if ltb (rank worst) (rank s) then s else worst) ss

unfoldable pub worst_status : List String → String
worst_status [] = "down"
worst_status (s ∷ ss) = worst_from s ss

abbrev pub is_one_of : String → List String → Bool
is_one_of s names = any (str_eq s) names

unfoldable pub state_bucket : String → String → Bool → String
state_bucket state health_status has_health =
    if is_one_of state ("created" ∷ "exited" ∷ "dead" ∷ "paused" ∷ [])
    then "down"
    else if str_eq state "restarting"
    then "degraded"
    else if not (str_eq state "running")
    then "down"
    else if not has_health
    then "running"
    else if str_eq health_status "healthy"
    then "healthy"
    else if str_eq health_status "starting"
    then "degraded"
    else if str_eq health_status "unhealthy"
    then "degraded"
    else "running"

-- What a GET comes to within the timeout.
pub data Reply : Type 0 where
  response : ℕ → Reply
  http_error : ℕ → Reply  -- urllib.error.HTTPError
  unreachable : Reply  -- OSError, URLError or ValueError
  raises : Reply  -- another exception

-- `none` is Python's None. The exception that leaves the function is `none` outside.
unfoldable pub probe_url : (String → Reply) → Option String → Option (Option Bool)
probe_url reply none = some none
probe_url reply (some url) = if str_eq url "" then some none else elim (reply url) [
  | response status ↦ some (some (leb 200 status && ltb status 400))
  | http_error code ↦
      some (some (code == 301 || (code == 302 || (code == 303 || (code == 307 || code == 308)))))
  | unreachable ↦ some (some false)
  | raises ↦ none
]

-- State["Health"]: missing, null or empty, else with its "Status".
pub data Health : Type 0 where
  no_health : Health
  health : Option String → Health

-- State["ExitCode"]: a number, null, or what `int` refuses.
pub data ExitCode : Type 0 where
  exit_number : ℕ → ExitCode
  no_exit_code : ExitCode
  not_a_number : ExitCode

-- A container as Docker lists it: its name, and the entries of attrs["State"], `none` for a missing one.
pub record Container : Type 0 where
  pub name : Option String
  pub status : Option String
  pub health : Health
  pub exit_code : ExitCode

-- An entry of the snapshot.
pub record Info : Type 0 where
  pub state : String
  pub health_status : String
  pub has_health : Bool
  pub exit_code : ℕ
  pub bucket : String

abbrev pub Snapshot : Type 0
Snapshot = Dict String Info

abbrev pub or_text : Option String → String → String
or_text none text = text
or_text (some s) text = if str_eq s "" then text else s

abbrev pub with_default : Option String → String → String
with_default none text = text
with_default (some s) text = s

-- name.lstrip("/")
unfoldable pub strip_slashes : String → String
strip_slashes String.[] = ""
strip_slashes (String.◌∷◌ c s) =
    let rest = strip_slashes s in if code c == b'/' then rest else String.◌∷◌ c s

abbrev pub health_of : Health → Bool × String
health_of no_health = (false, "none")
health_of (health status) = (true, lower (or_text status "none"))

abbrev pub exit_code_of : ExitCode → ℕ
exit_code_of (exit_number n) = n
exit_code_of no_exit_code = 0
exit_code_of not_a_number = 0

unfoldable pub info_of : Container → Info
info_of c = record {
  state = with_default c.status "unknown";
  health_status = (health_of c.health).1;
  has_health = (health_of c.health).0;
  exit_code = exit_code_of c.exit_code;
  bucket = state_bucket (lower (or_text c.status "")) (health_of c.health).1 (health_of c.health).0;
}

-- The loop, from the entries collected so far.
unfoldable pub snapshot_loop : List Container → Snapshot → Snapshot
snapshot_loop [] out = out
snapshot_loop (c ∷ cs) out =
    snapshot_loop cs (insert (strip_slashes (or_text c.name "")) (info_of c) out)

abbrev pub container_snapshot : List Container → Snapshot
container_snapshot containers = snapshot_loop containers []
