-- ===== src/Portal/Services.antt =====
-- The rows of the portal's table of services. The probes run in a pool of threads: `completed` puts
-- the addresses to probe in the order in which their futures complete.
pub mod Probes
use data_ops_showcase.Prelude.Dict.{string_key, lookup, insert, Dict}
use data_ops_showcase.Portal.{probe_url, Reply, Snapshot, or_text, Info}
use data_ops_showcase.Portal.Catalog.{Entry}
use data_ops_showcase.Prelude.{
  ◌==◌, lower, ◌&&◌, any, false, some, map, none, [], str_eq, Bool, ◌∷◌, Option, if◌then◌else◌,
  String, List,
}

abbrev pub Keyed : Type 0
Keyed = List (String × String)

abbrev pub probe_text : Entry → String
probe_text e = or_text e.probe_url ""

-- The first loop: the entries with an address to probe.
unfoldable pub keyed_of : List Entry → Keyed
keyed_of [] = []
keyed_of (e ∷ es) =
    let rest = keyed_of es in if str_eq (probe_text e) "" then rest else (e.id, probe_text e) ∷ rest

-- fut.result(), where an exception counts as False
unfoldable pub result_of : (String → Reply) → String → Option Bool
result_of reply url = elim (probe_url reply (some url)) [ none ↦ some false | some answer ↦ answer ]

-- The loop over the completed futures.
unfoldable pub gather :
    (String → Reply) → Keyed → Dict String (Option Bool) → Dict String (Option Bool)
gather reply [] out = out
gather reply ((id, url) ∷ rest) out = gather reply rest (insert id (result_of reply url) out)

pub record ServiceRow : Type 0 where
  pub id : String
  pub name : String
  pub route : String
  pub purpose : String
  pub container : String
  pub rollup : String
  pub docker_state : String
  pub healthcheck : String
  pub probe_ok : Option Bool
  pub kind : Option String

-- The container of a row: its rollup, its state, and the text of its health check.
pub record Shown : Type 0 where
  pub rollup : String
  pub state : String
  pub healthcheck : String

abbrev pub health_text : Info → String
health_text info = if info.has_health then info.health_status else "none"

unfoldable pub shown_of : List String → String → Snapshot → Shown
shown_of inits cname snap =
    if str_eq cname ""
    then record { rollup = "down"; state = "none"; healthcheck = "none" }
    else elim (lookup cname snap) [
      | none ↦ record { rollup = "down"; state = "missing"; healthcheck = "none" }
      | some info ↦
          if any (str_eq cname) inits && (str_eq (lower info.state) "exited" && info.exit_code == 0)
          then record { rollup = "completed"; state = "exited"; healthcheck = health_text info }
          else record { rollup = info.bucket; state = info.state; healthcheck = health_text info }
    ]

-- probe_by_id.get(eid), for an entry with an address
unfoldable pub probe_ok_of : Dict String (Option Bool) → Entry → Option Bool
probe_ok_of probed e =
    if str_eq (probe_text e) ""
    then none
    else elim (lookup e.id probed) [ none ↦ none | some answer ↦ answer ]

unfoldable pub service_row : List String → Snapshot → Entry → Option Bool → ServiceRow
service_row inits snap e probe_ok = record {
  id = e.id;
  name = e.name;
  route = e.route;
  purpose = e.purpose;
  container = e.container;
  rollup = (shown_of inits e.container snap).rollup;
  docker_state = (shown_of inits e.container snap).state;
  healthcheck = (shown_of inits e.container snap).healthcheck;
  probe_ok = probe_ok;
  kind = e.kind;
}

unfoldable pub build_service_rows :
    List String → (String → Reply) → (Keyed → Keyed) → List Entry → Snapshot → List ServiceRow
build_service_rows inits reply completed entries snap =
    let probed = gather reply (completed (keyed_of entries)) [] in
    map (λ e. service_row inits snap e (probe_ok_of probed e)) entries
