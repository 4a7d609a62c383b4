-- ===== src/Portal/Tests.antt =====
-- The portal at concrete inputs, and the theorems applied to them.
use data_ops_showcase.Portal.Services.Probes.{build_service_rows_lem, own_probe}
use data_ops_showcase.Portal.Indicators.Agreement.{diagram_indicator_triple_ok}
use data_ops_showcase.Portal.Graph.{
  build_graph_payload_joined, JoinsNodes, build_graph_payload, NodeOut,
}
use data_ops_showcase.Portal.Services.{service_row, build_service_rows, Keyed}
use data_ops_showcase.Portal.Catalog.Parts.{HasNoRepeat}
use data_ops_showcase.Portal.Catalog.Valid.{build_from_disk-IsValid, IsValid}
use data_ops_showcase.Portal.Indicators.{diagram_indicator_triple}
use data_ops_showcase.Portal.Indicators.Snapshots.{HasDockerHealth}
use data_ops_showcase.Portal.{
  state_bucket, container_snapshot, strip_slashes, response, info_of, exit_number, health_of, Reply,
  snapshot_loop, Container, health,
}
use data_ops_showcase.Portal.Catalog.{
  normalize_node, normalize_service_entry, check_link, check_links, validate_catalog, build_from,
  load_catalog_dict, build_from_disk, object, Catalog, CatalogFile, RawEntry, RawNode, Entry, Node,
  sequence,
}
use data_ops_showcase.Prelude.{
  ok, All, true, ◌↔◌, sym, refl, ◌≡◌, map, ◌∷◌, none, subst, str_eq, false, String, lower, [], some,
}

abbrev raw_entry : RawEntry
raw_entry = record {
  id = some "airflow";
  name = some "Airflow";
  route = some "/airflow/";
  purpose = some "DAGs";
  container = some "airflow_webserver";
  probe_url = some "http://airflow_webserver:8080/health";
  kind = none;
  checklist_what = none;
  checklist_how = none;
}

abbrev entry : Entry
entry = record {
  id = "airflow";
  name = "Airflow";
  route = "/airflow/";
  purpose = "DAGs";
  container = "airflow_webserver";
  probe_url = some "http://airflow_webserver:8080/health";
  kind = none;
  checklist_what = none;
  checklist_how = none;
}

abbrev raw_node : String → RawNode
raw_node name = record {
  id = some name;
  label_ru = some name;
  container = some name;
  shape_kind = some "box";
  group = none;
  is_init = none;
  optional = none;
}

abbrev node : String → Node
node name = record {
  id = name;
  label_ru = name;
  container = name;
  shape_kind = "box";
  group = 0;
  is_init = false;
  optional = none;
}

abbrev file : CatalogFile
file = object (record {
  version = some 1;
  init_containers = some [];
  optional_graph_containers = some [];
  web_ui_services = some (raw_entry ∷ []);
  api_and_tools = some [];
  graph_nodes = some (raw_node "kafka" ∷ raw_node "dwh" ∷ []);
  graph_links = some (sequence ("kafka" ∷ "dwh" ∷ []) ∷ []);
})

abbrev catalog : Catalog
catalog = record {
  init_containers = [];
  optional_graph_containers = [];
  web_ui_services = entry ∷ [];
  api_and_tools = [];
  graph_nodes = node "kafka" ∷ node "dwh" ∷ [];
  graph_links = ("kafka", "dwh") ∷ [];
}

file-catalog : build_from_disk file ≡ ok catalog
unfolding build_from_disk load_catalog_dict build_from validate_catalog check_links check_link
    normalize_service_entry normalize_node
file-catalog = refl

build_from_disk-IsValid_example : IsValid catalog
build_from_disk-IsValid_example = build_from_disk-IsValid file catalog file-catalog

build_graph_payload_joined_example :
    HasNoRepeat (
      map
        (λ (n : NodeOut). n.id)
        (build_graph_payload catalog.graph_nodes catalog.graph_links []).nodes)
    × All
        (JoinsNodes (
          map
            (λ (n : NodeOut). n.id)
            (build_graph_payload catalog.graph_nodes catalog.graph_links []).nodes))
        (build_graph_payload catalog.graph_nodes catalog.graph_links []).links
build_graph_payload_joined_example = build_graph_payload_joined file catalog [] file-catalog

-- The futures complete in the order of their start.
abbrev in_order : Keyed → Keyed
in_order xs = xs

abbrev answers : String → Reply
answers url = response 200

build_service_rows_lem_example :
    build_service_rows [] answers in_order (entry ∷ []) []
    ≡ map (λ e. service_row [] [] e (own_probe answers e)) (entry ∷ [])
build_service_rows_lem_example =
    build_service_rows_lem [] answers in_order (λ xs test. refl) [] (entry ∷ []) (refl, tt)

abbrev unwell : Container
unwell = record {
  name = some "/kafka";
  status = some "Running";
  health = health (some "Unhealthy");
  exit_code = exit_number 0;
}

unwell_state :
    container_snapshot (unwell ∷ [])
    ≡ (
      "kafka",
      record {
        state = "Running";
        health_status = "unhealthy";
        has_health = true;
        exit_code = 0;
        bucket = "degraded";
      },
    )
      ∷ []
unfolding snapshot_loop info_of strip_slashes state_bucket lower
unwell_state = refl

unwell_health : (health_of unwell.health).1 ≡ "unhealthy"
unfolding lower
unwell_health = refl

unwell-HasDockerHealth : HasDockerHealth unwell
unwell-HasDockerHealth = subst (λ x. str_eq x "missing" ≡ false) (sym unwell_health) refl

diagram_indicator_triple_ok_example :
    (diagram_indicator_triple ("kafka" ∷ []) (container_snapshot (unwell ∷ []))).reach ≡ "ok"
    ↔ ((diagram_indicator_triple ("kafka" ∷ []) (container_snapshot (unwell ∷ []))).docker ≡ "ok")
      × ((diagram_indicator_triple ("kafka" ∷ []) (container_snapshot (unwell ∷ []))).health ≡ "ok")
diagram_indicator_triple_ok_example =
    diagram_indicator_triple_ok (unwell ∷ []) ("kafka" ∷ []) (unwell-HasDockerHealth, tt)
