-- ===== src/Portal/Catalog.antt =====
-- services/portal_web/catalog.py: reading and checking the catalog of services. The JSON object is
-- `CatalogData`: `none` stands for a missing key, and for null where the source treats it as missing.
pub mod Parts
pub mod Valid
use data_ops_showcase.Prelude.{
  ◌==◌, length, str_eq, any, not, ltb, true, [], none, false, if◌then◌else◌, some, ◌∷◌, ◌>>◌, err,
  ◌>>=◌, ok, Bool, String, Result, Option, List, ℕ,
}

pub data CatalogFault : Type 0 where
  key_error : String → CatalogFault
  value_error : String → CatalogFault
  file_not_found : CatalogFault

pub record RawEntry : Type 0 where
  pub id : Option String
  pub name : Option String
  pub route : Option String
  pub purpose : Option String
  pub container : Option String
  pub probe_url : Option String
  pub kind : Option String
  pub checklist_what : Option String
  pub checklist_how : Option String

pub record RawNode : Type 0 where
  pub id : Option String
  pub label_ru : Option String
  pub container : Option String
  pub shape_kind : Option String
  pub group : Option ℕ
  pub is_init : Option Bool
  pub optional : Option Bool

-- An element of graph_links: a list of texts, or another JSON value.
pub data RawLink : Type 0 where
  sequence : List String → RawLink
  not_a_list : RawLink

pub record CatalogData : Type 0 where
  pub version : Option ℕ
  pub init_containers : Option (List String)
  pub optional_graph_containers : Option (List String)
  pub web_ui_services : Option (List RawEntry)
  pub api_and_tools : Option (List RawEntry)
  pub graph_nodes : Option (List RawNode)
  pub graph_links : Option (List RawLink)

pub record Entry : Type 0 where
  pub id : String
  pub name : String
  pub route : String
  pub purpose : String
  pub container : String
  pub probe_url : Option String
  pub kind : Option String
  pub checklist_what : Option String
  pub checklist_how : Option String

pub record Node : Type 0 where
  pub id : String
  pub label_ru : String
  pub container : String
  pub shape_kind : String
  pub group : ℕ
  pub is_init : Bool
  pub optional : Option Bool

abbrev pub required : {A : Type 0} → String → Option A → Result CatalogFault A
required key none = err (key_error key)
required key (some a) = ok a

abbrev pub get_or : {A : Type 0} → A → Option A → A
get_or default none = default
get_or default (some a) = a

unfoldable pub normalize_service_entry : RawEntry → Result CatalogFault Entry
normalize_service_entry raw = do
  id ← required "id" raw.id
  name ← required "name" raw.name
  purpose ← required "purpose" raw.purpose
  ok (record {
    id = id;
    name = name;
    route = get_or "" raw.route;
    purpose = purpose;
    container = get_or "" raw.container;
    probe_url = raw.probe_url;
    kind = raw.kind;
    checklist_what = raw.checklist_what;
    checklist_how = raw.checklist_how;
  })

unfoldable pub normalize_node : RawNode → Result CatalogFault Node
normalize_node n = do
  id ← required "id" n.id
  label ← required "label_ru" n.label_ru
  container ← required "container" n.container
  shape ← required "shape_kind" n.shape_kind
  ok (record {
    id = id;
    label_ru = label;
    container = container;
    shape_kind = shape;
    group = get_or 0 n.group;
    is_init = get_or false n.is_init;
    optional = n.optional;
  })

-- A list comprehension whose expression may raise.
abbrev pub collect :
    {A B : Type 0} → (A → Result CatalogFault B) → List A → Result CatalogFault (List B)
collect f [] = ok []
collect f (a ∷ rest) = do b ← f a; bs ← collect f rest; ok (b ∷ bs)

-- set(xs), as the list of its elements
abbrev pub set_of : List String → List String
set_of [] = []
set_of (x ∷ xs) = let rest = set_of xs in if any (str_eq x) rest then rest else x ∷ rest

unfoldable pub check_link : List String → RawLink → Result CatalogFault (Unit {0})
check_link ids not_a_list = err (value_error "must be [source, target]")
check_link ids (sequence []) = err (value_error "must be [source, target]")
check_link ids (sequence (a ∷ [])) = err (value_error "must be [source, target]")
check_link ids (sequence (a ∷ b ∷ [])) =
    if not (any (str_eq a) ids)
    then err (value_error "unknown source")
    else if not (any (str_eq b) ids)
    then err (value_error "unknown target")
    else ok tt
check_link ids (sequence (a ∷ b ∷ c ∷ rest)) = err (value_error "must be [source, target]")

unfoldable pub check_links : List String → List RawLink → Result CatalogFault (Unit {0})
check_links ids [] = ok tt
check_links ids (link ∷ links) = check_link ids link >> check_links ids links

-- if cond: raise ValueError(message), with the message less the values that it prints
abbrev pub refuse_if : Bool → String → Result CatalogFault (Unit {0})
refuse_if true message = err (value_error message)
refuse_if false message = ok tt

abbrev pub needs : {A : Type 0} → String → Option A → Result CatalogFault A
needs key none = err (value_error key)
needs key (some a) = ok a

unfoldable pub validate_catalog : CatalogData → Result CatalogFault (Unit {0})
validate_catalog raw = do
  refuse_if (ltb (get_or 0 raw.version) 1) "catalog: missing or invalid version"
  inits ← needs "init_containers" raw.init_containers
  optionals ← needs "optional_graph_containers" raw.optional_graph_containers
  web ← needs "web_ui_services" raw.web_ui_services
  api ← needs "api_and_tools" raw.api_and_tools
  nodes ← needs "graph_nodes" raw.graph_nodes
  links ← needs "graph_links" raw.graph_links
  ids_web ← collect (λ x. required "id" x.id) web
  ids_api ← collect (λ x. required "id" x.id) api
  refuse_if (not (length ids_web == length (set_of ids_web)))
      "catalog: duplicate id in web_ui_services"
  refuse_if (not (length ids_api == length (set_of ids_api)))
      "catalog: duplicate id in api_and_tools"
  ids ← collect (λ x. required "id" x.id) nodes
  refuse_if (not (length (set_of ids) == length nodes)) "catalog: duplicate id in graph_nodes"
  check_links (set_of ids) links

-- What the catalog's file holds.
pub data CatalogFile : Type 0 where
  absent : CatalogFile
  broken_json : CatalogFile  -- JSONDecodeError is a ValueError
  not_an_object : CatalogFile
  object : CatalogData → CatalogFile

-- The file that the path names is the argument.
unfoldable pub load_catalog_dict : CatalogFile → Result CatalogFault CatalogData
load_catalog_dict absent = err file_not_found
load_catalog_dict broken_json = err (value_error "json")
load_catalog_dict not_an_object = err (value_error "catalog: root must be an object")
load_catalog_dict (object raw) = validate_catalog raw >> ok raw

pub record Catalog : Type 0 where
  pub init_containers : List String
  pub optional_graph_containers : List String
  pub web_ui_services : List Entry
  pub api_and_tools : List Entry
  pub graph_nodes : List Node
  pub graph_links : List (String × String)

-- (str(pair[0]), str(pair[1]))
abbrev pub pair_of : RawLink → Result CatalogFault (String × String)
pair_of not_a_list = err (value_error "pair")
pair_of (sequence []) = err (value_error "pair")
pair_of (sequence (a ∷ [])) = err (value_error "pair")
pair_of (sequence (a ∷ b ∷ rest)) = ok (a, b)

-- What `_build_from_disk` makes of the object.
unfoldable pub build_from : CatalogData → Result CatalogFault Catalog
build_from raw = do
  inits ← required "init_containers" raw.init_containers
  optionals ← required "optional_graph_containers" raw.optional_graph_containers
  raw_web ← required "web_ui_services" raw.web_ui_services
  raw_api ← required "api_and_tools" raw.api_and_tools
  raw_nodes ← required "graph_nodes" raw.graph_nodes
  raw_links ← required "graph_links" raw.graph_links
  web ← collect normalize_service_entry raw_web
  api ← collect normalize_service_entry raw_api
  nodes ← collect normalize_node raw_nodes
  links ← collect pair_of raw_links
  ok (record {
    init_containers = inits;
    optional_graph_containers = optionals;
    web_ui_services = web;
    api_and_tools = api;
    graph_nodes = nodes;
    graph_links = links;
  })

unfoldable pub build_from_disk : CatalogFile → Result CatalogFault Catalog
build_from_disk file = load_catalog_dict file >>= build_from
