-- ===== src/Portal/Graph.antt =====
-- The graph of the portal: its nodes with their rollups and indicators, and its links.
use data_ops_showcase.Prelude.Dict.{string_key, lookup}
use data_ops_showcase.Portal.Catalog.Parts.{HasNoRepeat, IsKnown}
use data_ops_showcase.Portal.Catalog.Valid.{build_from_disk-IsValid}
use data_ops_showcase.Portal.{Snapshot}
use data_ops_showcase.Portal.Catalog.{build_from_disk, CatalogFile, Node, get_or, Catalog}
use data_ops_showcase.Portal.Indicators.{Triple, diagram_indicator_triple}
use data_ops_showcase.Prelude.{
  ◌==◌, lower, subst, sym, ◌&&◌, if◌then◌else◌, refl, ap, some, [], none, true, ok, ◌∷◌, str_eq,
  ◌≡◌, any, false, Bool, All, map, String, List, ℕ,
}

abbrev pub all_bad : Triple
all_bad = record { docker = "bad"; health = "bad"; reach = "bad" }

abbrev pub all_ok : Triple
all_ok = record { docker = "ok"; health = "ok"; reach = "ok" }

unfoldable pub node_rollup_and_indicators : String → Bool → Snapshot → String × Triple
node_rollup_and_indicators cname is_init snap = elim (lookup cname snap) [
  | none ↦ ("down", all_bad)
  | some info ↦
      if is_init && str_eq (lower info.state) "exited"
      then if info.exit_code == 0
        then ("completed", all_ok)
        else ("down", diagram_indicator_triple (cname ∷ []) snap)
      else (info.bucket, diagram_indicator_triple (cname ∷ []) snap)
]

pub record NodeOut : Type 0 where
  pub id : String
  pub label_ru : String
  pub container : String
  pub shape_kind : String
  pub group : ℕ
  pub optional : Bool
  pub is_init : Bool
  pub rollup : String
  pub indicators : Triple

unfoldable pub node_out : Snapshot → Node → NodeOut
node_out snap n =
    let (rollup, indicators) = node_rollup_and_indicators n.container n.is_init snap in
    record {
      id = n.id;
      label_ru = n.label_ru;
      container = n.container;
      shape_kind = n.shape_kind;
      group = n.group;
      optional = get_or false n.optional;
      is_init = n.is_init;
      rollup = rollup;
      indicators = indicators;
    }

pub record Link : Type 0 where
  pub source : String
  pub target : String

pub record Graph : Type 0 where
  pub nodes : List NodeOut
  pub links : List Link

unfoldable pub build_graph_payload : List Node → List (String × String) → Snapshot → Graph
build_graph_payload graph_nodes graph_links snap = record {
  nodes = map (node_out snap) graph_nodes;
  links = map (λ l. record { source = l.0; target = l.1 }) graph_links;
}

node_out_ids :
    (snap : Snapshot) (ns : List Node)
    → map (λ (n : NodeOut). n.id) (map (node_out snap) ns) ≡ map (λ (n : Node). n.id) ns
unfolding node_out
node_out_ids snap [] = refl
node_out_ids snap (n ∷ ns) = ap (λ xs. n.id ∷ xs) (node_out_ids snap ns)

-- A link of the payload goes from one of the ids to one of the ids.
abbrev pub JoinsNodes : List String → Link → Type 0
JoinsNodes ids l = (any (str_eq l.source) ids ≡ true) × (any (str_eq l.target) ids ≡ true)

links_joined :
    (ids : List String) (ls : List (String × String))
    → All (IsKnown ids) ls
    → All (JoinsNodes ids) (map (λ (l : String × String). record { source = l.0; target = l.1 }) ls)
links_joined ids [] h = tt
links_joined ids (l ∷ ls) (known, h) = (known, links_joined ids ls h)

-- In the graph of a catalog that was built from its file, the ids of the nodes differ, and every link
-- goes from one of the nodes to one of the nodes, whatever the snapshot.
pub build_graph_payload_joined :
    (file : CatalogFile) (c : Catalog) (snap : Snapshot)
    → build_from_disk file ≡ ok c
    → HasNoRepeat
        (map (λ (n : NodeOut). n.id) (build_graph_payload c.graph_nodes c.graph_links snap).nodes)
      × All
          (JoinsNodes (
            map
              (λ (n : NodeOut). n.id)
              (build_graph_payload c.graph_nodes c.graph_links snap).nodes))
          (build_graph_payload c.graph_nodes c.graph_links snap).links
unfolding build_graph_payload
build_graph_payload_joined file c snap h =
    let v = build_from_disk-IsValid file c h in
    let same = sym (node_out_ids snap c.graph_nodes) in
    (
      subst HasNoRepeat same v.nodes_differ,
      links_joined (map (λ (n : NodeOut). n.id) (map (node_out snap) c.graph_nodes)) c.graph_links
          (subst (λ ids. All (IsKnown ids) c.graph_links) same v.links_known),
    )
