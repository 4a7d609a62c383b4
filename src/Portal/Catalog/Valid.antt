-- ===== src/Portal/Catalog/Valid.antt =====
-- What `build_from_disk` makes of a file: the ids of its lists, and its links.
use data_ops_showcase.Portal.Catalog.Parts.{
  links-IsKnown, any-set_of, HasNoRepeat-of_length, ids-normalize, HasNoRepeat, ids-normalize_node,
  IsKnown,
}
use data_ops_showcase.Portal.Catalog.{
  broken_json, not_an_object, absent, build_from, object, CatalogFile, CatalogFault,
  load_catalog_dict, build_from_disk, Catalog, get_or, refuse_if, needs, CatalogData,
  validate_catalog, required, pair_of, collect, Node, Entry, set_of, RawNode, RawLink, RawEntry,
  normalize_node, check_links, normalize_service_entry,
}
use data_ops_showcase.Prelude.{
  ◌>>◌, sym, Result, ◌==◌, not, none, ltb, some, Option, subst, >>=-eq-ok, map, All, [], arith, ok,
  ◌≤◌, ◌≡◌, length, ◌∷◌, String, List,
}

-- What `validate_catalog` has checked when it returns.
record Checked (raw : CatalogData) : Type 0 where
  web : List RawEntry
  api : List RawEntry
  nodes : List RawNode
  links : List RawLink
  ids_web : List String
  ids_api : List String
  ids : List String
  has_web : raw.web_ui_services ≡ some web
  has_api : raw.api_and_tools ≡ some api
  has_nodes : raw.graph_nodes ≡ some nodes
  has_links : raw.graph_links ≡ some links
  collects_web : collect (λ (x : RawEntry). required "id" x.id) web ≡ ok ids_web
  collects_api : collect (λ (x : RawEntry). required "id" x.id) api ≡ ok ids_api
  collects_nodes : collect (λ (x : RawNode). required "id" x.id) nodes ≡ ok ids
  web_differ : length ids_web ≤ length (set_of ids_web)
  api_differ : length ids_api ≤ length (set_of ids_api)
  nodes_differ : length nodes ≤ length (set_of ids)
  links_checked : check_links (set_of ids) links ≡ ok tt

needs-eq-ok : {A : Type 0} (key : String) (o : Option A) (a : A) → needs key o ≡ ok a → o ≡ some a
needs-eq-ok key none a h = cc
needs-eq-ok key (some b) a h = ground arith

validate_catalog-Checked : (raw : CatalogData) → validate_catalog raw ≡ ok tt → Checked raw
unfolding validate_catalog
validate_catalog-Checked raw h =
    let (u, versioned, h1) = >>=-eq-ok (refuse_if (ltb (get_or 0 raw.version) 1) _) _ h in
    let (inits, has_inits, h2) = >>=-eq-ok (needs _ raw.init_containers) _ h1 in
    let (optionals, has_optionals, h3) = >>=-eq-ok (needs _ raw.optional_graph_containers) _ h2 in
    let (web, has_web, h4) = >>=-eq-ok (needs _ raw.web_ui_services) _ h3 in
    let (api, has_api, h5) = >>=-eq-ok (needs _ raw.api_and_tools) _ h4 in
    let (nodes, has_nodes, h6) = >>=-eq-ok (needs _ raw.graph_nodes) _ h5 in
    let (links, has_links, h7) = >>=-eq-ok (needs _ raw.graph_links) _ h6 in
    let (ids_web, collects_web, h8) = >>=-eq-ok (collect (λ x. required "id" x.id) web) _ h7 in
    let (ids_api, collects_api, h9) = >>=-eq-ok (collect (λ x. required "id" x.id) api) _ h8 in
    let (u1, web_differ, h10) =
      >>=-eq-ok (refuse_if (not (length ids_web == length (set_of ids_web))) _) _ h9 in
    let (u2, api_differ, h11) =
      >>=-eq-ok (refuse_if (not (length ids_api == length (set_of ids_api))) _) _ h10 in
    let (ids, collects_nodes, h12) = >>=-eq-ok (collect (λ x. required "id" x.id) nodes) _ h11 in
    let (u3, nodes_differ, h13) =
      >>=-eq-ok (refuse_if (not (length (set_of ids) == length nodes)) _) _ h12 in
    record {
      web = web;
      api = api;
      nodes = nodes;
      links = links;
      ids_web = ids_web;
      ids_api = ids_api;
      ids = ids;
      has_web = needs-eq-ok _ _ _ has_web;
      has_api = needs-eq-ok _ _ _ has_api;
      has_nodes = needs-eq-ok _ _ _ has_nodes;
      has_links = needs-eq-ok _ _ _ has_links;
      collects_web = collects_web;
      collects_api = collects_api;
      collects_nodes = collects_nodes;
      web_differ = ground (arith, web_differ);
      api_differ = ground (arith, api_differ);
      nodes_differ = ground (arith, nodes_differ);
      links_checked = h13;
    }

length-collect :
    {A B : Type 0} (f : A → Result CatalogFault B) (xs : List A) (ys : List B)
    → collect f xs ≡ ok ys
    → length ys ≡ length xs
length-collect f [] ys h = ground arith
length-collect f (x ∷ xs) ys h =
    let (y, e, h') = >>=-eq-ok (f x) _ h in
    let (ys', e', h'') = >>=-eq-ok (collect f xs) _ h' in
    ground (arith, h'', length-collect f xs ys' e')

links-IsKnown-All :
    (ids : List String) (ls : List (String × String))
    → All (IsKnown (set_of ids)) ls
    → All (IsKnown ids) ls
links-IsKnown-All ids [] h = tt
links-IsKnown-All ids (l ∷ ls) ((a, b), h) = (
  (ground (arith, a, any-set_of l.0 ids), ground (arith, b, any-set_of l.1 ids)),
  links-IsKnown-All ids ls h,
)

pub record IsValid (c : Catalog) : Type 0 where
  pub web_differ : HasNoRepeat (map (λ (x : Entry). x.id) c.web_ui_services)
  pub api_differ : HasNoRepeat (map (λ (x : Entry). x.id) c.api_and_tools)
  pub nodes_differ : HasNoRepeat (map (λ (x : Node). x.id) c.graph_nodes)
  pub links_known : All (IsKnown (map (λ (x : Node). x.id) c.graph_nodes)) c.graph_links

module _ (raw : CatalogData) (k : Checked raw) where
  entries_differ :
      (raws : List RawEntry) (es : List Entry) (ids : List String)
      → collect (λ (x : RawEntry). required "id" x.id) raws ≡ ok ids
      → length ids ≤ length (set_of ids)
      → collect normalize_service_entry raws ≡ ok es
      → HasNoRepeat (map (λ (x : Entry). x.id) es)
  entries_differ raws es ids collected differ h =
      subst HasNoRepeat (sym (ids-normalize raws ids es collected h))
        (HasNoRepeat-of_length ids differ)

  nodes_ids :
      (ns : List Node)
      → collect normalize_node k.nodes ≡ ok ns
      → map (λ (x : Node). x.id) ns ≡ k.ids
  nodes_ids ns h = ids-normalize_node k.nodes k.ids ns k.collects_nodes h

  ids-HasNoRepeat : HasNoRepeat k.ids
  ids-HasNoRepeat =
      HasNoRepeat-of_length k.ids
        (ground (arith, k.nodes_differ, length-collect _ k.nodes k.ids k.collects_nodes))

  -- The rest of `build_from_disk`, for an object that has been checked.
  built-IsValid : (c : Catalog) → build_from raw ≡ ok c → IsValid c
  unfolding build_from
  built-IsValid c h =
      let (inits, h_inits, h1) = >>=-eq-ok (required _ raw.init_containers) _ h in
      let (optionals, h_optionals, h2) =
        >>=-eq-ok (required _ raw.optional_graph_containers) _ h1 in
      let (raw_web, h_web, h3) = >>=-eq-ok (required _ raw.web_ui_services) _ h2 in
      let (raw_api, h_api, h4) = >>=-eq-ok (required _ raw.api_and_tools) _ h3 in
      let (raw_nodes, h_nodes, h5) = >>=-eq-ok (required _ raw.graph_nodes) _ h4 in
      let (raw_links, h_links, h6) = >>=-eq-ok (required _ raw.graph_links) _ h5 in
      let (web, web_of, h7) = >>=-eq-ok (collect normalize_service_entry raw_web) _ h6 in
      let (api, api_of, h8) = >>=-eq-ok (collect normalize_service_entry raw_api) _ h7 in
      let (nodes, nodes_of, h9) = >>=-eq-ok (collect normalize_node raw_nodes) _ h8 in
      let (links, links_of, h10) = >>=-eq-ok (collect pair_of raw_links) _ h9 in
      let web_ok : collect normalize_service_entry k.web ≡ ok web =
        ground (arith, h_web, k.has_web, web_of) in
      let api_ok : collect normalize_service_entry k.api ≡ ok api =
        ground (arith, h_api, k.has_api, api_of) in
      let nodes_ok : collect normalize_node k.nodes ≡ ok nodes =
        ground (arith, h_nodes, k.has_nodes, nodes_of) in
      let links_ok : collect pair_of k.links ≡ ok links =
        ground (arith, h_links, k.has_links, links_of) in
      let ids : k.ids ≡ map (λ (x : Node). x.id) nodes = sym (nodes_ids nodes nodes_ok) in
      subst IsValid
        {x = record {
          init_containers = inits;
          optional_graph_containers = optionals;
          web_ui_services = web;
          api_and_tools = api;
          graph_nodes = nodes;
          graph_links = links;
        }}
        (ground (arith, h10))
        (record {
          web_differ = entries_differ k.web web k.ids_web k.collects_web k.web_differ web_ok;
          api_differ = entries_differ k.api api k.ids_api k.collects_api k.api_differ api_ok;
          nodes_differ = subst HasNoRepeat ids ids-HasNoRepeat;
          links_known =
              subst (λ xs. All (IsKnown xs) links) ids
                (links-IsKnown-All k.ids links
                  (links-IsKnown (set_of k.ids) k.links links k.links_checked links_ok));
        })

-- A catalog that is built from its file has distinct ids in each of its lists, and each of its links
-- goes from a node of its graph to a node of its graph.
pub build_from_disk-IsValid :
    (file : CatalogFile) (c : Catalog) → build_from_disk file ≡ ok c → IsValid c
unfolding build_from_disk load_catalog_dict
build_from_disk-IsValid absent c h = absurd (ground arith)
build_from_disk-IsValid broken_json c h = absurd (ground arith)
build_from_disk-IsValid not_an_object c h = absurd (ground arith)
build_from_disk-IsValid (object raw) c h =
    let (raw', loaded, h0) = >>=-eq-ok (validate_catalog raw >> ok raw) _ h in
    let (u, valid, same) = >>=-eq-ok (validate_catalog raw) _ loaded in
    let k =
      subst Checked {x = raw} {y = raw'} (ground (arith, same))
        (validate_catalog-Checked raw valid) in
    built-IsValid raw' k c h0
