-- ===== src/Atlas/Tests.antt =====
-- A database with a table, published twice, and a search in pages of two.
use data_ops_showcase.Nl2sql.{text_same, drop_trailing, drop_leading}
use data_ops_showcase.Atlas.Again.{main_again}
use data_ops_showcase.Atlas.Valid.{validate_entities-IsCatalog, IsCatalog}
use data_ops_showcase.Atlas.Pages.{search_basic_count_all, IsPage}
use data_ops_showcase.Atlas.Search.{bare, SearchReply, search_basic_count, normalize_entities}
use data_ops_showcase.Prelude.{
  refl, drop, arith, codes, take, ◌↔◌, some, ok, none, [], ◌≡◌, false, ◌∷◌, true, map, String, List,
  ℕ,
}
use data_ops_showcase.Atlas.Publish.{
  post_entity, is_found, publish_loop, load_entities_from_yaml, AtlasStore, YamlDocument, main,
  PublishCalls,
}
use data_ops_showcase.Atlas.{
  unknown_db, duplicate_qualified_name, required_attrs, attribute_errors, qualified_name_key,
  hive_db_names, second_loop, refers_to, words, no_reference, first_loop, YamlValue,
  validate_entities, Entity,
}

abbrev text : String → YamlValue
text s = words (codes s)

abbrev shop : Entity
shop = record {
  type_name = text "hive_db";
  attributes =
      ("name", text "shop") ∷ ("qualifiedName", text "shop@dev") ∷ ("clusterName", text "dev") ∷ [];
  db = no_reference;
}

abbrev orders : Entity
orders = record {
  type_name = text "hive_table";
  attributes = ("name", text "orders") ∷ ("qualifiedName", text "shop.orders@dev") ∷ [];
  db = refers_to (text " shop@dev ");
}

abbrev file : YamlDocument
file = record { entities = shop ∷ orders ∷ []; process = none }

shop_valid : validate_entities (shop ∷ orders ∷ []) ≡ []
unfolding validate_entities first_loop second_loop hive_db_names attribute_errors required_attrs
    qualified_name_key text_same drop_leading drop_trailing
shop_valid = refl

orders_alone :
    validate_entities (orders ∷ orders ∷ [])
    ≡ duplicate_qualified_name (codes "hive_table") (codes "shop.orders@dev")
      ∷ unknown_db 0 (codes "shop@dev")
      ∷ unknown_db 1 (codes "shop@dev")
      ∷ []
unfolding validate_entities first_loop second_loop hive_db_names attribute_errors required_attrs
    qualified_name_key text_same drop_leading drop_trailing
orders_alone = refl

validate_entities-IsCatalog_example :
    (validate_entities (shop ∷ orders ∷ []) ≡ []) ↔ IsCatalog (shop ∷ orders ∷ [])
validate_entities-IsCatalog_example = validate_entities-IsCatalog (shop ∷ orders ∷ [])

abbrev calls : PublishCalls
calls = record { get_fails = λ n. false; post_code = λ n. some 200 }

abbrev refusing : PublishCalls
refusing = record { get_fails = λ n. false; post_code = λ n. some 500 }

abbrev empty_atlas : AtlasStore
empty_atlas = record { keys = []; posts = [] }

abbrev published : AtlasStore
published = (main true calls file empty_atlas).1

posted : main true calls file empty_atlas ≡ (ok tt, published)
unfolding main load_entities_from_yaml validate_entities first_loop second_loop hive_db_names
    attribute_errors required_attrs qualified_name_key text_same drop_leading drop_trailing
    publish_loop is_found post_entity
posted = refl

main_again_example : main true refusing file published ≡ (ok tt, published)
main_again_example =
    main_again calls refusing file (shop ∷ orders ∷ []) empty_atlas published
      (unfold load_entities_from_yaml in refl)
      (unfold qualified_name_key drop_leading drop_trailing in (refl, (refl, tt))) posted
      (λ k. refl)

abbrev three : List ℕ
three = 4 ∷ 5 ∷ 6 ∷ []

abbrev pages : ℕ → ℕ → SearchReply ℕ
pages lim offset = record {
  code = 200;
  payload =
      some
        (record { approximate_count = none; entities = map bare (take lim (drop offset three)) });
}

normalize_entities-bare : (xs : List ℕ) → normalize_entities (map bare xs) ≡ xs
unfolding normalize_entities
normalize_entities-bare [] = refl
normalize_entities-bare (x ∷ xs) = ground (arith, normalize_entities-bare xs)

served : (offset : ℕ) → IsPage pages 2 three offset
served offset = record {
  payload = record { approximate_count = none; entities = map bare (take 2 (drop offset three)) };
  replies = refl;
  uncounted = refl;
  page = normalize_entities-bare (take 2 (drop offset three));
}

search_basic_count_all_example : search_basic_count pages 4 2 ≡ some 3
search_basic_count_all_example =
    search_basic_count_all pages 2 three served (omega arith) 4 (omega arith)
