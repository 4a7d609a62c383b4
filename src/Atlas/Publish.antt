-- ===== src/Atlas/Publish.antt =====
-- entity_publish.py: `load_entities_from_yaml`, `build_entity_body` and the loop of `main`. Atlas holds an
-- entity by its type and its name; a POST that is accepted creates or updates it. What each request comes
-- to is a parameter, by its number.
use data_ops_showcase.Exec.{◌>>=◌, ◌>>◌}
use data_ops_showcase.Atlas.Valid.{type_of}
use data_ops_showcase.Prelude.Dict.{Dict}
use data_ops_showcase.Exec.{raise, lift, pure, Exec}
use data_ops_showcase.Atlas.{
  same_key, no_reference, validate_entities, DbReference, get, counts_as_no, qualified_name_key,
  text_of, words, EntityError, YamlValue, Entity,
}
use data_ops_showcase.Prelude.{
  ◌++◌, any, leb, not, ◌+◌, codes, false, [], err, String, ok, none, some, ◌&&◌, ◌∷◌, if◌then◌else◌,
  Option, List, ℕ, Text, Bool, Result,
}

pub record LegacyProcess : Type 0 where
  pub name : Option YamlValue
  pub qualified_name : Option YamlValue
  pub description : Option YamlValue

-- `process` is `none` where it is missing or empty.
pub record YamlDocument : Type 0 where
  pub entities : List Entity
  pub process : Option LegacyProcess

pub record EntityBody : Type 0 where
  pub type_name : YamlValue
  pub attributes : Dict String YamlValue
  pub db : DbReference

pub record AtlasStore : Type 0 where
  pub keys : List (Text × Text)
  pub posts : List EntityBody

pub record PublishCalls : Type 0 where
  pub get_fails : ℕ → Bool  -- a code of 400 or more, or no body
  pub post_code : ℕ → Option ℕ  -- `none` where the request raises

pub data PublishFault : Type 0 where
  key_error : PublishFault
  url_error : PublishFault
  exit_1 : PublishFault
  exit_2 : List EntityError → PublishFault

abbrev pub value_or : Text → Option YamlValue → YamlValue
value_or default none = words default
value_or default (some v) = v

unfoldable pub load_entities_from_yaml : YamlDocument → Result PublishFault (List Entity)
load_entities_from_yaml doc = elim doc.entities [
  | e ∷ es ↦ ok (e ∷ es)
  | [] ↦ elim doc.process [
    | none ↦ ok []
    | some p ↦ elim p.qualified_name [
      | none ↦ err key_error
      | some q ↦ ok (
          record {
            type_name = words (codes "Process");
            attributes =
                ("name", value_or (codes "process") p.name)
                ∷ ("qualifiedName", q)
                ∷ ("description", value_or [] p.description)
                ∷ [];
            db = no_reference;
          }
          ∷ [])
    ]
  ]
]

abbrev pub build_entity_body : Entity → EntityBody
build_entity_body e = record { type_name = e.type_name; attributes = e.attributes; db = e.db }

-- str(ent.get("typeName") or "")
abbrev pub type_or_empty : Entity → Text
type_or_empty e = if counts_as_no e.type_name then [] else type_of e

-- The GET finds a guid.
unfoldable pub is_found : PublishCalls → ℕ → Entity → AtlasStore → Bool
is_found calls n e s = elim (qualified_name_key e) [
  | none ↦ false
  | some q ↦ not (calls.get_fails n) && any (same_key (type_or_empty e, q)) s.keys
]

-- The key that Atlas reads from a body.
abbrev pub body_key : EntityBody → Text × Text
body_key b = (text_of b.type_name, text_of (get "qualifiedName" b.attributes))

unfoldable pub post_entity : PublishCalls → ℕ → EntityBody → Exec AtlasStore PublishFault (Unit {0})
post_entity calls n b s = elim (calls.post_code n) [
  | none ↦ (err url_error, s)
  | some code ↦
      if leb 400 code
      then (err exit_1, record s { posts = s.posts ++ b ∷ [] })
      else (ok tt, record { keys = body_key b ∷ s.keys; posts = s.posts ++ b ∷ [] })
]

abbrev pub publish_one : Bool → PublishCalls → ℕ → Entity → Exec AtlasStore PublishFault (Unit {0})
publish_one skip_existing calls n e s =
    if skip_existing && is_found calls n e s
    then (ok tt, s)
    else post_entity calls n (build_entity_body e) s

unfoldable pub publish_loop :
    Bool → PublishCalls → ℕ → List Entity → Exec AtlasStore PublishFault (Unit {0})
publish_loop skip_existing calls n [] = pure tt
publish_loop skip_existing calls n (e ∷ es) = do
  publish_one skip_existing calls n e
  publish_loop skip_existing calls (n + 1) es

unfoldable pub main : Bool → PublishCalls → YamlDocument → Exec AtlasStore PublishFault (Unit {0})
main skip_existing calls doc = do
  entities ← lift (load_entities_from_yaml doc)
  elim (validate_entities entities) [
    | x ∷ xs ↦ raise (exit_2 (x ∷ xs))
    | [] ↦ publish_loop skip_existing calls 0 entities
  ]
