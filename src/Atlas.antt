-- ===== src/Atlas.antt =====
-- infra/metadata/atlas/scripts/entity_publish.py: the entities of a YAML file, their validation and their
-- publication. A text is the list of its characters' codes. A value is null, a text, or another value by
-- the text that `str` gives and whether it counts as false. Documents in which the attributes or the
-- relationships are no mapping raise, and are left out.
pub mod Valid
pub mod Publish
pub mod Again
pub mod Search
pub mod Pages
pub mod Gates
mod Tests
use data_ops_showcase.Files.Objects.{strip_white}
use data_ops_showcase.Nl2sql.{is_empty, text_same}
use data_ops_showcase.Prelude.Dict.{string_key, lookup, Dict}
use data_ops_showcase.Prelude.{
  false, any, ◌&&◌, ◌+◌, ◌++◌, some, codes, [], ◌∷◌, if◌then◌else◌, true, none, Option, List,
  String, ℕ, Bool, Text,
}

pub data YamlValue : Type 0 where
  null : YamlValue
  words : Text → YamlValue
  other : Text → Bool → YamlValue

-- relationshipAttributes.db.uniqueAttributes.qualifiedName; `no_reference` where one of them is missing
-- or no mapping.
pub data DbReference : Type 0 where
  no_reference : DbReference
  refers_to : YamlValue → DbReference

pub record Entity : Type 0 where
  pub type_name : YamlValue
  pub attributes : Dict String YamlValue
  pub db : DbReference

pub data EntityError : Type 0 where
  missing_type_name : ℕ → EntityError
  missing_qualified_name : ℕ → EntityError
  duplicate_qualified_name : Text → Text → EntityError
  missing_attribute : ℕ → Text → String → EntityError
  missing_db : ℕ → EntityError
  unknown_db : ℕ → Text → EntityError

abbrev pub counts_as_no : YamlValue → Bool
counts_as_no null = true
counts_as_no (words t) = is_empty t
counts_as_no (other t absent) = absent

-- str(...)
abbrev pub text_of : YamlValue → Text
text_of null = codes "None"
text_of (words t) = t
text_of (other t absent) = t

abbrev pub stripped_name : YamlValue → Option Text
stripped_name null = none
stripped_name (words t) = if is_empty (strip_white t) then none else some (strip_white t)
stripped_name (other t absent) = none

abbrev pub get : String → Dict String YamlValue → YamlValue
get name attributes = elim (lookup name attributes) [ none ↦ null | some v ↦ v ]

unfoldable pub qualified_name_key : Entity → Option Text
qualified_name_key e = stripped_name (get "qualifiedName" e.attributes)

-- What `_REQUIRED_ATTRS.get` finds.
unfoldable pub required_attrs : Text → List String
required_attrs tn =
    if text_same tn (codes "Process")
    then "name" ∷ "qualifiedName" ∷ []
    else if text_same tn (codes "kafka_topic")
    then "name" ∷ "topic" ∷ "qualifiedName" ∷ "uri" ∷ []
    else if text_same tn (codes "hive_db")
    then "name" ∷ "qualifiedName" ∷ "clusterName" ∷ []
    else if text_same tn (codes "hive_table")
    then "name" ∷ "qualifiedName" ∷ []
    else []

-- attrs.get(rk, "") is null, or a text of white space
abbrev pub is_blank : Option YamlValue → Bool
is_blank none = true
is_blank (some null) = true
is_blank (some (words t)) = is_empty (strip_white t)
is_blank (some (other t absent)) = false

unfoldable pub attribute_errors : ℕ → Entity → List String → List EntityError
attribute_errors i e [] = []
attribute_errors i e (name ∷ names) =
    let rest = attribute_errors i e names in
    if is_blank (lookup name e.attributes)
    then missing_attribute i (text_of e.type_name) name ∷ rest
    else rest

abbrev pub same_key : Text × Text → Text × Text → Bool
same_key (t, q) (u, r) = text_same t u && text_same q r

-- The first loop, with the keys that it has seen.
unfoldable pub first_loop : ℕ → List (Text × Text) → List Entity → List EntityError
first_loop i seen [] = []
first_loop i seen (e ∷ es) =
    let tn = text_of e.type_name in
    let blanks = attribute_errors i e (required_attrs tn) in
    let unnamed = first_loop (i + 1) seen es in
    if counts_as_no e.type_name
    then missing_type_name i ∷ unnamed
    else elim (qualified_name_key e) [
      | none ↦ missing_qualified_name i ∷ (blanks ++ unnamed)
      | some qn ↦
          let rest = blanks ++ first_loop (i + 1) ((tn, qn) ∷ seen) es in
          if any (same_key (tn, qn)) seen then duplicate_qualified_name tn qn ∷ rest else rest
    ]

unfoldable pub hive_db_names : List Entity → List Text
hive_db_names [] = []
hive_db_names (e ∷ es) =
    let rest = hive_db_names es in
    if text_same (text_of e.type_name) (codes "hive_db")
    then elim (qualified_name_key e) [ none ↦ rest | some q ↦ q ∷ rest ]
    else rest

abbrev pub db_name : DbReference → Option Text
db_name no_reference = none
db_name (refers_to v) = stripped_name v

unfoldable pub second_loop : ℕ → List Text → List Entity → List EntityError
second_loop i dbs [] = []
second_loop i dbs (e ∷ es) =
    let rest = second_loop (i + 1) dbs es in
    if text_same (text_of e.type_name) (codes "hive_table")
    then elim (db_name e.db) [
      | none ↦ missing_db i ∷ rest
      | some q ↦ if any (text_same q) dbs then rest else unknown_db i q ∷ rest
    ]
    else rest

unfoldable pub validate_entities : List Entity → List EntityError
validate_entities es = first_loop 0 [] es ++ second_loop 0 (hive_db_names es) es
