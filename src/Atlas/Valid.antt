-- ===== src/Atlas/Valid.antt =====
-- The entities in which `validate_entities` finds no error.
use data_ops_showcase.Prelude.Dict.{string_key, lookup}
use data_ops_showcase.Quality.Meaning.{NoRepeat}
use data_ops_showcase.Nl2sql.{text_same}
use data_ops_showcase.Atlas.{
  first_loop, validate_entities, required_attrs, same_key, is_blank, hive_db_names, db_name,
  qualified_name_key, text_of, counts_as_no, second_loop, Entity, attribute_errors,
}
use data_ops_showcase.Prelude.{
  inr, inl, refl, ◌+◌, Option-cases, Bool-cases, ◌∷◌, arith, not, ◌↔◌, some, ◌&&◌, [], any, none,
  false, ◌≡◌, codes, String, ℕ, All, ◌++◌, Bool, List, Text,
}

abbrev pub type_of : Entity → Text
type_of e = text_of e.type_name

-- The entity has a type, a name and the attributes that its type requires.
pub record IsComplete (e : Entity) : Type 0 where
  pub has_type : counts_as_no e.type_name ≡ false
  pub name : Text
  pub has_name : qualified_name_key e ≡ some name
  pub has_attributes :
      any (λ a. is_blank (lookup a e.attributes)) (required_attrs (type_of e)) ≡ false

-- The entity has a key of the list.
abbrev pub has_key_of : List (Text × Text) → Entity → Bool
has_key_of seen e = elim (qualified_name_key e) [
  | none ↦ false
  | some q ↦ any (same_key (type_of e, q)) seen
]

abbrev pub keys_of : Entity → List (Text × Text)
keys_of e = elim (qualified_name_key e) [ none ↦ [] | some q ↦ (type_of e, q) ∷ [] ]

-- Two entities have one type and one name.
abbrev pub same_entity : Entity → Entity → Bool
same_entity e f = has_key_of (keys_of e) f

-- The entity is the database of that name.
abbrev pub is_db : Text → Entity → Bool
is_db q e =
    text_same (type_of e) (codes "hive_db")
    && elim (qualified_name_key e) [ none ↦ false | some r ↦ text_same q r ]

-- A table names a database of the list.
abbrev pub has_db : List Entity → Entity → Bool
has_db es e = elim (db_name e.db) [ none ↦ false | some q ↦ any (is_db q) es ]

-- What a file of entities must be: complete entities, no two of one type and one name, and tables whose
-- databases are among them.
pub record IsCatalog (es : List Entity) : Type 0 where
  pub complete : All IsComplete es
  pub distinct : NoRepeat same_entity es
  pub known_dbs :
      any (λ e. text_same (type_of e) (codes "hive_table") && not (has_db es e)) es ≡ false

attribute_errors-nil :
    (i : ℕ) (e : Entity) (names : List String)
    → (attribute_errors i e names ≡ [])
      ↔ (any (λ a. is_blank (lookup a e.attributes)) names ≡ false)
unfolding attribute_errors
attribute_errors-nil i e [] = ground arith
attribute_errors-nil i e (a ∷ names) = ground (arith, attribute_errors-nil i e names)

pub append-nil_iff : {A : Type 0} (xs ys : List A) → (xs ++ ys ≡ []) ↔ ((xs ≡ []) × (ys ≡ []))
append-nil_iff [] ys = ground arith
append-nil_iff (x ∷ xs) ys = ground arith

any-hive_db_names :
    (q : Text) (es : List Entity) → any (text_same q) (hive_db_names es) ≡ any (is_db q) es
unfolding hive_db_names
any-hive_db_names q [] = refl
any-hive_db_names q (e ∷ es) =
    let rest = any-hive_db_names q es in
    elim (Bool-cases (text_same (type_of e) (codes "hive_db"))) [
      | inr apart ↦ ground (arith, apart, rest)
      | inl db ↦ elim (Option-cases (qualified_name_key e)) [
        | inl unnamed ↦ ground (arith, db, unnamed, rest)
        | inr (r, named) ↦ ground (arith, db, named, rest)
      ]
    ]

second_loop-nil :
    (i : ℕ) (all es : List Entity)
    → (second_loop i (hive_db_names all) es ≡ [])
      ↔ (any (λ e. text_same (type_of e) (codes "hive_table") && not (has_db all e)) es ≡ false)
unfolding second_loop
second_loop-nil i all [] = ground arith
second_loop-nil i all (e ∷ es) =
    let rest = second_loop-nil (i + 1) all es in
    elim (Bool-cases (text_same (type_of e) (codes "hive_table"))) [
      | inr apart ↦ ground (arith, apart, rest)
      | inl table ↦ elim (Option-cases (db_name e.db)) [
        | inl unnamed ↦ ground (arith, table, unnamed, rest)
        | inr (q, named) ↦ ground (arith, table, named, rest, any-hive_db_names q all)
      ]
    ]

has_key_of-cons :
    (e : Entity) (q : Text) (seen : List (Text × Text)) (es : List Entity)
    → qualified_name_key e ≡ some q
    → (any (has_key_of ((type_of e, q) ∷ seen)) es ≡ false)
      ↔ ((any (same_entity e) es ≡ false) × (any (has_key_of seen) es ≡ false))
has_key_of-cons e q seen [] named = ground arith
has_key_of-cons e q seen (f ∷ es) named =
    let rest = has_key_of-cons e q seen es named in
    elim (Option-cases (qualified_name_key f)) [
      | inl unnamed ↦ ground (arith, named, unnamed, rest)
      | inr (r, key) ↦ ground (arith, named, key, rest)
    ]

has_key_of-nil : (es : List Entity) → any (has_key_of []) es ≡ false
has_key_of-nil [] = refl
has_key_of-nil (e ∷ es) = elim (Option-cases (qualified_name_key e)) [
  | inl unnamed ↦ ground (arith, unnamed, has_key_of-nil es)
  | inr (q, named) ↦ ground (arith, named, has_key_of-nil es)
]

-- What the first loop accepts after the keys it has seen.
record IsAccepted (seen : List (Text × Text)) (es : List Entity) : Type 0 where
  complete : All IsComplete es
  distinct : NoRepeat same_entity es
  fresh : any (has_key_of seen) es ≡ false

first_loop-cons :
    (i : ℕ) (seen : List (Text × Text)) (e : Entity) (q : Text) (es : List Entity)
    → counts_as_no e.type_name ≡ false
    → qualified_name_key e ≡ some q
    → (first_loop i seen (e ∷ es) ≡ []) ↔ (
        (any (λ a. is_blank (lookup a e.attributes)) (required_attrs (type_of e)) ≡ false)
        × (any (same_key (type_of e, q)) seen ≡ false)
        × (first_loop (i + 1) ((type_of e, q) ∷ seen) es ≡ []))
unfolding first_loop
first_loop-cons i seen e q es typed named =
    let blanks = attribute_errors-nil i e (required_attrs (type_of e)) in
    let both =
      append-nil_iff (attribute_errors i e (required_attrs (type_of e)))
        (first_loop (i + 1) ((type_of e, q) ∷ seen) es) in
    ground (arith, typed, named, blanks, both)

first_loop-IsAccepted :
    (i : ℕ) (seen : List (Text × Text)) (es : List Entity)
    → first_loop i seen es ≡ []
    → IsAccepted seen es
first_loop-IsAccepted i seen [] h = record { complete = tt; distinct = tt; fresh = refl }
first_loop-IsAccepted i seen (e ∷ es) h = elim (Bool-cases (counts_as_no e.type_name)) [
  | inl untyped ↦ absurd (unfold first_loop in ground (arith, untyped, h))
  | inr typed ↦ elim (Option-cases (qualified_name_key e)) [
    | inl unnamed ↦ absurd (unfold first_loop in ground (arith, typed, unnamed, h))
    | inr (q, named) ↦
        let (given, apart, rest) = (first_loop-cons i seen e q es typed named).0 h in
        let r = first_loop-IsAccepted (i + 1) ((type_of e, q) ∷ seen) es rest in
        let (once, unseen) = (has_key_of-cons e q seen es named).0 r.fresh in
        record {
          complete = (
            record { has_type = typed; name = q; has_name = named; has_attributes = given },
            r.complete,
          );
          distinct = (once, r.distinct);
          fresh = ground (arith, named, apart, unseen);
        }
  ]
]

IsAccepted-first_loop :
    (i : ℕ) (seen : List (Text × Text)) (es : List Entity)
    → IsAccepted seen es
    → first_loop i seen es ≡ []
IsAccepted-first_loop i seen [] a = unfold first_loop in refl
IsAccepted-first_loop i seen (e ∷ es) a =
    let (c, cs) = a.complete in
    let (once, apart) = a.distinct in
    let rest = IsAccepted-first_loop (i + 1) ((type_of e, c.name) ∷ seen) es (record {
      complete = cs;
      distinct = apart;
      fresh = (has_key_of-cons e c.name seen es c.has_name).1 (once, ground (arith, a.fresh));
    }) in
    (first_loop-cons i seen e c.name es c.has_type c.has_name).1
      (c.has_attributes, ground (arith, a.fresh, c.has_name), rest)

-- `validate_entities` finds no error exactly in a catalog: every entity has a type, a name and the
-- attributes that its type requires, no two entities have one type and one name, and every table names a
-- database of the same file.
pub validate_entities-IsCatalog : (es : List Entity) → (validate_entities es ≡ []) ↔ IsCatalog es
unfolding validate_entities
validate_entities-IsCatalog es = (
  λ h.
      let (first, second) =
        (append-nil_iff (first_loop 0 [] es) (second_loop 0 (hive_db_names es) es)).0 h in
      let a = first_loop-IsAccepted 0 [] es first in
      record {
        complete = a.complete;
        distinct = a.distinct;
        known_dbs = (second_loop-nil 0 es es).0 second;
      },
  λ c. (append-nil_iff (first_loop 0 [] es) (second_loop 0 (hive_db_names es) es)).1 (
    IsAccepted-first_loop 0 [] es
        (record { complete = c.complete; distinct = c.distinct; fresh = has_key_of-nil es }),
    (second_loop-nil 0 es es).1 c.known_dbs,
  ),
)
