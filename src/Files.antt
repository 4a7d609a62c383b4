-- ===== src/Files.antt =====
-- pipelines/dags/ingestion/ingest_minio_files_to_raw.py: the files of a bucket. The store is what the DWH
-- holds: the table of files, the payments and the ledger of runs. What the bucket and the database
-- answer in a call is `Discovery` or `FileCalls`; a Boolean says whether the database raises.
pub mod Objects
pub mod Ingest
pub mod Once
pub mod Outcome
pub mod Again
mod Tests
use data_ops_showcase.Storage.{bulk_insert, do_nothing}
use data_ops_showcase.Exec.{Exec, pure, ◌>>◌}
use data_ops_showcase.Runs.{Ledger}
use data_ops_showcase.Files.Objects.{MinioObject, Listed, list_objects}
use data_ops_showcase.Prelude.Dict.{Dict, string_key}
use data_ops_showcase.Prelude.{
  false, [], take, ◌++◌, true, any, map, some, str_eq, ok, if◌then◌else◌, err, Option, ◌∷◌, Text,
  none, Result, Bool, String, List, ℕ,
}

pub data FileFault : Type 0 where
  missing_bucket : FileFault
  bucket_failed : FileFault
  unicode_error : FileFault
  unsupported_format : String → FileFault
  attribute_error : FileFault  -- a line whose JSON is no object
  type_error : FileFault  -- a currency that has no slices
  database : FileFault

pub record FileMeta : Type 0 where
  pub file_path : String
  pub prefix : String
  pub bucket : String
  pub size_bytes : ℕ
  pub etag : Text
  pub file_format : String

-- A row of the table of files; its payload has the format and the error.
pub record FileState : Type 0 where
  pub meta : FileMeta
  pub status : String
  pub error : Option FileFault
  pub rows_loaded : Option ℕ

abbrev pub path_of : FileState → String
path_of r = r.meta.file_path

abbrev pub has_path : String → FileMeta → Bool
has_path path m = str_eq m.file_path path

-- A value of a parsed line: a list has the texts of its items and its own, and `other` has its text and
-- whether it counts as false.
pub data FileValue : Type 0 where
  null : FileValue
  words : String → FileValue
  json_list : List String → String → FileValue
  other : String → Bool → FileValue

-- What is given to the database as a currency: a list is sliced as a text is. The database may refuse it,
-- which is a call that raises.
pub data Currency : Type 0 where
  code_text : String → Currency
  first_items : List String → Currency

pub data Line : Type 0 where
  fields : Dict String FileValue → Line
  not_object : Line

pub record PaymentRow : Type 0 where
  pub event_uuid : String
  pub source_file : String
  pub payment_id : FileValue
  pub order_id : FileValue
  pub amount : FileValue
  pub currency : Option Currency
  pub status : FileValue
  pub event_ts : FileValue

pub record FileStore : Type 0 where
  pub files : List FileState
  pub payments : List PaymentRow
  pub ledger : Ledger FileFault

pub record PrefixConfig : Type 0 where
  pub prefix : Option String  -- os.environ.get(prefix_env)
  pub file_format : String

pub record Discovery : Type 0 where
  pub bucket : Option String
  pub prefixes : List PrefixConfig
  pub max_files : ℕ
  pub listing : String → Option (List Listed)  -- `none` where the client raises
  pub fetch_fails : Bool
  pub insert_fails : Bool

unfoldable pub unknown_files : List FileState → String → String → List MinioObject → List FileMeta
unknown_files known prefix format [] = []
unknown_files known prefix format (o ∷ os) =
    let rest = unknown_files known prefix format os in
    if any (λ r. str_eq (path_of r) o.key) known
    then rest
    else record {
      file_path = o.key;
      prefix = prefix;
      bucket = o.bucket;
      size_bytes = o.size;
      etag = o.etag;
      file_format = format;
    }
      ∷ rest

abbrev pub named : Option String → Option String
named none = none
named (some s) = if str_eq s "" then none else some s

unfoldable pub files_under :
    (String → Option (List Listed))
    → String
    → List FileState
    → List PrefixConfig
    → Option (List FileMeta)
files_under listing bucket known [] = some []
files_under listing bucket known (p ∷ ps) =
    let rest = files_under listing bucket known ps in
    elim (named p.prefix) [
      | none ↦ rest
      | some prefix ↦ elim (listing prefix) [
        | none ↦ none
        | some os ↦ elim rest [
          | none ↦ none
          | some ms ↦ some (unknown_files known prefix p.file_format (list_objects bucket os) ++ ms)
        ]
      ]
    ]

abbrev pub discovered_state : FileMeta → FileState
discovered_state m = record { meta = m; status = "discovered"; error = none; rows_loaded = none }

abbrev pub found_or_failed : Option (List FileMeta) → Result FileFault (List FileMeta)
found_or_failed none = err bucket_failed
found_or_failed (some ms) = ok ms

-- The files that a discovery finds.
unfoldable pub found : Discovery → List FileState → Result FileFault (List FileMeta)
found d known = elim (named d.bucket) [
  | none ↦ err missing_bucket
  | some bucket ↦
      if d.fetch_fails
      then err database
      else found_or_failed (files_under d.listing bucket known d.prefixes)
]

module _ (paginate_files : ℕ → List FileState → List (List FileState)) where
  abbrev pub insert_found : Bool → List FileMeta → Exec FileStore FileFault (Unit {0})
  insert_found true ms s = (err database, s)
  insert_found false ms s =
      elim (bulk_insert path_of paginate_files 1000 do_nothing (map discovered_state ms) s.files) [
        | none ↦ (err database, s)
        | some (t, n) ↦ (ok tt, record s { files = t })
      ]

  unfoldable pub discover_new_files : Discovery → Exec FileStore FileFault (List FileMeta)
  discover_new_files d s = elim (found d s.files) [
    | err x ↦ (err x, s)
    | ok [] ↦ (ok [], s)
    | ok (m ∷ ms) ↦ (do insert_found d.insert_fails (m ∷ ms); pure (take d.max_files (m ∷ ms))) s
  ]
