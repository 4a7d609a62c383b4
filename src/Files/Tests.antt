-- ===== src/Files/Tests.antt =====
-- Two payment files of a bucket, of which a discovery may hand out one.
use data_ops_showcase.Nl2sql.{contains}
use data_ops_showcase.Storage.{statement, statements, bulk_insert}
use data_ops_showcase.Nl2sql.{behind, drop_trailing, drop_leading, text_same}
use data_ops_showcase.Files.Again.{ingest_file_again}
use data_ops_showcase.Files.Objects.Lines.{read_jsonl-put_jsonl, IsObjectLine}
use data_ops_showcase.Runs.{start_run}
use data_ops_showcase.Files.Once.{ingests, discover_new_files_once, history, discovers, FileEvent}
use data_ops_showcase.Files.Outcome.{status_of-ingest_file, file_verdict, status_of}
use data_ops_showcase.Files.Objects.{
  split_lines, parse_lines, list_objects, put_jsonl, Listed, read_jsonl,
}
use data_ops_showcase.Files.Ingest.{
  id_text, payment_row, payment_rows, store_payments, read_rows, ingest_body, FileCodec, FileCalls,
  ingest_file,
}
use data_ops_showcase.Files.{
  words, unknown_files, fields, FileFault, discovered_state, has_path, files_under, FileMeta,
  Discovery, FileStore, found, discover_new_files,
}
use data_ops_showcase.Prelude.{
  ok, refl, none, false, append-nil, if◌then◌else◌, true, codes, [], ◌∷◌, ◌≡◌, some, flatten,
  Option, List, any, Text, ℕ, Bool, Result, String,
}

abbrev one_page : {A : Type 0} → ℕ → List A → List (List A)
one_page size rows = rows ∷ []

one_page_cut : {A : Type 0} (size : ℕ) (rows : List A) → flatten (one_page size rows) ≡ rows
unfolding flatten
one_page_cut size rows = append-nil rows

abbrev codec : FileCodec
codec = record {
  decode = λ raw. some raw;
  loads = λ t. some (fields (("payment_id", words "p1") ∷ ("currency", words "EURO") ∷ []));
  csv_rows = λ t. [];
}

abbrev text_of : ℕ → String
text_of n = "0"

abbrev listed : String → Listed
listed key = record { object_name = key; is_dir = false; size = some 2; etag = none }

abbrev two_files : Discovery
two_files = record {
  bucket = some "landing";
  prefixes = record { prefix = some "payments/"; file_format = "jsonl" } ∷ [];
  max_files = 1;
  listing = λ prefix. some (listed "payments/a.jsonl" ∷ listed "payments/b.jsonl" ∷ []);
  fetch_fails = false;
  insert_fails = false;
}

abbrev meta_of : String → FileMeta
meta_of key = record {
  file_path = key;
  prefix = "payments/";
  bucket = "landing";
  size_bytes = 2;
  etag = [];
  file_format = "jsonl";
}

abbrev nothing : FileStore
nothing = record { files = []; payments = []; ledger = record { runs = []; next_id = 1 } }

abbrev discovered : FileStore
discovered = record nothing {
  files =
      discovered_state (meta_of "payments/a.jsonl")
      ∷ discovered_state (meta_of "payments/b.jsonl")
      ∷ [];
}

abbrev works : FileCalls
works = record {
  object = some (codes "{}");
  start_fails = false;
  insert_fails = false;
  update_fails = false;
  finish_fails = false;
  quarantine_fails = false;
  finish_failed_fails = false;
}

two_found : found two_files [] ≡ ok (meta_of "payments/a.jsonl" ∷ meta_of "payments/b.jsonl" ∷ [])
unfolding found files_under unknown_files list_objects
two_found = refl

one_handed_out :
    discover_new_files one_page two_files nothing
    ≡ (ok (meta_of "payments/a.jsonl" ∷ []), discovered)
unfolding discover_new_files found files_under unknown_files list_objects bulk_insert statements
    statement
one_handed_out = refl

abbrev later : List FileEvent
later = discovers two_files ∷ ingests works (meta_of "payments/a.jsonl") ∷ discovers two_files ∷ []

discover_new_files_once_example :
    any
      (has_path "payments/b.jsonl")
      (history one_page one_page_cut codec text_of one_page later discovered)
    ≡ false
discover_new_files_once_example =
    discover_new_files_once one_page one_page_cut codec text_of one_page two_files nothing
      discovered (meta_of "payments/a.jsonl" ∷ meta_of "payments/b.jsonl" ∷ [])
      (meta_of "payments/a.jsonl" ∷ []) "payments/b.jsonl" later two_found refl one_handed_out

abbrev insert_raises : FileCalls
insert_raises = record works { insert_fails = true }

abbrev a_fails : Result FileFault (String × ℕ) × FileStore
a_fails = ingest_file codec text_of one_page insert_raises (meta_of "payments/a.jsonl") discovered

status_of-ingest_file_example :
    status_of "payments/a.jsonl" a_fails.1.files ≡ some (file_verdict a_fails.0)
status_of-ingest_file_example =
    status_of-ingest_file codec text_of one_page insert_raises (meta_of "payments/a.jsonl")
      discovered refl refl refl

abbrev a_ingested : FileStore
a_ingested = (ingest_file codec text_of one_page works (meta_of "payments/a.jsonl") discovered).1

a_returns :
    ingest_file codec text_of one_page works (meta_of "payments/a.jsonl") discovered
    ≡ (ok ("payments/a.jsonl", 1), a_ingested)
unfolding ingest_file start_run ingest_body read_rows read_jsonl parse_lines split_lines
    drop_leading drop_trailing store_payments payment_rows payment_row id_text bulk_insert
    statements statement contains behind
a_returns = refl

ingest_file_again_example :
    (ingest_file codec text_of one_page insert_raises
      (meta_of "payments/a.jsonl")
      a_ingested).1.payments
    ≡ a_ingested.payments
ingest_file_again_example =
    ingest_file_again codec text_of one_page one_page_cut (meta_of "payments/a.jsonl") works
      insert_raises discovered a_ingested ("payments/a.jsonl", 1) a_returns refl

-- Records of one kind or another, by their text.
abbrev dumps : Bool → Text
dumps true = codes "{\"late\": 1}"
dumps false = codes "{}"

abbrev loads : Text → Option Bool
loads t = if text_same t (codes "{}") then some false else some true

loads-dumps : (b : Bool) → loads (dumps b) ≡ some b
unfolding text_same
loads-dumps true = refl
loads-dumps false = refl

dumps-IsObjectLine : (b : Bool) → IsObjectLine (dumps b)
dumps-IsObjectLine true = record {
  inside = codes "\"late\": 1";
  in_braces = refl;
  has_no_break = refl;
}
dumps-IsObjectLine false = record { inside = []; in_braces = refl; has_no_break = refl }

read_jsonl-put_jsonl_example :
    read_jsonl loads (λ raw. some raw) (put_jsonl dumps (λ t. t) (true ∷ false ∷ []))
    ≡ some (true ∷ false ∷ [])
read_jsonl-put_jsonl_example =
    read_jsonl-put_jsonl loads dumps loads-dumps dumps-IsObjectLine (λ t. t) (λ raw. some raw)
      (λ t. refl) (true ∷ false ∷ [])
