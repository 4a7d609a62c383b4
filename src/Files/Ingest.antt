-- ===== src/Files/Ingest.antt =====
-- pipelines/dags/ingestion/ingest_minio_files_to_raw.py: `ingest_file`, the task of one file.
use data_ops_showcase.Files.{first_items, code_text, json_list, Currency, attribute_error, database}
use data_ops_showcase.Nl2sql.{contains}
use data_ops_showcase.Storage.{bulk_insert, do_nothing}
use data_ops_showcase.Exec.{Exec, lift, raise, pure, try_except, ◌>>=◌, ◌>>◌}
use data_ops_showcase.Runs.{Finish, start_run, finish_run, text}
use data_ops_showcase.Files.Objects.{read_jsonl}
use data_ops_showcase.Files.{
  not_object, unsupported_format, fields, bucket_failed, unicode_error, type_error, null, other,
  words, FileStore, FileState, FileMeta, FileFault, FileValue, Line, PaymentRow,
}
use data_ops_showcase.Prelude.Dict.{Dict, lookup, string_key}
use data_ops_showcase.Prelude.{
  take, false, ◌<>◌, true, length, ◌+◌, not, codes, Text, str_eq, ◌==◌, [], err, Option,
  if◌then◌else◌, ◌∷◌, ok, some, none, Result, Bool, String, List, ℕ,
}

-- What one call of the task meets: the bytes of the object, the rows of a CSV text, and the calls of the
-- database that raise.
pub record FileCalls : Type 0 where
  pub object : Option (List ℕ)
  pub start_fails : Bool
  pub insert_fails : Bool
  pub update_fails : Bool
  pub finish_fails : Bool
  pub quarantine_fails : Bool
  pub finish_failed_fails : Bool

-- UTF-8, JSON and CSV.
pub record FileCodec : Type 0 where
  pub decode : List ℕ → Option Text
  pub loads : Text → Option Line
  pub csv_rows : Text → List Line

abbrev pub is_truthy : FileValue → Bool
is_truthy null = false
is_truthy (words s) = not (str_eq s "")
is_truthy (json_list [] s) = false
is_truthy (json_list (v ∷ vs) s) = true
is_truthy (other shown absent) = not absent

abbrev pub shown : FileValue → String
shown null = "None"
shown (words s) = s
shown (json_list vs s) = s
shown (other s absent) = s

-- row.get(...)
abbrev pub get : String → Dict String FileValue → FileValue
get name row = elim (lookup name row) [ none ↦ null | some v ↦ v ]

abbrev pub first_three : String → String
first_three String.[] = ""
first_three (String.◌∷◌ a String.[]) = String.◌∷◌ a ""
first_three (String.◌∷◌ a (String.◌∷◌ b String.[])) = String.◌∷◌ a (String.◌∷◌ b "")
first_three (String.◌∷◌ a (String.◌∷◌ b (String.◌∷◌ c s))) =
    String.◌∷◌ a (String.◌∷◌ b (String.◌∷◌ c ""))

-- (row.get("currency") or "")[:3] or None
abbrev pub currency_of : FileValue → Result FileFault (Option Currency)
currency_of null = ok none
currency_of (words s) = ok (if str_eq s "" then none else some (code_text (first_three s)))
currency_of (json_list [] s) = ok none
currency_of (json_list (v ∷ vs) s) = ok (some (first_items (take 3 (v ∷ vs))))
currency_of (other s absent) = if absent then ok none else err type_error

module _ (text_of : ℕ → String) where
  -- row.get("payment_id") or row.get("event_id") or len(payment_rows)
  unfoldable pub id_text : Dict String FileValue → ℕ → String
  id_text row count =
      if is_truthy (get "payment_id" row)
      then shown (get "payment_id" row)
      else if is_truthy (get "event_id" row)
      then shown (get "event_id" row)
      else text_of count

  unfoldable pub payment_row : String → ℕ → Line → Result FileFault PaymentRow
  payment_row path count not_object = err attribute_error
  payment_row path count (fields row) = elim (currency_of (get "currency" row)) [
    | err x ↦ err x
    | ok currency ↦ ok (record {
      event_uuid = path <> ("::" <> id_text row count);
      source_file = path;
      payment_id = get "payment_id" row;
      order_id = get "order_id" row;
      amount = get "amount" row;
      currency = currency;
      status = get "status" row;
      event_ts = if is_truthy (get "event_ts" row) then get "event_ts" row else get "ts" row;
    })
  ]

  -- With the number of rows before these.
  unfoldable pub payment_rows : String → ℕ → List Line → Result FileFault (List PaymentRow)
  payment_rows path count [] = ok []
  payment_rows path count (l ∷ ls) = elim (payment_row path count l) [
    | err x ↦ err x
    | ok r ↦ elim (payment_rows path (count + 1) ls) [ err x ↦ err x | ok rs ↦ ok (r ∷ rs) ]
  ]

abbrev pub uuid_of : PaymentRow → String
uuid_of r = r.event_uuid

-- UPDATE ... WHERE file_path = ...
unfoldable pub update_files : (FileState → FileState) → String → List FileState → List FileState
update_files f path [] = []
update_files f path (r ∷ rs) =
    (if str_eq r.meta.file_path path then f r else r) ∷ update_files f path rs

abbrev pub loaded : ℕ → FileState → FileState
loaded rows r = record r { status = "loaded"; rows_loaded = some rows }

abbrev pub quarantined : FileFault → FileState → FileState
quarantined x r = record r { status = "quarantined"; error = some x }

-- `"payments" in meta["prefix"]`
abbrev pub is_payments : FileMeta → Bool
is_payments meta = contains (codes "payments") (codes meta.prefix)

-- One call to the database, which raises before it commits.
abbrev pub on_db :
    {A : Type 0} → Bool → (FileStore → Result FileFault A × FileStore) → Exec FileStore FileFault A
on_db true f s = (err database, s)
on_db false f s = f s

abbrev pub set_files : (FileState → FileState) → String → Exec FileStore FileFault (Unit {0})
set_files f path s = (ok tt, record s { files = update_files f path s.files })

abbrev pub close_run : ℕ → Finish FileFault → Exec FileStore FileFault (Unit {0})
close_run run_id f s = (ok tt, record s { ledger = finish_run run_id f s.ledger })

abbrev pub file_success : FileMeta → ℕ → ℕ → Finish FileFault
file_success meta rows_in rows_out = record {
  status = "success";
  rows_in = some rows_in;
  rows_out = some rows_out;
  rows_quarantined = none;
  error_message = none;
  payload = ("file_format", text meta.file_format) ∷ [];
}

abbrev pub file_failure : FileFault → Finish FileFault
file_failure x = record {
  status = "failed";
  rows_in = none;
  rows_out = none;
  rows_quarantined = none;
  error_message = some x;
  payload = [];
}

abbrev pub begin_file : FileMeta → Exec FileStore FileFault ℕ
begin_file meta s =
    let (run_id, l) =
      start_run "dag_ingest_minio_files_to_raw" "ingest_file" (some "minio.files")
        (some "ingestion") (("file", text meta.file_path) ∷ ("prefix", text meta.prefix) ∷ [])
        s.ledger in
    (ok run_id, record s { ledger = l })

module _ (codec : FileCodec) where
  abbrev pub decoded : {A : Type 0} → Option A → Result FileFault A
  decoded none = err unicode_error
  decoded (some a) = ok a

  unfoldable pub read_csv : List ℕ → Result FileFault (List Line)
  read_csv [] = ok []
  read_csv (b ∷ raw) = elim (codec.decode (b ∷ raw)) [
    | none ↦ err unicode_error
    | some t ↦ ok (codec.csv_rows t)
  ]

  unfoldable pub read_rows : FileMeta → Option (List ℕ) → Result FileFault (List Line)
  read_rows meta object =
      if str_eq meta.file_format "jsonl"
      then elim object [
        | none ↦ err bucket_failed
        | some raw ↦ decoded (read_jsonl codec.loads codec.decode raw)
      ]
      else if str_eq meta.file_format "csv"
      then elim object [ none ↦ err bucket_failed | some raw ↦ read_csv raw ]
      else err (unsupported_format meta.file_format)

unfoldable pub quarantine :
    FileCalls → FileMeta → ℕ → FileFault → Exec FileStore FileFault (String × ℕ)
quarantine calls meta run_id x = do
  on_db calls.quarantine_fails (set_files (quarantined x) meta.file_path)
  on_db calls.finish_failed_fails (close_run run_id (file_failure x))
  raise x

module _ (codec : FileCodec) (text_of : ℕ → String)
    (paginate : ℕ → List PaymentRow → List (List PaymentRow)) where
  abbrev pub insert_payments : Bool → List PaymentRow → Exec FileStore FileFault ℕ
  insert_payments fails rows = on_db fails λ s.
      elim (bulk_insert uuid_of paginate 1000 do_nothing rows s.payments) [
        | none ↦ (err database, s)
        | some (t, n) ↦ (ok n, record s { payments = t })
      ]

  -- The number of payments inserted.
  unfoldable pub store_payments : FileCalls → FileMeta → List Line → Exec FileStore FileFault ℕ
  store_payments calls meta [] s = (ok 0, s)
  store_payments calls meta (l ∷ ls) s =
      if is_payments meta
      then elim (payment_rows text_of meta.file_path 0 (l ∷ ls)) [
        | err x ↦ (err x, s)
        | ok rows ↦ insert_payments calls.insert_fails rows s
      ]
      else (ok 0, s)

  unfoldable pub ingest_body : FileCalls → FileMeta → ℕ → Exec FileStore FileFault (String × ℕ)
  ingest_body calls meta run_id = do
    rows ← lift (read_rows codec meta calls.object)
    inserted ← store_payments calls meta rows
    on_db calls.update_fails
        (set_files (loaded (if inserted == 0 then length rows else inserted)) meta.file_path)
    on_db calls.finish_fails (
        close_run run_id
          (file_success meta (length rows) (if inserted == 0 then length rows else inserted)))
    pure (meta.file_path, if inserted == 0 then length rows else inserted)

  unfoldable pub ingest_file : FileCalls → FileMeta → Exec FileStore FileFault (String × ℕ)
  ingest_file calls meta = do
    run_id ← on_db calls.start_fails (begin_file meta)
    try_except (ingest_body calls meta run_id) (quarantine calls meta run_id)
