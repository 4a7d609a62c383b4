-- ===== src/Files/Outcome.antt =====
-- What a run of `ingest_file` does to the table of files and to the payments.
use data_ops_showcase.Exec.{handle}
use data_ops_showcase.Runs.{start_run, finish_run}
use data_ops_showcase.Prelude.Dict.{string_key}
use data_ops_showcase.Prelude.{
  some, none, str_eq, true, Option, ◌∙◌, sym, false, ap, length, ◌==◌, if◌then◌else◌, refl, [],
  Option-cases, inl, arith, subst, inr, Result-cases, Bool-cases, ok, ◌∷◌, err, Result, ◌≡◌, List,
  String, ℕ,
}
use data_ops_showcase.Storage.{has_key, bulk_insert, do_nothing}
use data_ops_showcase.Files.{
  path_of, FileState, database, FileMeta, FileStore, FileFault, PaymentRow, Line,
}
use data_ops_showcase.Files.Ingest.{
  file_failure, ingest_file, begin_file, quarantined, quarantine, file_success, FileCodec,
  FileCalls, ingest_body, store_payments, read_rows, update_files, loaded, is_payments,
  payment_rows, uuid_of,
}

abbrev pub file_verdict : Result FileFault (String × ℕ) → String
file_verdict (ok a) = "loaded"
file_verdict (err x) = "quarantined"

-- The status of the first row of a file.
unfoldable pub status_of : String → List FileState → Option String
status_of path [] = none
status_of path (r ∷ rs) = if str_eq (path_of r) path then some r.status else status_of path rs

has_key-update_files :
    (f : FileState → FileState) (path other : String) (t : List FileState)
    → ((r : FileState) → path_of (f r) ≡ path_of r)
    → has_key path_of other (update_files f path t) ≡ has_key path_of other t
unfolding update_files
has_key-update_files f path other [] keeps = refl
has_key-update_files f path other (r ∷ t) keeps = elim (Bool-cases (str_eq r.meta.file_path path)) [
  | inl here ↦ ground (arith, here, keeps r, has_key-update_files f path other t keeps)
  | inr there ↦ ground (arith, there, has_key-update_files f path other t keeps)
]

module _ (codec : FileCodec) (text_of : ℕ → String)
    (paginate : ℕ → List PaymentRow → List (List PaymentRow)) (calls : FileCalls)
    (meta : FileMeta) where
  -- The table of files after the body: as before, or with the file loaded.
  data BodyEffect (fs : List FileState) : Result FileFault (String × ℕ) × FileStore → Type 0 where
    stopped : (x : FileFault) (t : FileStore) → t.files ≡ fs → BodyEffect fs (err x, t)
    unclosed :
        (x : FileFault) (t : FileStore) (n : ℕ)
        → t.files ≡ update_files (loaded n) meta.file_path fs
        → BodyEffect fs (err x, t)
    returned :
        (a : String × ℕ) (t : FileStore) (n : ℕ)
        → t.files ≡ update_files (loaded n) meta.file_path fs
        → BodyEffect fs (ok a, t)

  store_payments-files :
      (rows : List Line) (s : FileStore)
      → (store_payments codec text_of paginate calls meta rows s).1.files ≡ s.files
  unfolding store_payments
  store_payments-files [] s = refl
  store_payments-files (l ∷ ls) s = elim (Bool-cases (is_payments meta)) [
    | inr no_payments ↦ ground (arith, no_payments)
    | inl payments ↦ elim (Result-cases (payment_rows text_of meta.file_path 0 (l ∷ ls))) [
      | inr (x, bad) ↦ ground (arith, payments, bad)
      | inl (rows, built) ↦ elim (Bool-cases calls.insert_fails) [
        | inl fails ↦ ground (arith, payments, built, fails)
        | inr fine ↦
            elim (Option-cases (bulk_insert uuid_of paginate 1000 do_nothing rows s.payments)) [
              | inl bad ↦ ground (arith, payments, built, fine, bad)
              | inr ((t, n), e) ↦ ground (arith, payments, built, fine, e)
            ]
      ]
    ]
  ]

  ingest_body-BodyEffect :
      (run_id : ℕ) (s : FileStore)
      → BodyEffect s.files (ingest_body codec text_of paginate calls meta run_id s)
  unfolding ingest_body
  ingest_body-BodyEffect run_id s = elim (Result-cases (read_rows codec meta calls.object)) [
    | inr (x, bad) ↦
        subst (BodyEffect s.files) {x = (err x, s)}
          {y = ingest_body codec text_of paginate calls meta run_id s} (ground (arith, bad))
          (stopped x s refl)
    | inl (rows, read) ↦
        go rows read (store_payments codec text_of paginate calls meta rows s).0
          (store_payments codec text_of paginate calls meta rows s).1 refl
  ]
    where
      go :
          (rows : List Line)
          → read_rows codec meta calls.object ≡ ok rows
          → (r : Result FileFault ℕ) (t : FileStore)
          → store_payments codec text_of paginate calls meta rows s ≡ (r, t)
          → BodyEffect s.files (ingest_body codec text_of paginate calls meta run_id s)
      go rows read (err x) t e =
          let kept = store_payments-files rows s in
          subst (BodyEffect s.files) {x = (err x, t)}
            {y = ingest_body codec text_of paginate calls meta run_id s} (ground (arith, read, e))
            (stopped x t (ground (arith, e, kept)))
      go rows read (ok inserted) t e =
          let kept : t.files ≡ s.files = ground (arith, e, store_payments-files rows s) in
          let n = if inserted == 0 then length rows else inserted in
          let u : FileStore = record t { files = update_files (loaded n) meta.file_path t.files } in
          let moved : u.files ≡ update_files (loaded n) meta.file_path s.files =
            ap (update_files (loaded n) meta.file_path) kept in
          elim (Bool-cases calls.update_fails) [
            | inl fails ↦
                subst (BodyEffect s.files) {x = (err database, t)}
                  {y = ingest_body codec text_of paginate calls meta run_id s}
                  (ground (arith, read, e, fails)) (stopped database t kept)
            | inr updates ↦ elim (Bool-cases calls.finish_fails) [
              | inl fails ↦
                  subst (BodyEffect s.files) {x = (err database, u)}
                    {y = ingest_body codec text_of paginate calls meta run_id s}
                    (ground (arith, read, e, updates, fails)) (unclosed database u n moved)
              | inr fine ↦
                  let f = file_success meta (length rows) n in
                  let v : FileStore = record u { ledger = finish_run run_id f u.ledger } in
                  subst (BodyEffect s.files) {x = (ok (meta.file_path, n), v)}
                    {y = ingest_body codec text_of paginate calls meta run_id s}
                    (ground (arith, read, e, updates, fine))
                    (returned (meta.file_path, n) v n moved)
            ]
          ]

  -- How the handler leaves the table: what it was after the body, or the file quarantined.
  data TaskEffect (fs : List FileState) : Result FileFault (String × ℕ) × FileStore → Type 0 where
    ended :
        (a : String × ℕ) (t : FileStore) (n : ℕ)
        → t.files ≡ update_files (loaded n) meta.file_path fs
        → TaskEffect fs (ok a, t)
    failed_early :
        (x y : FileFault) (t : FileStore)
        → t.files ≡ update_files (quarantined y) meta.file_path fs
        → TaskEffect fs (err x, t)
    failed_late :
        (x y : FileFault) (t : FileStore) (n : ℕ)
        → t.files
          ≡ update_files (quarantined y) meta.file_path (update_files (loaded n) meta.file_path fs)
        → TaskEffect fs (err x, t)

  quarantine_lem :
      (run_id : ℕ) (y : FileFault) (t : FileStore)
      → calls.quarantine_fails ≡ false
      → (x : FileFault) × (u : FileStore) × (quarantine calls meta run_id y t ≡ (err x, u))
        × (u.files ≡ update_files (quarantined y) meta.file_path t.files)
  unfolding quarantine
  quarantine_lem run_id y t works = elim (Bool-cases calls.finish_failed_fails) [
    | inl fails ↦ (
      database,
      record t { files = update_files (quarantined y) meta.file_path t.files },
      ground (arith, works, fails),
      refl,
    )
    | inr fine ↦ (
      y,
      record t {
        files = update_files (quarantined y) meta.file_path t.files;
        ledger = finish_run run_id (file_failure y) t.ledger;
      },
      ground (arith, works, fine),
      refl,
    )
  ]

  abbrev begun : FileStore → FileStore
  begun s = (begin_file meta s).1

  handled :
      (run_id : ℕ) (s t : FileStore) (r : Result FileFault (String × ℕ))
      → calls.quarantine_fails ≡ false
      → BodyEffect s.files (r, t)
      → TaskEffect s.files (handle (quarantine calls meta run_id) r t)
  handled run_id s t (ok a) works (returned _ _ n e) = ended a t n e
  handled run_id s t (err y) works (stopped _ _ e) =
      let (x, u, q, f) = quarantine_lem run_id y t works in
      subst (TaskEffect s.files) (sym q)
        (failed_early x y u (f ∙ ap (update_files (quarantined y) meta.file_path) e))
  handled run_id s t (err y) works (unclosed _ _ n e) =
      let (x, u, q, f) = quarantine_lem run_id y t works in
      subst (TaskEffect s.files) (sym q)
        (failed_late x y u n (f ∙ ap (update_files (quarantined y) meta.file_path) e))

  ingest_file-TaskEffect :
      (s : FileStore)
      → calls.start_fails ≡ false
      → calls.quarantine_fails ≡ false
      → TaskEffect s.files (ingest_file codec text_of paginate calls meta s)
  unfolding ingest_file start_run
  ingest_file-TaskEffect s starts works =
      let b = ingest_body codec text_of paginate calls meta s.ledger.next_id (begun s) in
      subst (TaskEffect s.files) {x = handle (quarantine calls meta s.ledger.next_id) b.0 b.1}
        {y = ingest_file codec text_of paginate calls meta s} (ground (arith, starts))
        (handled s.ledger.next_id (begun s) b.1 b.0 works
          (ingest_body-BodyEffect s.ledger.next_id (begun s)))

  body_keeps :
      (path : String) (fs : List FileState) (p : Result FileFault (String × ℕ) × FileStore)
      → BodyEffect fs p
      → has_key path_of path fs ≡ true
      → has_key path_of path p.1.files ≡ true
  body_keeps path fs p (stopped x t e) h = ground (arith, e, h)
  body_keeps path fs p (unclosed x t n e) h =
      ground (arith, e, h, has_key-update_files (loaded n) meta.file_path path fs (λ r. refl))
  body_keeps path fs p (returned a t n e) h =
      ground (arith, e, h, has_key-update_files (loaded n) meta.file_path path fs (λ r. refl))

  quarantine_keeps :
      (path : String) (run_id : ℕ) (x : FileFault) (t : FileStore)
      → has_key path_of path t.files ≡ true
      → has_key path_of path (quarantine calls meta run_id x t).1.files ≡ true
  unfolding quarantine
  quarantine_keeps path run_id x t h =
      let kept = has_key-update_files (quarantined x) meta.file_path path t.files (λ r. refl) in
      elim (Bool-cases calls.quarantine_fails) [
        | inl fails ↦ ground (arith, fails, h)
        | inr works ↦ elim (Bool-cases calls.finish_failed_fails) [
          | inl fails ↦ ground (arith, works, fails, h, kept)
          | inr fine ↦ ground (arith, works, fine, h, kept)
        ]
      ]

  -- No run of `ingest_file` takes a file out of the table.
  pub has_key-ingest_file :
      (path : String) (s : FileStore)
      → has_key path_of path s.files ≡ true
      → has_key path_of path (ingest_file codec text_of paginate calls meta s).1.files ≡ true
  unfolding ingest_file start_run
  has_key-ingest_file path s h = elim (Bool-cases calls.start_fails) [
    | inl fails ↦ ground (arith, fails, h)
    | inr starts ↦
        let b = ingest_body codec text_of paginate calls meta s.ledger.next_id (begun s) in
        subst (λ x. has_key path_of path x.1.files ≡ true)
          {x = handle (quarantine calls meta s.ledger.next_id) b.0 b.1}
          {y = ingest_file codec text_of paginate calls meta s} (ground (arith, starts))
          (after b.0 b.1
            (body_keeps path s.files b (ingest_body-BodyEffect s.ledger.next_id (begun s)) h))
  ]
    where
      after :
          (r : Result FileFault (String × ℕ)) (t : FileStore)
          → has_key path_of path t.files ≡ true
          → has_key path_of path (handle (quarantine calls meta s.ledger.next_id) r t).1.files
            ≡ true
      after (ok a) t k = k
      after (err x) t k = quarantine_keeps path s.ledger.next_id x t k

  status_of-update_files :
      (f : FileState → FileState) (status : String) (t : List FileState)
      → ((r : FileState) → path_of (f r) ≡ path_of r)
      → ((r : FileState) → (f r).status ≡ status)
      → has_key path_of meta.file_path t ≡ true
      → status_of meta.file_path (update_files f meta.file_path t) ≡ some status
  unfolding status_of update_files
  status_of-update_files f status [] keeps sets h = absurd (ground (arith, h))
  status_of-update_files f status (r ∷ t) keeps sets h =
      elim (Bool-cases (str_eq (path_of r) meta.file_path)) [
        | inl here ↦ ground (arith, here, keeps r, sets r)
        | inr there ↦
            ground (
              arith,
              there,
              status_of-update_files f status t keeps sets (ground (arith, there, h)),
            )
      ]

  -- Where the run of the file is entered into the ledger and the handler's write to the table of files is accepted, a
  -- file of the table is "loaded" after a task that returns, and "quarantined" after one that raises.
  pub status_of-ingest_file :
      (s : FileStore)
      → has_key path_of meta.file_path s.files ≡ true
      → calls.start_fails ≡ false
      → calls.quarantine_fails ≡ false
      → status_of meta.file_path (ingest_file codec text_of paginate calls meta s).1.files
        ≡ some (file_verdict (ingest_file codec text_of paginate calls meta s).0)
  status_of-ingest_file s there starts works = go (ingest_file-TaskEffect s starts works)
    where
      go :
          {p : Result FileFault (String × ℕ) × FileStore}
          → TaskEffect s.files p
          → status_of meta.file_path p.1.files ≡ some (file_verdict p.0)
      go (ended a t n e) = ground (
        arith,
        e,
        status_of-update_files (loaded n) "loaded" s.files (λ r. refl) (λ r. refl) there,
      )
      go (failed_early x y t e) = ground (
        arith,
        e,
        status_of-update_files (quarantined y) "quarantined" s.files (λ r. refl) (λ r. refl) there,
      )
      go (failed_late x y t n e) =
          let kept : has_key path_of meta.file_path (update_files (loaded n) meta.file_path s.files)
              ≡ true =
            ground (
              arith,
              there,
              has_key-update_files (loaded n) meta.file_path meta.file_path s.files (λ r. refl),
            ) in
          ground (
            arith,
            e,
            status_of-update_files (quarantined y) "quarantined"
                (update_files (loaded n) meta.file_path s.files) (λ r. refl) (λ r. refl) kept,
          )
