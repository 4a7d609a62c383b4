-- ===== src/Files/Again.antt =====
-- A file whose task runs more than once, as Airflow's retries do.
use data_ops_showcase.Prelude.Dict.{string_key}
use data_ops_showcase.Storage.Insert.{bulk_insert_again}
use data_ops_showcase.Storage.{do_nothing, bulk_insert}
use data_ops_showcase.Exec.{handle}
use data_ops_showcase.Runs.{start_run}
use data_ops_showcase.Prelude.{
  ap, some, sym, Option-cases, subst, ◌∙◌, Result-cases, refl, err, arith, inl, inr, false, Result,
  Bool-cases, [], ◌∷◌, ok, ◌≡◌, flatten, List, String, ℕ,
}
use data_ops_showcase.Files.{FileFault, FileMeta, FileStore, PaymentRow, Line}
use data_ops_showcase.Files.Ingest.{
  uuid_of, payment_rows, read_rows, is_payments, ingest_body, begin_file, ingest_file, quarantine,
  FileCodec, FileCalls, store_payments,
}

module _ (codec : FileCodec) (text_of : ℕ → String)
    (paginate : ℕ → List PaymentRow → List (List PaymentRow))
    (cut : (size : ℕ) (rows : List PaymentRow) → flatten (paginate size rows) ≡ rows)
    (meta : FileMeta) where
  -- The payments of these lines are all in a table: storing them changes nothing.
  abbrev AllStored : List Line → List PaymentRow → Type 0
  AllStored lines t =
      (calls : FileCalls) (s : FileStore)
      → s.payments ≡ t
      → (store_payments codec text_of paginate calls meta lines s).1.payments ≡ t

  AllStored-store_payments :
      (calls : FileCalls) (lines : List Line) (s s' : FileStore) (n : ℕ)
      → store_payments codec text_of paginate calls meta lines s ≡ (ok n, s')
      → AllStored lines s'.payments
  unfolding store_payments
  AllStored-store_payments calls [] s s' n h again u e = e
  AllStored-store_payments calls (l ∷ ls) s s' n h again u e =
      elim (Bool-cases (is_payments meta)) [
        | inr no_payments ↦ ground (arith, no_payments, e)
        | inl payments ↦ elim (Result-cases (payment_rows text_of meta.file_path 0 (l ∷ ls))) [
          | inr (x, bad) ↦ absurd (ground (arith, payments, bad, h))
          | inl (rows, built) ↦ elim (Bool-cases calls.insert_fails) [
            | inl fails ↦ absurd (ground (arith, payments, built, fails, h))
            | inr fine ↦
                elim (Option-cases (bulk_insert uuid_of paginate 1000 do_nothing rows s.payments)) [
                  | inl bad ↦ absurd (ground (arith, payments, built, fine, bad, h))
                  | inr ((t, m), stored) ↦
                      let same : t ≡ s'.payments =
                        ground (arith, payments, built, fine, stored, h) in
                      let (k, nothing_new) =
                        bulk_insert_again uuid_of paginate cut 1000 1000 rows s.payments t m
                          stored in
                      let here : u.payments ≡ t = e ∙ sym same in
                      let rerun : bulk_insert uuid_of paginate 1000 do_nothing rows u.payments
                          ≡ some (t, k) =
                        ap (bulk_insert uuid_of paginate 1000 do_nothing rows) here ∙ nothing_new in
                      elim (Bool-cases again.insert_fails) [
                        | inl fails ↦ ground (arith, payments, built, fails, e)
                        | inr works ↦ ground (arith, payments, built, works, rerun, same)
                      ]
                ]
          ]
        ]
      ]

  -- What a body leaves of the payments is what storing the payments left.
  body_payments :
      (calls : FileCalls) (run_id : ℕ) (s : FileStore) (lines : List Line)
      → read_rows codec meta calls.object ≡ ok lines
      → (ingest_body codec text_of paginate calls meta run_id s).1.payments
        ≡ (store_payments codec text_of paginate calls meta lines s).1.payments
  unfolding ingest_body
  body_payments calls run_id s lines read =
      go (store_payments codec text_of paginate calls meta lines s).0
        (store_payments codec text_of paginate calls meta lines s).1 refl
    where
      go :
          (r : Result FileFault ℕ) (t : FileStore)
          → store_payments codec text_of paginate calls meta lines s ≡ (r, t)
          → (ingest_body codec text_of paginate calls meta run_id s).1.payments
            ≡ (store_payments codec text_of paginate calls meta lines s).1.payments
      go (err x) t e = ground (arith, read, e)
      go (ok n) t e = elim (Bool-cases calls.update_fails) [
        | inl fails ↦ ground (arith, read, e, fails)
        | inr updates ↦ elim (Bool-cases calls.finish_fails) [
          | inl fails ↦ ground (arith, read, e, updates, fails)
          | inr fine ↦ ground (arith, read, e, updates, fine)
        ]
      ]

  quarantine_payments :
      (calls : FileCalls) (run_id : ℕ) (x : FileFault) (t : FileStore)
      → (quarantine calls meta run_id x t).1.payments ≡ t.payments
  unfolding quarantine
  quarantine_payments calls run_id x t = elim (Bool-cases calls.quarantine_fails) [
    | inl fails ↦ ground (arith, fails)
    | inr works ↦ elim (Bool-cases calls.finish_failed_fails) [
      | inl fails ↦ ground (arith, works, fails)
      | inr fine ↦ ground (arith, works, fine)
    ]
  ]

  abbrev begun : FileStore → FileStore
  begun s = (begin_file meta s).1

  file_payments :
      (calls : FileCalls) (s : FileStore) (lines : List Line)
      → calls.start_fails ≡ false
      → read_rows codec meta calls.object ≡ ok lines
      → (ingest_file codec text_of paginate calls meta s).1.payments
        ≡ (store_payments codec text_of paginate calls meta lines (begun s)).1.payments
  unfolding ingest_file start_run
  file_payments calls s lines starts read =
      let b = ingest_body codec text_of paginate calls meta s.ledger.next_id (begun s) in
      subst
        (λ x.
          x.1.payments
          ≡ (store_payments codec text_of paginate calls meta lines (begun s)).1.payments)
        {x = handle (quarantine calls meta s.ledger.next_id) b.0 b.1}
        {y = ingest_file codec text_of paginate calls meta s} (ground (arith, starts))
        (after b.0 b.1 (body_payments calls s.ledger.next_id (begun s) lines read))
    where
      after :
          (r : Result FileFault (String × ℕ)) (t : FileStore)
          → t.payments
            ≡ (store_payments codec text_of paginate calls meta lines (begun s)).1.payments
          → (handle (quarantine calls meta s.ledger.next_id) r t).1.payments
            ≡ (store_payments codec text_of paginate calls meta lines (begun s)).1.payments
      after (ok a) t k = k
      after (err x) t k = quarantine_payments calls s.ledger.next_id x t ∙ k

  abbrev Stored : FileCalls → FileStore → Type 0
  Stored calls s =
      (lines : List Line) × (n : ℕ) × (t : FileStore) × (read_rows codec meta calls.object
        ≡ ok lines)
      × (store_payments codec text_of paginate calls meta lines s ≡ (ok n, t))

  body_returned :
      (calls : FileCalls) (run_id : ℕ) (s t : FileStore) (a : String × ℕ)
      → ingest_body codec text_of paginate calls meta run_id s ≡ (ok a, t)
      → Stored calls s
  unfolding ingest_body
  body_returned calls run_id s t a h = elim (Result-cases (read_rows codec meta calls.object)) [
    | inr (x, bad) ↦ absurd (ground (arith, bad, h))
    | inl (lines, read) ↦
        go lines read (store_payments codec text_of paginate calls meta lines s).0
          (store_payments codec text_of paginate calls meta lines s).1 refl
  ]
    where
      go :
          (lines : List Line)
          → read_rows codec meta calls.object ≡ ok lines
          → (r : Result FileFault ℕ) (u : FileStore)
          → store_payments codec text_of paginate calls meta lines s ≡ (r, u)
          → Stored calls s
      go lines read (err x) u e = absurd (ground (arith, read, e, h))
      go lines read (ok n) u e = (lines, n, u, read, e)

  quarantine_raises :
      (calls : FileCalls) (run_id : ℕ) (x : FileFault) (s t : FileStore) (a : String × ℕ)
      → ¬ (quarantine calls meta run_id x s ≡ (ok a, t))
  unfolding quarantine
  quarantine_raises calls run_id x s t a h = elim (Bool-cases calls.quarantine_fails) [
    | inl fails ↦ ground (arith, fails, h)
    | inr works ↦ elim (Bool-cases calls.finish_failed_fails) [
      | inl fails ↦ ground (arith, works, fails, h)
      | inr fine ↦ ground (arith, works, fine, h)
    ]
  ]

  file_returned :
      (calls : FileCalls) (s s' : FileStore) (a : String × ℕ)
      → ingest_file codec text_of paginate calls meta s ≡ (ok a, s')
      → (calls.start_fails ≡ false) × Stored calls (begun s)
  unfolding ingest_file start_run
  file_returned calls s s' a h = elim (Bool-cases calls.start_fails) [
    | inl fails ↦ absurd (ground (arith, fails, h))
    | inr starts ↦
        let b = ingest_body codec text_of paginate calls meta s.ledger.next_id (begun s) in
        (starts, after b.0 b.1 refl (ground (arith, starts, h)))
  ]
    where
      after :
          (r : Result FileFault (String × ℕ)) (t : FileStore)
          → ingest_body codec text_of paginate calls meta s.ledger.next_id (begun s) ≡ (r, t)
          → handle (quarantine calls meta s.ledger.next_id) r t ≡ (ok a, s')
          → Stored calls (begun s)
      after (ok b) t e k = body_returned calls s.ledger.next_id (begun s) t b e
      after (err x) t e k = absurd (quarantine_raises calls s.ledger.next_id x t s' a k)

  -- After a task of a file that has returned, another one that reads the same bytes leaves the payments
  -- as they are, whatever fails in it.
  pub ingest_file_again :
      (calls again : FileCalls) (s s' : FileStore) (a : String × ℕ)
      → ingest_file codec text_of paginate calls meta s ≡ (ok a, s')
      → again.object ≡ calls.object
      → (ingest_file codec text_of paginate again meta s').1.payments ≡ s'.payments
  unfolding ingest_file start_run
  ingest_file_again calls again s s' a h same =
      let (starts, (lines, n, t, read, stored)) = file_returned calls s s' a h in
      let left : s'.payments ≡ t.payments =
        sym (ap (λ x. x.1.payments) h)
        ∙ file_payments calls s lines starts read
        ∙ ap (λ x. x.1.payments) stored in
      elim (Bool-cases again.start_fails) [
        | inl fails ↦ ground (arith, fails)
        | inr begins ↦
            file_payments again s' lines begins (ap (read_rows codec meta) same ∙ read)
            ∙ AllStored-store_payments calls lines (begun s) t n stored again (begun s') left
            ∙ sym left
      ]
