-- ===== src/Files/Once.antt =====
-- Which files the discoveries hand out, over any runs of the DAG.
use data_ops_showcase.Storage.Insert.{bulk_insert-do_nothing, add_missing, has_key-add_missing}
use data_ops_showcase.Files.Outcome.{has_key-ingest_file}
use data_ops_showcase.Files.Ingest.{FileCalls, ingest_file, FileCodec}
use data_ops_showcase.Prelude.Dict.{string_key}
use data_ops_showcase.Prelude.{
  err, Result, flatten, str_eq_iff, ap, any-append, zero, ◌++◌, refl, str_eq, [], inr, inl, suc,
  Option-cases, arith, subst, Bool-cases, take, ok, some, false, ◌∷◌, true, any, ℕ, map, ◌≡◌,
  Option, String, Bool, List,
}
use data_ops_showcase.Storage.{do_nothing, bulk_insert, has_key}
use data_ops_showcase.Files.{
  FileFault, insert_found, discover_new_files, FileStore, PaymentRow, FileState, FileMeta,
  Discovery, PrefixConfig, path_of, has_path, unknown_files, files_under, found, named,
  discovered_state,
}
use data_ops_showcase.Files.Objects.{MinioObject, Listed, list_objects}

unknown_files_known :
    (known : List FileState) (prefix format path : String) (os : List MinioObject)
    → has_key path_of path known ≡ true
    → any (has_path path) (unknown_files known prefix format os) ≡ false
unfolding unknown_files
unknown_files_known known prefix format path [] h = refl
unknown_files_known known prefix format path (o ∷ os) h =
    let rest = unknown_files_known known prefix format path os h in
    elim (Bool-cases (has_key path_of o.key known)) [
      | inl seen ↦ ground (arith, seen, rest)
      | inr fresh ↦ elim (Bool-cases (str_eq o.key path)) [
        | inl same ↦ absurd (
            ground
              (arith, h, fresh, ap (λ x. has_key path_of x known) ((str_eq_iff o.key path).0 same)))
        | inr apart ↦ ground (arith, fresh, apart, rest)
      ]
    ]

files_under_known :
    (listing : String → Option (List Listed)) (bucket path : String) (known : List FileState)
    (ps : List PrefixConfig) (ms : List FileMeta)
    → has_key path_of path known ≡ true
    → files_under listing bucket known ps ≡ some ms
    → any (has_path path) ms ≡ false
unfolding files_under
files_under_known listing bucket path known [] ms h e =
    subst (λ x. any (has_path path) x ≡ false) {x = []} {y = ms} (ground (arith, e)) refl
files_under_known listing bucket path known (p ∷ ps) ms h e = elim (Option-cases (named p.prefix)) [
  | inl no_prefix ↦
      files_under_known listing bucket path known ps ms h (ground (arith, no_prefix, e))
  | inr (prefix, given) ↦ elim (Option-cases (listing prefix)) [
    | inl fails ↦ absurd (ground (arith, given, fails, e))
    | inr (os, lists) ↦ elim (Option-cases (files_under listing bucket known ps)) [
      | inl fails ↦ absurd (ground (arith, given, lists, fails, e))
      | inr (rest, under) ↦
          let here = unknown_files known prefix p.file_format (list_objects bucket os) in
          subst (λ x. any (has_path path) x ≡ false) {x = here ++ rest} {y = ms}
            (ground (arith, given, lists, under, e))
            (ground (
              arith,
              any-append (has_path path) here rest,
              unknown_files_known known prefix p.file_format path (list_objects bucket os) h,
              files_under_known listing bucket path known ps rest h under,
            ))
    ]
  ]
]

found_known :
    (d : Discovery) (known : List FileState) (ms : List FileMeta) (path : String)
    → has_key path_of path known ≡ true
    → found d known ≡ ok ms
    → any (has_path path) ms ≡ false
unfolding found
found_known d known ms path h e = elim (Option-cases (named d.bucket)) [
  | inl missing ↦ absurd (ground (arith, missing, e))
  | inr (bucket, given) ↦ elim (Bool-cases d.fetch_fails) [
    | inl fails ↦ absurd (ground (arith, given, fails, e))
    | inr fine ↦ elim (Option-cases (files_under d.listing bucket known d.prefixes)) [
      | inl fails ↦ absurd (ground (arith, given, fine, fails, e))
      | inr (rest, under) ↦
          subst (λ x. any (has_path path) x ≡ false) {x = rest} {y = ms}
            (ground (arith, given, fine, under, e))
            (files_under_known d.listing bucket path known d.prefixes rest h under)
    ]
  ]
]

any-take :
    {A : Type 0} (p : A → Bool) (n : ℕ) (xs : List A) → any p xs ≡ false → any p (take n xs) ≡ false
any-take p zero xs h = refl
any-take p (suc n) [] h = refl
any-take p (suc n) (x ∷ xs) h = elim (Bool-cases (p x)) [
  | inl here ↦ absurd (ground (arith, here, h))
  | inr gone ↦ ground (arith, gone, any-take p n xs (ground (arith, gone, h)))
]

has_key-discovered :
    (path : String) (ms : List FileMeta)
    → has_key path_of path (map discovered_state ms) ≡ any (has_path path) ms
has_key-discovered path [] = refl
has_key-discovered path (m ∷ ms) = ground (arith, has_key-discovered path ms)

pub data FileEvent : Type 0 where
  discovers : Discovery → FileEvent
  ingests : FileCalls → FileMeta → FileEvent

module _ (paginate_files : ℕ → List FileState → List (List FileState))
    (cut : (size : ℕ) (rows : List FileState) → flatten (paginate_files size rows) ≡ rows)
    (codec : FileCodec) (text_of : ℕ → String)
    (paginate : ℕ → List PaymentRow → List (List PaymentRow)) where
  abbrev HasFile : String → FileStore → Type 0
  HasFile path s = has_key path_of path s.files ≡ true

  insert_found_lem :
      (ms : List FileMeta) (s : FileStore)
      → (n : ℕ) × (bulk_insert path_of paginate_files 1000 do_nothing
            (map discovered_state ms)
            s.files
          ≡ some (add_missing path_of (map discovered_state ms) s.files, n))
  insert_found_lem ms s =
      bulk_insert-do_nothing path_of paginate_files cut 1000 (map discovered_state ms) s.files

  insert_found-HasFile :
      (path : String) (fails : Bool) (ms : List FileMeta) (s : FileStore)
      → HasFile path s
      → HasFile path (insert_found paginate_files fails ms s).1
  insert_found-HasFile path true ms s h = h
  insert_found-HasFile path false ms s h =
      let (n, e) = insert_found_lem ms s in
      ground (arith, e, h, has_key-add_missing path_of path (map discovered_state ms) s.files)

  discover-HasFile :
      (path : String) (d : Discovery) (s : FileStore)
      → HasFile path s
      → HasFile path (discover_new_files paginate_files d s).1
  unfolding discover_new_files
  discover-HasFile path d s h = go (found d s.files) refl
    where
      go :
          (r : Result FileFault (List FileMeta))
          → found d s.files ≡ r
          → HasFile path (discover_new_files paginate_files d s).1
      go (err x) e = ground (arith, e, h)
      go (ok []) e = ground (arith, e, h)
      go (ok (m ∷ ms)) e = elim (Bool-cases d.insert_fails) [
        | inl fails ↦ ground (arith, e, fails, h)
        | inr fine ↦
            let (n, b) = insert_found_lem (m ∷ ms) s in
            ground (
              arith,
              e,
              fine,
              b,
              h,
              has_key-add_missing path_of path (map discovered_state (m ∷ ms)) s.files,
            )
      ]

  ingest_file-HasFile :
      (path : String) (calls : FileCalls) (meta : FileMeta) (s : FileStore)
      → HasFile path s
      → HasFile path (ingest_file codec text_of paginate calls meta s).1
  ingest_file-HasFile path calls meta s h =
      has_key-ingest_file codec text_of paginate calls meta path s h

  abbrev handed_out : Result FileFault (List FileMeta) → List FileMeta
  handed_out (ok ms) = ms
  handed_out (err x) = []

  -- The files that the discoveries of a history hand out to `ingest_file`.
  unfoldable pub history : List FileEvent → FileStore → List FileMeta
  history [] s = []
  history (discovers d ∷ es) s =
      let (r, t) = discover_new_files paginate_files d s in handed_out r ++ history es t
  history (ingests calls meta ∷ es) s =
      history es (ingest_file codec text_of paginate calls meta s).1

  handed_out_known :
      (d : Discovery) (s : FileStore) (path : String)
      → HasFile path s
      → any (has_path path) (handed_out (discover_new_files paginate_files d s).0) ≡ false
  unfolding discover_new_files
  handed_out_known d s path h = go (found d s.files) refl
    where
      go :
          (r : Result FileFault (List FileMeta))
          → found d s.files ≡ r
          → any (has_path path) (handed_out (discover_new_files paginate_files d s).0) ≡ false
      go (err x) e = ground (arith, e)
      go (ok []) e = ground (arith, e)
      go (ok (m ∷ ms)) e = elim (Bool-cases d.insert_fails) [
        | inl fails ↦ ground (arith, e, fails)
        | inr fine ↦
            let (n, b) = insert_found_lem (m ∷ ms) s in
            ground (
              arith,
              e,
              fine,
              b,
              any-take (has_path path) d.max_files (m ∷ ms)
                  (found_known d s.files (m ∷ ms) path h e),
            )
      ]

  history_known :
      (es : List FileEvent) (s : FileStore) (path : String)
      → HasFile path s
      → any (has_path path) (history es s) ≡ false
  unfolding history
  history_known [] s path h = refl
  history_known (discovers d ∷ es) s path h = ground (
    arith,
    any-append (has_path path) (handed_out (discover_new_files paginate_files d s).0)
        (history es (discover_new_files paginate_files d s).1),
    handed_out_known d s path h,
    history_known es (discover_new_files paginate_files d s).1 path (discover-HasFile path d s h),
  )
  history_known (ingests calls meta ∷ es) s path h =
      history_known es (ingest_file codec text_of paginate calls meta s).1 path
        (ingest_file-HasFile path calls meta s h)

  -- A file that a discovery has found, whether it is among the first `max_files` that it hands out or
  -- not, is handed out by no later discovery, whatever discoveries and ingestions follow and whatever
  -- fails in them.
  pub discover_new_files_once :
      (d : Discovery) (s s' : FileStore) (ms out : List FileMeta) (path : String)
      (es : List FileEvent)
      → found d s.files ≡ ok ms
      → any (has_path path) ms ≡ true
      → discover_new_files paginate_files d s ≡ (ok out, s')
      → any (has_path path) (history es s') ≡ false
  unfolding discover_new_files
  discover_new_files_once d s s' [] out path es found_all there h = absurd (ground (arith, there))
  discover_new_files_once d s s' (m ∷ ms) out path es found_all there h =
      elim (Bool-cases d.insert_fails) [
        | inl fails ↦ absurd (ground (arith, found_all, fails, h))
        | inr fine ↦
            let (n, b) = insert_found_lem (m ∷ ms) s in
            let t = add_missing path_of (map discovered_state (m ∷ ms)) s.files in
            history_known es s' path (
              ground (
                arith,
                found_all,
                fine,
                b,
                h,
                there,
                has_key-add_missing path_of path (map discovered_state (m ∷ ms)) s.files,
                has_key-discovered path (m ∷ ms),
              ))
      ]
