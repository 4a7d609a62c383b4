-- ===== src/Oltp/Pages.antt =====
-- The rows that the runs of the extraction have brought over, in any order of runs, failures and new rows.
use data_ops_showcase.Prelude.{
  subst, any-append, ◌++◌, ◌||◌, inr, inl, Bool-cases, ◌⊎◌, suc, refl, zero, take, arith, true, ltb,
  [], any, all, false, ◌∷◌, ◌≡◌, ℕ, List,
}
use data_ops_showcase.Oltp.{
  OltpRow, OltpStore, Cursor, after_ts, after_row, is_behind, ordered, page, cursor_of,
  extract_table, ExtractCalls, precedes,
}
use data_ops_showcase.Oltp.Sorted.{
  same_key, any-ordered, any-take, last_of, IsOrdered, IsOrdered-ordered,
}

-- The stores that runs reach from an empty raw table, where a new row of the source is behind the cursor.
pub data Extracts (batch_size : ℕ) : OltpStore → Type 0 where
  begins :
      (source : List OltpRow) (fallback : ℕ)
      → all (λ r. ltb fallback r.ts) source ≡ true
      → Extracts batch_size (record { source = source; raw = []; cursor = after_ts fallback })
  extracted :
      (s : OltpStore) (calls : ExtractCalls)
      → Extracts batch_size s
      → Extracts batch_size (extract_table batch_size calls s)
  added :
      (s : OltpStore) (r : OltpRow)
      → Extracts batch_size s
      → is_behind s.cursor r ≡ true
      → Extracts batch_size (record s { source = r ∷ s.source })

cursor_of-last :
    (c : Cursor) (x : OltpRow) (xs : List OltpRow)
    → cursor_of c (x ∷ xs) ≡ after_row (last_of x xs).ts (last_of x xs).pk
unfolding cursor_of
cursor_of-last c x [] = refl
cursor_of-last c x (y ∷ ys) = cursor_of-last (after_row x.ts x.pk) y ys

-- A row that is not behind the cursor of a row is no later than that row.
precedes_of_not_behind :
    (l r : OltpRow) → is_behind (after_row l.ts l.pk) r ≡ false → precedes r l ≡ true
unfolding is_behind
precedes_of_not_behind l r h = ground (arith, h)

-- What a page leaves out is behind its cursor.
page_lem :
    (batch_size : ℕ) (c : Cursor) (source : List OltpRow) (r : OltpRow)
    → any (same_key r) source ≡ true
    → is_behind c r ≡ true
    → is_behind (cursor_of c (page batch_size c source)) r ≡ false
    → any (same_key r) (page batch_size c source) ≡ true
unfolding page
page_lem batch_size c source r there behind done =
    go batch_size (ordered (is_behind c) source) (IsOrdered-ordered (is_behind c) source)
      (any-ordered c r source there behind) done
  where
    go :
        (n : ℕ) (rows : List OltpRow)
        → IsOrdered rows
        → any (same_key r) rows ≡ true
        → is_behind (cursor_of c (take n rows)) r ≡ false
        → any (same_key r) (take n rows) ≡ true
    go n [] h k d = absurd (ground (arith, k))
    go zero (x ∷ xs) h k d = absurd (unfold cursor_of in ground (arith, behind, d))
    go (suc n) (x ∷ xs) h k d = any-take n x xs r h k (
        precedes_of_not_behind (last_of x (take n xs)) r
          (ground (arith, d, cursor_of-last c x (take n xs))))

start_behind :
    (fallback : ℕ) (source : List OltpRow) (r : OltpRow)
    → all (λ q. ltb fallback q.ts) source ≡ true
    → any (same_key r) source ≡ true
    → is_behind (after_ts fallback) r ≡ true
unfolding is_behind
start_behind fallback [] r h k = absurd (ground (arith, k))
start_behind fallback (q ∷ qs) r h k = elim (Bool-cases (same_key r q)) [
  | inl here ↦ ground (arith, here, h)
  | inr gone ↦ start_behind fallback qs r (ground (arith, h)) (ground (arith, gone, k))
]

abbrev Covers : OltpRow → OltpStore → Type 0
Covers r s = (any (same_key r) s.raw ≡ true) ⊎ (is_behind s.cursor r ≡ true)

extract_table-Covers :
    (batch_size : ℕ) (calls : ExtractCalls) (s : OltpStore) (r : OltpRow)
    → any (same_key r) s.source ≡ true
    → Covers r s
    → Covers r (extract_table batch_size calls s)
unfolding extract_table
extract_table-Covers batch_size calls s r there h =
    let rows = page batch_size s.cursor s.source in
    elim (Bool-cases (calls.fetch_fails || calls.insert_fails)) [
      | inl fails ↦
          subst (Covers r) {x = s} {y = extract_table batch_size calls s} (ground (arith, fails)) h
      | inr inserts ↦ elim (Bool-cases calls.watermark_fails) [
        | inl fails ↦
            subst (Covers r) {x = record s { raw = s.raw ++ rows }}
              {y = extract_table batch_size calls s} (ground (arith, inserts, fails))
              (with_rows rows h)
        | inr fine ↦
            subst (Covers r)
              {x = record s { raw = s.raw ++ rows; cursor = cursor_of s.cursor rows }}
              {y = extract_table batch_size calls s} (ground (arith, inserts, fine)) (moved h)
      ]
    ]
  where
    with_rows : (rows : List OltpRow) → Covers r s → Covers r (record s { raw = s.raw ++ rows })
    with_rows rows (inl there) = inl (ground (arith, there, any-append (same_key r) s.raw rows))
    with_rows rows (inr behind) = inr behind

    moved :
        Covers r s
        → Covers r (record s {
          raw = s.raw ++ page batch_size s.cursor s.source;
          cursor = cursor_of s.cursor (page batch_size s.cursor s.source);
        })
    moved (inl k) =
        inl (ground (arith, k, any-append (same_key r) s.raw (page batch_size s.cursor s.source)))
    moved (inr behind) =
        elim (Bool-cases (is_behind (cursor_of s.cursor (page batch_size s.cursor s.source)) r)) [
          | inl still ↦ inr still
          | inr done ↦ inl (
              ground (
                arith,
                page_lem batch_size s.cursor s.source r there behind done,
                any-append (same_key r) s.raw (page batch_size s.cursor s.source),
              ))
        ]

source_kept :
    (batch_size : ℕ) (calls : ExtractCalls) (s : OltpStore)
    → (extract_table batch_size calls s).source ≡ s.source
unfolding extract_table
source_kept batch_size calls s = elim (Bool-cases (calls.fetch_fails || calls.insert_fails)) [
  | inl fails ↦ ground (arith, fails)
  | inr inserts ↦ elim (Bool-cases calls.watermark_fails) [
    | inl fails ↦ ground (arith, inserts, fails)
    | inr fine ↦ ground (arith, inserts, fine)
  ]
]

behind_same_key :
    (c : Cursor) (r q : OltpRow) → same_key r q ≡ true → is_behind c q ≡ true → is_behind c r ≡ true
unfolding is_behind
behind_same_key (after_ts t) r q h k = ground (arith, h, k)
behind_same_key (after_row t p) r q h k = ground (arith, h, k)

Covers-of_Extracts :
    {batch_size : ℕ} {s : OltpStore} (r : OltpRow)
    → Extracts batch_size s
    → any (same_key r) s.source ≡ true
    → Covers r s
Covers-of_Extracts r (begins source fallback h) there = inr (start_behind fallback source r h there)
Covers-of_Extracts {batch_size = batch_size} r (extracted s calls reached) there =
    let before : any (same_key r) s.source ≡ true =
      ground (arith, there, source_kept batch_size calls s) in
    extract_table-Covers batch_size calls s r before (Covers-of_Extracts r reached before)
Covers-of_Extracts r (added s q reached behind) there = elim (Bool-cases (same_key r q)) [
  | inl here ↦ inr (behind_same_key s.cursor r q here behind)
  | inr gone ↦ Covers-of_Extracts r reached (ground (arith, there, gone))
]

-- After any runs of `extract_table`, whatever fails in them, and with rows added to the source in
-- between that are behind the cursor of that time: every row of the source that is not behind the
-- cursor has its key in the raw table, where all rows of the first source were later than the fallback.
pub Extracts-no_row_lost :
    (batch_size : ℕ) (s : OltpStore) (r : OltpRow)
    → Extracts batch_size s
    → any (same_key r) s.source ≡ true
    → is_behind s.cursor r ≡ false
    → any (same_key r) s.raw ≡ true
Extracts-no_row_lost batch_size s r reached there done = elim (Covers-of_Extracts r reached there) [
  | inl stored ↦ stored
  | inr behind ↦ absurd (ground (arith, behind, done))
]
