-- ===== src/Oltp/Ties.antt =====
-- ingest_oltp_to_stg.py: `extract_table` for a table with a watermark column and without a primary key, and
-- the choice between the queries. Rows of one time come in the order of the source.
use data_ops_showcase.Files.{named}
use data_ops_showcase.Oltp.{ExtractCalls}
use data_ops_showcase.Prelude.{
  inr, refl, ◌++◌, inl, zero, Bool-cases, suc, str_eq, arith, any-append, ◌||◌, leb, if◌then◌else◌,
  ◌&&◌, max, true, ltb, false, all, none, any, ◌==◌, some, ◌≡◌, [], ◌∷◌, take, ℕ, Bool, ◌≤◌, Option,
  List, String,
}

pub record TableSpec : Type 0 where
  pub columns : List String
  pub watermark_column : Option String
  pub pk : List String

pub data QueryKind : Type 0 where
  by_row : String → String → QueryKind
  by_ts : String → QueryKind
  by_order : String → QueryKind

abbrev pub first_pk : List String → Option String
first_pk [] = none
first_pk (p ∷ ps) = named (some p)

abbrev pub order_of : Option String → List String → Option QueryKind
order_of (some p) columns = some (by_order p)
order_of none [] = none
order_of none (c ∷ cs) = some (by_order c)

-- `none` where the table has no column to order by.
unfoldable pub query_kind : TableSpec → Option QueryKind
query_kind spec = elim (named spec.watermark_column) [
  | none ↦ order_of (first_pk spec.pk) spec.columns
  | some w ↦ elim (first_pk spec.pk) [
    | none ↦ some (by_ts w)
    | some p ↦ if any (λ c. str_eq c p) spec.columns then some (by_row w p) else some (by_ts w)
  ]
]

pub record TsRow : Type 0 where
  pub ts : ℕ
  pub columns : String

unfoldable pub insert_by_ts : TsRow → List TsRow → List TsRow
insert_by_ts r [] = r ∷ []
insert_by_ts r (q ∷ qs) =
    let rest = insert_by_ts r qs in if leb r.ts q.ts then r ∷ q ∷ qs else q ∷ rest

-- The rows behind a time, in the order of their times.
unfoldable pub ordered_by_ts : ℕ → List TsRow → List TsRow
ordered_by_ts t [] = []
ordered_by_ts t (r ∷ rs) =
    let rest = ordered_by_ts t rs in if ltb t r.ts then insert_by_ts r rest else rest

unfoldable pub newest : TsRow → List TsRow → ℕ
newest r [] = r.ts
newest r (q ∷ qs) = max r.ts (newest q qs)

abbrev pub new_watermark : ℕ → List TsRow → ℕ
new_watermark t [] = t
new_watermark t (r ∷ rs) = newest r rs

pub record TsStore : Type 0 where
  pub source : List TsRow
  pub raw : List TsRow
  pub last_ts : ℕ

unfoldable pub extract_by_ts : ℕ → ExtractCalls → TsStore → TsStore
extract_by_ts batch_size calls s =
    let rows = take batch_size (ordered_by_ts s.last_ts s.source) in
    if calls.fetch_fails || calls.insert_fails
    then s
    else if calls.watermark_fails
    then record s { raw = s.raw ++ rows }
    else record s { raw = s.raw ++ rows; last_ts = new_watermark s.last_ts rows }

pub data TsEvent : Type 0 where
  runs : ExtractCalls → TsEvent
  adds : TsRow → TsEvent

unfoldable pub after_events : ℕ → List TsEvent → TsStore → TsStore
after_events batch_size [] s = s
after_events batch_size (runs calls ∷ es) s =
    after_events batch_size es (extract_by_ts batch_size calls s)
after_events batch_size (adds r ∷ es) s =
    after_events batch_size es (record s { source = r ∷ s.source })

abbrev pub same_row : TsRow → TsRow → Bool
same_row r q = r.ts == q.ts && str_eq r.columns q.columns

all-insert_by_ts :
    (p : TsRow → Bool) (r : TsRow) (rs : List TsRow)
    → p r ≡ true
    → all p rs ≡ true
    → all p (insert_by_ts r rs) ≡ true
unfolding insert_by_ts
all-insert_by_ts p r [] h hs = ground (arith, h)
all-insert_by_ts p r (q ∷ qs) h hs =
    ground (arith, h, hs, all-insert_by_ts p r qs h (ground (arith, hs)))

all-ordered_by_ts : (t : ℕ) (rs : List TsRow) → all (λ r. ltb t r.ts) (ordered_by_ts t rs) ≡ true
unfolding ordered_by_ts
all-ordered_by_ts t [] = refl
all-ordered_by_ts t (r ∷ rs) = elim (Bool-cases (ltb t r.ts)) [
  | inr early ↦ ground (arith, early, all-ordered_by_ts t rs)
  | inl late ↦ ground (
    arith,
    late,
    all-insert_by_ts (λ q. ltb t q.ts) r (ordered_by_ts t rs) late (all-ordered_by_ts t rs),
  )
]

all-take :
    {A : Type 0} (p : A → Bool) (n : ℕ) (xs : List A) → all p xs ≡ true → all p (take n xs) ≡ true
all-take p zero xs h = refl
all-take p (suc n) [] h = refl
all-take p (suc n) (x ∷ xs) h = ground (arith, h, all-take p n xs (ground (arith, h)))

-- A page of rows that are later than a time has no row of that time or an earlier one.
any-same_row :
    (r : TsRow) (t : ℕ) (rows : List TsRow)
    → r.ts ≤ t
    → all (λ q. ltb t q.ts) rows ≡ true
    → any (same_row r) rows ≡ false
any-same_row r t [] early late = refl
any-same_row r t (q ∷ qs) early late =
    ground (arith, early, late, any-same_row r t qs early (ground (arith, late)))

new_watermark_later :
    (t : ℕ) (rows : List TsRow) → all (λ q. ltb t q.ts) rows ≡ true → t ≤ new_watermark t rows
unfolding newest
new_watermark_later t [] h = omega arith
new_watermark_later t (r ∷ []) h = ground (arith, h)
new_watermark_later t (r ∷ q ∷ qs) h = ground (arith, h)

abbrev IsPassed : TsRow → TsStore → Type 0
IsPassed r s = (r.ts ≤ s.last_ts) × (any (same_row r) s.raw ≡ false)

extract_by_ts-IsPassed :
    (batch_size : ℕ) (calls : ExtractCalls) (r : TsRow) (s : TsStore)
    → IsPassed r s
    → IsPassed r (extract_by_ts batch_size calls s)
unfolding extract_by_ts
extract_by_ts-IsPassed batch_size calls r s (early, absent) =
    let rows = take batch_size (ordered_by_ts s.last_ts s.source) in
    let late =
      all-take (λ q. ltb s.last_ts q.ts) batch_size (ordered_by_ts s.last_ts s.source)
        (all-ordered_by_ts s.last_ts s.source) in
    let gone = any-same_row r s.last_ts rows early late in
    let still = any-append (same_row r) s.raw rows in
    let later = new_watermark_later s.last_ts rows late in
    elim (Bool-cases (calls.fetch_fails || calls.insert_fails)) [
      | inl fails ↦ (ground (arith, fails, early), ground (arith, fails, absent))
      | inr inserts ↦ elim (Bool-cases calls.watermark_fails) [
        | inl fails ↦ (
          ground (arith, inserts, fails, early),
          ground (arith, inserts, fails, gone, absent, still),
        )
        | inr fine ↦ (
          ground (arith, inserts, fine, early, later),
          ground (arith, inserts, fine, gone, absent, still),
        )
      ]
    ]

after_events-IsPassed :
    (batch_size : ℕ) (es : List TsEvent) (r : TsRow) (s : TsStore)
    → IsPassed r s
    → IsPassed r (after_events batch_size es s)
unfolding after_events
after_events-IsPassed batch_size [] r s h = h
after_events-IsPassed batch_size (runs calls ∷ es) r s h =
    after_events-IsPassed batch_size es r (extract_by_ts batch_size calls s)
      (extract_by_ts-IsPassed batch_size calls r s h)
after_events-IsPassed batch_size (adds q ∷ es) r s h =
    after_events-IsPassed batch_size es r (record s { source = q ∷ s.source }) h

-- A row that is no later than the watermark and is not in the raw table, such as one of the time of a page's
-- last row that the LIMIT has cut off, is brought over by no later run, whatever rows are added and whatever
-- fails.
pub after_events_lost :
    (batch_size : ℕ) (es : List TsEvent) (r : TsRow) (s : TsStore)
    → r.ts ≤ s.last_ts
    → any (same_row r) s.raw ≡ false
    → any (same_row r) (after_events batch_size es s).raw ≡ false
after_events_lost batch_size es r s early absent =
    (after_events-IsPassed batch_size es r s (early, absent)).1
