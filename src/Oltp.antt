-- ===== src/Oltp.antt =====
-- pipelines/dags/ingestion/ingest_oltp_to_stg.py: `extract_table`, for a table with a watermark column and a
-- primary key of one column. A time and a key are numbers; the cursor is the one that its JSON holds. The
-- calls of the ledger and of the metrics are left out.
pub mod Sorted
pub mod Pages
pub mod Ties
pub mod Rereads
mod Tests
use data_ops_showcase.Prelude.{
  leb, ◌&&◌, ◌++◌, ◌==◌, ltb, ◌||◌, [], take, if◌then◌else◌, Bool, ◌∷◌, String, List, ℕ,
}

pub record OltpRow : Type 0 where
  pub ts : ℕ
  pub pk : ℕ
  pub columns : String

-- (last_ts, last_pk), where the latter may be None
pub data Cursor : Type 0 where
  after_ts : ℕ → Cursor
  after_row : ℕ → ℕ → Cursor

-- The WHERE of the query.
unfoldable pub is_behind : Cursor → OltpRow → Bool
is_behind (after_ts t) r = ltb t r.ts
is_behind (after_row t p) r = ltb t r.ts || r.ts == t && ltb p r.pk

-- Its ORDER BY.
abbrev pub precedes : OltpRow → OltpRow → Bool
precedes r q = ltb r.ts q.ts || r.ts == q.ts && leb r.pk q.pk

unfoldable pub insert_ordered : OltpRow → List OltpRow → List OltpRow
insert_ordered r [] = r ∷ []
insert_ordered r (q ∷ qs) =
    let rest = insert_ordered r qs in if precedes r q then r ∷ q ∷ qs else q ∷ rest

unfoldable pub ordered : (OltpRow → Bool) → List OltpRow → List OltpRow
ordered p [] = []
ordered p (r ∷ rs) = let rest = ordered p rs in if p r then insert_ordered r rest else rest

unfoldable pub page : ℕ → Cursor → List OltpRow → List OltpRow
page batch_size c source = take batch_size (ordered (is_behind c) source)

-- The cursor of the last row of a page.
unfoldable pub cursor_of : Cursor → List OltpRow → Cursor
cursor_of c [] = c
cursor_of c (r ∷ rs) = cursor_of (after_row r.ts r.pk) rs

pub record OltpStore : Type 0 where
  pub source : List OltpRow
  pub raw : List OltpRow
  pub cursor : Cursor

-- Which of the calls of a run raise.
pub record ExtractCalls : Type 0 where
  pub fetch_fails : Bool
  pub insert_fails : Bool
  pub watermark_fails : Bool

unfoldable pub extract_table : ℕ → ExtractCalls → OltpStore → OltpStore
extract_table batch_size calls s =
    let rows = page batch_size s.cursor s.source in
    if calls.fetch_fails || calls.insert_fails
    then s
    else if calls.watermark_fails
    then record s { raw = s.raw ++ rows }
    else record s { raw = s.raw ++ rows; cursor = cursor_of s.cursor rows }
