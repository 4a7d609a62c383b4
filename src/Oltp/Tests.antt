-- ===== src/Oltp/Tests.antt =====
-- An extraction in two pages, with two rows of one time at the border.
use data_ops_showcase.Oltp.Ties.{
  newest, insert_by_ts, ordered_by_ts, after_events_lost, extract_by_ts, TsRow, TsStore, same_row,
}
use data_ops_showcase.Oltp.Rereads.{
  insert_by_pk, rows_before, ordered_by_pk, after_events_reread, KeyStore, extract_by_order, KeyRow,
  has_pk,
}
use data_ops_showcase.Oltp.Ties
use data_ops_showcase.Oltp.Rereads
use data_ops_showcase.Prelude.{arith, String, ◌∷◌, true, refl, [], any, false, ◌≡◌, List, ℕ}
use data_ops_showcase.Oltp.{
  OltpRow, OltpStore, after_ts, extract_table, ExtractCalls, page, ordered, insert_ordered,
  is_behind, cursor_of,
}
use data_ops_showcase.Oltp.Sorted.{same_key}
use data_ops_showcase.Oltp.Pages.{Extracts, begins, extracted, Extracts-no_row_lost}

abbrev row : ℕ → ℕ → OltpRow
row t p = record { ts = t; pk = p; columns = "x" }

abbrev tied : List OltpRow
tied = row 7 3 ∷ row 5 1 ∷ row 7 2 ∷ []

abbrev all_well : ExtractCalls
all_well = record { fetch_fails = false; insert_fails = false; watermark_fails = false }

abbrev no_watermark : ExtractCalls
no_watermark = record { fetch_fails = false; insert_fails = false; watermark_fails = true }

abbrev fresh : OltpStore
fresh = record { source = tied; raw = []; cursor = after_ts 0 }

abbrev two_pages : OltpStore
two_pages = extract_table 2 all_well (extract_table 2 all_well (extract_table 2 no_watermark fresh))

two_pages_raw : two_pages.raw ≡ row 5 1 ∷ row 7 2 ∷ row 5 1 ∷ row 7 2 ∷ row 7 3 ∷ []
unfolding extract_table page ordered insert_ordered is_behind cursor_of
two_pages_raw = refl

two_pages_reached : Extracts 2 two_pages
two_pages_reached =
    extracted (extract_table 2 all_well (extract_table 2 no_watermark fresh)) all_well (
      extracted (extract_table 2 no_watermark fresh) all_well
        (extracted fresh no_watermark (begins tied 0 refl)))

Extracts-no_row_lost_example : any (same_key (row 7 3)) two_pages.raw ≡ true
Extracts-no_row_lost_example =
    Extracts-no_row_lost 2 two_pages (row 7 3) two_pages_reached (unfold extract_table in refl)
      (unfold extract_table page ordered insert_ordered is_behind cursor_of in refl)

abbrev timed : ℕ → String → TsRow
timed t columns = record { ts = t; columns = columns }

-- Two rows of one time in a table without a key, and a page of one row.
abbrev two_timed : TsStore
two_timed = record { source = timed 7 "a" ∷ timed 7 "b" ∷ []; raw = []; last_ts = 0 }

after_events_lost_example :
    any
      (same_row (timed 7 "b"))
      (Ties.after_events 1
        (Ties.runs all_well ∷ Ties.adds (timed 9 "c") ∷ Ties.runs all_well ∷ [])
        (extract_by_ts 1 all_well two_timed)).raw
    ≡ false
after_events_lost_example =
    after_events_lost 1 (Ties.runs all_well ∷ Ties.adds (timed 9 "c") ∷ Ties.runs all_well ∷ [])
      (timed 7 "b") (extract_by_ts 1 all_well two_timed)
      (unfold extract_by_ts ordered_by_ts insert_by_ts newest in omega arith)
      (unfold extract_by_ts ordered_by_ts insert_by_ts newest in refl)

abbrev keyed : ℕ → KeyRow
keyed p = record { pk = p; columns = "x" }

abbrev three_keys : KeyStore
three_keys = record { source = keyed 3 ∷ keyed 1 ∷ keyed 2 ∷ []; raw = [] }

after_events_reread_example :
    any
      (has_pk 3)
      (Rereads.after_events 2
        (Rereads.runs all_well ∷ Rereads.adds (keyed 4) ∷ Rereads.runs all_well ∷ [])
        three_keys).raw
    ≡ false
after_events_reread_example =
    after_events_reread 2
      (Rereads.runs all_well ∷ Rereads.adds (keyed 4) ∷ Rereads.runs all_well ∷ []) 3 three_keys
      (unfold rows_before in omega arith) refl

first_page_twice :
    (Rereads.after_events 2 (Rereads.runs all_well ∷ Rereads.runs all_well ∷ []) three_keys).raw
    ≡ keyed 1 ∷ keyed 2 ∷ keyed 1 ∷ keyed 2 ∷ []
unfolding Rereads.after_events extract_by_order ordered_by_pk insert_by_pk
first_page_twice = refl
