-- ===== src/Oltp/Rereads.antt =====
-- ingest_oltp_to_stg.py: `extract_table` for a table without a watermark column. The query has no WHERE, and
-- orders by the first column of the primary key, which stands for the row.
use data_ops_showcase.Oltp.{ExtractCalls}
use data_ops_showcase.Prelude.{
  zero, any-append, inr, subst, false, suc, refl, ◌++◌, inl, take, [], ltb, leb, true, ◌∙◌, arith,
  any, Bool-cases, ◌||◌, ◌≤◌, ◌≡◌, ◌==◌, if◌then◌else◌, all, ◌∷◌, String, ℕ, Bool, List,
}

pub record KeyRow : Type 0 where
  pub pk : ℕ
  pub columns : String

unfoldable pub insert_by_pk : KeyRow → List KeyRow → List KeyRow
insert_by_pk r [] = r ∷ []
insert_by_pk r (q ∷ qs) =
    let rest = insert_by_pk r qs in if leb r.pk q.pk then r ∷ q ∷ qs else q ∷ rest

unfoldable pub ordered_by_pk : List KeyRow → List KeyRow
ordered_by_pk [] = []
ordered_by_pk (r ∷ rs) = insert_by_pk r (ordered_by_pk rs)

pub record KeyStore : Type 0 where
  pub source : List KeyRow
  pub raw : List KeyRow

unfoldable pub extract_by_order : ℕ → ExtractCalls → KeyStore → KeyStore
extract_by_order batch_size calls s =
    if calls.fetch_fails || calls.insert_fails
    then s
    else record s { raw = s.raw ++ take batch_size (ordered_by_pk s.source) }

pub data KeyEvent : Type 0 where
  runs : ExtractCalls → KeyEvent
  adds : KeyRow → KeyEvent

unfoldable pub after_events : ℕ → List KeyEvent → KeyStore → KeyStore
after_events batch_size [] s = s
after_events batch_size (runs calls ∷ es) s =
    after_events batch_size es (extract_by_order batch_size calls s)
after_events batch_size (adds r ∷ es) s =
    after_events batch_size es (record s { source = r ∷ s.source })

abbrev pub has_pk : ℕ → KeyRow → Bool
has_pk k r = r.pk == k

-- The number of rows with a smaller key.
unfoldable pub rows_before : ℕ → List KeyRow → ℕ
rows_before k [] = 0
rows_before k (r ∷ rs) = if ltb r.pk k then suc (rows_before k rs) else rows_before k rs

abbrev IsSorted : List KeyRow → Type 0
IsSorted [] = Unit
IsSorted (r ∷ rs) = (all (λ q. leb r.pk q.pk) rs ≡ true) × IsSorted rs

all-insert_by_pk :
    (p : KeyRow → Bool) (r : KeyRow) (rs : List KeyRow)
    → p r ≡ true
    → all p rs ≡ true
    → all p (insert_by_pk r rs) ≡ true
unfolding insert_by_pk
all-insert_by_pk p r [] h hs = ground (arith, h)
all-insert_by_pk p r (q ∷ qs) h hs =
    ground (arith, h, hs, all-insert_by_pk p r qs h (ground (arith, hs)))

all-later :
    (j k : ℕ) (rs : List KeyRow)
    → j ≤ k
    → all (λ q. leb k q.pk) rs ≡ true
    → all (λ q. leb j q.pk) rs ≡ true
all-later j k [] h hs = refl
all-later j k (q ∷ qs) h hs = ground (arith, h, hs, all-later j k qs h (ground (arith, hs)))

insert_by_pk-IsSorted : (r : KeyRow) (rs : List KeyRow) → IsSorted rs → IsSorted (insert_by_pk r rs)
unfolding insert_by_pk
insert_by_pk-IsSorted r [] h = (refl, tt)
insert_by_pk-IsSorted r (q ∷ qs) (first, h) = elim (Bool-cases (leb r.pk q.pk)) [
  | inl before ↦
      subst IsSorted {x = r ∷ q ∷ qs} {y = insert_by_pk r (q ∷ qs)} (ground (arith, before))
        (ground (arith, before, all-later r.pk q.pk qs (ground (arith, before)) first), (first, h))
  | inr behind ↦
      subst IsSorted {x = q ∷ insert_by_pk r qs} {y = insert_by_pk r (q ∷ qs)}
        (ground (arith, behind))
        (
          all-insert_by_pk (λ x. leb q.pk x.pk) r qs (ground (arith, behind)) first,
          insert_by_pk-IsSorted r qs h,
        )
]

ordered_by_pk-IsSorted : (rs : List KeyRow) → IsSorted (ordered_by_pk rs)
unfolding ordered_by_pk
ordered_by_pk-IsSorted [] = tt
ordered_by_pk-IsSorted (r ∷ rs) =
    insert_by_pk-IsSorted r (ordered_by_pk rs) (ordered_by_pk-IsSorted rs)

rows_before-insert_by_pk :
    (k : ℕ) (r : KeyRow) (rs : List KeyRow)
    → rows_before k (insert_by_pk r rs) ≡ rows_before k (r ∷ rs)
unfolding rows_before insert_by_pk
rows_before-insert_by_pk k r [] = refl
rows_before-insert_by_pk k r (q ∷ qs) = ground (arith, rows_before-insert_by_pk k r qs)

rows_before-ordered_by_pk :
    (k : ℕ) (rs : List KeyRow) → rows_before k (ordered_by_pk rs) ≡ rows_before k rs
unfolding rows_before ordered_by_pk
rows_before-ordered_by_pk k [] = refl
rows_before-ordered_by_pk k (r ∷ rs) =
    rows_before-insert_by_pk k r (ordered_by_pk rs) ∙ ground (arith, rows_before-ordered_by_pk k rs)

rows_before_none :
    (k : ℕ) (rs : List KeyRow) → all (λ q. leb k q.pk) rs ≡ true → rows_before k rs ≡ 0
unfolding rows_before
rows_before_none k [] h = refl
rows_before_none k (r ∷ rs) h = ground (arith, h, rows_before_none k rs (ground (arith, h)))

-- A page that is filled by rows of smaller keys does not have the key.
any-has_pk :
    (k n : ℕ) (rs : List KeyRow)
    → IsSorted rs
    → n ≤ rows_before k rs
    → any (has_pk k) (take n rs) ≡ false
unfolding rows_before
any-has_pk k zero rs h enough = refl
any-has_pk k (suc n) [] h enough = absurd (omega (arith, enough))
any-has_pk k (suc n) (r ∷ rs) (first, h) enough = elim (Bool-cases (ltb r.pk k)) [
  | inl before ↦ ground (arith, before, any-has_pk k n rs h (ground (arith, before, enough)))
  | inr behind ↦ absurd (
      ground (
        arith,
        behind,
        enough,
        rows_before_none k rs (all-later k r.pk rs (ground (arith, behind)) first),
      ))
]

-- In a table without a watermark column, a row with at least `batch_size` rows of smaller keys is brought
-- over by no run, whatever rows are added and whatever fails: each run reads the first page again.
pub after_events_reread :
    (batch_size : ℕ) (es : List KeyEvent) (k : ℕ) (s : KeyStore)
    → batch_size ≤ rows_before k s.source
    → any (has_pk k) s.raw ≡ false
    → any (has_pk k) (after_events batch_size es s).raw ≡ false
unfolding after_events
after_events_reread batch_size [] k s full absent = absent
after_events_reread batch_size (adds r ∷ es) k s full absent =
    after_events_reread batch_size es k (record s { source = r ∷ s.source })
      (unfold rows_before in ground (arith, full)) absent
after_events_reread batch_size (runs calls ∷ es) k s full absent =
    elim (Bool-cases (calls.fetch_fails || calls.insert_fails)) [
      | inl fails ↦
          after_events_reread batch_size es k (extract_by_order batch_size calls s)
            (unfold extract_by_order in ground (arith, fails, full))
            (unfold extract_by_order in ground (arith, fails, absent))
      | inr fine ↦
          after_events_reread batch_size es k (extract_by_order batch_size calls s)
            (unfold extract_by_order in ground (arith, fine, full))
            (unfold extract_by_order in
              ground (
                arith,
                fine,
                absent,
                any-append (has_pk k) s.raw (take batch_size (ordered_by_pk s.source)),
                any-has_pk k batch_size (ordered_by_pk s.source) (ordered_by_pk-IsSorted s.source)
                    (ground (arith, full, rows_before-ordered_by_pk k s.source)),
              ))
    ]
