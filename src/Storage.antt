-- ===== src/Storage.antt =====
-- services/storage/postgres_io.py: bulk writes of rows under a unique key.
-- A table is the list of its rows. Each call is one transaction: an error leaves the table as it was.
-- `psycopg2.extras.execute_values` is not part of the repository: how it cuts the rows into
-- statements is the argument `paginate`, and after it `cursor.rowcount` is that of the last one.
pub mod Insert
use data_ops_showcase.Prelude.{
  false, true, ◌++◌, none, any, if◌then◌else◌, ◌+◌, some, ◌∷◌, Bool, List, Option, ℕ, [],
}
use data_ops_showcase.Prelude.Dict.{Key}

-- The conflict clause of a statement; the update takes the old row and the excluded one.
pub data OnConflict (R : Type 0) : Type 0 where
  no_clause : OnConflict R
  do_nothing : OnConflict R
  do_update : (R → R → R) → OnConflict R

abbrev pub counted : {R : Type 0} → Option (List R × ℕ) → Option (List R × ℕ)
counted none = none
counted (some (t, n)) = some (t, n + 1)

module _ {K R : Type 0} ⦃k : Key K⦄ (key : R → K) where
  abbrev pub has_key : K → List R → Bool
  has_key x t = any (λ r. k.same (key r) x) t

  -- The row under the key of `r` becomes `f old r`.
  pub update_row : (R → R → R) → R → List R → List R
  update_row f r [] = []
  update_row f r (old ∷ t) =
      if k.same (key old) (key r) then f old r ∷ t else old ∷ update_row f r t

  -- One INSERT: the table after it and its row count, `none` where PostgreSQL raises: on a duplicate
  -- key without a clause, and where DO UPDATE would write a row a second time (`touched`).
  unfoldable pub statement : OnConflict R → List K → List R → List R → Option (List R × ℕ)
  statement on_conflict touched [] t = some (t, 0)
  statement on_conflict touched (r ∷ rows) t = elim (has_key (key r) t) [
    | false ↦ counted (statement on_conflict (key r ∷ touched) rows (t ++ r ∷ []))
    | true ↦ elim on_conflict [
      | no_clause ↦ none
      | do_nothing ↦ statement do_nothing touched rows t
      | do_update f ↦ elim (any (λ x. k.same x (key r)) touched) [
        | true ↦ none
        | false ↦ counted (statement (do_update f) (key r ∷ touched) rows (update_row f r t))
      ]
    ]
  ]

  -- The statements of one `execute_values`, in order; the row count is the last one's.
  unfoldable pub statements : OnConflict R → List (List R) → List R → ℕ → Option (List R × ℕ)
  statements on_conflict [] t last = some (t, last)
  statements on_conflict (page ∷ pages) t last = elim (statement on_conflict [] page t) [
    | none ↦ none
    | some (t', n) ↦ statements on_conflict pages t' n
  ]

  module _ (paginate : ℕ → List R → List (List R)) where
    unfoldable pub bulk_insert : ℕ → OnConflict R → List R → List R → Option (List R × ℕ)
    bulk_insert page_size on_conflict [] t = some (t, 0)
    bulk_insert page_size on_conflict (r ∷ rows) t =
        statements on_conflict (paginate page_size (r ∷ rows)) t 0
