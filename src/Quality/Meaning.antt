-- ===== src/Quality/Meaning.antt =====
-- The SQL of each check over tables of rows, and what a passed check says of them.
use data_ops_showcase.Prelude.{
  ◌&&◌, inr, ◌||◌, inl, ◌+◌, not, arith, Bool-cases, if◌then◌else◌, refl, all, false, [], ◌↔◌, ◌∷◌,
  All, some, any, List, none, true, ◌≡◌, Option, String, Bool, ℕ,
}
use data_ops_showcase.Quality.{many_current, orphans, out_of_range, nulls, duplicates, Query}

-- A row gives each column its value, `none` for NULL.
abbrev pub TableRow : Type 0 → Type 0
TableRow Cell = String → Option Cell

abbrev pub Database : Type 0 → Type 0
Database Cell = String → List (TableRow Cell)

abbrev pub is_null : {Cell : Type 0} → Option Cell → Bool
is_null none = true
is_null (some v) = false

abbrev pub count_rows : {A : Type 0} → (A → Bool) → List A → ℕ
count_rows p [] = 0
count_rows p (r ∷ rs) = (if p r then 1 else 0) + count_rows p rs

-- The groups with more than one row, counted at the first row of each.
abbrev pub repeated_groups : {A : Type 0} → (A → A → Bool) → List A → List A → ℕ
repeated_groups agree seen [] = 0
repeated_groups agree seen (r ∷ rs) =
    (if not (any (agree r) seen) && any (agree r) rs then 1 else 0)
    + repeated_groups agree (r ∷ seen) rs

-- No row agrees with a later one.
abbrev pub NoRepeat : {A : Type 0} → (A → A → Bool) → List A → Type 0
NoRepeat agree [] = Unit
NoRepeat agree (r ∷ rs) = (any (agree r) rs ≡ false) × NoRepeat agree rs

pub count_rows-eq-zero :
    {A : Type 0} (p : A → Bool) (rs : List A) → (count_rows p rs ≡ 0) ↔ (any p rs ≡ false)
count_rows-eq-zero p [] = ground arith
count_rows-eq-zero p (r ∷ rs) = ground (arith, count_rows-eq-zero p rs)

module _ {A : Type 0} (agree : A → A → Bool) (agree_sym : (a b : A) → agree a b ≡ agree b a) where
  -- No row of the second list agrees with one of the first.
  abbrev Apart : List A → List A → Type 0
  Apart seen rs = All (λ r. any (agree r) seen ≡ false) rs

  Apart-cons :
      (r : A) (seen rs : List A) → any (agree r) rs ≡ false → Apart seen rs → Apart (r ∷ seen) rs
  Apart-cons r seen [] h a = tt
  Apart-cons r seen (x ∷ rs) h (here, a) =
      (ground (arith, agree_sym x r, here, h), Apart-cons r seen rs (ground (arith, h)) a)

  Apart-nil : (rs : List A) → Apart [] rs
  Apart-nil [] = tt
  Apart-nil (r ∷ rs) = (refl, Apart-nil rs)

  repeated_groups_iff :
      (seen rs : List A) → Apart seen rs → (repeated_groups agree seen rs ≡ 0) ↔ NoRepeat agree rs
  repeated_groups_iff seen [] a = (λ h. tt, λ h. refl)
  repeated_groups_iff seen (r ∷ rs) (here, a) = elim (Bool-cases (any (agree r) rs)) [
    | inl again ↦
        (λ h. absurd (ground (arith, again, here, h)), λ h. absurd (ground (arith, again, h.0)))
    | inr once ↦
        let rest = repeated_groups_iff (r ∷ seen) rs (Apart-cons r seen rs once a) in
        (λ h. (once, rest.0 (ground (arith, once, h))), λ h. ground (arith, once, rest.1 h.1))
  ]

  pub repeated_groups_lem : (rs : List A) → (repeated_groups agree [] rs ≡ 0) ↔ NoRepeat agree rs
  repeated_groups_lem rs = repeated_groups_iff [] rs (Apart-nil rs)

module _ {Cell : Type 0} (same less : Cell → Cell → Bool) (is_true : Cell → Bool) where
  -- GROUP BY takes two NULLs as equal.
  abbrev pub same_cell : Option Cell → Option Cell → Bool
  same_cell none none = true
  same_cell (some a) (some b) = same a b
  same_cell _ _ = false

  -- `=` and `<` are not true of NULL.
  abbrev pub equal : Option Cell → Option Cell → Bool
  equal (some a) (some b) = same a b
  equal _ _ = false

  abbrev pub below : Option Cell → Option Cell → Bool
  below (some a) (some b) = less a b
  below _ _ = false

  abbrev pub agree_on : List String → TableRow Cell → TableRow Cell → Bool
  agree_on columns a b = all (λ c. same_cell (a c) (b c)) columns

  abbrev pub is_current : TableRow Cell → Bool
  is_current r = elim (r "is_current") [ none ↦ false | some v ↦ is_true v ]

  abbrev pub keep : (TableRow Cell → Bool) → List (TableRow Cell) → List (TableRow Cell)
  keep p [] = []
  keep p (r ∷ rs) = if p r then r ∷ keep p rs else keep p rs

  abbrev pub has_parent : List (TableRow Cell) → String → String → TableRow Cell → Bool
  has_parent parents child_column parent_column c =
      any (λ p. equal (c child_column) (p parent_column)) parents

  -- `column < low OR column > high`, each half only where its bound is configured.
  unfoldable pub outside : Option Cell → Option Cell → String → TableRow Cell → Bool
  outside low high column r = below (r column) low || below high (r column)

  unfoldable pub count_of : Database Cell → Query Cell → ℕ
  count_of db (duplicates table columns) = repeated_groups (agree_on columns) [] (db table)
  count_of db (nulls table columns) = count_rows (λ r. any (λ c. is_null (r c)) columns) (db table)
  count_of db (out_of_range table column low high) = count_rows (outside low high column) (db table)
  count_of db (orphans table child_column parent parent_column) =
      count_rows (λ c. not (has_parent (db parent) child_column parent_column c)) (db table)
  count_of db (many_current table key) =
      repeated_groups (agree_on (key ∷ [])) [] (keep is_current (db table))

  pub outside_unbounded : (column : String) (r : TableRow Cell) → outside none none column r ≡ false
  unfolding outside
  outside_unbounded column r = ground arith
