-- ===== src/Nl2sql/Whitelist.antt =====
-- What validate_sql lets through.
use data_ops_showcase.Prelude.{
  Option-cases, refl, inr, inl, ◌∷◌, true, Bool-cases, arith, false, all, ok, some, Bool, [], ◌≡◌,
  List, Option, Text,
}
use data_ops_showcase.Nl2sql.{
  another, limited, is_empty, extract_table_name, clean_of, is_allowed, is_blocked,
  qualify_allowed_tables, Table, accept, unknown_tables, Statement, select, validate_sql,
}

-- A text that a database may be given: a SELECT of allowed tables alone, with no blocked word and a limit.
pub record IsSafe (parse_one : Text → Option Statement) (sql : Text) : Type 0 where
  pub clean : Text
  pub tables : List Table
  pub has_limit : Bool
  pub parses : parse_one clean ≡ some (select tables has_limit)
  pub has_allowed : all (λ node. is_allowed (extract_table_name node)) tables ≡ true
  pub has_no_blocked : is_blocked clean ≡ false
  pub is_limited : sql ≡ limited has_limit clean

unknown_tables_lem :
    (nodes : List Table)
    → unknown_tables nodes ≡ []
    → all (λ node. is_allowed (extract_table_name node)) nodes ≡ true
unfolding unknown_tables
unknown_tables_lem [] h = refl
unknown_tables_lem (node ∷ nodes) h = elim (Bool-cases (is_allowed (extract_table_name node))) [
  | inl fine ↦ ground (arith, fine, unknown_tables_lem nodes (ground (arith, fine, h)))
  | inr bad ↦ absurd (ground (arith, bad, h))
]

module _ (parse_one : Text → Option Statement) where
  accept-IsSafe :
      (clean sql : Text) (statement : Statement)
      → parse_one clean ≡ some statement
      → is_blocked clean ≡ false
      → accept clean statement ≡ ok sql
      → IsSafe parse_one sql
  unfolding accept
  accept-IsSafe clean sql another p b h = absurd (ground (arith, h))
  accept-IsSafe clean sql (select tables has_limit) p b h = go (unknown_tables tables) refl
    where
      go : (ts : List Text) → unknown_tables tables ≡ ts → IsSafe parse_one sql
      go (t ∷ ts) e = absurd (ground (arith, e, h))
      go [] e = record {
        clean = clean;
        tables = tables;
        has_limit = has_limit;
        parses = p;
        has_allowed = unknown_tables_lem tables e;
        has_no_blocked = b;
        is_limited = ground (arith, e, h);
      }

  -- What `validate_sql` returns is, up to an appended limit, a text that parses as a SELECT of allowed tables
  -- and in which no blocked word occurs.
  pub validate_sql-IsSafe :
      (raw sql : Text) → validate_sql parse_one raw ≡ ok sql → IsSafe parse_one sql
  unfolding validate_sql
  validate_sql-IsSafe raw sql h =
      let clean = qualify_allowed_tables (clean_of raw) in
      elim (Bool-cases (is_empty (clean_of raw))) [
        | inl none_there ↦ absurd (ground (arith, none_there, h))
        | inr some_there ↦ elim (Bool-cases (is_blocked clean)) [
          | inl blocked ↦ absurd (ground (arith, some_there, blocked, h))
          | inr fine ↦ elim (Option-cases (parse_one clean)) [
            | inl fails ↦ absurd (ground (arith, some_there, fine, fails, h))
            | inr (statement, p) ↦
                accept-IsSafe clean sql statement p fine (ground (arith, some_there, fine, p, h))
          ]
        ]
      ]
