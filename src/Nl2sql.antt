-- ===== src/Nl2sql.antt =====
-- services/nl2sql_app/nl2sql/validator.py: the clean-up of a model's answer, and the check of its SQL.
-- A text is the list of its characters' codes; its regular expressions are read on ASCII letters, digits
-- and white space. `parse_one` is that of sqlglot: what it says of a statement is `Statement`, and it may raise.
pub mod Chain
pub mod Queue
pub mod Http
pub mod Limits
pub mod Unparsed
pub mod Answered
pub mod Whitelist
mod Tests
use data_ops_showcase.Prelude.{
  zero, ◌+◌, ◌-◌, ok, length, ◌++◌, some, err, ◌&&◌, [], false, ◌==◌, Option, ◌∷◌, suc, not, Result,
  any, none, true, leb, map, ◌||◌, is_space, codes, Bool, if◌then◌else◌, Text, List, ℕ,
}

abbrev pub is_empty : Text → Bool
is_empty [] = true
is_empty (c ∷ t) = false

abbrev pub lower_code : ℕ → ℕ
lower_code c = if leb 65 c && leb c 90 then c + 32 else c

abbrev pub lower_text : Text → Text
lower_text t = map lower_code t

abbrev pub is_word : ℕ → Bool
is_word c = leb 48 c && leb c 57 || (leb 65 c && leb c 90 || (leb 97 c && leb c 122 || c == 95))

-- `\b` behind a word
abbrev pub ends_word : Text → Bool
ends_word [] = true
ends_word (c ∷ t) = not (is_word c)

abbrev pub is_tick : ℕ → Bool
is_tick c = c == 96

unfoldable pub drop_leading : (ℕ → Bool) → Text → Text
drop_leading p [] = []
drop_leading p (c ∷ t) = let rest = drop_leading p t in if p c then rest else c ∷ t

unfoldable pub drop_trailing : (ℕ → Bool) → Text → Text
drop_trailing p [] = []
drop_trailing p (c ∷ t) =
    let rest = drop_trailing p t in if p c && is_empty rest then [] else c ∷ rest

abbrev pub strip : Text → Text
strip t = drop_trailing is_space (drop_leading is_space t)

-- The rest of a text behind a word, in any case of its letters.
unfoldable pub behind : Text → Text → Option Text
behind [] t = some t
behind (w ∷ ws) [] = none
behind (w ∷ ws) (c ∷ t) = let rest = behind ws t in if w == lower_code c then rest else none

abbrev pub starts : Text → Text → Bool
starts w t = elim (behind w t) [ none ↦ false | some rest ↦ true ]

unfoldable pub contains : Text → Text → Bool
contains w [] = starts w []
contains w (c ∷ t) = starts w (c ∷ t) || contains w t

unfoldable pub behind_first : Text → Text → Option Text
behind_first w [] = none
behind_first w (c ∷ t) =
    let later = behind_first w t in elim (behind w (c ∷ t)) [ none ↦ later | some rest ↦ some rest ]

unfoldable pub before_first : Text → Text → Option Text
before_first w [] = none
before_first w (c ∷ t) =
    let later = before_first w t in
    if starts w (c ∷ t) then some [] else elim later [ none ↦ none | some front ↦ some (c ∷ front) ]

-- re.search(r"```(?:sql)?\s*(.*?)```", ...)
abbrev pub without_sql : Text → Text
without_sql t = elim (behind (codes "sql") t) [ none ↦ t | some rest ↦ rest ]

unfoldable pub fenced : Text → Text
fenced t = elim (behind_first (codes "```") t) [
  | none ↦ t
  | some rest ↦ elim (before_first (codes "```") (drop_leading is_space (without_sql rest))) [
    | none ↦ t
    | some inner ↦ strip inner
  ]
]

-- re.sub(r"^\s*`+", "", ...)
unfoldable pub without_leading_ticks : Text → Text
without_leading_ticks t = elim (drop_leading is_space t) [
  | [] ↦ t
  | c ∷ rest ↦ if is_tick c then drop_leading is_tick rest else t
]

-- re.sub(r"`+\s*$", "", ...)
unfoldable pub without_trailing_ticks : Text → Text
without_trailing_ticks t =
    let front = drop_trailing is_space t in
    let rest = drop_trailing is_tick front in if length rest == length front then t else rest

-- re.sub(r"^\s*sql\b[:\s-]*", "", ...)
unfoldable pub without_label : Text → Text
without_label t = elim (behind (codes "sql") (drop_leading is_space t)) [
  | none ↦ t
  | some rest ↦
      if ends_word rest then drop_leading (λ c. c == 58 || (is_space c || c == 45)) rest else t
]

-- re.search(r"\bselect\b", ...); the Boolean says whether a word's character stands before.
unfoldable pub from_select : Bool → Text → Option Text
from_select inside [] = none
from_select inside (c ∷ t) =
    let later = from_select (is_word c) t in
    elim (behind (codes "select") (c ∷ t)) [
      | none ↦ later
      | some rest ↦ if not inside && ends_word rest then some (c ∷ t) else later
    ]

unfoldable pub up_to_semicolon : Text → Text
up_to_semicolon [] = []
up_to_semicolon (c ∷ t) = if c == 59 then c ∷ [] else c ∷ up_to_semicolon t

-- re.sub(r"\s+", " ", ...)
abbrev pub starts_space : Text → Bool
starts_space [] = false
starts_space (c ∷ t) = is_space c

unfoldable pub squeeze : Text → Text
squeeze [] = []
squeeze (c ∷ t) =
    let rest = squeeze t in
    if is_space c then (if starts_space t then rest else 32 ∷ rest) else c ∷ rest

unfoldable pub normalize_llm_sql : Text → Text
normalize_llm_sql raw =
    let text =
      without_label (without_trailing_ticks (without_leading_ticks (fenced (strip raw)))) in
    let selected : Text = elim (from_select false text) [ none ↦ text | some t ↦ strip t ] in
    if is_empty (strip raw) then [] else strip (squeeze (up_to_semicolon selected))

-- re.sub(rf"(?<!\.)\b{word}\b", target, ...), with the characters of a match to skip and the one before.
unfoldable pub replace_word : Text → Text → ℕ → ℕ → Text → Text
replace_word word target skip before [] = []
replace_word word target (suc skip) before (c ∷ t) = replace_word word target skip c t
replace_word word target zero before (c ∷ t) =
    let hit =
      not (before == 46)
      && (not (is_word before)
          && elim (behind word (c ∷ t)) [ none ↦ false | some rest ↦ ends_word rest ]) in
    let rest = replace_word word target (if hit then length word - 1 else 0) c t in
    if hit then target ++ rest else c ∷ rest

-- table.split(".")[-1]
unfoldable pub last_piece : Text → Text
last_piece [] = []
last_piece (c ∷ t) = let rest = last_piece t in if any (λ d. d == 46) (c ∷ t) then rest else c ∷ t

abbrev pub allowed_tables : List Text
allowed_tables = codes "raw.oltp_employees" ∷ []

abbrev pub table_aliases : List (Text × Text)
table_aliases =
    (codes "oltp_employees", codes "raw.oltp_employees")
    ∷ (codes "public.oltp_employees", codes "raw.oltp_employees")
    ∷ (codes "employees", codes "raw.oltp_employees")
    ∷ (codes "public.employees", codes "raw.oltp_employees")
    ∷ (codes "hr_employees", codes "raw.oltp_employees")
    ∷ (codes "public.hr_employees", codes "raw.oltp_employees")
    ∷ []

unfoldable pub replace_all : List (Text × Text) → Text → Text
replace_all [] t = t
replace_all ((word, target) ∷ ws) t = replace_all ws (replace_word word target 0 0 t)

unfoldable pub qualify_allowed_tables : Text → Text
qualify_allowed_tables t =
    replace_all (map (λ table. (last_piece table, table)) allowed_tables)
      (replace_all table_aliases t)

abbrev pub blocked_keywords : List Text
blocked_keywords =
    codes "insert"
    ∷ codes "update"
    ∷ codes "delete"
    ∷ codes "drop"
    ∷ codes "alter"
    ∷ codes "truncate"
    ∷ []

-- A table of a statement: its schema and its name.
pub record Table : Type 0 where
  pub db : Text
  pub this : Text

pub data Statement : Type 0 where
  select : List Table → Bool → Statement  -- its tables, and whether it has a LIMIT
  another : Statement

pub data ValueFault : Type 0 where
  empty_sql : ValueFault
  forbidden : ValueFault
  only_select : ValueFault
  not_whitelisted : List Text → ValueFault

pub data SqlFault : Type 0 where
  value_error : ValueFault → SqlFault
  parse_error : SqlFault  -- sqlglot's, which is no ValueError

abbrev pub unquoted : Text → Text
unquoted [] = []
unquoted (c ∷ t) = if c == 34 then unquoted t else c ∷ unquoted t

unfoldable pub extract_table_name : Table → Text
extract_table_name node =
    let table = unquoted (lower_text node.this) in
    let schema = unquoted (lower_text node.db) in
    if not (is_empty schema) && not (is_empty table) then schema ++ 46 ∷ table else table

unfoldable pub text_same : Text → Text → Bool
text_same [] [] = true
text_same [] (d ∷ u) = false
text_same (c ∷ t) [] = false
text_same (c ∷ t) (d ∷ u) = c == d && text_same t u

abbrev pub is_allowed : Text → Bool
is_allowed t = is_empty t || any (text_same t) allowed_tables

unfoldable pub unknown_tables : List Table → List Text
unknown_tables [] = []
unknown_tables (node ∷ nodes) =
    let rest = unknown_tables nodes in
    if is_allowed (extract_table_name node) then rest else extract_table_name node ∷ rest

abbrev pub is_blocked : Text → Bool
is_blocked clean = any (λ word. contains word (lower_text clean)) blocked_keywords

abbrev pub limited : Bool → Text → Text
limited true clean = clean
limited false clean = drop_trailing is_space clean ++ codes " LIMIT 100"

-- What validate_sql does with a statement that was parsed.
unfoldable pub accept : Text → Statement → Result SqlFault Text
accept clean another = err (value_error only_select)
accept clean (select tables has_limit) = elim (unknown_tables tables) [
  | [] ↦ ok (limited has_limit clean)
  | t ∷ ts ↦ err (value_error (not_whitelisted (t ∷ ts)))
]

abbrev pub clean_of : Text → Text
clean_of raw = drop_trailing (λ c. c == 59) (normalize_llm_sql raw)

module _ (parse_one : Text → Option Statement) where
  unfoldable pub validate_sql : Text → Result SqlFault Text
  validate_sql raw =
      let clean = qualify_allowed_tables (clean_of raw) in
      if is_empty (clean_of raw)
      then err (value_error empty_sql)
      else if is_blocked clean
      then err (value_error forbidden)
      else elim (parse_one clean) [
        | none ↦ err parse_error
        | some statement ↦ accept clean statement
      ]
