-- ===== src/Files/Objects.antt =====
-- services/storage/minio_io.py: the listing of a bucket, and the text of JSON lines. A text is the list of
-- its characters' codes. UTF-8 and the JSON of one line are parameters.
pub mod Lines
use data_ops_showcase.Nl2sql.{drop_leading, drop_trailing, is_empty}
use data_ops_showcase.Prelude.{
  ◌||◌, ◌==◌, ◌&&◌, false, leb, [], map, is_space, none, some, if◌then◌else◌, ◌++◌, Option, Text,
  ◌∷◌, Bool, String, List, ℕ,
}

-- What the client lists.
pub record Listed : Type 0 where
  pub object_name : String
  pub is_dir : Bool
  pub size : Option ℕ
  pub etag : Option Text

pub record MinioObject : Type 0 where
  pub bucket : String
  pub key : String
  pub size : ℕ
  pub etag : Text

abbrev pub size_or_zero : Option ℕ → ℕ
size_or_zero none = 0
size_or_zero (some n) = n

-- (obj.etag or "").strip('"')
abbrev pub unquoted_etag : Option Text → Text
unquoted_etag none = []
unquoted_etag (some t) = drop_trailing (λ c. c == 34) (drop_leading (λ c. c == 34) t)

unfoldable pub list_objects : String → List Listed → List MinioObject
list_objects bucket [] = []
list_objects bucket (o ∷ os) =
    let rest = list_objects bucket os in
    if o.is_dir
    then rest
    else record {
      bucket = bucket;
      key = o.object_name;
      size = size_or_zero o.size;
      etag = unquoted_etag o.etag;
    }
      ∷ rest

-- Where `str.splitlines` ends a line.
abbrev pub is_break : ℕ → Bool
is_break c =
    leb 10 c && leb c 13 || (leb 28 c && leb c 30 || (c == 133 || (c == 8232 || c == 8233)))

-- `str.isspace`
abbrev pub is_white : ℕ → Bool
is_white c =
    is_space c
    || (c == 133
        || (c == 160
            || (c == 5760
                || (leb 8192 c && leb c 8202
                    || (c == 8232 || (c == 8233 || (c == 8239 || (c == 8287 || c == 12288))))))))

abbrev pub strip_white : Text → Text
strip_white t = drop_trailing is_white (drop_leading is_white t)

abbrev pub starts_lf : Text → Bool
starts_lf [] = false
starts_lf (c ∷ t) = c == 10

abbrev pub push_code : ℕ → List Text → List Text
push_code c [] = (c ∷ []) ∷ []
push_code c (l ∷ ls) = (c ∷ l) ∷ ls

unfoldable pub split_lines : Text → List Text
split_lines [] = []
split_lines (c ∷ t) =
    let rest = split_lines t in
    if is_break c then (if c == 13 && starts_lf t then rest else [] ∷ rest) else push_code c rest

-- "\n".join(...)
unfoldable pub join_lines : List Text → Text
join_lines [] = []
join_lines (l ∷ []) = l
join_lines (l ∷ k ∷ ls) = l ++ 10 ∷ join_lines (k ∷ ls)

module _ {Json : Type 0} where
  module _ (loads : Text → Option Json) where
    -- Lines that are not JSON are passed over.
    unfoldable pub parse_lines : List Text → List Json
    parse_lines [] = []
    parse_lines (l ∷ ls) =
        let rest = parse_lines ls in
        if is_empty (strip_white l)
        then rest
        else elim (loads (strip_white l)) [ none ↦ rest | some j ↦ j ∷ rest ]

    -- `none` where the bytes are not UTF-8.
    unfoldable pub read_jsonl : (List ℕ → Option Text) → List ℕ → Option (List Json)
    read_jsonl decode raw = elim (decode raw) [
      | none ↦ none
      | some t ↦
          some (if is_empty (strip_white t) then [] else parse_lines (split_lines (strip_white t)))
    ]

  unfoldable pub put_jsonl : (Json → Text) → (Text → List ℕ) → List Json → List ℕ
  put_jsonl dumps encode records = encode (join_lines (map dumps records))
