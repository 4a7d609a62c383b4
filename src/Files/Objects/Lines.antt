-- ===== src/Files/Objects/Lines.antt =====
-- JSON lines that are written and read back.
use data_ops_showcase.Prelude.{
  sym, map, append_assoc, All, subst, some, List, Option, refl, inr, inl, arith, Bool-cases, [],
  ◌++◌, false, ◌∷◌, Bool, any, ◌≡◌, Text, ℕ,
}
use data_ops_showcase.Files.Objects.{
  is_white, put_jsonl, parse_lines, read_jsonl, strip_white, join_lines, is_break, split_lines,
}
use data_ops_showcase.Nl2sql.{is_empty, drop_leading, drop_trailing}

-- The text of an object: it stands in braces, and no line ends in it.
pub record IsObjectLine (t : Text) : Type 0 where
  pub inside : Text
  pub in_braces : t ≡ 123 ∷ (inside ++ 125 ∷ [])
  pub has_no_break : any is_break t ≡ false

split_lines-append :
    (l t : Text) → any is_break l ≡ false → split_lines (l ++ 10 ∷ t) ≡ l ∷ split_lines t
unfolding split_lines
split_lines-append [] t h = refl
split_lines-append (c ∷ l) t h = elim (Bool-cases (is_break c)) [
  | inl breaks ↦ absurd (ground (arith, breaks, h))
  | inr plain ↦ ground (arith, plain, split_lines-append l t (ground (arith, plain, h)))
]

split_lines_one :
    (c : ℕ) (l : Text) → any is_break (c ∷ l) ≡ false → split_lines (c ∷ l) ≡ (c ∷ l) ∷ []
unfolding split_lines
split_lines_one c [] h = ground (arith, h)
split_lines_one c (d ∷ l) h = elim (Bool-cases (is_break c)) [
  | inl breaks ↦ absurd (ground (arith, breaks, h))
  | inr plain ↦ ground (arith, plain, split_lines_one d l (ground (arith, plain, h)))
]

is_empty-append : (t : Text) (c : ℕ) → is_empty (t ++ c ∷ []) ≡ false
is_empty-append [] c = refl
is_empty-append (d ∷ t) c = refl

drop_trailing_kept :
    (p : ℕ → Bool) (t : Text) (c : ℕ) → p c ≡ false → drop_trailing p (t ++ c ∷ []) ≡ t ++ c ∷ []
unfolding drop_trailing
drop_trailing_kept p [] c h = ground (arith, h)
drop_trailing_kept p (d ∷ t) c h = ground (arith, drop_trailing_kept p t c h, is_empty-append t c)

-- A text in braces has no white space to strip.
abbrev IsBraced : Text → Type 0
IsBraced t = (inside : Text) × (t ≡ 123 ∷ (inside ++ 125 ∷ []))

strip_white-IsBraced : (t : Text) → IsBraced t → strip_white t ≡ t
unfolding drop_leading
strip_white-IsBraced t (inside, e) =
    subst (λ x. strip_white x ≡ x) (sym e) (drop_trailing_kept is_white (123 ∷ inside) 125 refl)

IsBraced-join_lines :
    (t : Text) (ts : List Text) → IsBraced t → All IsBraced ts → IsBraced (join_lines (t ∷ ts))
unfolding join_lines
IsBraced-join_lines t [] h hs = h
IsBraced-join_lines t (u ∷ us) (inside, e) (k, ks) =
    let (rest, f) = IsBraced-join_lines u us k ks in
    (
      inside ++ (125 ∷ 10 ∷ 123 ∷ rest),
      ground (
        arith,
        e,
        f,
        append_assoc inside (125 ∷ []) (10 ∷ 123 ∷ (rest ++ 125 ∷ [])),
        append_assoc inside (125 ∷ 10 ∷ 123 ∷ rest) (125 ∷ []),
      ),
    )

split_lines-join_lines :
    (t : Text) (ts : List Text)
    → IsObjectLine t
    → All IsObjectLine ts
    → split_lines (join_lines (t ∷ ts)) ≡ t ∷ ts
unfolding join_lines
split_lines-join_lines t [] h hs =
    subst (λ x. split_lines x ≡ x ∷ []) (sym h.in_braces)
      (split_lines_one 123 (h.inside ++ 125 ∷ [])
        (subst (λ x. any is_break x ≡ false) h.in_braces h.has_no_break))
split_lines-join_lines t (u ∷ us) h (k, ks) = ground (
  arith,
  split_lines-append t (join_lines (u ∷ us)) h.has_no_break,
  split_lines-join_lines u us k ks,
)

module _ {Json : Type 0} (loads : Text → Option Json) (dumps : Json → Text)
    (loads-dumps : (j : Json) → loads (dumps j) ≡ some j)
    (dumps-IsObjectLine : (j : Json) → IsObjectLine (dumps j)) where
  braced : (j : Json) → IsBraced (dumps j)
  braced j = ((dumps-IsObjectLine j).inside, (dumps-IsObjectLine j).in_braces)

  map-IsBraced : (js : List Json) → All IsBraced (map dumps js)
  map-IsBraced [] = tt
  map-IsBraced (j ∷ js) = (braced j, map-IsBraced js)

  map-IsObjectLine : (js : List Json) → All IsObjectLine (map dumps js)
  map-IsObjectLine [] = tt
  map-IsObjectLine (j ∷ js) = (dumps-IsObjectLine j, map-IsObjectLine js)

  is_empty-IsBraced : (t : Text) → IsBraced t → is_empty t ≡ false
  is_empty-IsBraced t (inside, e) = subst (λ x. is_empty x ≡ false) (sym e) refl

  parse_lines-map : (js : List Json) → parse_lines loads (map dumps js) ≡ js
  unfolding parse_lines
  parse_lines-map [] = refl
  parse_lines-map (j ∷ js) = ground (
    arith,
    parse_lines-map js,
    loads-dumps j,
    strip_white-IsBraced (dumps j) (braced j),
    is_empty-IsBraced (dumps j) (braced j),
  )

  -- What `put_jsonl` writes, `read_jsonl` reads back, record by record, where UTF-8 and JSON read back
  -- what they write, and the JSON of every record is an object in which no character ends a line.
  pub read_jsonl-put_jsonl :
      (encode : Text → List ℕ) (decode : List ℕ → Option Text)
      → ((t : Text) → decode (encode t) ≡ some t)
      → (js : List Json) → read_jsonl loads decode (put_jsonl dumps encode js) ≡ some js
  unfolding read_jsonl put_jsonl
  read_jsonl-put_jsonl encode decode reads [] =
      unfold join_lines drop_leading drop_trailing in ground (arith, reads [])
  read_jsonl-put_jsonl encode decode reads (j ∷ js) =
      let text = join_lines (map dumps (j ∷ js)) in
      let whole : IsBraced text =
        IsBraced-join_lines (dumps j) (map dumps js) (braced j) (map-IsBraced js) in
      ground (
        arith,
        reads text,
        strip_white-IsBraced text whole,
        is_empty-IsBraced text whole,
        split_lines-join_lines (dumps j) (map dumps js) (dumps-IsObjectLine j)
            (map-IsObjectLine js),
        parse_lines-map (j ∷ js),
      )
