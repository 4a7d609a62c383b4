-- ===== src/Oltp/Sorted.antt =====
-- The rows of the query in their order, and the first ones of them.
use data_ops_showcase.Prelude.{
  zero, suc, take, ℕ, refl, inr, subst, inl, ◌||◌, [], arith, Bool-cases, ◌&&◌, any, ◌∷◌, ◌==◌, all,
  true, Bool, ◌≡◌, List,
}
use data_ops_showcase.Oltp.{
  after_row, after_ts, OltpRow, precedes, insert_ordered, ordered, Cursor, is_behind,
}

abbrev pub same_key : OltpRow → OltpRow → Bool
same_key r q = r.ts == q.ts && r.pk == q.pk

abbrev pub IsOrdered : List OltpRow → Type 0
IsOrdered [] = Unit {0}
IsOrdered (r ∷ rs) = (all (precedes r) rs ≡ true) × IsOrdered rs

any-insert_ordered :
    (p : OltpRow → Bool) (r : OltpRow) (rs : List OltpRow)
    → any p (insert_ordered r rs) ≡ (p r || any p rs)
unfolding insert_ordered
any-insert_ordered p r [] = refl
any-insert_ordered p r (q ∷ qs) = elim (Bool-cases (precedes r q)) [
  | inl first ↦ ground (arith, first)
  | inr later ↦ ground (arith, later, any-insert_ordered p r qs)
]

all-insert_ordered :
    (p : OltpRow → Bool) (r : OltpRow) (rs : List OltpRow)
    → all p (insert_ordered r rs) ≡ (p r && all p rs)
unfolding insert_ordered
all-insert_ordered p r [] = refl
all-insert_ordered p r (q ∷ qs) = elim (Bool-cases (precedes r q)) [
  | inl first ↦ ground (arith, first)
  | inr later ↦ ground (arith, later, all-insert_ordered p r qs)
]

precedes_trans : (r q u : OltpRow) → precedes r q ≡ true → precedes q u ≡ true → precedes r u ≡ true
precedes_trans r q u h k = ground (arith, h, k)

precedes-all :
    (r q : OltpRow) (us : List OltpRow)
    → precedes r q ≡ true
    → all (precedes q) us ≡ true
    → all (precedes r) us ≡ true
precedes-all r q [] h k = refl
precedes-all r q (u ∷ us) h k = elim (Bool-cases (precedes q u)) [
  | inl here ↦
      ground (arith, precedes_trans r q u h here, precedes-all r q us h (ground (arith, here, k)))
  | inr gone ↦ absurd (ground (arith, gone, k))
]

IsOrdered-insert_ordered :
    (r : OltpRow) (rs : List OltpRow) → IsOrdered rs → IsOrdered (insert_ordered r rs)
unfolding insert_ordered
IsOrdered-insert_ordered r [] h = (refl, tt)
IsOrdered-insert_ordered r (q ∷ qs) (h, hs) = elim (Bool-cases (precedes r q)) [
  | inl first ↦
      subst IsOrdered {x = r ∷ q ∷ qs} {y = insert_ordered r (q ∷ qs)} (ground (arith, first))
        (ground (arith, first, precedes-all r q qs first h), (h, hs))
  | inr later ↦
      subst IsOrdered {x = q ∷ insert_ordered r qs} {y = insert_ordered r (q ∷ qs)}
        (ground (arith, later))
        (
          ground (arith, all-insert_ordered (precedes q) r qs, h, later),
          IsOrdered-insert_ordered r qs hs,
        )
]

pub IsOrdered-ordered : (p : OltpRow → Bool) (rs : List OltpRow) → IsOrdered (ordered p rs)
unfolding ordered
IsOrdered-ordered p [] = tt
IsOrdered-ordered p (r ∷ rs) = elim (Bool-cases (p r)) [
  | inl taken ↦
      subst IsOrdered {x = insert_ordered r (ordered p rs)} {y = ordered p (r ∷ rs)}
        (ground (arith, taken)) (IsOrdered-insert_ordered r (ordered p rs) (IsOrdered-ordered p rs))
  | inr left ↦
      subst IsOrdered {x = ordered p rs} {y = ordered p (r ∷ rs)} (ground (arith, left))
        (IsOrdered-ordered p rs)
]

behind_same :
    (c : Cursor) (r q : OltpRow) → same_key r q ≡ true → is_behind c r ≡ true → is_behind c q ≡ true
unfolding is_behind
behind_same (after_ts t) r q h k = ground (arith, h, k)
behind_same (after_row t p) r q h k = ground (arith, h, k)

same_of_both :
    (r x : OltpRow) → precedes x r ≡ true → precedes r x ≡ true → any (same_key r) (x ∷ []) ≡ true
same_of_both r x h k = ground (arith, h, k)

precedes_found :
    (x r : OltpRow) (xs : List OltpRow)
    → all (precedes x) xs ≡ true
    → any (same_key r) xs ≡ true
    → precedes x r ≡ true
precedes_found x r [] h k = absurd (ground (arith, k))
precedes_found x r (y ∷ ys) h k = elim (Bool-cases (same_key r y)) [
  | inl here ↦ ground (arith, here, h)
  | inr gone ↦ precedes_found x r ys (ground (arith, h)) (ground (arith, k, gone))
]

-- A row of the table that the query selects is in its result.
pub any-ordered :
    (c : Cursor) (r : OltpRow) (rs : List OltpRow)
    → any (same_key r) rs ≡ true
    → is_behind c r ≡ true
    → any (same_key r) (ordered (is_behind c) rs) ≡ true
unfolding ordered
any-ordered c r [] h k = absurd (ground (arith, h))
any-ordered c r (q ∷ qs) h k = elim (Bool-cases (same_key r q)) [
  | inl here ↦
      let selected : is_behind c q ≡ true = behind_same c r q here k in
      ground (arith, selected, here, any-insert_ordered (same_key r) q (ordered (is_behind c) qs))
  | inr gone ↦
      let rest = any-ordered c r qs (ground (arith, h, gone)) k in
      elim (Bool-cases (is_behind c q)) [
        | inl selected ↦
            ground
              (arith, selected, rest, any-insert_ordered (same_key r) q (ordered (is_behind c) qs))
        | inr left ↦ ground (arith, left, rest)
      ]
]

-- The last row of a list that begins with `r`.
abbrev pub last_of : OltpRow → List OltpRow → OltpRow
last_of r [] = r
last_of r (q ∷ qs) = last_of q qs

-- The first rows have every row up to the last of them.
pub any-take :
    (n : ℕ) (x : OltpRow) (xs : List OltpRow) (r : OltpRow)
    → IsOrdered (x ∷ xs)
    → any (same_key r) (x ∷ xs) ≡ true
    → precedes r (last_of x (take n xs)) ≡ true
    → any (same_key r) (x ∷ take n xs) ≡ true
any-take zero x xs r (first, h) there before = elim (Bool-cases (same_key r x)) [
  | inl here ↦ ground (arith, here)
  | inr gone ↦ same_of_both r x (precedes_found x r xs first (ground (arith, there, gone))) before
]
any-take (suc n) x [] r h there before = there
any-take (suc n) x (y ∷ ys) r (first, h) there before = elim (Bool-cases (same_key r x)) [
  | inl here ↦ ground (arith, here)
  | inr gone ↦ ground (arith, gone, any-take n y ys r h (ground (arith, there, gone)) before)
]
