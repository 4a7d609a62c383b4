-- ===== src/Portal/Catalog/Parts.antt =====
-- What the steps of `validate_catalog` check: distinct ids, and links between known nodes.
use data_ops_showcase.Portal.Catalog.{
  not_a_list, sequence, required, pair_of, collect, Node, Entry, set_of, RawNode, RawLink, RawEntry,
  normalize_node, check_links, check_link, normalize_service_entry,
}
use data_ops_showcase.Prelude.{
  subst, Result-cases, >>=-eq-ok, map, All, inr, refl, [], inl, str_eq_iff, arith, true, false,
  Bool-cases, ok, ◌≤◌, str_eq, ◌≡◌, any, length, ◌∷◌, String, List,
}

abbrev pub HasNoRepeat : List String → Type 0
HasNoRepeat [] = Unit
HasNoRepeat (x ∷ xs) = (any (str_eq x) xs ≡ false) × HasNoRepeat xs

pub any-set_of : (x : String) (xs : List String) → any (str_eq x) (set_of xs) ≡ any (str_eq x) xs
any-set_of x [] = refl
any-set_of x (y ∷ xs) = ground (arith, any-set_of x xs, any-set_of y xs, str_eq_iff x y)

length-set_of : (xs : List String) → length (set_of xs) ≤ length xs
length-set_of [] = omega arith
length-set_of (x ∷ xs) = ground (arith, length-set_of xs)

pub HasNoRepeat-of_length : (xs : List String) → length xs ≤ length (set_of xs) → HasNoRepeat xs
HasNoRepeat-of_length [] h = tt
HasNoRepeat-of_length (x ∷ xs) h = elim (Bool-cases (any (str_eq x) (set_of xs))) [
  | inl again ↦ absurd (ground (arith, length-set_of xs))
  | inr new ↦ (ground (arith, any-set_of x xs), HasNoRepeat-of_length xs (ground (arith, new)))
]

-- The ids that `validate_catalog` collects are those of the normalized entries.
pub ids-normalize :
    (raws : List RawEntry) (ids : List String) (es : List Entry)
    → collect (λ (x : RawEntry). required "id" x.id) raws ≡ ok ids
    → collect normalize_service_entry raws ≡ ok es
    → map (λ (x : Entry). x.id) es ≡ ids
unfolding normalize_service_entry
ids-normalize [] ids es h g = ground arith
ids-normalize (raw ∷ raws) ids es h g =
    elim (Result-cases (collect (λ (x : RawEntry). required "id" x.id) raws)) [
      | inr (e, bad) ↦ absurd (ground (arith, bad))
      | inl (ids', some_ids) ↦ elim (Result-cases (collect normalize_service_entry raws)) [
        | inr (e, bad) ↦ absurd (ground (arith, bad))
        | inl (es', some_es) ↦
            ground (arith, some_ids, some_es, ids-normalize raws ids' es' some_ids some_es)
      ]
    ]

pub ids-normalize_node :
    (raws : List RawNode) (ids : List String) (ns : List Node)
    → collect (λ (x : RawNode). required "id" x.id) raws ≡ ok ids
    → collect normalize_node raws ≡ ok ns
    → map (λ (x : Node). x.id) ns ≡ ids
unfolding normalize_node
ids-normalize_node [] ids ns h g = ground arith
ids-normalize_node (raw ∷ raws) ids ns h g =
    elim (Result-cases (collect (λ (x : RawNode). required "id" x.id) raws)) [
      | inr (e, bad) ↦ absurd (ground (arith, bad))
      | inl (ids', some_ids) ↦ elim (Result-cases (collect normalize_node raws)) [
        | inr (e, bad) ↦ absurd (ground (arith, bad))
        | inl (ns', some_ns) ↦
            ground (arith, some_ids, some_ns, ids-normalize_node raws ids' ns' some_ids some_ns)
      ]
    ]

abbrev pub IsKnown : List String → String × String → Type 0
IsKnown ids l = (any (str_eq l.0) ids ≡ true) × (any (str_eq l.1) ids ≡ true)

IsKnown-pair_of :
    (ids : List String) (raw : RawLink) (l : String × String)
    → check_link ids raw ≡ ok tt
    → pair_of raw ≡ ok l
    → IsKnown ids l
unfolding check_link
IsKnown-pair_of ids not_a_list l h g = absurd (ground arith)
IsKnown-pair_of ids (sequence []) l h g = absurd (ground arith)
IsKnown-pair_of ids (sequence (a ∷ [])) l h g = absurd (ground arith)
IsKnown-pair_of ids (sequence (a ∷ b ∷ [])) l h g = ground arith
IsKnown-pair_of ids (sequence (a ∷ b ∷ c ∷ rest)) l h g = absurd (ground arith)

pub links-IsKnown :
    (ids : List String) (raws : List RawLink) (ls : List (String × String))
    → check_links ids raws ≡ ok tt
    → collect pair_of raws ≡ ok ls
    → All (IsKnown ids) ls
unfolding check_links
links-IsKnown ids [] [] h g = tt
links-IsKnown ids [] (l ∷ ls) h g = absurd (ground arith)
links-IsKnown ids (raw ∷ raws) ls h g =
    let (u, first, rest) = >>=-eq-ok (check_link ids raw) _ h in
    let (l, e, g') = >>=-eq-ok (pair_of raw) _ g in
    let (ls', e', g'') = >>=-eq-ok (collect pair_of raws) _ g' in
    subst (All (IsKnown ids)) {x = l ∷ ls'} (ground (arith, g''))
      (IsKnown-pair_of ids raw l first e, links-IsKnown ids raws ls' rest e')
