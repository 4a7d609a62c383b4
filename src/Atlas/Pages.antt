-- ===== src/Atlas/Pages.antt =====
-- Searches over all the pages of a server.
use data_ops_showcase.Atlas.Search.{
  search_basic_count, qualname_matches, payload_of, count_loop, normalize_entities, Payload,
  SearchReply,
}
use data_ops_showcase.Prelude.{
  sym, ◌==◌, false, inr, inl, refl, [], ltb, ◌∷◌, Bool-cases, ◌∙◌, suc, ap, arith, none, zero, ◌-◌,
  ◌||◌, some, ◌+◌, min, ◌≡◌, take, ◌<◌, any, length, drop, List, Bool, ℕ,
}

length-take : {A : Type 0} (n : ℕ) (xs : List A) → length (take n xs) ≡ min n (length xs)
length-take zero xs = ground arith
length-take (suc n) [] = ground arith
length-take (suc n) (x ∷ xs) = omega (arith, length-take n xs)

length-drop : {A : Type 0} (n : ℕ) (xs : List A) → length (drop n xs) ≡ length xs - n
length-drop zero xs = omega arith
length-drop (suc n) [] = omega arith
length-drop (suc n) (x ∷ xs) = omega (arith, length-drop n xs)

drop-nil : {A : Type 0} (n : ℕ) → drop {A = A} n [] ≡ []
drop-nil zero = refl
drop-nil (suc n) = refl

drop-drop : {A : Type 0} (n k : ℕ) (xs : List A) → drop k (drop n xs) ≡ drop (n + k) xs
drop-drop zero k xs = ground arith
drop-drop (suc n) k [] = drop-nil k ∙ sym (drop-nil (suc n + k))
drop-drop (suc n) k (x ∷ xs) =
    drop-drop n k xs ∙ ap (λ m. drop m (x ∷ xs)) {x = suc (n + k)} {y = suc n + k} (omega arith)

any-take_or_drop :
    {A : Type 0} (p : A → Bool) (n : ℕ) (xs : List A)
    → any p xs ≡ (any p (take n xs) || any p (drop n xs))
any-take_or_drop p zero xs = refl
any-take_or_drop p (suc n) [] = refl
any-take_or_drop p (suc n) (x ∷ xs) = ground (arith, any-take_or_drop p n xs)

any-no_items : {A : Type 0} (p : A → Bool) (xs : List A) → length xs ≡ 0 → any p xs ≡ false
any-no_items p [] h = refl
any-no_items p (x ∷ xs) h = absurd (omega (arith, h))

module _ {Found : Type 0} (search : ℕ → ℕ → SearchReply Found) (lim : ℕ) (xs : List Found) where
  -- The server holds these entities, and replies with the page of them that is asked for, without a count.
  pub record IsPage (offset : ℕ) : Type 0 where
    pub payload : Payload Found
    pub replies : payload_of (search lim offset) ≡ some payload
    pub uncounted : payload.approximate_count ≡ none
    pub page : normalize_entities payload.entities ≡ take lim (drop offset xs)

  module _ (serves : (offset : ℕ) → IsPage offset) (positive : 0 < lim) where
    page_length :
        (offset : ℕ)
        → length (normalize_entities (serves offset).payload.entities)
          ≡ min lim (length xs - offset)
    page_length offset =
        ap length (serves offset).page
        ∙ length-take lim (drop offset xs)
        ∙ ap (min lim) (length-drop offset xs)

    count_loop_all :
        (fuel offset total : ℕ)
        → length xs - offset < fuel
        → count_loop search fuel lim offset total ≡ total + (length xs - offset)
    unfolding count_loop
    count_loop_all zero offset total enough = absurd (omega (arith, enough))
    count_loop_all (suc fuel) offset total enough =
        let p = serves offset in
        let n = length (normalize_entities p.payload.entities) in
        elim (Bool-cases (ltb n lim)) [
          | inl last ↦ ground (arith, p.replies, last, page_length offset)
          | inr full ↦ ground (
            arith,
            p.replies,
            full,
            page_length offset,
            count_loop_all fuel (offset + lim) (total + n)
                (ground (arith, enough, positive, full, page_length offset)),
          )
        ]

    -- Where the server holds some entities and replies with the page that is asked for, without a count,
    -- `search_basic_count` adds the pages up to the number of the entities, with any fuel above it.
    pub search_basic_count_all :
        (fuel : ℕ) → length xs < fuel → search_basic_count search fuel lim ≡ some (length xs)
    unfolding search_basic_count
    search_basic_count_all fuel enough =
        let p = serves 0 in
        let n = length (normalize_entities p.payload.entities) in
        elim (Bool-cases (ltb n lim)) [
          | inl last ↦ ground (arith, p.replies, p.uncounted, last, page_length 0)
          | inr full ↦ ground (
            arith,
            p.replies,
            p.uncounted,
            full,
            page_length 0,
            count_loop_all fuel lim n (ground (arith, enough)),
          )
        ]

    any-pages :
        (predicate : Found → Bool) (offset : ℕ)
        → any predicate (drop offset xs) ≡ (
            any predicate (normalize_entities (serves offset).payload.entities)
            || any predicate (drop (offset + lim) xs))
    any-pages predicate offset = ground (
      arith,
      any-take_or_drop predicate lim (drop offset xs),
      ap (any predicate) (serves offset).page,
      ap (any predicate) (drop-drop offset lim xs),
    )

    any-behind_last :
        (predicate : Found → Bool) (offset : ℕ)
        → length (normalize_entities (serves offset).payload.entities) < lim
        → any predicate (drop (offset + lim) xs) ≡ false
    any-behind_last predicate offset last =
        any-no_items predicate (drop (offset + lim) xs)
          (length-drop (offset + lim) xs ∙ omega (arith, page_length offset, last))

    -- The search for a name finds one exactly if an entity on some page has it.
    pub qualname_matches-any :
        (predicate : Found → Bool) (fuel offset : ℕ)
        → length xs - offset < fuel
        → qualname_matches search predicate fuel lim offset ≡ any predicate (drop offset xs)
    unfolding qualname_matches
    qualname_matches-any predicate zero offset enough = absurd (omega (arith, enough))
    qualname_matches-any predicate (suc fuel) offset enough =
        let p = serves offset in
        let chunk = normalize_entities p.payload.entities in
        let both = any-pages predicate offset in
        elim (Bool-cases (length chunk == 0)) [
          | inl empty ↦ ground (
            arith,
            p.replies,
            empty,
            both,
            any-no_items predicate chunk (ground (arith, empty)),
            any-behind_last predicate offset (ground (arith, empty, positive)),
          )
          | inr some_found ↦ elim (Bool-cases (any predicate chunk)) [
            | inl here ↦ ground (arith, p.replies, some_found, here, both)
            | inr absent ↦ elim (Bool-cases (ltb (length chunk) lim)) [
              | inl last ↦ ground (
                arith,
                p.replies,
                some_found,
                absent,
                last,
                both,
                any-behind_last predicate offset (ground (arith, last)),
              )
              | inr full ↦ ground (
                arith,
                p.replies,
                some_found,
                absent,
                full,
                both,
                qualname_matches-any predicate fuel (offset + lim)
                    (ground (arith, enough, positive, full, page_length offset)),
              )
            ]
          ]
        ]
