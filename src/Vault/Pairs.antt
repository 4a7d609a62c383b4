-- ===== src/Vault/Pairs.antt =====
-- The two keys of the link: a table whose rows have the key of their pair, and no key twice, has no
-- pair twice.
use data_ops_showcase.Storage.{has_key}
use data_ops_showcase.Vault.{same_pair, repeats, link_key, LinkRow}
use data_ops_showcase.Prelude.Dict.{string_key, Key}
use data_ops_showcase.Storage.Insert.{add_missing}
use data_ops_showcase.Prelude.{
  sym, ap, ◌∙◌, any-append, str_eq, false, any, str_eq_iff, refl, inr, inl, [], Bool-cases, arith,
  ◌∷◌, ◌++◌, ◌≡◌, true, all, List, String, Bool,
}

all-append :
    {A : Type 0} (p : A → Bool) (xs ys : List A)
    → all p xs ≡ true
    → all p ys ≡ true
    → all p (xs ++ ys) ≡ true
all-append p [] ys h g = g
all-append p (x ∷ xs) ys h g = ground (arith, h, all-append p xs ys (ground (arith, h)) g)

pub all-add_missing :
    {K R : Type 0} ⦃k : Key K⦄ (key : R → K) (p : R → Bool) (rows t : List R)
    → all p rows ≡ true
    → all p t ≡ true
    → all p (add_missing key rows t) ≡ true
unfolding add_missing
all-add_missing key p [] t h g = g
all-add_missing key p (r ∷ rows) t h g = elim (Bool-cases (has_key key (key r) t)) [
  | inl there ↦ ground (arith, there, all-add_missing key p rows t (ground (arith, h)) g)
  | inr new ↦ ground (
    arith,
    new,
    all-add_missing key p rows (t ++ r ∷ []) (ground (arith, h))
        (all-append p t (r ∷ []) g (ground (arith, h))),
  )
]

abbrev pub same_link_hk : LinkRow → LinkRow → Bool
same_link_hk a b = str_eq a.link_hk b.link_hk

repeats-append_one :
    (t : List LinkRow) (r : LinkRow)
    → repeats same_link_hk t ≡ false
    → has_key link_key (link_key r) t ≡ false
    → repeats same_link_hk (t ++ r ∷ []) ≡ false
unfolding repeats has_key
repeats-append_one [] r h new = ground arith
repeats-append_one (x ∷ t) r h new = ground (
  arith,
  h,
  new,
  any-append (same_link_hk x) t (r ∷ []),
  str_eq_iff x.link_hk r.link_hk,
  str_eq_iff r.link_hk x.link_hk,
  repeats-append_one t r (ground (arith, h)) (ground (arith, new)),
)

-- The primary key stays one.
pub repeats-add_missing :
    (rows t : List LinkRow)
    → repeats same_link_hk t ≡ false
    → repeats same_link_hk (add_missing link_key rows t) ≡ false
unfolding add_missing
repeats-add_missing [] t h = h
repeats-add_missing (r ∷ rows) t h = elim (Bool-cases (has_key link_key (link_key r) t)) [
  | inl there ↦ ground (arith, there, repeats-add_missing rows t h)
  | inr new ↦
      ground (arith, new, repeats-add_missing rows (t ++ r ∷ []) (repeats-append_one t r h new))
]

module _ (link_for : String → String → String) where
  -- The key of a link is the one of its two hub keys.
  abbrev pub names_pair : LinkRow → Bool
  names_pair r = str_eq r.link_hk (link_for r.customer_hk r.order_hk)

  same_pair-same_link_hk :
      (a b : LinkRow)
      → names_pair a ≡ true
      → names_pair b ≡ true
      → same_pair a b ≡ true
      → same_link_hk a b ≡ true
  same_pair-same_link_hk a b ha hb h =
      let customers = (str_eq_iff a.customer_hk b.customer_hk).0 (ground (arith, h)) in
      let orders = (str_eq_iff a.order_hk b.order_hk).0 (ground (arith, h)) in
      (str_eq_iff a.link_hk b.link_hk).1 (
        (str_eq_iff a.link_hk (link_for a.customer_hk a.order_hk)).0 ha
        ∙ ap (λ x. link_for x a.order_hk) customers
        ∙ ap (link_for b.customer_hk) orders
        ∙ sym ((str_eq_iff b.link_hk (link_for b.customer_hk b.order_hk)).0 hb))

  any-same_pair :
      (r : LinkRow) (t : List LinkRow)
      → names_pair r ≡ true
      → all names_pair t ≡ true
      → any (same_link_hk r) t ≡ false
      → any (same_pair r) t ≡ false
  any-same_pair r [] hr h new = refl
  any-same_pair r (x ∷ t) hr h new = elim (Bool-cases (same_pair r x)) [
    | inl same ↦
        absurd (ground (arith, new, same_pair-same_link_hk r x hr (ground (arith, h)) same))
    | inr apart ↦
        ground (arith, apart, any-same_pair r t hr (ground (arith, h)) (ground (arith, new)))
  ]

  pub repeats-same_pair :
      (t : List LinkRow)
      → all names_pair t ≡ true
      → repeats same_link_hk t ≡ false
      → repeats same_pair t ≡ false
  unfolding repeats
  repeats-same_pair [] h distinct = refl
  repeats-same_pair (r ∷ t) h distinct = ground (
    arith,
    any-same_pair r t (ground (arith, h)) (ground (arith, h)) (ground (arith, distinct)),
    repeats-same_pair t (ground (arith, h)) (ground (arith, distinct)),
  )
