-- ===== src/Portal/Services/Probes.antt =====
-- The rows of the table of services, and the order in which the probes complete.
use data_ops_showcase.Prelude.Dict.{string_key, lookup-insert, insert, lookup, Dict}
use data_ops_showcase.Portal.Catalog.Parts.{HasNoRepeat}
use data_ops_showcase.Portal.{Snapshot, Reply}
use data_ops_showcase.Portal.Services.{
  result_of, service_row, build_service_rows, probe_ok_of, probe_text, gather, Keyed, keyed_of,
}
use data_ops_showcase.Portal.Catalog.{Entry}
use data_ops_showcase.Prelude.{
  ap, ap₂, inr, refl, inl, some, str_eq_iff, Bool-cases, none, [], arith, false, true,
  if◌then◌else◌, not, ◌&&◌, Option, map, ◌≡◌, Bool, str_eq, ◌∷◌, any, List, String,
}

-- Each future completes once: a test finds something among the completed just if it does before.
abbrev pub IsReordering : (Keyed → Keyed) → Type 0
IsReordering completed =
    (xs : Keyed) (test : String × String → Bool) → any test (completed xs) ≡ any test xs

abbrev is_probe : String → String → String × String → Bool
is_probe id url p = str_eq p.0 id && str_eq p.1 url

abbrev is_other : String → String → String × String → Bool
is_other id url p = str_eq p.0 id && not (str_eq p.1 url)

module _ (reply : String → Reply) (id url : String) where
  gather_keeps :
      (ps : Keyed) (out : Dict String (Option Bool))
      → any (is_other id url) ps ≡ false
      → lookup id out ≡ some (result_of reply url)
      → lookup id (gather reply ps out) ≡ some (result_of reply url)
  unfolding gather
  gather_keeps [] out h e = e
  gather_keeps ((i, u) ∷ ps) out h e =
      gather_keeps ps (insert i (result_of reply u) out) (ground (arith, h))
        (ground (arith, h, e, lookup-insert i id (result_of reply u) out, str_eq_iff u url))

  lookup-gather :
      (ps : Keyed) (out : Dict String (Option Bool))
      → any (is_other id url) ps ≡ false
      → any (is_probe id url) ps ≡ true
      → lookup id (gather reply ps out) ≡ some (result_of reply url)
  unfolding gather
  lookup-gather [] out h g = absurd (ground arith)
  lookup-gather ((i, u) ∷ ps) out h g = elim (Bool-cases (is_probe id url (i, u))) [
    | inl here ↦
        gather_keeps ps (insert i (result_of reply u) out) (ground (arith, h))
          (ground (arith, here, lookup-insert i id (result_of reply u) out, str_eq_iff u url))
    | inr there ↦
        lookup-gather ps (insert i (result_of reply u) out) (ground (arith, h))
          (ground (arith, there, g))
  ]

-- The ids of the addresses to probe are among those of the entries.
other_fresh :
    (id url : String) (es : List Entry)
    → any (str_eq id) (map (λ (x : Entry). x.id) es) ≡ false
    → any (is_other id url) (keyed_of es) ≡ false
unfolding keyed_of
other_fresh id url [] h = refl
other_fresh id url (x ∷ es) h =
    ground (arith, h, other_fresh id url es, str_eq_iff id x.id, str_eq_iff x.id id)

-- `e` is one of the entries.
pub data Among (e : Entry) : List Entry → Type 0 where
  here : {es : List Entry} → Among e (e ∷ es)
  there : {x : Entry} {es : List Entry} → Among e es → Among e (x ∷ es)

Among-id :
    {e : Entry} {es : List Entry}
    → Among e es
    → any (str_eq e.id) (map (λ (x : Entry). x.id) es) ≡ true
Among-id {e} here = ground (arith, str_eq_iff e.id e.id)
Among-id (there a) = ground (arith, Among-id a)

probe-Among :
    {e : Entry} {es : List Entry}
    → Among e es
    → str_eq (probe_text e) "" ≡ false
    → any (is_probe e.id (probe_text e)) (keyed_of es) ≡ true
unfolding keyed_of
probe-Among {e} here h =
    ground (arith, h, str_eq_iff e.id e.id, str_eq_iff (probe_text e) (probe_text e))
probe-Among (there a) h = ground (arith, h, probe-Among a h)

no_other :
    {e : Entry} {es : List Entry}
    → Among e es
    → HasNoRepeat (map (λ (x : Entry). x.id) es)
    → any (is_other e.id (probe_text e)) (keyed_of es) ≡ false
unfolding keyed_of
no_other {e} (here {es}) (fresh, rest) =
    ground
      (arith, other_fresh e.id (probe_text e) es fresh, str_eq_iff (probe_text e) (probe_text e))
no_other {e} (there {x} {es} a) (fresh, rest) =
    ground (arith, fresh, no_other a rest, Among-id a, str_eq_iff x.id e.id)

-- The probe of one entry, by itself.
abbrev pub own_probe : (String → Reply) → Entry → Option Bool
own_probe reply e = if str_eq (probe_text e) "" then none else result_of reply (probe_text e)

module _ (inits : List String) (reply : String → Reply) (completed : Keyed → Keyed)
    (reorders : IsReordering completed) (snap : Snapshot) (entries : List Entry)
    (differ : HasNoRepeat (map (λ (x : Entry). x.id) entries)) where
  probe_ok_of-own :
      (e : Entry)
      → Among e entries
      → probe_ok_of (gather reply (completed (keyed_of entries)) []) e ≡ own_probe reply e
  unfolding probe_ok_of
  probe_ok_of-own e a = elim (Bool-cases (str_eq (probe_text e) "")) [
    | inl silent ↦ ground (arith, silent)
    | inr asks ↦ ground (
      arith,
      asks,
      lookup-gather reply e.id (probe_text e) (completed (keyed_of entries)) [],
      reorders (keyed_of entries) (is_other e.id (probe_text e)),
      reorders (keyed_of entries) (is_probe e.id (probe_text e)),
      no_other a differ,
      probe-Among a asks,
    )
  ]

  map-Among :
      (es : List Entry)
      → ((e : Entry) → Among e es → Among e entries)
      → map
          (λ e.
            service_row inits snap e
              (probe_ok_of (gather reply (completed (keyed_of entries)) []) e))
          es
        ≡ map (λ e. service_row inits snap e (own_probe reply e)) es
  map-Among [] h = refl
  map-Among (x ∷ es) h =
      ap₂ ◌∷◌ (ap (service_row inits snap x) (probe_ok_of-own x (h x here)))
        (map-Among es (λ e a. h e (there a)))

  -- Where the ids of the entries differ, each row shows the probe of its own address, in whatever order
  -- the probes complete.
  pub build_service_rows_lem :
      build_service_rows inits reply completed entries snap
      ≡ map (λ e. service_row inits snap e (own_probe reply e)) entries
  unfolding build_service_rows
  build_service_rows_lem = map-Among entries (λ e a. a)
