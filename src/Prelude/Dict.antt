-- ===== src/Prelude/Dict.antt =====
-- Python's `dict` as an association list: one entry for each key, new keys at the end.
use Prim.Native.Nat.{ℕ}
use Prim.Native.String.{String}
use mathlib.Core.Path.{◌≡◌, refl}
use mathlib.Core.Logic.{◌↔◌}
use mathlib.Core.Bool.{Bool, true}
use mathlib.Core.Option.{Option, none, some}
use mathlib.Core.List.{List, [], ◌∷◌}
use native.Mathlib.Omega.{arith}
use text.Mathlib.TextEquality.{eq_iff}
use data_ops_showcase.Prelude.Tests.{◌==◌, ==_iff, str_eq, if◌then◌else◌}

-- What a key type needs: a test that decides equality.
pub record Key {ℓ} (K : Type ℓ) : Type ℓ where
  pub same : K → K → Bool
  pub same_iff : (a b : K) → (same a b ≡ true) ↔ (a ≡ b)

instance abbrev pub nat_key : Key ℕ
nat_key = record { same = ◌==◌; same_iff = ==_iff }

instance abbrev pub string_key : Key String
string_key = record { same = str_eq; same_iff = eq_iff }

abbrev pub Dict {ℓ κ} : Type ℓ → Type κ → Type (ℓ ⊔ κ)
Dict K V = List (K × V)

abbrev pub or_else {κ} : {V : Type κ} → Option V → Option V → Option V
or_else none e = e
or_else (some v) e = some v

module _ {ℓ κ} {K : Type ℓ} {V : Type κ} ⦃k : Key K⦄ where
  -- `d.get(key)`
  abbrev pub lookup : K → Dict K V → Option V
  lookup key [] = none
  lookup key ((j, v) ∷ d) = if k.same j key then some v else lookup key d

  -- `d[key] = v`
  abbrev pub insert : K → V → Dict K V → Dict K V
  insert key v [] = (key, v) ∷ []
  insert key v ((j, w) ∷ d) = if k.same j key then (j, v) ∷ d else (j, w) ∷ insert key v d

  -- `{**d, **e}`: the entries of `e` are written over those of `d`, in order.
  abbrev pub merge : Dict K V → Dict K V → Dict K V
  merge d [] = d
  merge d ((j, v) ∷ e) = merge (insert j v d) e

  pub lookup-insert :
      (key j : K) (v : V) (d : Dict K V)
      → lookup j (insert key v d) ≡ (if k.same key j then some v else lookup j d)
  lookup-insert key j v [] = refl
  lookup-insert key j v ((i, w) ∷ d) =
      ground (arith, k.same_iff key j, k.same_iff i key, k.same_iff i j, lookup-insert key j v d)

  -- The keys of a dict are distinct; `insert` and `merge` keep that.
  abbrev pub HasDistinctKeys : Dict K V → Type κ
  HasDistinctKeys [] = Unit
  HasDistinctKeys ((j, v) ∷ d) = (lookup j d ≡ none) × HasDistinctKeys d

  pub insert-HasDistinctKeys :
      (key : K) (v : V) (d : Dict K V) → HasDistinctKeys d → HasDistinctKeys (insert key v d)
  insert-HasDistinctKeys key v [] h = (refl, tt)
  insert-HasDistinctKeys key v ((i, w) ∷ d) (fresh, h) = ground (
    arith,
    lookup-insert key i v d,
    insert-HasDistinctKeys key v d h,
    k.same_iff i key,
    k.same_iff key i,
  )

  pub lookup-merge :
      (j : K) (d e : Dict K V)
      → HasDistinctKeys e
      → lookup j (merge d e) ≡ or_else (lookup j e) (lookup j d)
  lookup-merge j d [] h = refl
  lookup-merge j d ((i, v) ∷ e) (fresh, h) =
      ground (arith, lookup-merge j (insert i v d) e h, lookup-insert i j v d, k.same_iff i j)
