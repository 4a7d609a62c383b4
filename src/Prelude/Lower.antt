-- ===== src/Prelude/Lower.antt =====
-- Python's `str.lower`, on ASCII letters; other characters are kept.
use Prim.Native.Nat.{ℕ, ◌+◌}
use Prim.Native.Char.{Char, char, IsScalar}
use Prim.Native.String.{String}
use mathlib.Core.Path.{◌≡◌, refl, ap₂}
use mathlib.Core.Bool.{Bool, true, false, ◌&&◌}
use native.Mathlib.Omega.{arith}
use data_ops_showcase.Prelude.Tests.{leb}

abbrev is_upper : ℕ → Bool
is_upper n = leb 65 n && leb n 90

pub IsScalar-of_upper : (n : ℕ) → is_upper n ≡ true → IsScalar (n + 32)
IsScalar-of_upper n h = ground arith

abbrev lower_if : (n : ℕ) → IsScalar n → (b : Bool) → is_upper n ≡ b → Char
lower_if n p true h = char (n + 32) (IsScalar-of_upper n h)
lower_if n p false h = char n p

abbrev lower_char : Char → Char
lower_char (char n p) = lower_if n p (is_upper n) refl

unfoldable pub lower : String → String
lower String.[] = ""
lower (String.◌∷◌ c s) = String.◌∷◌ (lower_char c) (lower s)

lower_if_low :
    (n : ℕ) (p : IsScalar n) (b : Bool) (h : is_upper n ≡ b)
    → b ≡ false
    → lower_if n p b h ≡ char n p
lower_if_low n p true h e = absurd (ground arith)
lower_if_low n p false h e = refl

lower_if_twice :
    (n : ℕ) (p : IsScalar n) (b : Bool) (h : is_upper n ≡ b)
    → lower_char (lower_if n p b h) ≡ lower_if n p b h
lower_if_twice n p true h =
    lower_if_low (n + 32) (IsScalar-of_upper n h) (is_upper (n + 32)) refl (ground arith)
lower_if_twice n p false h = lower_if_low n p (is_upper n) refl h

lower_char_twice : (c : Char) → lower_char (lower_char c) ≡ lower_char c
lower_char_twice (char n p) = lower_if_twice n p (is_upper n) refl

pub lower-lower : (s : String) → lower (lower s) ≡ lower s
unfolding lower
lower-lower String.[] = refl
lower-lower (String.◌∷◌ c s) = ap₂ String.◌∷◌ (lower_char_twice c) (lower-lower s)

lower_example : lower "Running-OK" ≡ "running-ok"
unfolding lower
lower_example = refl
