-- ===== src/Prelude/Bytes.antt =====
-- Bytes and texts of C: literals, character classes, and the decimal conversions of printf.
use Prim.Native.String.{String}
use Prim.Native.Char.{code}
use Prim.Native.Nat.{ℕ, zero, suc, ◌+◌, ◌-◌, ◌/◌, ◌%◌, ◌<◌}
use mathlib.Core.Path.{◌≡◌, refl, ap, ◌∙◌}
use mathlib.Core.Bool.{Bool, true, false, ◌&&◌}
use mathlib.Core.List.{List, [], ◌∷◌, ◌++◌}
use native.Mathlib.Omega.{arith}
use native.Mathlib.Nat.{suc-add}
use indigo.Prelude.Tests.{==_refl, leb, ◌==◌, if◌then◌else◌}
use indigo.Prelude.Lists.{length}

-- the bytes of a literal
abbrev pub codes : String → List ℕ
codes String.[] = []
codes (String.◌∷◌ c s) = code c ∷ codes s

abbrev pub isdigit : ℕ → Bool
isdigit c = leb b'0' c && leb c b'9'

-- the byte at an index, 0 behind the end
abbrev pub byte_at : List ℕ → ℕ → ℕ
byte_at [] i = 0
byte_at (c ∷ cs) zero = c
byte_at (c ∷ cs) (suc i) = byte_at cs i

pub byte_at-append : (i : ℕ) (xs ys : List ℕ) → i < length xs → byte_at (xs ++ ys) i ≡ byte_at xs i
byte_at-append i [] ys h = absurd (omega arith)
byte_at-append zero (x ∷ xs) ys h = refl
byte_at-append (suc i) (x ∷ xs) ys h = byte_at-append i xs ys (omega arith)

pub byte_at-behind : (i : ℕ) (xs ys : List ℕ) → byte_at (xs ++ ys) (length xs + i) ≡ byte_at ys i
byte_at-behind i [] ys = ap (byte_at ys) (add_zero i)
  where
    add_zero : (i : ℕ) → 0 + i ≡ i
    add_zero i = omega arith
byte_at-behind i (x ∷ xs) ys =
    ap (byte_at (x ∷ (xs ++ ys))) (suc-add (length xs) i) ∙ byte_at-behind i xs ys

-- memcmp with a literal, where enough bytes are left
abbrev pub starts_with : List ℕ → List ℕ → Bool
starts_with [] cs = true
starts_with (p ∷ ps) [] = false
starts_with (p ∷ ps) (c ∷ cs) = p == c && starts_with ps cs

-- all bytes pass a test
abbrev pub AllBytes : (ℕ → Bool) → List ℕ → Type 0
AllBytes p [] = Unit
AllBytes p (c ∷ cs) = (p c ≡ true) × AllBytes p cs

-- `%d` of a number that is not negative; a number has no more digits than its value and one
unfoldable pub decimal_from : ℕ → ℕ → List ℕ
decimal_from zero n = []
decimal_from (suc fuel) n =
    let rest = decimal_from fuel (n / 10) in
    if leb n 9 then (b'0' + n) ∷ [] else rest ++ (b'0' + n % 10) ∷ []

unfoldable pub decimal : ℕ → List ℕ
unfolding decimal_from
decimal n = decimal_from (n + 1) n

-- `%02d` of a number below 100
abbrev pub two_digits : ℕ → List ℕ
two_digits n = (b'0' + n / 10) ∷ (b'0' + n % 10) ∷ []

-- the same bytes
abbrev pub same : List ℕ → List ℕ → Bool
same [] [] = true
same (a ∷ as') (b ∷ bs) = a == b && same as' bs
same _ _ = false

pub same_refl : (a : List ℕ) → same a a ≡ true
same_refl [] = refl
same_refl (a ∷ as') = rw (==_refl a) (same_refl as')

-- `%x`, as `%d`
unfoldable pub hex_from : ℕ → ℕ → List ℕ
hex_from zero n = []
hex_from (suc fuel) n =
    let rest = hex_from fuel (n / 16) in
    let digit = if leb (n % 16) 9 then b'0' + n % 16 else b'a' + (n % 16 - 10) in
    if leb n 15 then digit ∷ [] else rest ++ digit ∷ []

unfoldable pub hex : ℕ → List ℕ
unfolding hex_from
hex n = hex_from (n + 1) n

-- a number in a field of a width, with zeros in front
abbrev pub zeros : ℕ → List ℕ → List ℕ
zeros zero text = text
zeros (suc w) text = if leb (suc w) (length text) then text else b'0' ∷ zeros w text
