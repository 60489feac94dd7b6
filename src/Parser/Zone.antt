-- ===== src/Parser/Zone.antt =====
-- The zone offset and the fraction of an ISO stamp, printed by src/misc.c and src/logmsg.c and read
-- back by log_msg_parse.
use indigo.Prelude.{
  ℕ, suc, ◌+◌, ◌*◌, ◌/◌, ◌%◌, ◌≤◌, ◌<◌, ◌≡◌, refl, ap, ◌∙◌, Bool, true, false, some, List, ◌∷◌,
  ◌++◌, ltb, if◌then◌else◌, arith,
}
use indigo.Prelude.Bytes.{isdigit, two_digits}
use indigo.Prelude.Int.{ℤ, pos, negsuc, ◌-ℤ◌, eq_of_parts}
use indigo.Stamp.{padded, zone_minutes, format_zone_info, frac_loop, powers}
use indigo.Parser.Date.{read_frac, usec_of, read_zone, signed}

isdigit-add : (d : ℕ) → d ≤ 9 → isdigit (b'0' + d) ≡ true
isdigit-add d h = ground arith

-- the six bytes of an offset
abbrev zone_text : Bool → (hours mins : ℕ) → List ℕ
zone_text minus hours mins =
    (if minus then b'-' else b'+') ∷ (two_digits hours ++ b':' ∷ two_digits mins)

read_zone-zone_text :
    (minus : Bool) (hours mins : ℕ)
    → hours < 100
    → mins < 60
    → read_zone (zone_text minus hours mins) ≡ some (signed minus (hours * 3600 + mins * 60))
unfolding read_zone
read_zone-zone_text true hours mins h m =
    rw
      (
        isdigit-add (hours / 10) (omega arith),
        isdigit-add (hours % 10) (omega arith),
        isdigit-add (mins / 10) (omega arith),
        isdigit-add (mins % 10) (omega arith),
      )
      (ap (λ n. some (signed true n)) (omega arith))
read_zone-zone_text false hours mins h m =
    rw
      (
        isdigit-add (hours / 10) (omega arith),
        isdigit-add (hours % 10) (omega arith),
        isdigit-add (mins / 10) (omega arith),
        isdigit-add (mins % 10) (omega arith),
      )
      (ap (λ n. some (signed false n)) (omega arith))

-- an offset of less than 100 hours, of whole minutes if it lies east of Greenwich and of whole
-- hours if west
abbrev pub IsZone : ℤ → Type 0
IsZone (pos n) = (n < 360000) × (n % 60 ≡ 0)
IsZone (negsuc n) = (n + 1 < 360000) × ((n + 1) % 3600 ≡ 0)

minutes_west : (n : ℕ) → (n + 1) % 3600 ≡ 0 → zone_minutes (negsuc n) ≡ pos 0
unfolding zone_minutes ◌-ℤ◌
minutes_west n h = rw h refl

format_east : (n : ℕ) → format_zone_info (pos n) ≡ zone_text false (n / 3600) (n % 3600 / 60)
unfolding format_zone_info padded zone_minutes
format_east n = rw (plus, size) refl
  where
    plus : ltb (n + 0) (0 + 0) ≡ false
    plus = ground arith

    size : n + 0 ≡ n
    size = omega arith

format_west :
    (n : ℕ) → (n + 1) % 3600 ≡ 0 → format_zone_info (negsuc n) ≡ zone_text true ((n + 1) / 3600) 0
unfolding format_zone_info padded
format_west n h = rw (minus, minutes_west n h, size) refl
  where
    minus : ltb (0 + 0) (0 + suc n) ≡ true
    minus = ground arith

    size : 0 + suc n ≡ n + 1
    size = omega arith

-- A zone offset of less than 100 hours, of whole minutes if it lies east of Greenwich and of whole
-- hours if west, is read back as it was printed.
pub read_zone-format_zone_info : (z : ℤ) → IsZone z → read_zone (format_zone_info z) ≡ some z
unfolding ◌-ℤ◌
read_zone-format_zone_info (pos n) (small, whole) = rw (format_east n) (
    read_zone-zone_text false (n / 3600) (n % 3600 / 60) (omega arith) (omega arith)
    ∙ ap (λ k. some (pos k)) (omega arith))
read_zone-format_zone_info (negsuc n) (small, whole) = rw (format_west n whole) (
    read_zone-zone_text true ((n + 1) / 3600) 0 (omega arith) (omega arith)
    ∙ ap some
        (eq_of_parts (signed true ((n + 1) / 3600 * 3600 + 0 * 60)) (negsuc n) (ground arith)))

-- a digit that is printed
is_digit : (d : ℕ) → d ≤ 9 → isdigit (d + b'0') ≡ true
is_digit d h = ground arith

usec_of-digits :
    (a b c d e f : ℕ) (rest : List ℕ)
    → a ≤ 9
    → b ≤ 9
    → c ≤ 9
    → d ≤ 9
    → e ≤ 9
    → f ≤ 9
    → usec_of ((a + b'0') ∷ (b + b'0') ∷ (c + b'0') ∷ (d + b'0') ∷ (e + b'0') ∷ (f + b'0') ∷ rest)
      ≡ (a * 100000 + b * 10000 + c * 1000 + d * 100 + e * 10 + f, rest)
unfolding usec_of read_frac
usec_of-digits a b c d e f rest ha hb hc hd he hf =
    rw (is_digit a ha, is_digit b hb, is_digit c hc, is_digit d hd, is_digit e he, is_digit f hf)
      (ap (λ n. (n, rest)) (omega arith))

-- The six digits that are printed of a number of microseconds are read back as that number.
pub usec_of-frac_loop :
    (usec : ℕ) (rest : List ℕ)
    → usec < 1000000
    → usec_of (frac_loop powers 6 usec ++ rest) ≡ (usec, rest)
unfolding frac_loop
usec_of-frac_loop usec rest h =
    usec_of-digits (usec / 100000) (usec % 100000 / 10000) (usec % 100000 % 10000 / 1000)
      (usec % 100000 % 10000 % 1000 / 100) (usec % 100000 % 10000 % 1000 % 100 / 10)
      (usec % 100000 % 10000 % 1000 % 100 % 10 / 1) rest (omega arith) (omega arith) (omega arith)
      (omega arith) (omega arith) (omega arith)
    ∙ ap (λ n. (n, rest)) (omega arith)
