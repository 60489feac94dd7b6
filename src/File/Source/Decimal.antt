-- ===== src/File/Source/Decimal.antt =====
-- The conversion of a position to a text and back.
use indigo.Prelude.{
  ℕ, zero, suc, ◌+◌, ◌*◌, ◌/◌, ◌%◌, ◌^◌, ◌≤◌, ◌<◌, ◌≡◌, refl, ap, ◌∙◌, subst, true, false, List, [],
  ◌∷◌, ◌++◌, ◌==◌, leb, append-nil, take, arith, Bool-cases, inl, inr, length, length-snoc,
  take_all, min,
}
use indigo.Prelude.Bytes.{isdigit, decimal_from, decimal}
use indigo.Prelude.Int.{pos, negsuc}
use indigo.Parser.Digits.{read-decimal_from}
use indigo.Stamp.{decimal_ℤ}
use indigo.File.Source.{digits_value, signed_value, strtoll, format_pos, isspace}

-- a digit is read
digits_value-digit :
    (k d : ℕ) (rest : List ℕ)
    → d ≤ 9
    → digits_value k ((b'0' + d) ∷ rest) ≡ digits_value (k * 10 + d) rest
unfolding digits_value
digits_value-digit k d rest h = rw is_digit (ap (λ k. digits_value k rest) (omega arith))
  where
    is_digit : isdigit (48 + d) ≡ true
    is_digit = ground arith

-- a number starts with a digit
decimal_from-head :
    (fuel n : ℕ)
    → n < fuel
    → (d : ℕ) × (rest : List ℕ) × (d ≤ 9) × (decimal_from fuel n ≡ (b'0' + d) ∷ rest)
unfolding decimal_from
decimal_from-head zero n h = absurd (omega arith)
decimal_from-head (suc fuel) n h = elim (Bool-cases (leb n 9)) [
  | inl small ↦ rw small (n, [], ground arith, refl)
  | inr big ↦ rw big (
      let (d, rest, low, e) = decimal_from-head fuel (n / 10) (ground arith) in
      (d, rest ++ (48 + n % 10) ∷ [], low, ap (λ xs. xs ++ (48 + n % 10) ∷ []) e))
]

-- a number below 10 ^ suc k has suc k digits at most
decimal_from-length : (fuel k n : ℕ) → n < 10 ^ suc k → length (decimal_from fuel n) ≤ suc k
unfolding decimal_from
decimal_from-length zero k n h = omega arith
decimal_from-length (suc fuel) zero n h = rw one (omega arith)
  where
    one : leb n 9 ≡ true
    one = ground arith
decimal_from-length (suc fuel) (suc k) n h = elim (Bool-cases (leb n 9)) [
  | inl small ↦ rw small (omega arith)
  | inr big ↦
      rw (big, length-snoc (decimal_from fuel (n / 10)) (48 + n % 10))
        (omega (arith, decimal_from-length fuel k (n / 10) (omega arith)))
]

strtoll-digit :
    (d : ℕ) (rest : List ℕ)
    → d ≤ 9
    → strtoll ((b'0' + d) ∷ rest)
      ≡ pos (min (digits_value 0 ((b'0' + d) ∷ rest)) 9223372036854775807)
unfolding strtoll signed_value
strtoll-digit d rest h = rw (not_space, not_minus, not_plus) refl
  where
    not_space : isspace (48 + d) ≡ false
    not_space = ground arith

    not_minus : (48 + d == 45) ≡ false
    not_minus = ground arith

    not_plus : (48 + d == 43) ≡ false
    not_plus = ground arith

-- strtoll reads what a position of an off_t was printed as.
pub strtoll-format_pos : (n : ℕ) → n ≤ 9223372036854775807 → strtoll (format_pos (pos n)) ≡ pos n
unfolding format_pos decimal_ℤ decimal digits_value
strtoll-format_pos n h =
    let (d, rest, low, e) = decimal_from-head (n + 1) n (omega arith) in
    let whole : take 31 (decimal n) ≡ decimal n =
      take_all 31 (decimal n) (omega (arith, decimal_from-length (n + 1) 18 n (omega arith))) in
    let value : digits_value 0 ((b'0' + d) ∷ rest) ≡ n =
      subst (λ t. digits_value 0 t ≡ n) e
        (subst (λ t. digits_value 0 t ≡ n) (append-nil (decimal n))
          (read-decimal_from digits_value digits_value-digit (n + 1) n [] (omega arith)
            ∙ digits_value-nil n)) in
    let fits : min (digits_value 0 ((b'0' + d) ∷ rest)) 9223372036854775807 ≡ n =
      ap (λ k. min k 9223372036854775807) value ∙ ground arith in
    ap strtoll (whole ∙ e) ∙ strtoll-digit d rest low ∙ ap pos fits
  where
    digits_value-nil : (n : ℕ) → digits_value n [] ≡ n
    digits_value-nil n = refl

-- a failed lseek is read back as -1
pub strtoll-failed : strtoll (format_pos (negsuc 0)) ≡ negsuc 0
unfolding strtoll format_pos signed_value digits_value decimal_ℤ decimal decimal_from
strtoll-failed = refl
