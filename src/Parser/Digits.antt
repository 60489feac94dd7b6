-- ===== src/Parser/Digits.antt =====
-- The priority that a writer prints, read back by the loop of log_msg_parse.
use indigo.Prelude.{
  ℕ, zero, suc, ◌+◌, ◌*◌, ◌/◌, ◌%◌, ◌≤◌, ◌<◌, ◌≡◌, ap, ◌∙◌, true, false, some, List, [], ◌∷◌, ◌++◌,
  ◌==◌, leb, append_assoc, arith, Bool-cases, inl, inr,
}
use indigo.Prelude.Bytes.{isdigit, decimal_from, decimal}
use indigo.Parser.{scan_pri}

-- a digit is read
scan_pri-digit :
    (pri d : ℕ) (rest : List ℕ)
    → d ≤ 9
    → scan_pri pri ((b'0' + d) ∷ rest) ≡ scan_pri (pri * 10 + d) rest
unfolding scan_pri
scan_pri-digit pri d rest h =
    rw (not_end, is_digit) (ap (λ k. scan_pri (pri * 10 + k) rest) (omega arith))
  where
    not_end : (48 + d == 62) ≡ false
    not_end = ground arith

    is_digit : isdigit (48 + d) ≡ true
    is_digit = ground arith

-- what reads a digit as this does reads the digits of a number, to what the number is
pub read-decimal_from :
    {B : Type 0} (f : ℕ → List ℕ → B)
    → ((k d : ℕ) (rest : List ℕ) → d ≤ 9 → f k ((b'0' + d) ∷ rest) ≡ f (k * 10 + d) rest)
    → (fuel n : ℕ) (rest : List ℕ) → n < fuel
    → f 0 (decimal_from fuel n ++ rest) ≡ f n rest
unfolding decimal_from
read-decimal_from f digit zero n rest h = absurd (omega arith)
read-decimal_from f digit (suc fuel) n rest h = elim (Bool-cases (leb n 9)) [
  | inl small ↦ rw small (digit 0 n rest (ground arith) ∙ ap (λ k. f k rest) (omega arith))
  | inr big ↦ rw big (
      ap (f 0) (append_assoc (decimal_from fuel (n / 10)) ((48 + n % 10) ∷ []) rest)
      ∙ read-decimal_from f digit fuel (n / 10) ((48 + n % 10) ∷ rest) (ground arith)
      ∙ digit (n / 10) (n % 10) rest (omega arith)
      ∙ ap (λ k. f k rest) (omega arith))
]

pub scan_pri-decimal :
    (n : ℕ) (rest : List ℕ) → scan_pri 0 (decimal n ++ b'>' ∷ rest) ≡ some (n, rest)
unfolding scan_pri decimal
scan_pri-decimal n rest =
    read-decimal_from scan_pri scan_pri-digit (n + 1) n (b'>' ∷ rest) (omega arith)
