-- ===== src/Macros/Quoted.antt =====
-- Escaped values inside a quoted literal, as a reader takes it that knows backslashes.
use indigo.Prelude.{
  ℕ, ◌+◌, ◌-◌, ◌*◌, ◌/◌, ◌%◌, ◌<◌, ◌≡◌, refl, ap, ◌∙◌, Bool, true, false, ◌&&◌, ◌||◌, Option, none,
  some, List, [], ◌∷◌, ◌++◌, ◌==◌, ltb, leb, append_assoc, arith, Bool-cases, ==_refl, inl, inr,
}
use indigo.Macros.{escaped, escape_all, octal, result_append}

abbrev is_octal : ℕ → Bool
is_octal c = leb b'0' c && leb c b'7'

-- where the reader is: in the text, behind a backslash, behind one and two octal digits
pub data Place : Type 0 where
  text slash : Place
  one two : ℕ → Place

abbrev consed : ℕ → Option (List ℕ × List ℕ) → Option (List ℕ × List ℕ)
consed c none = none
consed c (some (value, rest)) = some (c ∷ value, rest)

-- What a reader of a literal makes of it from behind its opening quote on: the value, and what
-- follows the closing quote. A backslash quotes the next byte, or gives a byte by three octal
-- digits.
pub read_literal : (quote : ℕ) → Place → List ℕ → Option (List ℕ × List ℕ)
read_literal quote p [] = none
read_literal quote text (c ∷ cs) = elim (c == quote) [
  | true ↦ some ([], cs)
  | false ↦ elim (c == 92) [
    | true ↦ read_literal quote slash cs
    | false ↦ consed c (read_literal quote text cs)
  ]
]
read_literal quote slash (c ∷ cs) = elim (is_octal c) [
  | true ↦ read_literal quote (one (c - b'0')) cs
  | false ↦ consed c (read_literal quote text cs)
]
read_literal quote (one n) (c ∷ cs) = elim (is_octal c) [
  | true ↦ read_literal quote (two (n * 8 + (c - b'0'))) cs
  | false ↦ none
]
read_literal quote (two n) (c ∷ cs) = elim (is_octal c) [
  | true ↦ consed (n * 8 + (c - b'0')) (read_literal quote text cs)
  | false ↦ none
]

read_literal-quoted :
    (quote c : ℕ) (cs : List ℕ)
    → (quote == 92) ≡ false
    → is_octal c ≡ false
    → read_literal quote text (92 ∷ c ∷ cs) ≡ consed c (read_literal quote text cs)
unfolding read_literal
read_literal-quoted quote c cs h o = rw (read_literal, other, o) refl
  where
    other : (92 == quote) ≡ false
    other = ground arith

read_literal-octal :
    (quote c : ℕ) (cs : List ℕ)
    → (quote == 92) ≡ false
    → c < 32
    → read_literal quote text (92 ∷ (octal c ++ cs)) ≡ consed c (read_literal quote text cs)
unfolding read_literal
read_literal-octal quote c cs h l =
    rw
      (
        read_literal,
        other,
        digit (c / 64) (omega arith),
        digit (c / 8 % 8) (omega arith),
        digit (c % 8) (omega arith),
      )
      (ap (λ n. consed n (read_literal quote text cs)) (omega arith))
  where
    other : (92 == quote) ≡ false
    other = ground arith

    digit : (d : ℕ) → d < 8 → is_octal (48 + d) ≡ true
    digit d h = ground arith

read_literal-escaped :
    (quote c : ℕ) (cs : List ℕ)
    → (quote == 39 || quote == b'"') ≡ true
    → read_literal quote text (escaped c ++ cs) ≡ consed c (read_literal quote text cs)
unfolding read_literal
read_literal-escaped quote c cs h = elim (Bool-cases (c == 39 || (c == b'"' || c == 92))) [
  | inl special ↦ rw special (read_literal-quoted quote c cs (ground arith) (ground arith))
  | inr plain ↦ elim (Bool-cases (ltb c b' ')) [
    | inl control ↦
        rw (plain, control) (read_literal-octal quote c cs (ground arith) (ground arith))
    | inr printed ↦ rw (plain, printed) (kept (ground arith) (ground arith))
  ]
]
  where
    kept :
        (c == quote) ≡ false
        → (c == 92) ≡ false
        → read_literal quote text (c ∷ cs) ≡ consed c (read_literal quote text cs)
    kept a b = rw (read_literal, a, b) refl

-- Whatever bytes a macro's value has, the escaped value put between quotes of either kind is read
-- back as the value itself, and the literal ends at the closing quote and not before.
pub read_literal-result_append :
    (quote : ℕ) (value rest : List ℕ)
    → (quote == 39 || quote == b'"') ≡ true
    → read_literal quote text (result_append value true ++ quote ∷ rest) ≡ some (value, rest)
unfolding result_append read_literal
read_literal-result_append quote [] rest h = rw (read_literal, ==_refl quote) refl
read_literal-result_append quote (c ∷ cs) rest h =
    ap (read_literal quote text) (append_assoc (escaped c) (escape_all cs) (quote ∷ rest))
    ∙ read_literal-escaped quote c (escape_all cs ++ quote ∷ rest) h
    ∙ ap (consed c) (read_literal-result_append quote cs rest h)
