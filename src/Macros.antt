-- ===== src/Macros.antt =====
-- src/macros.c: the escaping of a macro's value, the table of macros, and what a macro expands to.
pub mod Table
pub mod Expand
pub mod Quoted
pub mod Escaped
pub mod Statements
mod Tests
use indigo.Prelude.{
  ℕ, ◌+◌, ◌/◌, ◌%◌, Bool, true, false, ◌||◌, List, [], ◌∷◌, ◌++◌, ◌==◌, ltb, if◌then◌else◌,
}

-- `%03o` of a byte
abbrev pub octal : ℕ → List ℕ
octal c = (b'0' + c / 64) ∷ (b'0' + c / 8 % 8) ∷ (b'0' + c % 8) ∷ []

-- what result_append makes of a byte
abbrev pub escaped : ℕ → List ℕ
escaped c =
    if c == 39 || (c == b'"' || c == 92)
    then 92 ∷ c ∷ []
    else if ltb c b' '
    then 92 ∷ octal c
    else c ∷ []

abbrev pub escape_all : List ℕ → List ℕ
escape_all [] = []
escape_all (c ∷ cs) = escaped c ++ escape_all cs

-- result_append: what is appended
pub result_append : List ℕ → (escape : Bool) → List ℕ
result_append str escape = if escape then escape_all str else str
