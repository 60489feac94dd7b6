-- ===== src/Template/Tests.antt =====
-- A template in braces, with a reference to a match and a macro that is not known.
use indigo.Prelude.{ℕ, ◌≡◌, refl, false, none, some, List, [], ◌∷◌, ◌==◌}
use indigo.Prelude.Bytes.{codes}
use indigo.Template.{brace_macro, ref_number, log_template_compile, log_template_format}
use indigo.Template.Print.{Piece, print, elems_of, log_template_compile-print}

-- the names of one letter are macros
abbrev lookup : List ℕ → ℕ
lookup (c ∷ []) = c
lookup _ = 0

abbrev pieces : List Piece
pieces = (b'a' ∷ b' ' ∷ [], b'M' ∷ []) ∷ ([], b'1' ∷ b'2' ∷ []) ∷ []

known : (brace_macro lookup (b'M' ∷ []) == 0) ≡ false
unfolding brace_macro
known = refl

known_ref : (brace_macro lookup (b'1' ∷ b'2' ∷ []) == 0) ≡ false
unfolding brace_macro
known_ref = refl

log_template_compile-print_example :
    log_template_compile lookup (print pieces (10 ∷ [])) ≡ some (elems_of lookup pieces (10 ∷ []))
log_template_compile-print_example =
    log_template_compile-print lookup pieces (10 ∷ [])
      ((refl, (refl, tt)), (refl, tt), known, (tt, (refl, (refl, tt)), known_ref, tt)) (refl, tt)

unclosed : log_template_compile lookup (b'$' ∷ b'{' ∷ b'M' ∷ []) ≡ none
unfolding log_template_compile
unclosed = refl

formatted :
    log_template_format (λ macro. macro ∷ []) (elems_of lookup pieces (10 ∷ []))
    ≡ b'a' ∷ b' ' ∷ b'M' ∷ 268 ∷ 10 ∷ []
unfolding log_template_format brace_macro
formatted = refl

-- 2147483647 is the last number of a match; 3000000000 is below zero, and so a name; 4294967297 is 1
refs_wrap :
    (ref_number 0 (codes "2147483647") ≡ some 2147483647)
    × (ref_number 0 (codes "3000000000") ≡ none)
    × (ref_number 0 (codes "4294967297") ≡ some 1)
unfolding ref_number
refs_wrap = (refl, refl, refl)
