-- ===== src/Template/Print.antt =====
-- Templates written with braces are compiled to what they say.
use indigo.Prelude.{
  ℕ, suc, ◌+◌, ◌-◌, ◌≤◌, ◌≡◌, ap, sym, subst, ◌∙◌, refl, false, Option, none, some, List, [], ◌∷◌,
  ◌++◌, ◌==◌, length, length-append, append-nil, append_assoc, arith,
}
use indigo.Template.{
  LogTemplateElem, split_brace, brace_macro, reference, append_c, compile_from,
  log_template_compile,
}

-- no byte of a text is the given one
abbrev pub Lacks : ℕ → List ℕ → Type 0
Lacks c [] = Unit
Lacks c (x ∷ xs) = ((x == c) ≡ false) × Lacks c xs

-- a piece of a template: a text, and the name of a macro
abbrev pub Piece : Type 0
Piece = List ℕ × List ℕ

-- pieces as they are written, before a last text
abbrev pub print : List Piece → List ℕ → List ℕ
print [] last = last
print ((text, name) ∷ ps) last = text ++ b'$' ∷ b'{' ∷ (name ++ b'}' ∷ print ps last)

abbrev pub text_of : List ℕ → Option (List ℕ)
text_of [] = none
text_of (c ∷ cs) = some (c ∷ cs)

abbrev pub last_of : List ℕ → List LogTemplateElem
last_of [] = []
last_of (c ∷ cs) = record { macro = 0; text = some (c ∷ cs) } ∷ []

abbrev append_text : Option (List ℕ) → List ℕ → Option (List ℕ)
append_text o [] = o
append_text o (c ∷ cs) = append_text (append_c o c) cs

split_brace_lem :
    (name rest : List ℕ) → Lacks b'}' name → split_brace (name ++ b'}' ∷ rest) ≡ some (name, rest)
unfolding split_brace
split_brace_lem [] rest h = refl
split_brace_lem (c ∷ cs) rest (other, h) = rw (other, split_brace, split_brace_lem cs rest h) refl

append_text-some : (text cs : List ℕ) → append_text (some text) cs ≡ some (text ++ cs)
append_text-some text [] = ap some (sym (append-nil text))
append_text-some text (c ∷ cs) =
    append_text-some (text ++ c ∷ []) cs ∙ ap some (append_assoc text (c ∷ []) cs)

append_text-none : (text : List ℕ) → append_text none text ≡ text_of text
append_text-none [] = refl
append_text-none (c ∷ cs) = append_text-some (c ∷ []) cs

zero_add : (n : ℕ) → 0 + n ≡ n
zero_add n = omega arith

suc_add_comm : (m n : ℕ) → suc m + n ≡ suc (m + n)
suc_add_comm m n = omega arith

module _ (lookup : List ℕ → ℕ) where
  -- the elements that pieces stand for
  abbrev pub elems_of : List Piece → List ℕ → List LogTemplateElem
  elems_of [] last = last_of last
  elems_of ((text, name) ∷ ps) last =
      record { macro = brace_macro lookup name; text = text_of text } ∷ elems_of ps last

  -- texts have no `$`, names no `}`, and every name is a macro
  abbrev pub IsPlain : List Piece → Type 0
  IsPlain [] = Unit
  IsPlain ((text, name) ∷ ps) =
      Lacks b'$' text × Lacks b'}' name × ((brace_macro lookup name == 0) ≡ false) × IsPlain ps

  compile_from-text :
      (fuel : ℕ) (text rest : List ℕ) (o : Option (List ℕ))
      → Lacks b'$' text
      → compile_from lookup (length text + fuel) (text ++ rest) o
        ≡ compile_from lookup fuel rest (append_text o text)
  unfolding compile_from
  compile_from-text fuel [] rest o h = ap (λ n. compile_from lookup n rest o) (zero_add fuel)
  compile_from-text fuel (c ∷ cs) rest o (other, h) =
      rw (suc_add_comm (length cs) fuel, other, compile_from)
        (compile_from-text fuel cs rest (append_c o c) h)

  compile_end :
      (last : List ℕ) (fuel : ℕ) → compile_from lookup fuel [] (text_of last) ≡ some (last_of last)
  unfolding compile_from
  compile_end [] fuel = refl
  compile_end (c ∷ cs) fuel = refl

  compile_from-last :
      (fuel : ℕ) (last : List ℕ)
      → Lacks b'$' last
      → length last ≤ fuel
      → compile_from lookup fuel last none ≡ some (last_of last)
  unfolding compile_from
  compile_from-last fuel last h enough =
      let split : fuel ≡ length last + (fuel - length last) = omega (arith, enough) in
      rw split (
        subst
          (λ xs.
            compile_from lookup (length last + (fuel - length last)) xs none ≡ some (last_of last))
          (append-nil last)
          (rw (compile_from-text (fuel - length last) last [] none h, append_text-none last)
            (compile_end last (fuel - length last))))

  reference-brace :
      (name rest : List ℕ)
      → Lacks b'}' name
      → reference lookup (b'{' ∷ (name ++ b'}' ∷ rest)) ≡ some (brace_macro lookup name, rest)
  unfolding reference
  reference-brace name rest h = rw (split_brace_lem name rest h, reference) refl

  compile_from-print :
      (fuel : ℕ) (ps : List Piece) (last : List ℕ)
      → IsPlain ps
      → Lacks b'$' last
      → length (print ps last) ≤ fuel
      → compile_from lookup fuel (print ps last) none ≡ some (elems_of ps last)
  unfolding compile_from
  compile_from-print fuel [] last h plain enough = compile_from-last fuel last plain enough
  compile_from-print fuel ((text, name) ∷ ps) last (no_dollar, no_brace, known, h) plain enough =
      let rest = print ps last in
      let tail = b'$' ∷ b'{' ∷ (name ++ b'}' ∷ rest) in
      let k = fuel - length text - 1 in
      let size = length-append text tail in
      let size' = length-append name (b'}' ∷ rest) in
      let split : fuel ≡ length text + suc k = omega (arith, enough, size) in
      let deeper : length rest ≤ k = omega (arith, enough, size, size') in
      ap (λ n. compile_from lookup n (text ++ tail) none) split
      ∙ compile_from-text (suc k) text tail none no_dollar
      ∙ ap (compile_from lookup (suc k) tail) (append_text-none text)
      ∙ rw
          (
            reference-brace name rest no_brace,
            compile_from,
            known,
            compile_from-print k ps last h plain deeper,
          )
          refl

  -- A template that is written as pieces, each a text without `$` and a macro in braces whose name
  -- has no `}` and is known, and a last text without `$`, is compiled to one element for each
  -- piece, with its text and macro, and one more for the last text if there is any. The macro of a
  -- name is what brace_macro makes of it.
  pub log_template_compile-print :
      (ps : List Piece) (last : List ℕ)
      → IsPlain ps
      → Lacks b'$' last
      → log_template_compile lookup (print ps last) ≡ some (elems_of ps last)
  unfolding log_template_compile
  log_template_compile-print ps last h plain =
      compile_from-print (length (print ps last)) ps last h plain (omega arith)
