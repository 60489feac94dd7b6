-- ===== src/Template.antt =====
-- src/templates.c: compiling a template, and formatting a message by the compiled elements.
pub mod Print
mod Tests
use indigo.Prelude.{
  ℕ, zero, suc, ◌+◌, ◌-◌, ◌*◌, ◌%◌, Bool, true, false, ◌&&◌, ◌||◌, Option, none, some, List, [],
  ◌∷◌, ◌++◌, ◌==◌, ltb, leb, if◌then◌else◌, length, is_empty, map,
}

-- LogTemplateElem; macro 0 is M_NONE, and `none` is a NULL text.
pub record LogTemplateElem : Type 0 where
  pub macro : ℕ
  pub text : Option (List ℕ)

abbrev pub is_digit : ℕ → Bool
is_digit c = leb b'0' c && leb c b'9'

-- the letters of a macro's name without braces
abbrev pub is_name : ℕ → Bool
is_name c = (leb b'A' c && leb c b'Z') || c == b'_'

-- the name up to the closing brace, and what follows the brace; `none` if there is no brace, where
-- the code goes on behind the end of the string
pub split_brace : List ℕ → Option (List ℕ × List ℕ)
split_brace [] = none
split_brace (c ∷ cs) =
    if c == b'}'
    then some ([], cs)
    else elim (split_brace cs) [ none ↦ none | some (name, rest) ↦ some (c ∷ name, rest) ]

-- the longest name at the start, and what follows it
pub span_name : List ℕ → List ℕ × List ℕ
span_name [] = ([], [])
span_name (c ∷ cs) =
    let (name, rest) = span_name cs in if is_name c then (c ∷ name, rest) else ([], c ∷ cs)

-- `ref_number` after the name, a gint of 32 bits that starts from a number and wraps around; `none`
-- is a number below zero, at which the digits are not looked at any more
unfoldable pub ref_number : ℕ → List ℕ → Option ℕ
ref_number n [] = some n
ref_number n (c ∷ cs) =
    let next = (n * 10 + (c - b'0')) % 4294967296 in
    let rest = ref_number next cs in if is_digit c && ltb next 2147483648 then rest else none

-- M_MATCH_REF_OFS
abbrev pub match_ref_ofs : ℕ
match_ref_ofs = 256

-- `last_text` after one more byte
abbrev pub append_c : Option (List ℕ) → ℕ → Option (List ℕ)
append_c none c = some (c ∷ [])
append_c (some text) c = some (text ++ c ∷ [])

module _ (log_macro_lookup : List ℕ → ℕ) where
  -- the macro of a name in braces
  unfoldable pub brace_macro : List ℕ → ℕ
  unfolding ref_number
  brace_macro name =
      if is_empty name
      then log_macro_lookup name
      else elim (ref_number 0 name) [ none ↦ log_macro_lookup name | some n ↦ match_ref_ofs + n ]

  -- a reference behind the `$`: its macro, and the rest of the template
  pub reference : List ℕ → Option (ℕ × List ℕ)
  unfolding split_brace span_name brace_macro
  reference [] = some (log_macro_lookup [], [])
  reference (c ∷ cs) =
      if is_digit c
      then some (match_ref_ofs + (c - b'0'), cs)
      else if c == b'{'
      then elim (split_brace cs) [ none ↦ none | some (name, rest) ↦ some (brace_macro name, rest) ]
      else let (name, rest) = span_name (c ∷ cs) in some (log_macro_lookup name, rest)

  -- The loop of log_template_compile. Each round takes a byte at least, so the length of the
  -- template is enough fuel; `none` means that the fuel ran out or the string was left.
  pub compile_from : ℕ → List ℕ → Option (List ℕ) → Option (List LogTemplateElem)
  unfolding reference
  compile_from fuel [] none = some []
  compile_from fuel [] (some text) = some (record { macro = 0; text = some text } ∷ [])
  compile_from zero (c ∷ cs) last_text = none
  compile_from (suc fuel) (c ∷ cs) last_text = elim (c == b'$') [
    | false ↦ compile_from fuel cs (append_c last_text c)
    | true ↦ elim (reference cs) [
      | none ↦ none
      | some (macro, rest) ↦ elim (macro == 0) [
        | true ↦ compile_from fuel rest last_text
        | false ↦ elim (compile_from fuel rest none) [
          | none ↦ none
          | some elems ↦ some (record { macro = macro; text = last_text } ∷ elems)
        ]
      ]
    ]
  ]

  -- log_template_compile
  pub log_template_compile : List ℕ → Option (List LogTemplateElem)
  unfolding compile_from
  log_template_compile template = compile_from (length template) template none

-- the loop of log_template_format; `expand` is what log_macro_expand appends
unfoldable pub log_template_format : (expand : ℕ → List ℕ) → List LogTemplateElem → List ℕ
log_template_format expand [] = []
log_template_format expand (e ∷ es) =
    elim e.text [ none ↦ [] | some text ↦ text ]
    ++ ((if e.macro == 0 then [] else expand e.macro) ++ log_template_format expand es)
