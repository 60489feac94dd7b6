-- ===== src/Macros/Statements.antt =====
-- src/templates.c with src/macros.c: templates whose macros stand between quotes.
use indigo.Prelude.{
  ℕ, ◌≡◌, refl, true, false, ◌||◌, none, some, List, [], ◌∷◌, ◌++◌, ◌==◌, append-nil,
}
use indigo.Message.{LogMessage}
use indigo.Stamp.{TimeLib}
use indigo.Template.{LogTemplateElem, brace_macro, log_template_compile, log_template_format}
use indigo.Template.Print.{Lacks, print, text_of, elems_of, log_template_compile-print}
use indigo.Macros.Table.{log_macro_lookup}
use indigo.Macros.Quoted.{text, read_literal}
use indigo.Macros.Expand.{Extra, MacroArgs, log_macro_expand}
use indigo.Macros.Escaped.{TextOf, log_macro_expand-read_literal}

text_of_lem : (t : List ℕ) → elim (text_of t) [ none ↦ [] | some t' ↦ t' ] ≡ t
text_of_lem [] = refl
text_of_lem (c ∷ cs) = refl

-- a template of a piece and a last text that is not empty, formatted
format-piece :
    (expand : ℕ → List ℕ) (before name last out : List ℕ) (c : ℕ)
    → (brace_macro log_macro_lookup name == 0) ≡ false
    → expand (brace_macro log_macro_lookup name) ≡ out
    → log_template_format expand (elems_of log_macro_lookup ((before, name) ∷ []) (c ∷ last))
      ≡ before ++ (out ++ c ∷ last)
unfolding log_template_format
format-piece expand before name last out c known e =
    rw (text_of_lem before, known, e, append-nil (c ∷ last)) refl

-- A template has a known macro in braces between quotes of either kind, its texts have no `$`. Then
-- it compiles, by the names of log_macro_lookup. If the macro is a match reference that is there or
-- a text, formatting a message with the results of log_macro_expand, escaped, gives the template's
-- text up to the quote and a literal that is read back as the value of the macro, followed by the
-- rest of the template.
pub log_template_format-read_literal :
    (lib : TimeLib) (args : MacroArgs) (m : LogMessage) (x : Extra) (expand : ℕ → List ℕ)
    → ((id : ℕ) (out : List ℕ)
        → log_macro_expand lib (record args { escape_result = true }) id m x ≡ some out
        → expand id ≡ out)
    → (before name last value : List ℕ) (quote : ℕ) → (quote == 39 || quote == b'"') ≡ true
    → Lacks b'$' (before ++ quote ∷ [])
    → Lacks b'}' name
    → Lacks b'$' (quote ∷ last)
    → (brace_macro log_macro_lookup name == 0) ≡ false
    → TextOf (brace_macro log_macro_lookup name) m x value
    → (elems : List LogTemplateElem) × (log_template_compile log_macro_lookup
          (print ((before ++ quote ∷ [], name) ∷ []) (quote ∷ last))
        ≡ some elems)
      × ((literal : List ℕ) × (log_template_format expand elems ≡ (before ++ quote ∷ []) ++ literal)
          × (read_literal quote text literal ≡ some (value, last)))
log_template_format-read_literal lib args m x expand agrees before name last value quote q plain
      no_brace plain' known h =
    let id = brace_macro log_macro_lookup name in
    let (raw, (out, (expanded, read))) =
      log_macro_expand-read_literal lib args id m x value h quote last q in
    (
      elems_of log_macro_lookup ((before ++ quote ∷ [], name) ∷ []) (quote ∷ last),
      log_template_compile-print log_macro_lookup ((before ++ quote ∷ [], name) ∷ []) (quote ∷ last)
          (plain, no_brace, known, tt) plain',
      (
        out ++ quote ∷ last,
        format-piece expand (before ++ quote ∷ []) name last out quote known
            (agrees id out expanded),
        read,
      ),
    )
