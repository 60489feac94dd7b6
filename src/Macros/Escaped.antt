-- ===== src/Macros/Escaped.antt =====
-- Macros in quoted literals.
use indigo.Prelude.{
  ℕ, ◌≡◌, refl, true, false, ◌||◌, some, List, ◌∷◌, ◌++◌, ◌==◌, leb, inl, inr, ◌⊎◌, ◌-◌,
}
use indigo.Message.{LogMessage}
use indigo.Stamp.{TimeLib}
use indigo.Parser.Whole.{c_string}
use indigo.Macros.{result_append}
use indigo.Macros.Table.{macro_of_id}
use indigo.Macros.Quoted.{text, read_literal, read_literal-result_append}
use indigo.Macros.Expand.{Extra, MacroArgs, nth_match, macro_text, expand_macro, log_macro_expand}

-- the value of a match reference or of a macro that is a text
unfoldable pub TextOf : ℕ → LogMessage → Extra → List ℕ → Type 0
TextOf id m x value =
    ((leb 256 id ≡ true)
      × ((raw : List ℕ) × ((nth_match (id - 256) x.re_matches ≡ some raw)
            × (c_string raw ≡ value))))
    ⊎ ((leb 256 id ≡ false) × (macro_text (macro_of_id id) m x ≡ some value))

log_macro_expand-TextOf :
    (lib : TimeLib) (args : MacroArgs) (id : ℕ) (m : LogMessage) (x : Extra) (value : List ℕ)
    → TextOf id m x value
    → log_macro_expand lib args id m x ≡ some (result_append value args.escape_result)
unfolding log_macro_expand TextOf
log_macro_expand-TextOf lib args id m x value (inl (ref, (raw, (found, e)))) =
    rw (ref, found, e) refl
log_macro_expand-TextOf lib args id m x value (inr (macro, found)) =
    rw (macro, expand_macro, found) refl

module _ (lib : TimeLib) (args : MacroArgs) where
  -- A match reference that is there, or a macro that is a text, expands to its value when it is not
  -- escaped. Escaped and put between quotes, of either kind, it is read back as that value, and the
  -- literal ends at the closing quote and not before, whatever bytes a sender put into the message.
  pub log_macro_expand-read_literal :
      (id : ℕ) (m : LogMessage) (x : Extra) (value : List ℕ)
      → TextOf id m x value
      → (quote : ℕ) (rest : List ℕ) → (quote == 39 || quote == b'"') ≡ true
      → (log_macro_expand lib (record args { escape_result = false }) id m x ≡ some value)
        × ((out : List ℕ) × ((log_macro_expand lib (record args { escape_result = true }) id m x
                ≡ some out)
              × (read_literal quote text (out ++ quote ∷ rest) ≡ some (value, rest))))
  unfolding result_append
  log_macro_expand-read_literal id m x value h quote rest q = (
    log_macro_expand-TextOf lib (record args { escape_result = false }) id m x value h,
    (
      result_append value true,
      (
        log_macro_expand-TextOf lib (record args { escape_result = true }) id m x value h,
        read_literal-result_append quote value rest q,
      ),
    ),
  )
