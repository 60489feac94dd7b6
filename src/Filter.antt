-- ===== src/Filter.antt =====
-- src/filter.c, the evaluation of filter expressions, and the level ranges of src/syslog-names.c.
pub mod Meaning
pub mod Levels
mod Tests
use Prim.Native.String.{String}
use indigo.Prelude.{
  ℕ, zero, suc, ◌+◌, ◌-◌, ◌*◌, ◌/◌, ◌%◌, ◌^◌, Bool, true, false, not, xor, Option, none, some, List,
  [], ◌∷◌, ◌==◌, ltb, if◌then◌else◌, take, drop, map,
}
use indigo.Message.{LogMessage}

-- The field that a regular expression is matched with: filter_prog_eval, filter_host_eval and
-- filter_match_eval.
pub data ReField : Type 0 where
  program host match : ReField

-- FilterExprNode with the nodes that extend it; the flag is `comp`. `R` is the type of compiled
-- regular expressions. An operator has its left, then its right argument; a netmask has the
-- address, masked already, and the mask, as numbers of 32 bits.
pub data FilterExprNode (R : Type 0) : Type 0 where
  fop_or fop_and : Bool → FilterExprNode R → FilterExprNode R → FilterExprNode R
  filter_facility filter_level : Bool → ℕ → FilterExprNode R
  filter_re : Bool → ReField → R → FilterExprNode R
  filter_call : Bool → String → FilterExprNode R
  filter_netmask : Bool → (address netmask : ℕ) → FilterExprNode R

-- `a & b` on the low bits, one after the other
pub bit_and : (bits : ℕ) → ℕ → ℕ → ℕ
bit_and zero a b = 0
bit_and (suc n) a b = (a % 2) * (b % 2) + 2 * bit_and n (a / 2) (b / 2)

-- `mask & (1 << n)`, on 32 bits; C leaves a shift by 32 or more open, and the processors take its
-- count modulo 32
abbrev pub has_bit : ℕ → ℕ → Bool
has_bit mask n = (mask / 2 ^ (n % 32)) % 2 == 1

-- (msg->pri & LOG_FACMASK) >> 3
abbrev pub fac_num : LogMessage → ℕ
fac_num m = (m.pri / 8) % 128

-- msg->pri & LOG_PRIMASK
abbrev pub level_num : LogMessage → ℕ
level_num m = m.pri % 8

-- filter_facility_eval: bit 31 marks an exact number
pub filter_facility_eval : Bool → ℕ → LogMessage → Bool
filter_facility_eval comp valid m =
    if has_bit valid 31
    then xor (valid % 2 ^ 31 == fac_num m) comp
    else xor (has_bit valid (fac_num m)) comp

-- filter_level_eval
pub filter_level_eval : Bool → ℕ → LogMessage → Bool
filter_level_eval comp valid m = xor (has_bit valid (level_num m)) comp

-- filter_netmask_eval; the sender's address is `none` if it is not an IPv4 address
pub filter_netmask_eval : Bool → ℕ → ℕ → Option ℕ → Bool
unfolding bit_and
filter_netmask_eval comp address netmask none = comp
filter_netmask_eval comp address netmask (some a) = xor (bit_and 32 a netmask == address) comp

-- syslog_make_range
pub syslog_make_range : ℕ → ℕ → ℕ
unfolding bit_and
syslog_make_range a b =
    let low = if ltb b a then b else a in
    let high = if ltb b a then a else b in
    bit_and 32 (2 ^ (high + 1) - 1) (2 ^ 32 - 1 - (2 ^ low - 1))

abbrev pub field : ReField → LogMessage → List ℕ
field program m = m.program
field host m = m.host
field match m = m.msg

-- the strings of the matches
abbrev pub match_strings : List ℕ → List (ℕ × ℕ) → List (List ℕ)
match_strings str ms = map (λ (so, eo). take (eo - so) (drop so str)) ms

-- What a filter asks of other parts: `regexec`, with the matches that it set, and the table of
-- the configuration's filter rules.
pub record FilterConfig (R : Type 0) : Type 0 where
  pub regexec : R → List ℕ → Option (List (ℕ × ℕ))
  pub filters : String → Option (FilterExprNode R)

module _ {R : Type 0} (cfg : FilterConfig R) (m : LogMessage) (saddr : Option ℕ) where
  open cfg use {regexec, filters}

  -- the result, and the message's re_matches; `none` when calls nest too deep
  abbrev pub Eval : Type 0
  Eval = List (List ℕ) → Option (Bool × List (List ℕ))

  -- filter_re_eval: the matches of before are cleared
  pub filter_re_eval : Bool → List ℕ → R → Bool × List (List ℕ)
  filter_re_eval comp str re = elim (regexec re str) [
    | none ↦ (xor false comp, [])
    | some ms ↦ (xor true comp, match_strings str ms)
  ]

  -- fop_or_eval: the right argument first
  pub fop_or_eval : Bool → (left right : Eval) → Eval
  fop_or_eval comp left right ms = elim (right ms) [
    | none ↦ none
    | some (true, ms') ↦ some (xor true comp, ms')
    | some (false, ms') ↦ elim (left ms') [ none ↦ none | some (b, ms'') ↦ some (xor b comp, ms'') ]
  ]

  -- fop_and_eval
  pub fop_and_eval : Bool → (left right : Eval) → Eval
  fop_and_eval comp left right ms = elim (right ms) [
    | none ↦ none
    | some (false, ms') ↦ some (xor false comp, ms')
    | some (true, ms') ↦ elim (left ms') [ none ↦ none | some (b, ms'') ↦ some (xor b comp, ms'') ]
  ]

  -- the evaluation of filter_call_eval, on what evaluates the rule
  pub filter_call_eval : Bool → Eval → Eval
  filter_call_eval comp rule ms = elim (rule ms) [
    | none ↦ none
    | some (b, ms') ↦ some (xor b comp, ms')
  ]

  -- filter_expr_eval, with the evaluation of a called rule as a parameter
  pub eval_with : (call : String → Eval) → FilterExprNode R → Eval
  unfolding filter_facility_eval filter_level_eval filter_netmask_eval filter_re_eval fop_or_eval
      fop_and_eval filter_call_eval
  eval_with call (fop_or comp left right) ms =
      fop_or_eval comp (eval_with call left) (eval_with call right) ms
  eval_with call (fop_and comp left right) ms =
      fop_and_eval comp (eval_with call left) (eval_with call right) ms
  eval_with call (filter_facility comp valid) ms = some (filter_facility_eval comp valid m, ms)
  eval_with call (filter_level comp valid) ms = some (filter_level_eval comp valid m, ms)
  eval_with call (filter_re comp f re) ms = some (filter_re_eval comp (field f m) re)
  eval_with call (filter_call comp rule) ms = filter_call_eval comp (call rule) ms
  eval_with call (filter_netmask comp address netmask) ms =
      some (filter_netmask_eval comp address netmask saddr, ms)

  -- filter_expr_eval, on fuel for the depth of calls; a rule that is not found holds
  pub filter_expr_eval : ℕ → FilterExprNode R → Eval
  unfolding eval_with
  filter_expr_eval zero e ms = eval_with (λ rule ms'. none) e ms
  filter_expr_eval (suc depth) e ms =
      eval_with
        (λ rule ms'. elim (filters rule) [
          | none ↦ some (true, ms')
          | some root ↦ filter_expr_eval depth root ms'
        ])
        e ms
