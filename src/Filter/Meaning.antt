-- ===== src/Filter/Meaning.antt =====
-- Filter expressions read as Boolean formulas, apart from the order and the matches.
use Prim.Native.String.{String}
use mathlib.Core.Bool
use indigo.Prelude.{
  ℕ, zero, suc, ◌%◌, ◌^◌, ◌≡◌, Bool, true, false, not, ◌&&◌, ◌||◌, Option, none, some, List, ◌==◌,
  if◌then◌else◌,
}
use indigo.Message.{LogMessage}
use indigo.Filter.{
  FilterExprNode, fop_or, fop_and, filter_facility, filter_level, filter_re, filter_call,
  filter_netmask, bit_and, has_bit, fac_num, level_num, field, FilterConfig, Eval,
}

-- `not`, if the node is complemented
abbrev pub complement : Bool → Bool → Bool
complement true b = not b
complement false b = b

abbrev is_match : Option (List (ℕ × ℕ)) → Bool
is_match none = false
is_match (some ms) = true

-- the address is in the network
abbrev pub in_network : ℕ → ℕ → Option ℕ → Bool
in_network address netmask none = false
in_network address netmask (some a) = bit_and 32 a netmask == address

-- the facility is the one of the number, or one of the set
abbrev pub has_facility : ℕ → ℕ → Bool
has_facility valid fac = if has_bit valid 31 then valid % 2 ^ 31 == fac else has_bit valid fac

module _ {R : Type 0} (cfg : FilterConfig R) (m : LogMessage) (saddr : Option ℕ) where
  open cfg use {regexec, filters}

  -- the formula, given the truth of the rules it calls
  pub holds_with : (String → Bool) → FilterExprNode R → Bool
  holds_with call (fop_or comp left right) =
      complement comp (holds_with call left || holds_with call right)
  holds_with call (fop_and comp left right) =
      complement comp (holds_with call left && holds_with call right)
  holds_with call (filter_facility comp valid) = complement comp (has_facility valid (fac_num m))
  holds_with call (filter_level comp valid) = complement comp (has_bit valid (level_num m))
  holds_with call (filter_re comp f re) = complement comp (is_match (regexec re (field f m)))
  holds_with call (filter_call comp rule) = complement comp (call rule)
  holds_with call (filter_netmask comp address netmask) =
      complement comp (in_network address netmask saddr)

  -- the formula of an expression, where rules are looked into to a depth; a missing rule holds
  pub holds : ℕ → FilterExprNode R → Bool
  unfolding holds_with
  holds zero e = holds_with (λ rule. true) e
  holds (suc depth) e =
      holds_with (λ rule. elim (filters rule) [ none ↦ true | some root ↦ holds depth root ]) e

  -- a property of all rules that an expression calls
  abbrev CallsAre : (String → Type 0) → FilterExprNode R → Type 0
  CallsAre P (fop_or comp left right) = CallsAre P left × CallsAre P right
  CallsAre P (fop_and comp left right) = CallsAre P left × CallsAre P right
  CallsAre P (filter_call comp rule) = P rule
  CallsAre P _ = Unit

  -- Calls nest at most to the depth, a call of a missing rule included.
  abbrev pub NestsTo : ℕ → FilterExprNode R → Type 0
  NestsTo zero e = CallsAre (λ rule. ⊥) e
  NestsTo (suc depth) e =
      CallsAre (λ rule. elim (filters rule) [ none ↦ Unit | some root ↦ NestsTo depth root ]) e

  -- evaluation from any matches gives the truth of the formula
  abbrev pub Gives : Eval cfg m saddr → Bool → Type 0
  Gives eval b = (ms : List (List ℕ)) → (ms' : List (List ℕ)) × (eval ms ≡ some (b, ms'))

  abbrev RuleNestsTo : ℕ → Option (FilterExprNode R) → Type 0
  RuleNestsTo depth none = Unit
  RuleNestsTo depth (some root) = NestsTo depth root
