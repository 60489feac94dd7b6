-- ===== src/Filter/Tests.antt =====
-- A filter that calls another, and a range of levels.
use text.Mathlib.Text.{◌==◌ as str_eq}
use mathlib.Core.Bool
use indigo.Prelude.{◌≡◌, refl, Bool, true, false, xor, none, some, [], ◌∷◌, if◌then◌else◌}
use indigo.Prelude.Int.{pos, negsuc}
use indigo.Message.{LogStamp, LogMessage}
use indigo.Filter.{
  host, FilterExprNode, fop_and, fop_or, filter_level, filter_re, filter_call, filter_facility,
  FilterConfig, filter_expr_eval,
}

abbrev stamp : LogStamp
stamp = record { tv_sec = pos 0; tv_usec = pos 0; zone_offset = negsuc 0 }

-- kern.err from host h
abbrev message : LogMessage
message = record {
  internal = false;
  local = false;
  mark = false;
  pri = 3;
  stamp = stamp;
  recvd = stamp;
  date = [];
  host = b'h' ∷ [];
  program = b'k' ∷ [];
  msg = [];
}

-- a regular expression is a flag: whether it matches all of the string, or nothing
abbrev config : FilterConfig Bool
config = record {
  regexec = λ re str. if re then some ((0, 1) ∷ []) else none;
  filters = λ rule. if str_eq rule "f" then some (filter_re true host false) else none;
}

abbrev expression : FilterExprNode Bool
expression =
    fop_and false (filter_call false "f")
      (fop_or true (filter_level false 3) (filter_facility false 2))

expression_result :
    filter_expr_eval config message none 1 expression ((b'x' ∷ []) ∷ []) ≡ some (true, [])
unfolding filter_expr_eval mathlib.Core.Bool.xor
expression_result = refl
