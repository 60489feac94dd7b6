-- ===== src/Parser.antt =====
-- Parsing of messages, log_msg_parse of src/logmsg.c: the priority and what the parts share.
-- The children are the time stamp, the host and program, and the whole.
pub mod Date
pub mod Header
pub mod Whole
pub mod Digits
pub mod Zone
pub mod Relay
pub mod Usec
pub mod Safety
mod Tests
use indigo.Prelude.{
  ℕ, ◌+◌, ◌-◌, ◌*◌, Bool, true, false, ◌&&◌, ◌||◌, Option, none, some, List, [], ◌∷◌, ◌==◌,
  if◌then◌else◌, is_empty,
}
use indigo.Prelude.Bytes.{isdigit}

-- `while (left && *src == ' ')`
unfoldable pub skip_spaces : List ℕ → List ℕ
skip_spaces [] = []
skip_spaces (c ∷ cs) = let rest = skip_spaces cs in if c == b' ' then rest else c ∷ cs

-- the newlines and NULs at the end, which `length` is moved over
pub strip_end : List ℕ → List ℕ
strip_end [] = []
strip_end (c ∷ cs) =
    let rest = strip_end cs in if is_empty rest && (c == 10 || c == 0) then [] else c ∷ rest

-- the bytes before the first that passes a test, and those from it on
unfoldable pub span_until : (ℕ → Bool) → List ℕ → List ℕ × List ℕ
span_until stop [] = ([], [])
span_until stop (c ∷ cs) =
    let (taken, rest) = span_until stop cs in if stop c then ([], c ∷ cs) else (c ∷ taken, rest)

-- The loop over the digits of the priority: the priority and what follows the `>`, or `none` at a
-- byte that is no digit. The priority is an int, which is not to overflow, and kept in a guint16,
-- to which it is not reduced here.
pub scan_pri : ℕ → List ℕ → Option (ℕ × List ℕ)
scan_pri pri [] = some (pri, [])
scan_pri pri (c ∷ cs) =
    let next = scan_pri (pri * 10 + (c - b'0')) cs in
    if c == b'>' then some (pri, cs) else if isdigit c then next else none

-- LOG_KERN | LOG_NOTICE and LOG_USER | LOG_NOTICE
abbrev pub default_pri : Bool → ℕ
default_pri kernel = if kernel then 5 else 13

-- the priority with its brackets, or the default
unfoldable pub read_pri : (kernel : Bool) → List ℕ → Option (ℕ × List ℕ)
unfolding scan_pri
read_pri kernel [] = some (default_pri kernel, [])
read_pri kernel (c ∷ cs) = if c == b'<' then scan_pri 0 cs else some (default_pri kernel, c ∷ cs)
