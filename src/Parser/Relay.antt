-- ===== src/Parser/Relay.antt =====
-- What a line must be to come back from log_msg_parse as it was sent, and what the loops of the
-- parser leave of such a line.
pub mod Fields
pub mod Line
use indigo.Prelude.{
  ℕ, zero, suc, ◌+◌, ◌-◌, ◌≤◌, ◌<◌, ◌≡◌, refl, ap, sym, ◌∙◌, Bool, true, false, not, ◌&&◌, ◌||◌,
  Option, none, some, List, [], ◌∷◌, ◌++◌, ◌==◌, leb, if◌then◌else◌, append_assoc, arith,
  Bool-cases, inl, inr, ap₂, length, take, drop, map, is_empty, length-append, take-append,
  drop-append,
}
use indigo.Prelude.Bytes.{
  isdigit, byte_at, byte_at-append, byte_at-behind, starts_with, AllBytes, decimal,
}
use indigo.Message.{LogStamp, LogMessage, ParseFlags}
use indigo.Parser.{skip_spaces, strip_end, read_pri}
use indigo.Parser.Digits.{scan_pri-decimal}
use indigo.Parser.Date.{
  Dated, Layout, rfc3164, layout, looks_rfc3339, looks_pix, looks_linksys, looks_rfc3164, has_year,
  read_date, read_rfc3164, cisco_frac,
}
use indigo.Parser.Header.{
  span_host, ends_name, is_host_byte, aix_fwd_string, repeat_msg_string, read_header, read_names,
  read_host, read_aix, read_program, starts_space, Header, is_repeat,
}
use indigo.Parser.Whole.{
  ParseEnv, no_newline, or_else, parse_body, parse_undated, unparseable, parse_dated, log_msg_parse,
}

-- the shape of `Mmm dd hh:mm:ss`
pub record IsBsdDate (date : List ℕ) : Type 0 where
  pub fifteen : length date ≡ 15
  pub no_space : (byte_at date 0 == b' ') ≡ false
  pub month_end : (byte_at date 3 == b' ') ≡ true
  pub day_end : (byte_at date 6 == b' ') ≡ true
  pub hour_end : (byte_at date 9 == b':') ≡ true
  pub minute : isdigit (byte_at date 10) ≡ true
  pub minute_digit : isdigit (byte_at date 11) ≡ true
  pub minute_end : (byte_at date 12 == b':') ≡ true

-- the tests of the date formats on bytes that read so
pub layout-rfc3164 :
    (src : List ℕ)
    → 15 ≤ length src
    → (byte_at src 3 == b' ') ≡ true
    → (byte_at src 6 == b' ') ≡ true
    → (byte_at src 9 == b':') ≡ true
    → isdigit (byte_at src 10) ≡ true
    → isdigit (byte_at src 11) ≡ true
    → (byte_at src 12 == b':') ≡ true
    → isdigit (byte_at src 16) ≡ false
    → layout src ≡ rfc3164
unfolding layout
layout-rfc3164 src l a b c d e f g = rw (not_rfc3339, not_pix, not_linksys, is_rfc3164) refl
  where
    is_rfc3164 : looks_rfc3164 src ≡ true
    is_rfc3164 = ground arith

    not_rfc3339 : looks_rfc3339 src ≡ false
    not_rfc3339 = ground arith

    not_pix : looks_pix src ≡ false
    not_pix = ground arith

    not_linksys : looks_linksys src ≡ false
    not_linksys = ground arith

-- the trailing newline goes, where a byte before it stays
pub strip_end-append :
    (xs ys zs : List ℕ) (z : ℕ) → strip_end ys ≡ z ∷ zs → strip_end (xs ++ ys) ≡ xs ++ z ∷ zs
unfolding strip_end
strip_end-append [] ys zs z h = h
strip_end-append (x ∷ xs) ys zs z h = rw (strip_end-append xs ys zs z h, not_empty xs) refl
  where
    not_empty : (xs : List ℕ) → is_empty (xs ++ z ∷ zs) ≡ false
    not_empty [] = refl
    not_empty (x ∷ xs) = refl

-- a host name that a parser takes whole: no byte of it ends a name
abbrev pub is_name_byte : Bool → ℕ → Bool
is_name_byte check c = not (ends_name c) && (not check || is_host_byte c)

-- bytes that a text keeps
abbrev pub is_text_byte : ℕ → Bool
is_text_byte c = not (c == 10 || (c == 13 || c == 0))

pub span_host-append :
    (check : Bool) (room : ℕ) (host rest : List ℕ)
    → length host ≤ room
    → AllBytes (is_name_byte check) host
    → span_host check room (host ++ b' ' ∷ rest) ≡ (host, b' ' ∷ rest)
unfolding span_host
span_host-append check zero [] rest l h = refl
span_host-append check (suc room) [] rest l h = refl
span_host-append check zero (c ∷ cs) rest l h = absurd (omega arith)
span_host-append check (suc room) (c ∷ cs) rest l (h, hs) =
    rw (span_host-append check room cs rest (omega arith) hs, goes_on) refl
  where
    goes_on : (ends_name c || (check && not (is_host_byte c))) ≡ false
    goes_on = ground arith

pub map-no_newline : (cs : List ℕ) → AllBytes is_text_byte cs → map no_newline cs ≡ cs
map-no_newline [] h = refl
map-no_newline (c ∷ cs) (h, hs) = ap₂ (λ x xs. x ∷ xs) kept (map-no_newline cs hs)
  where
    kept : no_newline c ≡ c
    kept = ground arith

pub strip_end-line : (cs : List ℕ) → AllBytes is_text_byte cs → strip_end (cs ++ 10 ∷ []) ≡ cs
unfolding strip_end
strip_end-line [] h = refl
strip_end-line (c ∷ cs) (h, hs) = rw (strip_end-line cs hs, kept) refl
  where
    kept : (is_empty cs && (c == 10 || c == 0)) ≡ false
    kept = ground arith

pub skip_spaces-start : (cs : List ℕ) → starts_space cs ≡ false → skip_spaces cs ≡ cs
unfolding skip_spaces
skip_spaces-start [] h = refl
skip_spaces-start (c ∷ cs) h = rw h refl

pub starts_space-byte_at : (cs : List ℕ) → (byte_at cs 0 == b' ') ≡ false → starts_space cs ≡ false
starts_space-byte_at [] h = refl
starts_space-byte_at (c ∷ cs) h = h

-- a host and a text that come back as they were sent
pub record IsRelayable (env : ParseEnv) (host msg : List ℕ) : Type 0 where
  pub some_host : 1 ≤ length host
  pub fits : length host ≤ 255
  pub host_bytes : AllBytes (is_name_byte env.flags.check_hostname) host
  pub no_digit : isdigit (byte_at host 0) ≡ false
  pub no_bad_hostname : env.is_bad_hostname host ≡ false
  pub no_forward : starts_with aix_fwd_string (host ++ b' ' ∷ msg) ≡ false
  pub no_repeat : is_repeat (host ++ b' ' ∷ msg) ≡ false
  pub text_bytes : AllBytes is_text_byte msg
  pub no_space : starts_space msg ≡ false
