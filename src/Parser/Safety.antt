-- ===== src/Parser/Safety.antt =====
-- What log_msg_parse never leaves in a message, and what it does with a priority it cannot read.
use indigo.Prelude.{
  ℕ, ◌+◌, ◌-◌, ◌*◌, ◌≡◌, refl, ap, sym, subst, Bool, true, false, not, ◌||◌, ◌&&◌, Option, none,
  some, List, [], ◌∷◌, ◌++◌, ◌==◌, is_empty, map, arith, Bool-cases, inl, inr,
}
use indigo.Prelude.Bytes.{codes, isdigit, AllBytes}
use indigo.Prelude.Int.{negsuc, eqb_ℤ}
use indigo.Message.{LogStamp, LogMessage}
use indigo.Parser.{skip_spaces, strip_end, scan_pri, read_pri}
use indigo.Parser.Date.{read_date, Dated}
use indigo.Parser.Relay.{strip_end-append}
use indigo.Parser.Whole.{
  ParseEnv, set_local, no_newline, c_string, parse_dated, parse_undated, parse_body, unparseable,
  log_msg_parse,
}
use indigo.Parser.Usec.{IsUsec, HasUsec, read_date-HasUsec}

-- the bytes of a line
abbrev pub is_line_byte : ℕ → Bool
is_line_byte c = not (c == 10 || c == 13)

map-no_newline-AllBytes : (cs : List ℕ) → AllBytes is_line_byte (map no_newline cs)
map-no_newline-AllBytes [] = tt
map-no_newline-AllBytes (c ∷ cs) = (kept, map-no_newline-AllBytes cs)
  where
    kept : is_line_byte (no_newline c) ≡ true
    kept = ground arith

-- a priority that is not digits up to a `>`
scan_pri-none :
    (pri : ℕ) (ds : List ℕ) (c : ℕ) (rest : List ℕ)
    → AllBytes isdigit ds
    → isdigit c ≡ false
    → (c == b'>') ≡ false
    → scan_pri pri (ds ++ c ∷ rest) ≡ none
unfolding scan_pri
scan_pri-none pri [] c rest h digit end = rw (end, digit) refl
scan_pri-none pri (d ∷ ds) c rest (h, hs) digit end =
    rw (no_end, h) (scan_pri-none (pri * 10 + (d - b'0')) ds c rest hs digit end)
  where
    no_end : (d == b'>') ≡ false
    no_end = ground arith

-- a byte that stays
strip_end-kept :
    (c : ℕ) (rest : List ℕ)
    → (c == 10 || c == 0) ≡ false
    → strip_end (c ∷ rest) ≡ c ∷ strip_end rest
unfolding strip_end
strip_end-kept c rest h = rw stays refl
  where
    stays : (is_empty (strip_end rest) && (c == 10 || c == 0)) ≡ false
    stays = ground arith

module _ (env : ParseEnv) where
  open env use {flags, lib, now}

  set_local-IsUsec : (s : LogStamp) → IsUsec s.tv_usec → IsUsec (set_local env s).tv_usec
  unfolding set_local
  set_local-IsUsec s h = elim (Bool-cases (eqb_ℤ s.zone_offset (negsuc 0))) [
    | inl unset ↦ rw unset h
    | inr known ↦ rw known h
  ]

  abbrev body_of : LogMessage → List ℕ → Option Dated → LogMessage
  body_of m src o = elim o [ some d ↦ parse_dated env m d | none ↦ parse_undated env m src ]

  body-IsUsec :
      (m : LogMessage) (src : List ℕ) (o : Option Dated)
      → IsUsec m.stamp.tv_usec
      → HasUsec o
      → IsUsec (body_of m src o).stamp.tv_usec
  unfolding parse_dated parse_undated
  body-IsUsec m src none h d = set_local-IsUsec m.stamp h
  body-IsUsec m src (some date) h d = set_local-IsUsec date.stamp d

  body-lines :
      (m : LogMessage) (src : List ℕ) (o : Option Dated)
      → AllBytes is_line_byte (body_of m src o).msg
  unfolding parse_dated parse_undated
  body-lines m src none = map-no_newline-AllBytes _
  body-lines m src (some date) = map-no_newline-AllBytes _

  abbrev prepared : LogMessage → LogMessage
  prepared m = record m { internal = m.internal || flags.internal; local = m.local || flags.local }

  abbrev parsed_of : LogMessage → List ℕ → Option (ℕ × List ℕ) → LogMessage
  parsed_of m text o = elim o [
    | none ↦ unparseable env (prepared m) text
    | some (pri, src) ↦ parse_body env (record (prepared m) { pri = pri }) src
  ]

  parsed-IsUsec :
      (m : LogMessage) (text : List ℕ) (o : Option (ℕ × List ℕ))
      → IsUsec m.stamp.tv_usec
      → IsUsec (parsed_of m text o).stamp.tv_usec
  unfolding parse_body unparseable
  parsed-IsUsec m text none h = h
  parsed-IsUsec m text (some (pri, src)) h =
      body-IsUsec (record (prepared m) { pri = pri }) (skip_spaces src)
        (read_date lib now (skip_spaces src)) h (read_date-HasUsec lib now (skip_spaces src))

  -- Parsing keeps the microseconds of the stamp between 0 and 999999, whatever the text.
  pub log_msg_parse-IsUsec :
      (m : LogMessage) (text : List ℕ)
      → IsUsec m.stamp.tv_usec
      → IsUsec (log_msg_parse env m text).stamp.tv_usec
  unfolding log_msg_parse
  log_msg_parse-IsUsec m text h = elim (Bool-cases flags.noparse) [
    | inl raw ↦ rw raw h
    | inr parse ↦
        rw parse (parsed-IsUsec m (strip_end text) (read_pri flags.kernel (strip_end text)) h)
  ]

  parse_body-lines :
      (m : LogMessage) (src : List ℕ) → AllBytes is_line_byte (parse_body env m src).msg
  unfolding parse_body
  parse_body-lines m src = body-lines m (skip_spaces src) (read_date lib now (skip_spaces src))

  -- The text of a message whose priority can be read has no newline and no carriage return, unless
  -- parsing is off.
  pub log_msg_parse-AllBytes :
      (m : LogMessage) (text : List ℕ) (found : ℕ × List ℕ)
      → flags.noparse ≡ false
      → read_pri flags.kernel (strip_end text) ≡ some found
      → AllBytes is_line_byte (log_msg_parse env m text).msg
  unfolding log_msg_parse
  log_msg_parse-AllBytes m text (pri, src) parse h = rw parse (
      subst (λ o. AllBytes is_line_byte (parsed_of m (strip_end text) o).msg) (sym h)
        (parse_body-lines (record (prepared m) { pri = pri }) src))

  log_msg_parse-quoted :
      (m : LogMessage) (text : List ℕ)
      → flags.noparse ≡ false
      → read_pri flags.kernel (strip_end text) ≡ none
      → log_msg_parse env m text ≡ unparseable env (prepared m) (strip_end text)
  unfolding log_msg_parse
  log_msg_parse-quoted m text parse h = rw parse (ap (parsed_of m (strip_end text)) h)

  -- A text that starts with `<` and digits, and then has a byte that is neither a digit nor the `>`
  -- nor a line end or a NUL, is no message that is lost: unless parsing is off, it comes out with
  -- priority 43, which is syslog.err, the whole text is quoted up to a NUL, and the stamp, the date,
  -- the host and the program are as before.
  pub log_msg_parse-unparseable :
      (m : LogMessage) (ds : List ℕ) (c : ℕ) (rest : List ℕ)
      → flags.noparse ≡ false
      → AllBytes isdigit ds
      → isdigit c ≡ false
      → (c == b'>') ≡ false
      → (c == 10 || c == 0) ≡ false
      → let m' = log_msg_parse env m (b'<' ∷ (ds ++ c ∷ rest)) in
        (m'.pri ≡ 43)
        × (m'.msg
            ≡ codes "unparseable log message: \""
              ++ (c_string (b'<' ∷ (ds ++ c ∷ strip_end rest)) ++ b'"' ∷ []))
        × (m'.stamp ≡ m.stamp)
        × (m'.date ≡ m.date)
        × (m'.host ≡ m.host)
        × (m'.program ≡ m.program)
  unfolding unparseable read_pri scan_pri
  log_msg_parse-unparseable m ds c rest parse h digit end kept =
      rw (log_msg_parse-quoted m (b'<' ∷ (ds ++ c ∷ rest)) parse unread, stripped)
        (refl, refl, refl, refl, refl, refl)
    where
      stripped : strip_end (b'<' ∷ (ds ++ c ∷ rest)) ≡ b'<' ∷ (ds ++ c ∷ strip_end rest)
      stripped =
          strip_end-append (b'<' ∷ ds) (c ∷ rest) (strip_end rest) c (strip_end-kept c rest kept)

      unread : read_pri flags.kernel (strip_end (b'<' ∷ (ds ++ c ∷ rest))) ≡ none
      unread = rw stripped (scan_pri-none 0 ds c (strip_end rest) h digit end)
