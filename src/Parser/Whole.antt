-- ===== src/Parser/Whole.antt =====
-- log_msg_parse, log_msg_new and log_msg_new_mark of src/logmsg.c.
use indigo.Prelude.{
  ℕ, ◌/◌, ◌%◌, Bool, true, false, ◌||◌, Option, none, some, List, [], ◌∷◌, ◌++◌, ◌==◌, map,
  if◌then◌else◌,
}
use indigo.Prelude.Bytes.{codes}
use indigo.Prelude.Int.{ℤ, negsuc, eqb_ℤ}
use indigo.Message.{LogStamp, LogMessage, ParseFlags}
use indigo.Stamp.{TimeLib, get_local_timezone_ofs}
use indigo.Parser.{skip_spaces, strip_end, span_until, read_pri}
use indigo.Parser.Date.{Dated, read_date}
use indigo.Parser.Header.{read_program, read_header}

-- `%.*s`, which ends at a NUL
abbrev pub c_string : List ℕ → List ℕ
c_string cs = (span_until (λ c. c == 0) cs).0

-- a newline in the text becomes a space
abbrev pub no_newline : ℕ → ℕ
no_newline c = if c == 10 || c == 13 then b' ' else c

abbrev pub or_else : List ℕ → Option (List ℕ) → List ℕ
or_else old none = old
or_else old (some new) = new

-- facility LOG_KERN
abbrev pub is_kern : ℕ → Bool
is_kern pri = (pri / 8) % 128 == 0

-- what parsing uses: the flags, the time, and the regular expression of bad host names
pub record ParseEnv : Type 0 where
  pub flags : ParseFlags
  pub lib : TimeLib
  pub now : ℤ
  pub is_bad_hostname : List ℕ → Bool

module _ (env : ParseEnv) where
  open env use {flags, lib, now, is_bad_hostname}

  -- a stamp with no offset is in local time
  unfoldable pub set_local : LogStamp → LogStamp
  unfolding get_local_timezone_ofs
  set_local stamp =
      if eqb_ℤ stamp.zone_offset (negsuc 0)
      then record stamp { zone_offset = get_local_timezone_ofs lib stamp.tv_sec }
      else stamp

  -- a message with a date
  unfoldable pub parse_dated : LogMessage → Dated → LogMessage
  unfolding set_local read_header
  parse_dated m d =
      let h = read_header flags.check_hostname is_bad_hostname d.rest in
      record m {
        date = d.date;
        stamp = set_local d.stamp;
        host = or_else m.host h.host;
        program = or_else m.program h.program;
        msg = map no_newline h.text;
      }

  -- a message with none: the time is now, the program comes first
  unfoldable pub parse_undated : LogMessage → List ℕ → LogMessage
  unfolding set_local read_program
  parse_undated m src = record m {
    stamp = record (set_local m.stamp) { tv_sec = now };
    program = if is_kern m.pri then codes "kernel" else or_else m.program (read_program src);
    msg = map no_newline src;
  }

  -- what follows the priority
  unfoldable pub parse_body : LogMessage → List ℕ → LogMessage
  unfolding parse_dated parse_undated read_date skip_spaces
  parse_body m src =
      let src' = skip_spaces src in
      elim (read_date lib now src') [ some d ↦ parse_dated m d | none ↦ parse_undated m src' ]

  -- a priority that cannot be read: the text is kept, at LOG_SYSLOG | LOG_ERR
  unfoldable pub unparseable : LogMessage → List ℕ → LogMessage
  unfolding span_until
  unparseable m text = record m {
    pri = 43;
    msg = codes "unparseable log message: \"" ++ (c_string text ++ b'"' ∷ []);
  }

  -- log_msg_parse
  unfoldable pub log_msg_parse : LogMessage → List ℕ → LogMessage
  unfolding strip_end read_pri unparseable parse_body
  log_msg_parse m data' =
      let text = strip_end data' in
      if flags.noparse
      then record m { msg = text }
      else let m' : LogMessage = record m {
        internal = m.internal || flags.internal;
        local = m.local || flags.local;
      } in
        elim (read_pri flags.kernel text) [
          | none ↦ unparseable m' text
          | some (pri, src) ↦ parse_body (record m' { pri = pri }) src
        ]

  -- log_msg_init: the message before it is parsed, received at a time
  unfoldable pub log_msg_init : (sec usec : ℤ) → LogMessage
  unfolding get_local_timezone_ofs
  log_msg_init sec usec = record {
    internal = false;
    local = false;
    mark = false;
    pri = 0;
    stamp = record { tv_sec = sec; tv_usec = usec; zone_offset = negsuc 0 };
    recvd = record { tv_sec = sec; tv_usec = usec; zone_offset = get_local_timezone_ofs lib sec };
    date = [];
    host = [];
    program = [];
    msg = [];
  }

  -- log_msg_new
  unfoldable pub log_msg_new : (sec usec : ℤ) → List ℕ → LogMessage
  unfolding log_msg_init log_msg_parse
  log_msg_new sec usec text = log_msg_parse (log_msg_init sec usec) text

-- the flags that log_msg_new_mark parses with, LP_NOPARSE
abbrev pub noparse_flags : ParseFlags
noparse_flags = record {
  noparse = true;
  internal = false;
  local = false;
  check_hostname = false;
  strict = false;
  kernel = false;
}

-- log_msg_new_mark: LF_LOCAL | LF_MARK, LOG_SYSLOG | LOG_INFO
pub log_msg_new_mark : TimeLib → (now sec usec : ℤ) → LogMessage
unfolding log_msg_new
log_msg_new_mark lib now sec usec =
    let env : ParseEnv = record {
      flags = noparse_flags;
      lib = lib;
      now = now;
      is_bad_hostname = λ name. false;
    } in
    record (log_msg_new env sec usec (codes "-- MARK --")) {
      internal = false;
      local = true;
      mark = true;
      pri = 46;
    }
