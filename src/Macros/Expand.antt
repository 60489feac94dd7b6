-- ===== src/Macros/Expand.antt =====
-- log_macro_expand of src/macros.c: what a macro appends to a result.
use indigo.Prelude.{
  ℕ, zero, suc, ◌+◌, ◌-◌, ◌*◌, ◌/◌, ◌%◌, Bool, not, Option, none, some, List, [], ◌∷◌, ◌==◌, ltb,
  leb, if◌then◌else◌, is_empty,
}
use indigo.Prelude.Bytes.{codes, decimal, two_digits, hex, zeros}
use indigo.Prelude.Int.{ℤ, pos, negsuc, ◌+ℤ◌, eqb_ℤ}
use indigo.Message.{LogStamp, LogMessage}
use indigo.Names.{sl_levels, sl_facilities, syslog_name_lookup_name_by_value}
use indigo.Parser.{span_until, skip_spaces}
use indigo.Parser.Whole.{c_string, or_else}
use indigo.Stamp.{
  Tm, weekday, weeknum, TimeLib, get_local_timezone_ofs, format_zone_info, decimal_ℤ, TsFormat,
  fmt_bsd, fmt_iso, fmt_full, fmt_unix, log_stamp_format,
}
use indigo.Macros.{result_append}
use indigo.Macros.Table.{
  TimeMacro, date, full_date, iso_date, stamp, year, month, day, hour, minute, second, week_day,
  week, tz_offset, tz, unixtime, WhichStamp, by_flags, recvd, stamped, Macro, facility,
  facility_num, level, level_num, tag, pri, time, full_host, host, full_host_from, host_from,
  program, pid, message, msgonly, source_ip, no_macro, macro_of_id,
}

-- the part behind the first byte that passes a test, if there is one: memchr and strchr
unfoldable pub behind : (ℕ → Bool) → List ℕ → Option (List ℕ)
behind test [] = none
behind test (c ∷ cs) = let rest = behind test cs in if test c then some cs else rest

-- M_HOST and M_HOST_FROM: behind an `@`, up to a `/`
unfoldable pub short_host : List ℕ → List ℕ
unfolding span_until behind
short_host name =
    let start = or_else name (behind (λ c. c == b'@') name) in (span_until (λ c. c == b'/') start).0

-- M_PID: between brackets
pub pid_text : List ℕ → List ℕ
unfolding span_until behind
pid_text msg = elim (behind (λ c. c == b'[') (c_string msg)) [
  | none ↦ []
  | some start ↦
      let (inside, rest) = span_until (λ c. c == b']') start in if is_empty rest then [] else inside
]

-- M_MSGONLY: behind a colon and the spaces that follow it
pub msg_only : List ℕ → List ℕ
unfolding behind skip_spaces
msg_only msg = elim (behind (λ c. c == b':') msg) [ none ↦ msg | some rest ↦ skip_spaces rest ]

-- what a message has beside the fields of LogMessage: the matches of the last regular expression,
-- the host it was received from, and the printed address of an internet sender
pub record Extra : Type 0 where
  pub re_matches : List (List ℕ)
  pub host_from : List ℕ
  pub ip : Option (List ℕ)

-- a match by its index, nothing if there are not so many
unfoldable pub nth_match : ℕ → List (List ℕ) → Option (List ℕ)
nth_match n [] = none
nth_match zero (m ∷ ms) = some m
nth_match (suc n) (m ∷ ms) = nth_match n ms

-- the text of the macros that are escaped
unfoldable pub macro_text : Macro → LogMessage → Extra → Option (List ℕ)
unfolding short_host pid_text msg_only
macro_text full_host m x = some m.host
macro_text full_host_from m x = some x.host_from
macro_text host m x = some (short_host m.host)
macro_text host_from m x = some (short_host x.host_from)
macro_text program m x = some m.program
macro_text pid m x = some (pid_text m.msg)
macro_text message m x = some m.msg
macro_text msgonly m x = some (msg_only m.msg)
macro_text source_ip m x = some (elim x.ip [ none ↦ codes "127.0.0.1" | some ip ↦ ip ])
macro_text _ m x = none

-- `pri & LOG_FACMASK` and `pri & LOG_PRIMASK`
abbrev pub facility_of : ℕ → ℕ
facility_of p = p / 8 % 128 * 8

abbrev pub level_of : ℕ → ℕ
level_of p = p % 8

abbrev pub or_number : Option (List ℕ) → List ℕ → List ℕ
or_number none number = number
or_number (some name) number = name

-- the macros of the priority
pub macro_pri : Macro → ℕ → List ℕ
unfolding syslog_name_lookup_name_by_value decimal hex
macro_pri facility p =
    or_number (syslog_name_lookup_name_by_value (facility_of p) sl_facilities)
      (hex (facility_of p / 8))
macro_pri facility_num p = decimal (facility_of p / 8)
macro_pri level p =
    or_number (syslog_name_lookup_name_by_value (level_of p) sl_levels) (decimal (level_of p))
macro_pri level_num p = decimal (level_of p)
macro_pri tag p = zeros 2 (hex p)
macro_pri pri p = decimal p
macro_pri _ p = []

-- the arguments of log_macro_expand: the flags, TS_FMT_*, the zone (-1 is unset) and the digits
pub record MacroArgs : Type 0 where
  pub escape_result : Bool
  pub stamp_recvd : Bool
  pub ts_format : TsFormat
  pub zone_offset : ℤ
  pub frac_digits : ℕ

module _ (lib : TimeLib) (args : MacroArgs) where
  open lib use {gmtime, strftime}
  open args use {escape_result, stamp_recvd, ts_format, zone_offset, frac_digits}

  -- the stamp that a time macro shows
  pub chosen_stamp : WhichStamp → LogMessage → LogStamp
  chosen_stamp recvd m = m.recvd
  chosen_stamp stamped m = m.stamp
  chosen_stamp by_flags m = if stamp_recvd then m.recvd else m.stamp

  -- the zone: that of the destination, of the message, or the local one
  pub chosen_zone : LogStamp → ℤ
  unfolding get_local_timezone_ofs
  chosen_zone s =
      if not (eqb_ℤ zone_offset (negsuc 0))
      then zone_offset
      else if not (eqb_ℤ s.zone_offset (negsuc 0))
      then s.zone_offset
      else get_local_timezone_ofs lib s.tv_sec

  -- the time macros, of a broken-down time, which gmtime does give
  pub macro_time : TimeMacro → LogStamp → Tm → List ℕ
  unfolding log_stamp_format format_zone_info chosen_zone decimal_ℤ
  macro_time week_day s tm = strftime weekday tm
  macro_time week s tm = strftime weeknum tm
  macro_time year s tm = zeros 4 (decimal_ℤ (tm.tm_year +ℤ pos 1900))
  macro_time month s tm = two_digits (tm.tm_mon + 1)
  macro_time day s tm = two_digits tm.tm_mday
  macro_time hour s tm = zeros 2 (decimal_ℤ tm.tm_hour)
  macro_time minute s tm = two_digits tm.tm_min
  macro_time second s tm = two_digits tm.tm_sec
  macro_time date s tm = log_stamp_format lib s fmt_bsd zone_offset frac_digits
  macro_time iso_date s tm = log_stamp_format lib s fmt_iso zone_offset frac_digits
  macro_time full_date s tm = log_stamp_format lib s fmt_full zone_offset frac_digits
  macro_time unixtime s tm = log_stamp_format lib s fmt_unix zone_offset frac_digits
  macro_time stamp s tm = log_stamp_format lib s ts_format zone_offset frac_digits
  macro_time tz s tm = format_zone_info (chosen_zone s)
  macro_time tz_offset s tm = format_zone_info (chosen_zone s)

  -- the macros that are not escaped; `none` is an assertion that fails, or a time that gmtime does
  -- not know, which the code does not look at
  pub expand_unescaped : Macro → LogMessage → Option (List ℕ)
  unfolding macro_pri macro_time chosen_stamp chosen_zone
  expand_unescaped no_macro m = none
  expand_unescaped (time which t) m =
      let s = chosen_stamp which m in
      elim (gmtime (s.tv_sec +ℤ chosen_zone s)) [ none ↦ none | some tm ↦ some (macro_time t s tm) ]
  expand_unescaped macro m = some (macro_pri macro m.pri)

  -- the switch of log_macro_expand
  unfoldable pub expand_macro : Macro → LogMessage → Extra → Option (List ℕ)
  unfolding macro_text expand_unescaped result_append
  expand_macro macro m x = elim (macro_text macro m x) [
    | some text ↦ some (result_append text escape_result)
    | none ↦ expand_unescaped macro m
  ]

  -- log_macro_expand: a match reference, or a macro. An id that a gint does not hold is negative in
  -- the code, and so is no macro; there are never so many matches.
  unfoldable pub log_macro_expand : ℕ → LogMessage → Extra → Option (List ℕ)
  unfolding nth_match expand_macro result_append macro_of_id
  log_macro_expand id m x =
      if leb 256 id
      then elim (nth_match (id - 256) x.re_matches) [
        | none ↦ if ltb id 2147483648 then some [] else none
        | some text ↦ some (result_append (c_string text) escape_result)
      ]
      else expand_macro (macro_of_id id) m x
