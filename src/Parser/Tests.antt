-- ===== src/Parser/Tests.antt =====
-- Messages of the usual kinds, with a clock that always shows the same.
use indigo.Prelude.{ℕ, ◌≡◌, refl, true, false, none, some, List, [], ◌++◌}
use indigo.Prelude.{arith}
use indigo.Prelude.Bytes.{codes, decimal, AllBytes}
use indigo.Prelude.Int.{pos}
use indigo.Message.{LogMessage}
use indigo.Stamp.{Tm, TimeLib, format_zone_info, frac_loop, powers}
use indigo.Parser.Date.{read_zone, usec_of}
use indigo.Parser.Zone.{read_zone-format_zone_info, usec_of-frac_loop}
use indigo.Parser.{strip_end, span_until, scan_pri, read_pri}
use indigo.Parser.Whole.{ParseEnv, log_msg_init, log_msg_parse, log_msg_new}
use indigo.Parser.Relay.{IsBsdDate, IsRelayable}
use indigo.Parser.Relay.Line.{log_msg_parse-log_writer_format_log}
use indigo.Parser.Usec.{IsUsec}
use indigo.Parser.Safety.{
  is_line_byte, log_msg_parse-IsUsec, log_msg_parse-AllBytes, log_msg_parse-unparseable,
}
use indigo.Writer.{Formatter, LogWriterOptions, log_writer_format_log}

abbrev midnight : Tm
midnight = record {
  tm_sec = 0;
  tm_min = 0;
  tm_hour = pos 0;
  tm_mday = 1;
  tm_mon = 0;
  tm_year = pos 108;
  tm_isdst = pos 0;
  tm_gmtoff = pos 3600;
}

abbrev still : TimeLib
still = record {
  gmtime = λ t. some midnight;
  localtime = λ t. midnight;
  mktime = λ tm. (pos 1000, pos 0);
  strftime = λ f tm. codes "Jan  1 00:00:00";
  strptime = λ f text tm. (tm, none);
}

abbrev env : ParseEnv
env = record {
  flags = record {
    noparse = false;
    internal = false;
    local = true;
    check_hostname = true;
    strict = false;
    kernel = false;
  };
  lib = still;
  now = pos 2000;
  is_bad_hostname = λ name. false;
}

abbrev parsed : List ℕ → LogMessage
parsed text = log_msg_new env (pos 5) (pos 6) text

bsd_message :
    let m = parsed (codes "<38>Feb 11 10:34:56 bzorp sshd[12]: ok\n") in
    (m.pri ≡ 38)
    × (m.host ≡ codes "bzorp")
    × (m.program ≡ codes "sshd")
    × (m.msg ≡ codes "sshd[12]: ok")
unfolding log_msg_new
bsd_message = (refl, refl, refl, refl)

no_date_message :
    let m = parsed (codes "su: hello") in
    (m.pri ≡ 13) × (m.host ≡ []) × (m.program ≡ codes "su") × (m.msg ≡ codes "su: hello")
unfolding log_msg_new
no_date_message = (refl, refl, refl, refl)

aix_message :
    let m = parsed (codes "<7>Feb 11 10:34:56 Message forwarded from a1: b[3]: x") in
    (m.host ≡ codes "a1") × (m.program ≡ codes "b") × (m.msg ≡ codes "b[3]: x")
unfolding log_msg_new
aix_message = (refl, refl, refl)

-- the year of a LinkSys date is taken from a host name that starts with four digits
digits_message :
    let m = parsed (codes "<7>Feb 11 10:34:56 2001a sshd: x") in
    (m.host ≡ codes "a") × (m.msg ≡ codes "sshd: x")
unfolding log_msg_new
digits_message = (refl, refl)

-- a formatter whose messages are their texts
abbrev proto : Formatter (List ℕ)
proto = record {
  Template = Unit {0};
  template_format = λ t m e r. [];
  stamp_format = λ m r. [];
  stamp_format_bsd = λ m r. codes "Feb 11 10:34:56";
  pri = λ m. 38;
  host = λ m. codes "bzorp";
  msg = λ m. m;
  decimal = decimal;
}

abbrev network : LogWriterOptions (Unit {0})
network = record {
  fifo_size = 2;
  flush_lines = 0;
  flush_timeout = 10000;
  template = none;
  file_template = none;
  proto_template = none;
  tmpl_escape = false;
  use_time_recvd = false;
  format_file = false;
  format_proto = true;
}

abbrev blank : LogMessage
blank = log_msg_init env (pos 5) (pos 6)

abbrev feb_IsBsdDate : IsBsdDate (codes "Feb 11 10:34:56")
feb_IsBsdDate = record {
  fifteen = refl;
  no_space = refl;
  month_end = refl;
  day_end = refl;
  hour_end = refl;
  minute = refl;
  minute_digit = refl;
  minute_end = refl;
}

abbrev ok_IsRelayable : IsRelayable env (codes "bzorp") (codes "sshd: ok")
ok_IsRelayable = record {
  some_host = omega arith;
  fits = omega arith;
  host_bytes = (refl, (refl, (refl, (refl, (refl, tt)))));
  no_digit = refl;
  no_bad_hostname = refl;
  no_forward = refl;
  no_repeat = refl;
  text_bytes = (refl, (refl, (refl, (refl, (refl, (refl, (refl, (refl, tt))))))));
  no_space = refl;
}

log_msg_parse-log_writer_format_log_example :
    let m' = log_msg_parse env blank (log_writer_format_log proto network (codes "sshd: ok") []) in
    (m'.pri ≡ 38)
    × (m'.date ≡ codes "Feb 11 10:34:56")
    × (m'.host ≡ codes "bzorp")
    × (m'.msg ≡ codes "sshd: ok")
log_msg_parse-log_writer_format_log_example =
    log_msg_parse-log_writer_format_log env proto network (codes "sshd: ok") blank refl
      (refl, refl, refl, refl) refl feb_IsBsdDate ok_IsRelayable

log_msg_parse-IsUsec_example :
    IsUsec (log_msg_parse env blank (codes "<7>Feb 11 10:34:56.25 a b")).stamp.tv_usec
unfolding IsUsec log_msg_init
log_msg_parse-IsUsec_example =
    log_msg_parse-IsUsec env blank (codes "<7>Feb 11 10:34:56.25 a b") (6, (refl, omega arith))

log_msg_parse-AllBytes_example :
    AllBytes is_line_byte (log_msg_parse env blank (codes "<7>one\ntwo")).msg
unfolding read_pri strip_end scan_pri
log_msg_parse-AllBytes_example =
    log_msg_parse-AllBytes env blank (codes "<7>one\ntwo") (7, codes "one\ntwo") refl refl

log_msg_parse-unparseable_example :
    let m' = log_msg_parse env blank (codes "<1a") in
    (m'.pri ≡ 43)
    × (m'.msg ≡ codes "unparseable log message: \"<1a\"")
    × (m'.stamp ≡ blank.stamp)
    × (m'.date ≡ blank.date)
    × (m'.host ≡ blank.host)
    × (m'.program ≡ blank.program)
unfolding strip_end span_until
log_msg_parse-unparseable_example =
    log_msg_parse-unparseable env blank (codes "1") b'a' [] refl (refl, tt) refl refl refl

read_zone-format_zone_info_example : read_zone (format_zone_info (pos 19800)) ≡ some (pos 19800)
read_zone-format_zone_info_example =
    read_zone-format_zone_info (pos 19800) (omega arith, omega arith)

usec_of-frac_loop_example :
    usec_of (frac_loop powers 6 120500 ++ codes "+01:00") ≡ (120500, codes "+01:00")
usec_of-frac_loop_example = usec_of-frac_loop 120500 (codes "+01:00") (omega arith)
