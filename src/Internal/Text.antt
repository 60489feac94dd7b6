-- ===== src/Internal/Text.antt =====
-- What msg_send_internal_message queues, after log_msg_parse has read it.
use indigo.Prelude.{
  ℕ, zero, suc, ◌+◌, ◌/◌, ◌%◌, ◌≡◌, refl, ap, sym, ◌∙◌, Bool, true, false, not, ◌&&◌, none, some,
  List, [], ◌∷◌, ◌++◌, leb, arith, Bool-cases, inl, inr, append_assoc,
}
use indigo.Prelude.Bytes.{codes, AllBytes, decimal_from, decimal}
use indigo.Prelude.Int.{ℤ}
use indigo.Stamp.{TimeLib}
use indigo.Message.{LogMessage}
use indigo.Parser.{skip_spaces, strip_end, span_until, read_pri}
use indigo.Parser.Digits.{scan_pri-decimal}
use indigo.Parser.Date.{
  no_date, layout, looks_rfc3339, looks_pix, looks_linksys, looks_rfc3164, read_date,
}
use indigo.Parser.Header.{read_program}
use indigo.Parser.Whole.{
  ParseEnv, is_kern, parse_undated, parse_body, parse_dated, log_msg_parse, log_msg_init,
  log_msg_new,
}
use indigo.Parser.Relay.{is_text_byte, strip_end-append, strip_end-line, map-no_newline}
use indigo.Parser.Relay.Line.{prepared, log_msg_parse-readable}
use indigo.Internal.{Internal, Place, internal_flags, internal_text, msg_send_internal_message}

AllBytes-append :
    (test : ℕ → Bool) (xs ys : List ℕ)
    → AllBytes test xs
    → AllBytes test ys
    → AllBytes test (xs ++ ys)
AllBytes-append test [] ys h k = k
AllBytes-append test (x ∷ xs) ys (h, hs) k = (h, AllBytes-append test xs ys hs k)

decimal_from-AllBytes : (fuel n : ℕ) → AllBytes is_text_byte (decimal_from fuel n)
unfolding decimal_from
decimal_from-AllBytes zero n = tt
decimal_from-AllBytes (suc fuel) n = elim (Bool-cases (leb n 9)) [
  | inl small ↦ rw small (digit n, tt)
  | inr big ↦ rw big (
      AllBytes-append is_text_byte (decimal_from fuel (n / 10)) ((b'0' + n % 10) ∷ [])
        (decimal_from-AllBytes fuel (n / 10)) (digit (n % 10), tt))
]
  where
    digit : (d : ℕ) → is_text_byte (b'0' + d) ≡ true
    digit d = ground arith

-- the text behind the priority
abbrev pub said : ℕ → List ℕ → List ℕ
said pid msg = codes "syslog-ng[" ++ (decimal pid ++ (codes "]: " ++ msg))

said-AllBytes :
    (pid : ℕ) (msg : List ℕ) → AllBytes is_text_byte msg → AllBytes is_text_byte (said pid msg)
unfolding decimal
said-AllBytes pid msg h =
    AllBytes-append is_text_byte (codes "syslog-ng[") (decimal pid ++ (codes "]: " ++ msg)) ten (
      AllBytes-append is_text_byte (decimal pid) (codes "]: " ++ msg)
        (decimal_from-AllBytes (pid + 1) pid) (refl, (refl, (refl, h))))
  where
    ten : AllBytes is_text_byte (codes "syslog-ng[")
    ten = (refl, (refl, (refl, (refl, (refl, (refl, (refl, (refl, (refl, (refl, tt))))))))))

-- it does not start with a date
layout-said : (rest : List ℕ) → layout (codes "syslog-ng[" ++ rest) ≡ no_date
unfolding layout
layout-said rest = rw (a, b, c, d) refl
  where
    src : List ℕ
    src = codes "syslog-ng[" ++ rest

    a : looks_rfc3339 src ≡ false
    a = ground arith

    b : looks_pix src ≡ false
    b = ground arith

    c : looks_linksys src ≡ false
    c = ground arith

    d : looks_rfc3164 src ≡ false
    d = ground arith

read_date-said :
    (lib : TimeLib) (now : ℤ) (rest : List ℕ)
    → read_date lib now (codes "syslog-ng[" ++ rest) ≡ none
unfolding read_date
read_date-said lib now rest = rw (layout-said rest, read_date) refl

parse_body-said :
    (env : ParseEnv) (m : LogMessage) (pid : ℕ) (msg : List ℕ)
    → parse_body env m (b' ' ∷ said pid msg) ≡ parse_undated env m (said pid msg)
unfolding parse_body skip_spaces
parse_body-said env m pid msg =
    ap
      (λ o. elim o as (λ x. LogMessage) [
        | some d ↦ parse_dated env m d
        | none ↦ parse_undated env m (said pid msg)
      ])
      (read_date-said env.lib env.now (decimal pid ++ (codes "]: " ++ msg)))

-- the fields of a message without a date
undated-said :
    (env : ParseEnv) (m : LogMessage) (pid : ℕ) (msg : List ℕ)
    → is_kern m.pri ≡ false
    → AllBytes is_text_byte msg
    → let m' = parse_undated env m (said pid msg) in
      (m'.pri ≡ m.pri)
      × (m'.program ≡ codes "syslog-ng")
      × (m'.msg ≡ said pid msg)
      × (m'.host ≡ m.host)
      × (m'.internal ≡ m.internal)
      × (m'.local ≡ m.local)
unfolding parse_undated read_program span_until
undated-said env m pid msg kern h =
    (refl, rw kern refl, map-no_newline (said pid msg) (said-AllBytes pid msg h), refl, refl, refl)

strip_end-said :
    (prio pid : ℕ) (msg : List ℕ)
    → AllBytes is_text_byte msg
    → strip_end (internal_text prio pid msg) ≡ b'<' ∷ (decimal prio ++ b'>' ∷ (b' ' ∷ said pid msg))
strip_end-said prio pid msg h =
    ap (λ cs. strip_end (b'<' ∷ (decimal prio ++ b'>' ∷ (b' ' ∷ (codes "syslog-ng[" ++ cs)))))
      (sym (append_assoc (decimal pid) (codes "]: " ++ msg) (10 ∷ [])))
    ∙ strip_end-append (b'<' ∷ decimal prio) ((b'>' ∷ (b' ' ∷ said pid msg)) ++ 10 ∷ [])
        (b' ' ∷ said pid msg) b'>'
        (strip_end-line (b'>' ∷ (b' ' ∷ said pid msg)) (refl, (refl, said-AllBytes pid msg h)))

-- the parser as it is set up for these messages
abbrev internal_env : Place → ParseEnv
internal_env p = record {
  flags = internal_flags;
  lib = p.lib;
  now = p.now;
  is_bad_hostname = λ name. false;
}

parsed_said :
    (p : Place) (m : LogMessage) (prio : ℕ) (msg : List ℕ)
    → AllBytes is_text_byte msg
    → log_msg_parse (internal_env p) m (internal_text prio p.pid msg)
      ≡ parse_undated (internal_env p) (prepared (internal_env p) m prio) (said p.pid msg)
unfolding read_pri
parsed_said p m prio msg h =
    log_msg_parse-readable (internal_env p) m (internal_text prio p.pid msg) prio
      (b' ' ∷ said p.pid msg) refl
      (ap (read_pri false) (strip_end-said prio p.pid msg h)
        ∙ scan_pri-decimal prio (b' ' ∷ said p.pid msg))
    ∙ parse_body-said (internal_env p) (prepared (internal_env p) m prio) p.pid msg

-- A message of the program about itself that is not printed on stderr is put behind those that wait,
-- with the priority it was given, the program syslog-ng, the text behind the process id, no host,
-- and the flags of internal and local messages. The priority is not of the kernel's facility, and
-- the text has no line end and no NUL.
pub msg_send_internal_message_lem :
    (p : Place) (prio : ℕ) (msg : List ℕ) (s : Internal)
    → p.log_stderr ≡ false
    → (not p.syslog_started && leb (prio % 8) 4) ≡ false
    → is_kern prio ≡ false
    → AllBytes is_text_byte msg
    → let (printed, s') = msg_send_internal_message p prio msg s in
      (printed ≡ none)
      × ((m : LogMessage) × ((s' ≡ record s { queue = s.queue ++ m ∷ [] })
            × ((m.pri ≡ prio)
                × (m.program ≡ codes "syslog-ng")
                × (m.msg ≡ said p.pid msg)
                × (m.host ≡ [])
                × (m.internal ≡ true)
                × (m.local ≡ true))))
unfolding msg_send_internal_message log_msg_new log_msg_init
msg_send_internal_message_lem p prio msg s quiet late kern h =
    rw (quiet, late) (refl, (_, (refl, fields)))
  where
    start : LogMessage
    start = log_msg_init (internal_env p) p.sec p.usec

    fields :
        let m = log_msg_parse (internal_env p) start (internal_text prio p.pid msg) in
        (m.pri ≡ prio)
        × (m.program ≡ codes "syslog-ng")
        × (m.msg ≡ said p.pid msg)
        × (m.host ≡ [])
        × (m.internal ≡ true)
        × (m.local ≡ true)
    fields =
        rw (parsed_said p start prio msg h)
          (undated-said (internal_env p) (prepared (internal_env p) start prio) p.pid msg kern h)
