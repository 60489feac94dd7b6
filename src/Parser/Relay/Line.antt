-- ===== src/Parser/Relay/Line.antt =====
-- A whole line, the priority and the newline with it, in log_msg_parse.
use indigo.Prelude.{true, ℕ, ◌≡◌, refl, ap, ◌∙◌, Bool, false, ◌||◌, none, some, List, [], ◌∷◌, ◌++◌}
use indigo.Prelude.Bytes.{AllBytes, decimal}
use indigo.Message.{LogMessage}
use indigo.Parser.{strip_end, read_pri}
use indigo.Parser.Digits.{scan_pri-decimal}
use indigo.Parser.Date.{read_rfc3164}
use indigo.Parser.Whole.{ParseEnv, parse_body, unparseable, parse_dated, log_msg_parse}
use indigo.Parser.Relay.{IsBsdDate, IsRelayable, strip_end-append, strip_end-line, is_text_byte}
use indigo.Parser.Relay.Fields.{rest-relay, parse_dated-relay, parse_body-relay}
use indigo.Writer.{Formatter, LogWriterOptions, log_writer_format_log, chosen_template}

-- the line that is sent
abbrev line : ℕ → (date host msg : List ℕ) → List ℕ
line pri date host msg =
    b'<' ∷ (decimal pri ++ b'>' ∷ (date ++ b' ' ∷ (host ++ b' ' ∷ (msg ++ 10 ∷ []))))

module _ (env : ParseEnv) where
  open env use {flags, lib, now}

  -- the message that the part behind the priority is read into
  abbrev pub prepared : LogMessage → ℕ → LogMessage
  prepared m pri = record m {
    internal = m.internal || flags.internal;
    local = m.local || flags.local;
    pri = pri;
  }

  -- the priority in its brackets
  read_pri-relay :
      (kernel : Bool) (pri : ℕ) (rest : List ℕ)
      → read_pri kernel (b'<' ∷ (decimal pri ++ b'>' ∷ rest)) ≡ some (pri, rest)
  unfolding read_pri
  read_pri-relay kernel pri rest = scan_pri-decimal pri rest

  -- the line without its newline
  strip_end-relay :
      (pri : ℕ) (date host msg : List ℕ)
      → AllBytes is_text_byte msg
      → strip_end
          (b'<' ∷ (decimal pri ++ b'>' ∷ (date ++ b' ' ∷ (host ++ b' ' ∷ (msg ++ 10 ∷ [])))))
        ≡ b'<' ∷ (decimal pri ++ b'>' ∷ (date ++ b' ' ∷ (host ++ b' ' ∷ msg)))
  strip_end-relay pri date host msg h =
      strip_end-append (b'<' ∷ decimal pri)
        (b'>' ∷ (date ++ b' ' ∷ (host ++ b' ' ∷ (msg ++ 10 ∷ []))))
        (date ++ b' ' ∷ (host ++ b' ' ∷ msg)) b'>'
        (strip_end-append (b'>' ∷ date) (b' ' ∷ (host ++ b' ' ∷ (msg ++ 10 ∷ [])))
          (host ++ b' ' ∷ msg) b' '
          (strip_end-append (b' ' ∷ host) (b' ' ∷ (msg ++ 10 ∷ [])) msg b' '
            (strip_end-line (b' ' ∷ msg) (refl, h))))

  -- log_msg_parse where the priority can be read
  pub log_msg_parse-readable :
      (m : LogMessage) (data' : List ℕ) (pri : ℕ) (src : List ℕ)
      → flags.noparse ≡ false
      → read_pri flags.kernel (strip_end data') ≡ some (pri, src)
      → log_msg_parse env m data' ≡ parse_body env (prepared m pri) src
  unfolding log_msg_parse
  log_msg_parse-readable m data' pri src parse e = rw parse (
      ap
        (λ o. elim o as (λ x. LogMessage) [
          | none ↦
              unparseable env
                record m { internal = m.internal || flags.internal; local = m.local || flags.local }
                (strip_end data')
          | some (pri, src) ↦ parse_body env (prepared m pri) src
        ])
        e)

  log_msg_parse-relay :
      (m : LogMessage) (pri : ℕ) (date host msg : List ℕ)
      → flags.noparse ≡ false
      → IsBsdDate date
      → IsRelayable env host msg
      → let m' = log_msg_parse env m (line pri date host msg) in
        (m'.pri ≡ pri) × (m'.date ≡ date) × (m'.host ≡ host) × (m'.msg ≡ msg)
  log_msg_parse-relay m pri date host msg parse d r =
      let behind = rest-relay env date (host ++ b' ' ∷ msg) d.fifteen in
      let fields =
        parse_dated-relay env (prepared m pri) (read_rfc3164 lib now src) host msg r behind.1 in
      rw whole (fields.0, fields.1 ∙ behind.0, fields.2, fields.3)
    where
      src : List ℕ
      src = date ++ b' ' ∷ (host ++ b' ' ∷ msg)

      whole :
          log_msg_parse env m (line pri date host msg)
          ≡ parse_dated env (prepared m pri) (read_rfc3164 lib now src)
      whole =
          log_msg_parse-readable m (line pri date host msg) pri src parse (
            ap (read_pri flags.kernel) (strip_end-relay pri date host msg r.text_bytes)
            ∙ read_pri-relay flags.kernel pri src)
          ∙ parse_body-relay env (prepared m pri) date host msg d r

proto_line :
    {M : Type 0} (f : Formatter M) (o : LogWriterOptions f.Template) (lm : M)
    → (o.template ≡ none)
      × (o.proto_template ≡ none)
      × (o.format_file ≡ false)
      × (o.format_proto ≡ true)
    → f.decimal ≡ decimal
    → log_writer_format_log f o lm []
      ≡ line (f.pri lm) (f.stamp_format_bsd lm o.use_time_recvd) (f.host lm) (f.msg lm)
unfolding log_writer_format_log chosen_template
proto_line f o lm (t, p, file, proto) print = rw (t, file, proto, p, print) refl

-- A message that a writer without templates formats for the network, with a date `Mmm dd hh:mm:ss`,
-- is read back by a parser that parses: priority, date, host and text are those that the writer
-- printed. The host is not empty, has 255 bytes at most, bytes of a host name only, no digit in
-- front, and is no bad host name; the text has no line end and no NUL, and no space in front; host
-- and text do not read as an AIX forwarder or a repeated message; the formatter prints priorities
-- in decimal.
pub log_msg_parse-log_writer_format_log :
    {M : Type 0} (env : ParseEnv) (f : Formatter M) (o : LogWriterOptions f.Template) (lm : M)
    (m : LogMessage)
    → env.flags.noparse ≡ false
    → (o.template ≡ none)
      × (o.proto_template ≡ none)
      × (o.format_file ≡ false)
      × (o.format_proto ≡ true)
    → f.decimal ≡ decimal
    → IsBsdDate (f.stamp_format_bsd lm o.use_time_recvd)
    → IsRelayable env (f.host lm) (f.msg lm)
    → let m' = log_msg_parse env m (log_writer_format_log f o lm []) in
      (m'.pri ≡ f.pri lm)
      × (m'.date ≡ f.stamp_format_bsd lm o.use_time_recvd)
      × (m'.host ≡ f.host lm)
      × (m'.msg ≡ f.msg lm)
log_msg_parse-log_writer_format_log env f o lm m parse plain print date ok =
    rw (proto_line f o lm plain print) (
      log_msg_parse-relay env m (f.pri lm) (f.stamp_format_bsd lm o.use_time_recvd) (f.host lm)
        (f.msg lm) parse date ok)
