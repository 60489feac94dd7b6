-- ===== src/Parser/Relay/Fields.antt =====
-- The date, the host and the text of a line that comes back, in log_msg_parse.
use indigo.Prelude.{
  ℕ, ◌≤◌, ◌<◌, ◌≡◌, refl, ap, ◌∙◌, false, none, some, List, [], ◌∷◌, ◌++◌, arith, length, map,
  length-append, take-append, drop-append,
}
use indigo.Prelude.Bytes.{byte_at, byte_at-append, byte_at-behind, AllBytes}
use indigo.Message.{LogMessage}
use indigo.Parser.{skip_spaces}
use indigo.Parser.Date.{Dated, rfc3164, layout, read_date, read_rfc3164, cisco_frac}
use indigo.Parser.Header.{read_header, read_names, read_host, read_aix, read_program, starts_space}
use indigo.Parser.Whole.{ParseEnv, no_newline, or_else, parse_body, parse_undated, parse_dated}
use indigo.Parser.Relay.{
  IsBsdDate, IsRelayable, layout-rfc3164, span_host-append, map-no_newline, skip_spaces-start,
  starts_space-byte_at, is_name_byte,
}

module _ (env : ParseEnv) where
  open env use {flags, lib, now, is_bad_hostname}

  host_start :
      (host rest : List ℕ)
      → 1 ≤ length host
      → AllBytes (is_name_byte flags.check_hostname) host
      → starts_space (host ++ rest) ≡ false
  host_start [] rest l h = absurd (omega arith)
  host_start (c ∷ cs) rest l (h, hs) = ground arith

  read_host-relay :
      (host msg : List ℕ)
      → IsRelayable env host msg
      → read_host flags.check_hostname is_bad_hostname (host ++ b' ' ∷ msg)
        ≡ some (host, b' ' ∷ msg)
  unfolding read_host
  read_host-relay host msg r =
      rw (span_host-append flags.check_hostname 255 host msg r.fits r.host_bytes, r.no_bad_hostname)
        refl

  read_names-relay :
      (host msg : List ℕ)
      → IsRelayable env host msg
      → read_names flags.check_hostname is_bad_hostname none (host ++ b' ' ∷ msg)
        ≡ record { host = some host; program = read_program msg; text = msg }
  unfolding read_names skip_spaces
  read_names-relay host msg r =
      rw (read_host-relay host msg r, read_names, skip_spaces-start msg r.no_space) refl

  read_header-relay :
      (host msg : List ℕ)
      → IsRelayable env host msg
      → read_header flags.check_hostname is_bad_hostname (b' ' ∷ (host ++ b' ' ∷ msg))
        ≡ record { host = some host; program = read_program msg; text = msg }
  unfolding read_header read_aix skip_spaces
  read_header-relay host msg r =
      rw
        (
          skip_spaces-start (host ++ b' ' ∷ msg)
              (host_start host (b' ' ∷ msg) r.some_host r.host_bytes),
          r.no_forward,
          r.no_repeat,
        )
        (read_names-relay host msg r)

  -- the bytes of the date and the first of the host decide the format
  layout-relay :
      (date host msg : List ℕ)
      → IsBsdDate date
      → IsRelayable env host msg
      → layout (date ++ b' ' ∷ (host ++ b' ' ∷ msg)) ≡ rfc3164
  layout-relay date host msg d r =
      layout-rfc3164 (date ++ tail) long (rw (kept 3 (rw d.fifteen (omega arith))) d.month_end)
        (rw (kept 6 (rw d.fifteen (omega arith))) d.day_end)
        (rw (kept 9 (rw d.fifteen (omega arith))) d.hour_end)
        (rw (kept 10 (rw d.fifteen (omega arith))) d.minute)
        (rw (kept 11 (rw d.fifteen (omega arith))) d.minute_digit)
        (rw (kept 12 (rw d.fifteen (omega arith))) d.minute_end) (rw next_byte r.no_digit)
    where
      tail : List ℕ
      tail = b' ' ∷ (host ++ b' ' ∷ msg)

      kept : (i : ℕ) → i < length date → byte_at (date ++ tail) i ≡ byte_at date i
      kept i h = byte_at-append i date tail h

      next_byte : byte_at (date ++ tail) 16 ≡ byte_at host 0
      next_byte =
          ap (byte_at (date ++ tail)) (omega (arith, d.fifteen))
          ∙ byte_at-behind 1 date tail
          ∙ byte_at-append 0 host (b' ' ∷ msg) r.some_host

      long : 15 ≤ length (date ++ tail)
      long = omega (arith, length-append date (b' ' ∷ (host ++ b' ' ∷ msg)), d.fifteen)

  read_date-relay :
      (date host msg : List ℕ)
      → IsBsdDate date
      → IsRelayable env host msg
      → read_date lib now (date ++ b' ' ∷ (host ++ b' ' ∷ msg))
        ≡ some (read_rfc3164 lib now (date ++ b' ' ∷ (host ++ b' ' ∷ msg)))
  unfolding read_date
  read_date-relay date host msg d r = rw (layout-relay date host msg d r, read_date) refl

  -- a text behind a date of 15 bytes
  pub rest-relay :
      (date tail : List ℕ)
      → length date ≡ 15
      → let d = read_rfc3164 lib now (date ++ b' ' ∷ tail) in
        (d.date ≡ date) × (d.rest ≡ b' ' ∷ tail)
  unfolding read_rfc3164 cisco_frac
  rest-relay date tail h = (
    take-append 15 date (b' ' ∷ tail) h,
    ap (λ cs. (cisco_frac lib now cs).1) (drop-append 15 date (b' ' ∷ tail) h),
  )

  -- the host and the text behind a date
  pub parse_dated-relay :
      (m : LogMessage) (d : Dated) (host msg : List ℕ)
      → IsRelayable env host msg
      → d.rest ≡ b' ' ∷ (host ++ b' ' ∷ msg)
      → let m' = parse_dated env m d in
        (m'.pri ≡ m.pri) × (m'.date ≡ d.date) × (m'.host ≡ host) × (m'.msg ≡ msg)
  unfolding parse_dated
  parse_dated-relay m d host msg r e = (
    refl,
    refl,
    ap (λ h. or_else m.host h.host) header,
    ap (λ h. map no_newline h.text) header ∙ map-no_newline msg r.text_bytes,
  )
    where
      header :
          read_header flags.check_hostname is_bad_hostname d.rest
          ≡ record { host = some host; program = read_program msg; text = msg }
      header = rw e (read_header-relay host msg r)

  -- the body of the message: a date, a host and a text
  pub parse_body-relay :
      (m : LogMessage) (date host msg : List ℕ)
      → IsBsdDate date
      → IsRelayable env host msg
      → let src = date ++ b' ' ∷ (host ++ b' ' ∷ msg) in
        parse_body env m src ≡ parse_dated env m (read_rfc3164 lib now src)
  unfolding parse_body
  parse_body-relay m date host msg d r =
      ap with_date start
      ∙ ap
          (λ o. elim o as (λ x. LogMessage) [
            | some d ↦ parse_dated env m d
            | none ↦ parse_undated env m (date ++ tail)
          ])
          (read_date-relay date host msg d r)
    where
      tail : List ℕ
      tail = b' ' ∷ (host ++ b' ' ∷ msg)

      with_date : List ℕ → LogMessage
      with_date src = elim (read_date lib now src) [
        | some d ↦ parse_dated env m d
        | none ↦ parse_undated env m src
      ]

      start : skip_spaces (date ++ tail) ≡ date ++ tail
      start = skip_spaces-start (date ++ tail) (
          starts_space-byte_at (date ++ tail)
            (rw (byte_at-append 0 date tail (rw d.fifteen (omega arith))) d.no_space))
