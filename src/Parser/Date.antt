-- ===== src/Parser/Date.antt =====
-- The time stamp of a message: the branches of log_msg_parse over the formats of dates.
use indigo.Prelude.{
  ℕ, zero, suc, ◌+◌, ◌-◌, ◌*◌, ◌/◌, Bool, ◌&&◌, ◌||◌, Option, none, some, List, [], ◌∷◌, ◌==◌, ltb,
  leb, if◌then◌else◌, length, take, drop,
}
use indigo.Prelude.Bytes.{isdigit, byte_at}
use indigo.Prelude.Int.{ℤ, pos, negsuc, ◌+ℤ◌, ◌-ℤ◌, scale_ℤ}
use indigo.Message.{LogStamp}
use indigo.Stamp.{Tm, TimeFormat, bsd, iso, pix, linksys, TimeLib, get_local_timezone_ofs}
use indigo.Parser.{span_until}

-- The tests on the bytes of the text, in their order
pub data Layout : Type 0 where
  rfc3339 pix_date linksys_date rfc3164 no_date : Layout

abbrev pub looks_rfc3339 : List ℕ → Bool
looks_rfc3339 src =
    leb 19 (length src)
    && (byte_at src 4 == b'-'
        && (byte_at src 7 == b'-'
            && (byte_at src 10 == b'T' && (byte_at src 13 == b':' && byte_at src 16 == b':'))))

abbrev pub looks_pix : List ℕ → Bool
looks_pix src =
    leb 21 (length src)
    && (byte_at src 3 == b' '
        && (byte_at src 6 == b' '
            && (byte_at src 11 == b' '
                && (byte_at src 14 == b':' && (byte_at src 17 == b':' && byte_at src 20 == b':')))))

-- four digits from an index on
abbrev pub has_year : ℕ → List ℕ → Bool
has_year i src =
    isdigit (byte_at src i)
    && (isdigit (byte_at src (suc i))
        && (isdigit (byte_at src (suc (suc i))) && isdigit (byte_at src (suc (suc (suc i))))))

abbrev pub looks_rfc3164 : List ℕ → Bool
looks_rfc3164 src =
    leb 15 (length src)
    && (byte_at src 3 == b' '
        && (byte_at src 6 == b' ' && (byte_at src 9 == b':' && byte_at src 12 == b':')))

abbrev pub looks_linksys : List ℕ → Bool
looks_linksys src =
    leb 20 (length src) && (looks_rfc3164 src && (byte_at src 15 == b' ' && has_year 16 src))

unfoldable pub layout : List ℕ → Layout
layout src =
    if looks_rfc3339 src
    then rfc3339
    else if looks_pix src
    then pix_date
    else if looks_linksys src
    then linksys_date
    else if looks_rfc3164 src
    then rfc3164
    else no_date

-- The digits of a fraction, six at most: the number, its power of ten, and what follows. `left`
-- rounds are left until `div` is a million.
unfoldable pub read_frac : (left frac div : ℕ) → List ℕ → ℕ × ℕ × List ℕ
read_frac zero frac div cs = (frac, div, cs)
read_frac (suc left) frac div [] = (frac, div, [])
read_frac (suc left) frac div (c ∷ cs) =
    let more = read_frac left (10 * frac + (c - b'0')) (div * 10) cs in
    if isdigit c then more else (frac, div, c ∷ cs)

-- a fraction in microseconds, after its point
unfoldable pub usec_of : List ℕ → ℕ × List ℕ
unfolding read_frac
usec_of cs = let (frac, div, rest) = read_frac 6 0 1 cs in (frac * (1000000 / div), rest)

-- `sign * (hours * 3600 + mins * 60)`
abbrev pub signed : Bool → ℕ → ℤ
signed minus n = if minus then pos 0 -ℤ pos n else pos n

-- a zone offset, of exactly six bytes
unfoldable pub read_zone : List ℕ → Option ℤ
read_zone (s ∷ a ∷ b ∷ c ∷ d ∷ e ∷ []) =
    if (s == b'+' || s == b'-')
      && (isdigit a && (isdigit b && (c == b':' && (isdigit d && isdigit e))))
    then some (
        signed (s == b'-')
          (((a - b'0') * 10 + (b - b'0')) * 3600 + ((d - b'0') * 10 + (e - b'0')) * 60))
    else none
read_zone _ = none

-- what follows the seconds in an RFC3339 date: microseconds, and the zone offset if there is one
unfoldable pub read_tail : Option (List ℕ) → ℕ × Option ℤ
unfolding usec_of read_zone
read_tail none = (0, none)
read_tail (some []) = (0, none)
read_tail (some (c ∷ cs)) =
    if c == b'.'
    then (let (usec, rest) = usec_of cs in (usec, read_zone rest))
    else (0, read_zone (c ∷ cs))

-- What the branch for a date leaves: the text of the date, the stamp, the rest of the message.
pub record Dated : Type 0 where
  pub date : List ℕ
  pub stamp : LogStamp
  pub rest : List ℕ

abbrev pub unset_zone : ℤ
unset_zone = negsuc 0

module _ (lib : TimeLib) (now : ℤ) where
  open lib use {localtime, mktime, strptime}

  -- an RFC3339 date, up to the next space; mktime takes the text for local time
  unfoldable pub read_rfc3339 : List ℕ → Dated
  unfolding span_until read_tail get_local_timezone_ofs
  read_rfc3339 src =
      let (date, rest) = span_until (λ c. c == b' ') src in
      let (tm, p) = strptime iso date (localtime now) in
      let (usec, zone) = read_tail p in
      let (t, hour) = mktime (record tm { tm_isdst = negsuc 0 }) in
      record {
        date = date;
        rest = rest;
        stamp = record {
          tv_sec = elim zone [
            | none ↦ t
            | some z ↦ t +ℤ get_local_timezone_ofs lib t -ℤ scale_ℤ (hour -ℤ tm.tm_hour) 3600 -ℤ z
          ];
          tv_usec = pos usec;
          zone_offset = elim zone [ none ↦ unset_zone | some z ↦ z ];
        };
      }

  -- a date of a fixed length that strptime reads whole, in local time
  unfoldable pub read_fixed : TimeFormat → ℕ → List ℕ → Dated
  read_fixed format n src =
      let date = take n src in
      let tm = (strptime format date (localtime now)).0 in
      record {
        date = date;
        rest = drop n src;
        stamp = record {
          tv_sec = (mktime (record tm { tm_isdst = negsuc 0 })).0;
          tv_usec = pos 0;
          zone_offset = unset_zone;
        };
      }

  -- the fraction behind an RFC3164 date
  unfoldable pub cisco_frac : List ℕ → ℕ × List ℕ
  unfolding usec_of
  cisco_frac [] = (0, [])
  cisco_frac (c ∷ cs) = if c == b'.' then usec_of cs else (0, c ∷ cs)

  -- the year of a date that has none: a month that is still to come was last year's
  abbrev pub with_year : Tm → Tm → Tm
  with_year nowtm tm = record tm {
    tm_isdst = negsuc 0;
    tm_year = if ltb nowtm.tm_mon tm.tm_mon then nowtm.tm_year -ℤ pos 1 else nowtm.tm_year;
  }

  unfoldable pub read_rfc3164 : List ℕ → Dated
  unfolding cisco_frac
  read_rfc3164 src =
      let (usec, rest) = cisco_frac (drop 15 src) in
      let nowtm = localtime now in
      let tm = (strptime bsd (take 15 src) nowtm).0 in
      record {
        date = take 15 src;
        rest = rest;
        stamp = record {
          tv_sec = (mktime (with_year nowtm tm)).0;
          tv_usec = pos usec;
          zone_offset = unset_zone;
        };
      }

  -- the date, if the text starts with one
  unfoldable pub read_date : List ℕ → Option Dated
  unfolding layout read_rfc3339 read_fixed read_rfc3164
  read_date src = elim (layout src) [
    | rfc3339 ↦ some (read_rfc3339 src)
    | pix_date ↦ some (read_fixed pix 21 src)
    | linksys_date ↦ some (read_fixed linksys 20 src)
    | rfc3164 ↦ some (read_rfc3164 src)
    | no_date ↦ none
  ]
