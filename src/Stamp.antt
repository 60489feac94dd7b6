-- ===== src/Stamp.antt =====
-- Time stamps: log_stamp_format of src/logmsg.c, and the time zone helpers of src/misc.c.
use indigo.Prelude.{
  ℕ, ◌+◌, ◌-◌, ◌/◌, ◌%◌, Option, none, some, List, [], ◌∷◌, ◌++◌, ◌==◌, if◌then◌else◌, take,
}
use indigo.Prelude.Bytes.{decimal, two_digits}
use indigo.Prelude.Int.{ℤ, pos, negsuc, ◌+ℤ◌, ◌-ℤ◌, ltb_ℤ, eqb_ℤ, pos_part, neg_part}
use indigo.Message.{LogStamp}

-- struct tm, less the day of the week and of the year
pub record Tm : Type 0 where
  pub tm_sec : ℕ
  pub tm_min : ℕ
  pub tm_hour : ℤ
  pub tm_mday : ℕ
  pub tm_mon : ℕ
  pub tm_year : ℤ
  pub tm_isdst : ℤ
  pub tm_gmtoff : ℤ

-- the formats given to strftime and strptime
pub data TimeFormat : Type 0 where
  -- "%h %e %H:%M:%S", "%Y-%m-%dT%H:%M:%S", "%Y %h %e %H:%M:%S"
  bsd iso full : TimeFormat
  -- "%b %e %Y %H:%M:%S:" and "%b %e %H:%M:%S %Y"
  pix linksys : TimeFormat
  -- "%a" and "%W"
  weekday weeknum : TimeFormat

-- The time functions of the C library. mktime gives the time and the hour that it normalises to;
-- strptime the broken-down time and, unless it fails, the rest of the text.
pub record TimeLib : Type 0 where
  pub gmtime : ℤ → Option Tm
  pub localtime : ℤ → Tm
  pub mktime : Tm → ℤ × ℤ
  pub strftime : TimeFormat → Tm → List ℕ
  pub strptime : TimeFormat → List ℕ → Tm → Tm × Option (List ℕ)

-- get_local_timezone_ofs, where struct tm has tm_gmtoff
unfoldable pub get_local_timezone_ofs : TimeLib → ℤ → ℤ
get_local_timezone_ofs lib t = let tm = lib.localtime t in tm.tm_gmtoff

-- `%d`
unfoldable pub decimal_ℤ : ℤ → List ℕ
unfolding decimal
decimal_ℤ (pos n) = decimal n
decimal_ℤ (negsuc n) = b'-' ∷ decimal (n + 1)

-- `%02ld` of a number below 100 in size; a sign counts as a digit
unfoldable pub padded : ℤ → List ℕ
unfolding decimal
padded (pos n) = two_digits n
padded (negsuc n) = b'-' ∷ decimal (n + 1)

-- `(gmtoff % 3600) / 60`, which has the sign of `gmtoff`
unfoldable pub zone_minutes : ℤ → ℤ
zone_minutes (pos n) = pos ((n % 3600) / 60)
zone_minutes (negsuc n) = pos 0 -ℤ pos (((n + 1) % 3600) / 60)

-- format_zone_info with a buffer of 8 bytes, for offsets below 100 hours
unfoldable pub format_zone_info : ℤ → List ℕ
unfolding padded zone_minutes
format_zone_info gmtoff = take 7 (
    (if ltb_ℤ gmtoff (pos 0) then b'-' else b'+')
    ∷ (two_digits ((pos_part gmtoff + neg_part gmtoff) / 3600)
        ++ b':' ∷ padded (zone_minutes gmtoff)))

-- the loop over `x`, from 100000 down to 1
unfoldable pub frac_loop : List ℕ → ℕ → ℕ → List ℕ
frac_loop [] frac_digits usecs = []
frac_loop (x ∷ xs) frac_digits usecs =
    let rest = frac_loop xs (frac_digits - 1) (usecs % x) in
    if frac_digits == 0 then [] else (usecs / x + b'0') ∷ rest

abbrev pub powers : List ℕ
powers = 100000 ∷ 10000 ∷ 1000 ∷ 100 ∷ 10 ∷ 1 ∷ []

-- the fraction of the ISO format
unfoldable pub format_frac : ℕ → ℕ → List ℕ
unfolding frac_loop
format_frac frac_digits usecs =
    if frac_digits == 0 then [] else b'.' ∷ frac_loop powers frac_digits (usecs % 1000000)

-- TS_FMT_*
pub data TsFormat : Type 0 where
  fmt_bsd fmt_iso fmt_full fmt_unix : TsFormat

module _ (lib : TimeLib) where
  open lib use {gmtime, strftime}

  -- the switch over `ts_format`
  pub format_tm : LogStamp → TsFormat → (zone : ℤ) → (frac_digits : ℕ) → Tm → List ℕ
  unfolding decimal_ℤ format_zone_info format_frac
  format_tm stamp fmt_bsd zone frac_digits tm = take 15 (strftime bsd tm)
  format_tm stamp fmt_iso zone frac_digits tm =
      take 19 (strftime iso tm)
      ++ (format_frac frac_digits (pos_part stamp.tv_usec) ++ format_zone_info zone)
  format_tm stamp fmt_full zone frac_digits tm = strftime full tm
  format_tm stamp fmt_unix zone frac_digits tm = decimal_ℤ stamp.tv_sec

  -- log_stamp_format, what it leaves in the target; the microseconds are not negative
  unfoldable pub log_stamp_format :
      LogStamp → TsFormat → (zone_offset : ℤ) → (frac_digits : ℕ) → List ℕ
  unfolding format_tm
  log_stamp_format stamp ts_format zone_offset frac_digits =
      let zone = if eqb_ℤ zone_offset (negsuc 0) then stamp.zone_offset else zone_offset in
      elim (gmtime (stamp.tv_sec +ℤ zone)) [
        | none ↦ decimal_ℤ stamp.tv_sec
        | some tm ↦ format_tm stamp ts_format zone frac_digits tm
      ]
