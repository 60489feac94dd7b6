-- ===== src/Macros/Table.antt =====
-- The identifiers of macros (src/macros.h) and the table of their names, log_macro_lookup.
use indigo.Prelude.{
  leb, ◌-◌, ℕ, ◌+◌, ◌&&◌, Option, none, some, List, [], ◌∷◌, ◌==◌, if◌then◌else◌, take, length, min,
}
use indigo.Prelude.Bytes.{codes, same}
use indigo.Parser.Whole.{c_string}

-- M_DATE to M_UNIXTIME: what a macro shows of a time
pub data TimeMacro : Type 0 where
  date full_date iso_date stamp year month day hour minute second week_day week tz_offset tz
        unixtime :
      TimeMacro

-- which time: by the flags, of receipt, or of the message
pub data WhichStamp : Type 0 where
  by_flags recvd stamped : WhichStamp

-- the macros, and M_NONE and the numbers that no macro has
pub data Macro : Type 0 where
  facility facility_num level level_num tag pri : Macro
  time : WhichStamp → TimeMacro → Macro
  full_host host full_host_from host_from program pid message msgonly source_ip : Macro
  no_macro : Macro

-- the identifier of a time macro, as it counts from M_DATE
pub time_id : TimeMacro → ℕ
time_id date = 0
time_id full_date = 1
time_id iso_date = 2
time_id stamp = 3
time_id year = 4
time_id month = 5
time_id day = 6
time_id hour = 7
time_id minute = 8
time_id second = 9
time_id week_day = 10
time_id week = 11
time_id tz_offset = 12
time_id tz = 13
time_id unixtime = 14

abbrev pub which_id : WhichStamp → ℕ
which_id by_flags = 7
which_id recvd = 22
which_id stamped = 37

-- the enumeration of macros.h
pub macro_id : Macro → ℕ
unfolding time_id
macro_id no_macro = 0
macro_id facility = 1
macro_id facility_num = 2
macro_id level = 3
macro_id level_num = 4
macro_id tag = 5
macro_id pri = 6
macro_id (time which t) = which_id which + time_id t
macro_id full_host = 52
macro_id host = 53
macro_id full_host_from = 54
macro_id host_from = 55
macro_id program = 56
macro_id pid = 57
macro_id message = 58
macro_id msgonly = 59
macro_id source_ip = 60

-- the 15 of M_TIME_MACROS, by their number
pub time_macro : ℕ → TimeMacro
time_macro n =
    if n == 0
    then date
    else if n == 1
    then full_date
    else if n == 2
    then iso_date
    else if n == 3
    then stamp
    else if n == 4
    then year
    else if n == 5
    then month
    else if n == 6
    then day
    else if n == 7
    then hour
    else if n == 8
    then minute
    else if n == 9
    then second
    else if n == 10
    then week_day
    else if n == 11
    then week
    else if n == 12
    then tz_offset
    else if n == 13
    then tz
    else unixtime

-- the macro of an identifier: the ranges of times are told by comparisons
unfoldable pub macro_of_id : ℕ → Macro
unfolding time_macro
macro_of_id id =
    if leb 7 id && leb id 21
    then time by_flags (time_macro (id - 7))
    else if leb 22 id && leb id 36
    then time recvd (time_macro (id - 22))
    else if leb 37 id && leb id 51
    then time stamped (time_macro (id - 37))
    else if id == 1
    then facility
    else if id == 2
    then facility_num
    else if id == 3
    then level
    else if id == 4
    then level_num
    else if id == 5
    then tag
    else if id == 6
    then pri
    else if id == 52
    then full_host
    else if id == 53
    then host
    else if id == 54
    then full_host_from
    else if id == 55
    then host_from
    else if id == 56
    then program
    else if id == 57
    then pid
    else if id == 58
    then message
    else if id == 59
    then msgonly
    else if id == 60
    then source_ip
    else no_macro

-- struct macro_def
pub record MacroDef : Type 0 where
  pub name : List ℕ
  pub macro : Macro

abbrev macro_def : List ℕ → Macro → MacroDef
macro_def name macro = record { name = name; macro = macro }

abbrev pub macros : List MacroDef
macros =
    macro_def (codes "FACILITY") facility
    ∷ macro_def (codes "FACILITY_NUM") facility_num
    ∷ macro_def (codes "PRIORITY") level
    ∷ macro_def (codes "LEVEL") level
    ∷ macro_def (codes "LEVEL_NUM") level_num
    ∷ macro_def (codes "TAG") tag
    ∷ macro_def (codes "PRI") pri
    ∷ macro_def (codes "DATE") (time by_flags date)
    ∷ macro_def (codes "FULLDATE") (time by_flags full_date)
    ∷ macro_def (codes "ISODATE") (time by_flags iso_date)
    ∷ macro_def (codes "STAMP") (time by_flags stamp)
    ∷ macro_def (codes "YEAR") (time by_flags year)
    ∷ macro_def (codes "MONTH") (time by_flags month)
    ∷ macro_def (codes "DAY") (time by_flags day)
    ∷ macro_def (codes "HOUR") (time by_flags hour)
    ∷ macro_def (codes "MIN") (time by_flags minute)
    ∷ macro_def (codes "SEC") (time by_flags second)
    ∷ macro_def (codes "WEEKDAY") (time by_flags week_day)
    ∷ macro_def (codes "WEEK") (time by_flags week)
    ∷ macro_def (codes "UNIXTIME") (time by_flags unixtime)
    ∷ macro_def (codes "TZOFFSET") (time by_flags tz_offset)
    ∷ macro_def (codes "TZ") (time by_flags tz)
    ∷ macro_def (codes "R_DATE") (time recvd date)
    ∷ macro_def (codes "R_FULLDATE") (time recvd full_date)
    ∷ macro_def (codes "R_ISODATE") (time recvd iso_date)
    ∷ macro_def (codes "R_STAMP") (time recvd stamp)
    ∷ macro_def (codes "R_YEAR") (time recvd year)
    ∷ macro_def (codes "R_MONTH") (time recvd month)
    ∷ macro_def (codes "R_DAY") (time recvd day)
    ∷ macro_def (codes "R_HOUR") (time recvd hour)
    ∷ macro_def (codes "R_MIN") (time recvd minute)
    ∷ macro_def (codes "R_SEC") (time recvd second)
    ∷ macro_def (codes "R_WEEKDAY") (time recvd week_day)
    ∷ macro_def (codes "R_WEEK") (time recvd week)
    ∷ macro_def (codes "R_UNIXTIME") (time recvd unixtime)
    ∷ macro_def (codes "R_TZOFFSET") (time recvd tz_offset)
    ∷ macro_def (codes "R_TZ") (time recvd tz)
    ∷ macro_def (codes "S_DATE") (time stamped date)
    ∷ macro_def (codes "S_FULLDATE") (time stamped full_date)
    ∷ macro_def (codes "S_ISODATE") (time stamped iso_date)
    ∷ macro_def (codes "S_STAMP") (time stamped stamp)
    ∷ macro_def (codes "S_YEAR") (time stamped year)
    ∷ macro_def (codes "S_MONTH") (time stamped month)
    ∷ macro_def (codes "S_DAY") (time stamped day)
    ∷ macro_def (codes "S_HOUR") (time stamped hour)
    ∷ macro_def (codes "S_MIN") (time stamped minute)
    ∷ macro_def (codes "S_SEC") (time stamped second)
    ∷ macro_def (codes "S_WEEKDAY") (time stamped week_day)
    ∷ macro_def (codes "S_WEEK") (time stamped week)
    ∷ macro_def (codes "S_UNIXTIME") (time stamped unixtime)
    ∷ macro_def (codes "S_TZOFFSET") (time stamped tz_offset)
    ∷ macro_def (codes "S_TZ") (time stamped tz)
    ∷ macro_def (codes "HOST_FROM") host_from
    ∷ macro_def (codes "FULLHOST_FROM") full_host_from
    ∷ macro_def (codes "HOST") host
    ∷ macro_def (codes "FULLHOST") full_host
    ∷ macro_def (codes "PROGRAM") program
    ∷ macro_def (codes "PID") pid
    ∷ macro_def (codes "MSG") message
    ∷ macro_def (codes "MSGONLY") msgonly
    ∷ macro_def (codes "MESSAGE") message
    ∷ macro_def (codes "SOURCEIP") source_ip
    ∷ []

-- the hash table that the names are put into in order, where a name that is there is replaced
pub table_lookup : List ℕ → List MacroDef → Option ℕ
unfolding macro_id
table_lookup name [] = none
table_lookup name (d ∷ ds) = elim (table_lookup name ds) [
  | some id ↦ some id
  | none ↦ if same d.name name then some (macro_id d.macro) else none
]

-- log_macro_lookup: a name of 255 bytes at most and without NUL, 0 if there is none
unfoldable pub log_macro_lookup : List ℕ → ℕ
unfolding table_lookup
log_macro_lookup name = elim (table_lookup (c_string (take (min 255 (length name)) name)) macros) [
  | none ↦ 0
  | some id ↦ id
]
