-- ===== src/Names.antt =====
-- src/syslog-names.c: the tables of levels and facilities, and their lookups.
pub mod Lookup
mod Tests
use indigo.Prelude.{
  ℕ, Bool, true, false, Option, none, some, List, [], ◌∷◌, ◌==◌, if◌then◌else◌, suc,
}
use indigo.Prelude.Bytes.{codes}

-- struct sl_name; the entry of NULL at the end of a table is the end of the list
pub record SlName : Type 0 where
  pub name : List ℕ
  pub value : ℕ

abbrev entry : List ℕ → ℕ → SlName
entry name value = record { name = name; value = value }

abbrev pub sl_levels : List SlName
sl_levels =
    entry (codes "emerg") 0
    ∷ entry (codes "panic") 0
    ∷ entry (codes "alert") 1
    ∷ entry (codes "crit") 2
    ∷ entry (codes "err") 3
    ∷ entry (codes "error") 3
    ∷ entry (codes "warning") 4
    ∷ entry (codes "warn") 4
    ∷ entry (codes "notice") 5
    ∷ entry (codes "info") 6
    ∷ entry (codes "debug") 7
    ∷ []

-- with LOG_AUTHPRIV, LOG_CRON and LOG_FTP defined
abbrev pub sl_facilities : List SlName
sl_facilities =
    entry (codes "auth") 32
    ∷ entry (codes "authpriv") 80
    ∷ entry (codes "cron") 72
    ∷ entry (codes "daemon") 24
    ∷ entry (codes "ftp") 88
    ∷ entry (codes "kern") 0
    ∷ entry (codes "lpr") 48
    ∷ entry (codes "mail") 16
    ∷ entry (codes "news") 56
    ∷ entry (codes "security") 32
    ∷ entry (codes "syslog") 40
    ∷ entry (codes "user") 8
    ∷ entry (codes "uucp") 64
    ∷ entry (codes "local0") 128
    ∷ entry (codes "local1") 136
    ∷ entry (codes "local2") 144
    ∷ entry (codes "local3") 152
    ∷ entry (codes "local4") 160
    ∷ entry (codes "local5") 168
    ∷ entry (codes "local6") 176
    ∷ entry (codes "local7") 184
    ∷ []

-- `strcasecmp` says whether two texts are the same but for case
module _ (strcasecmp : List ℕ → List ℕ → Bool) where
  -- the loop of syslog_name_find_name: the entry, which its index stands for; `none` is -1
  pub syslog_name_find_name : List ℕ → List SlName → Option SlName
  syslog_name_find_name name [] = none
  syslog_name_find_name name (e ∷ es) =
      let rest = syslog_name_find_name name es in if strcasecmp name e.name then some e else rest

  -- syslog_name_lookup_value_by_name
  pub syslog_name_lookup_value_by_name : List ℕ → List SlName → Option ℕ
  unfolding syslog_name_find_name
  syslog_name_lookup_value_by_name name names = elim (syslog_name_find_name name names) [
    | none ↦ none
    | some e ↦ some e.value
  ]

-- syslog_name_lookup_name_by_value
unfoldable pub syslog_name_lookup_name_by_value : ℕ → List SlName → Option (List ℕ)
syslog_name_lookup_name_by_value value [] = none
syslog_name_lookup_name_by_value value (e ∷ es) =
    let rest = syslog_name_lookup_name_by_value value es in
    if e.value == value then some e.name else rest
