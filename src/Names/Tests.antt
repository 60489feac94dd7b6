-- ===== src/Names/Tests.antt =====
-- The facility of mail, with a strcasecmp that compares bytes.
use indigo.Prelude.{◌≡◌, refl, some, inr}
use indigo.Prelude.Bytes.{codes, same}
use indigo.Names.{sl_facilities, syslog_name_lookup_value_by_name, syslog_name_lookup_name_by_value}
use indigo.Names.Lookup.{syslog_name_lookup_value_by_name_lem}

syslog_name_lookup_value_by_name_lem_example :
    syslog_name_lookup_value_by_name same (codes "mail") sl_facilities ≡ some 16
unfolding syslog_name_lookup_name_by_value
syslog_name_lookup_value_by_name_lem_example =
    syslog_name_lookup_value_by_name_lem same (λ a b small_a small_b. refl) sl_facilities 16
      (codes "mail") (inr refl) refl
