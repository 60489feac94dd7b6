-- ===== src/Internal/Tests.antt =====
-- A message about itself, and a mark.
use indigo.Prelude.{
  ◌+◌, ◌*◌, leb, some, ◌≡◌, refl, true, false, not, none, some, [], ◌∷◌, ◌++◌, ltb, arith,
}
use indigo.Prelude.Bytes.{codes}
use indigo.Prelude.Int.{pos}
use indigo.Message.{LogMessage}
use indigo.Stamp.{Tm, TimeLib}
use indigo.Parser.Whole.{log_msg_new_mark}
use indigo.Internal.{
  Internal, Place, no_target, afinter_postpone_mark, afinter_source_prepare, mark_due,
  afinter_source_check, afinter_source_dispatch, msg_send_internal_message,
}
use indigo.Internal.Marks.{left, afinter_postpone_mark_lem}
use indigo.Internal.Text.{said, msg_send_internal_message_lem}

abbrev midnight : Tm
midnight = record {
  tm_sec = 0;
  tm_min = 0;
  tm_hour = pos 0;
  tm_mday = 1;
  tm_mon = 0;
  tm_year = pos 108;
  tm_isdst = pos 0;
  tm_gmtoff = pos 3600;
}

abbrev still : TimeLib
still = record {
  gmtime = λ t. some midnight;
  localtime = λ t. midnight;
  mktime = λ tm. (pos 1000, pos 0);
  strftime = λ f tm. [];
  strptime = λ f text tm. (tm, none);
}

abbrev place : Place
place = record {
  log_stderr = false;
  syslog_started = true;
  pid = 7;
  lib = still;
  now = pos 9;
  sec = pos 9;
  usec = pos 0;
}

abbrev mark : LogMessage
mark = log_msg_new_mark still (pos 120) (pos 120) (pos 0)

abbrev idle : Internal
idle = record { queue = []; next_mark_target = no_target }

msg_send_internal_message_lem_example :
    let (printed, s') = msg_send_internal_message place 43 (codes "ok") idle in
    (printed ≡ none)
    × ((m : LogMessage) × ((s' ≡ record idle { queue = idle.queue ++ m ∷ [] })
          × ((m.pri ≡ 43)
              × (m.program ≡ codes "syslog-ng")
              × (m.msg ≡ said 7 (codes "ok"))
              × (m.host ≡ [])
              × (m.internal ≡ true)
              × (m.local ≡ true))))
msg_send_internal_message_lem_example =
    msg_send_internal_message_lem place 43 (codes "ok") idle refl refl refl (refl, (refl, tt))

-- twenty seconds after a message, as seen from five seconds after it
afinter_postpone_mark_lem_example :
    let s' = afinter_postpone_mark 20 (pos 100) idle in
    let p = afinter_source_prepare 20 (pos 105) s' in
    (p.state ≡ s')
    × (p.timeout ≡ pos (left (100 + 20) 105 * 1000))
    × (mark_due (pos 119) p.state ≡ leb (105 + left (100 + 20) 105) 119)
afinter_postpone_mark_lem_example =
    afinter_postpone_mark_lem 20 100 105 119 idle (omega arith) (omega arith) (omega arith)
      (omega arith) (omega arith)

-- in the last second of 2038 that a gint holds, a mark is due at once
due_at_once : mark_due (pos 2147483647) (afinter_postpone_mark 20 (pos 2147483647) idle) ≡ true
unfolding afinter_postpone_mark indigo.Prelude.Int.to_gint indigo.Prelude.Int.◌+ℤ◌
due_at_once = refl

-- a mark that is due comes before the queue
mark_first :
    let s = afinter_postpone_mark 20 (pos 100) (record idle { queue = mark ∷ [] }) in
    (afinter_source_dispatch mark (pos 120) s ≡ (s, some (mark, true)))
    × (afinter_source_check (pos 120) s ≡ true)
unfolding afinter_postpone_mark afinter_source_dispatch afinter_source_check
    indigo.Prelude.Int.to_gint indigo.Prelude.Int.◌+ℤ◌
mark_first = (refl, refl)
