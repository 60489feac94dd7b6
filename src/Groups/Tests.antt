-- ===== src/Groups/Tests.antt =====
-- A group that chains host names, and a message to two groups of drivers.
use indigo.Prelude.{
  ℕ, ◌≡◌, refl, Bool, true, false, some, List, [], ◌∷◌, arith, ◌==◌, if◌then◌else◌, ◌||◌, is_empty,
}
use indigo.Prelude.Bytes.{codes}
use indigo.Prelude.Int.{pos, negsuc, ◌-ℤ◌}
use indigo.Message.{LogStamp, LogMessage}
use indigo.Ack.{Flow, ◌>>=◌, log_source_queue}
use indigo.Center.Out.{acks, settle_all}
use indigo.Center.Settling.{fresh, finished}
use indigo.Parser.{span_until}
use indigo.Macros.Expand.{short_host}
use indigo.Groups.{LogSourceGroup, log_source_group_queue, center_flow_groups}
use indigo.Groups.Hosts.{short_host-log_source_group_queue}
use indigo.Groups.Balance.{owed_by, kept_by, size, groups_balance}

abbrev group : LogSourceGroup
group = record {
  name = codes "s";
  chain_hostnames = true;
  normalize_hostnames = false;
  keep_hostname = false;
  processed_messages = 0;
}

abbrev a_stamp : LogStamp
a_stamp = record { tv_sec = pos 5; tv_usec = pos 0; zone_offset = negsuc 0 }

abbrev message : LogMessage
message = record {
  internal = false;
  local = false;
  mark = false;
  pri = 22;
  stamp = a_stamp;
  recvd = a_stamp;
  date = [];
  host = codes "s@a/b";
  program = [];
  msg = [];
}

chained_host :
    (log_source_group_queue [] (λ h. h) group (codes "c") message).1.host ≡ codes "s@a/b/c"
unfolding log_source_group_queue span_until
chained_host = refl

short_host-log_source_group_queue_example :
    short_host (log_source_group_queue [] (λ h. h) group (codes "c") message).1.host
    ≡ (if message.local || is_empty message.host then codes "c" else short_host message.host)
short_host-log_source_group_queue_example =
    short_host-log_source_group_queue [] (λ h. h) group (codes "c") message refl refl refl
      (refl, tt) (refl, tt)

-- drivers 0 and 1 under flow control, driver 2 not; driver 1 is done at once
abbrev two_groups : List (List ℕ × Bool)
two_groups = (0 ∷ 1 ∷ [], true) ∷ (2 ∷ [], false) ∷ []

abbrev done : ℕ → Bool
done d = d == 1

-- driver 0 has settled the message, and driver 2 has not
groups_balance_example :
    (m : Flow) × (m' : Flow) × ((log_source_queue (fresh (pos 10) 1)
        >>= center_flow_groups done two_groups)
      ≡ some m)
    × (settle_all (true ∷ []) m ≡ some m')
    × (m'.window_size ≡ (if acks (false ∷ []) == 0 then pos 10 else pos 10 -ℤ pos 1))
    × (m'.freed ≡ is_empty {A = Bool} (false ∷ []))
    × (settle_all (false ∷ []) m' ≡ some (finished (pos 10) 1))
unfolding size acks indigo.Groups.Balance.owed_by indigo.Groups.Balance.kept_by
groups_balance_example =
    groups_balance done (pos 10) 1 two_groups (true ∷ []) (false ∷ []) (omega arith) (omega arith)
      refl refl
