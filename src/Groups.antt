-- ===== src/Groups.antt =====
-- Source and destination groups, src/sgroup.c and src/dgroup.c: the host name of a message, and
-- the fan-out to the drivers of a destination.
pub mod Hosts
pub mod Owed
pub mod FanOut
pub mod Balance
mod Tests
use indigo.Prelude.{
  ℕ, ◌+◌, ◌%◌, ◌^◌, Bool, true, false, not, ◌||◌, ◌&&◌, Option, none, some, List, [], ◌∷◌, ◌++◌,
  if◌then◌else◌, is_empty,
}
use indigo.Message.{LogMessage}
use indigo.Parser.Whole.{c_string}
use indigo.Ack.{
  AckFunc, center_ack, Flow, ◌>>=◌, log_msg_ref, log_msg_unref, log_msg_ack, log_msg_ack_block_inc,
  log_msg_ack_block_start, log_msg_drop,
}

-- LogSourceGroup: its name and the options that init takes from the configuration; the guint32
-- counter of processed messages
pub record LogSourceGroup : Type 0 where
  pub name : List ℕ
  pub chain_hostnames : Bool
  pub normalize_hostnames : Bool
  pub keep_hostname : Bool
  pub processed_messages : ℕ

-- the host of a message, where it is not kept: `from` is the host it was received from
unfoldable pub rewritten : LogSourceGroup → (from : List ℕ) → LogMessage → List ℕ
rewritten s from m =
    if s.chain_hostnames
    then (if m.local
        then c_string s.name ++ b'@' ∷ c_string from
        else if is_empty m.host
        then c_string from ++ b'/' ∷ c_string from
        else m.host ++ b'/' ∷ c_string from)
    else c_string from

-- the host that a message leaves the group with; `short` is getshorthostname, `lower` g_strdown
unfoldable pub group_host :
    (short : List ℕ)
    → (lower : List ℕ → List ℕ) → LogSourceGroup
    → (from : List ℕ) → LogMessage
    → List ℕ
unfolding rewritten
group_host short lower s from m =
    let host = if not s.keep_hostname || is_empty m.host then rewritten s from m else m.host in
    let known = if is_empty host then short else host in
    if s.normalize_hostnames then lower known else known

-- log_source_group_queue, after resolve_hostname: the group, and the message given to the next pipe
unfoldable pub log_source_group_queue :
    (short : List ℕ)
    → (lower : List ℕ → List ℕ) → LogSourceGroup
    → (from : List ℕ) → LogMessage
    → LogSourceGroup × LogMessage
unfolding group_host
log_source_group_queue short lower s from m = (
  record s { processed_messages = (s.processed_messages + 1) % 2 ^ 32 },
  record m { host = group_host short lower s from m },
)

-- log_dest_group_ack, which does what log_center_ack does
abbrev pub log_dest_group_ack : AckFunc
log_dest_group_ack = center_ack

-- the loop over the drivers; `now` says whether a driver is done with the message at once
pub queue_drivers : {D : Type 0} → (D → Bool) → (flow_ctl_off : Bool) → List D → Flow → Option Flow
queue_drivers now flow_ctl_off [] m = some m
queue_drivers now flow_ctl_off (d ∷ ds) m = do
  m' ← log_msg_ref (if flow_ctl_off then m else log_msg_ack_block_inc m)
  m'' ← if now d then log_msg_drop flow_ctl_off m' else some m'
  queue_drivers now flow_ctl_off ds m''

-- log_dest_group_queue on the message; the counter of processed messages is one more
pub log_dest_group_queue :
    {D : Type 0} → (D → Bool) → (flow_ctl_off : Bool) → List D → Flow → Option Flow
unfolding queue_drivers
log_dest_group_queue now flow_ctl_off ds m = do
  m' ←
      if flow_ctl_off
      then some m
      else (log_msg_ref m >>= λ m. some (log_msg_ack_block_start log_dest_group_ack m))
  m'' ← queue_drivers now flow_ctl_off ds m'
  log_msg_drop flow_ctl_off m''

-- log_center_queue as far as the message goes, with the groups that it queues to: each group with
-- its LC_FLOW_CONTROL
pub center_groups : {D : Type 0} → (D → Bool) → List (List D × Bool) → Flow → Option Flow
unfolding log_dest_group_queue
center_groups now [] m = some m
center_groups now ((ds, flow_control) ∷ gs) m = do
  m' ← log_msg_ref (if flow_control then log_msg_ack_block_inc m else m)
  m'' ← log_dest_group_queue now (not flow_control) ds m'
  center_groups now gs m''

-- log_center_queue with these groups: its own reference and block around them, as in Center
pub center_flow_groups : {D : Type 0} → (D → Bool) → List (List D × Bool) → Flow → Option Flow
unfolding center_groups
center_flow_groups now gs m = do
  m' ← log_msg_ref m
  m'' ← center_groups now gs (log_msg_ack_block_start center_ack m')
  log_msg_ack m''
