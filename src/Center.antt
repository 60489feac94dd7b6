-- ===== src/Center.antt =====
-- src/center.c, log_center_queue: routing a message to the destinations of the log statements.
pub mod Routing
pub mod Out
pub mod Settling
pub mod Init
pub mod Started
mod Tests
use Prim.Native.String.{String}
use text.Mathlib.Text.{◌==◌ as str_eq}
use indigo.Prelude.{
  ℕ, ◌+◌, ◌%◌, ◌^◌, length, Bool, true, false, not, ◌&&◌, ◌||◌, Option, none, some, List, [], ◌∷◌,
  ◌++◌, map, if◌then◌else◌,
}
use indigo.Ack.{
  Flow, ◌>>=◌, center_ack, log_msg_ref, log_msg_ack, log_msg_ack_block_inc, log_msg_ack_block_start,
  log_msg_drop,
}

-- LogConnection: the names in `source_cache`, the resolved filters and destinations, the LC_*
-- flags.
pub record LogConnection (F D : Type 0) : Type 0 where
  pub source_cache : List String
  pub filters : List F
  pub destinations : List D
  pub catchall : Bool
  pub fallback : Bool
  pub final : Bool
  pub flow_control : Bool

-- what one pass over the connections finds: the destinations with their flow control, in order
pub record Pass (D : Type 0) : Type 0 where
  pub match : Bool
  pub have_fallbacks : Bool
  pub queued : List (D × Bool)

pub in_cache : String → List String → Bool
in_cache name [] = false
in_cache name (s ∷ ss) = str_eq s name || in_cache name ss

-- the loop over the filters: all must match
pub filters_match : {F : Type 0} → (F → Bool) → List F → Bool
filters_match eval [] = true
filters_match eval (f ∷ fs) = eval f && filters_match eval fs

-- the destinations of a connection, each with LC_FLOW_CONTROL
pub targets : {F D : Type 0} → LogConnection F D → List (D × Bool)
targets c = map (λ d. (d, c.flow_control)) c.destinations

module _ {F D : Type 0} (log_filter_rule_eval : F → Bool) (source : String) where
  -- the source is checked unless LC_CATCHALL is set, then the filters
  pub accepts : LogConnection F D → Bool
  unfolding in_cache filters_match
  accepts c =
      (c.catchall || in_cache source c.source_cache) && filters_match log_filter_rule_eval c.filters

  -- The inner loop over the connections, in the pass for fallbacks or not.
  pub pass : Bool → List (LogConnection F D) → Pass D
  unfolding accepts targets
  pass fallbacks [] = record { match = false; have_fallbacks = false; queued = [] }
  pass fallbacks (c ∷ cs) =
      let rest = pass fallbacks cs in
      if not fallbacks && c.fallback
      then record rest { have_fallbacks = true }
      else if fallbacks && not c.fallback
      then rest
      else if not (accepts c)
      then rest
      else if c.final
      then record { match = true; have_fallbacks = false; queued = targets c }
      else record rest { match = true; queued = targets c ++ rest.queued }

  -- The outer loop: the second pass runs if nothing matched and a fallback was seen.
  pub route : List (LogConnection F D) → List (D × Bool)
  unfolding pass
  route cs =
      let first = pass false cs in
      if not first.match && first.have_fallbacks
      then first.queued ++ (pass true cs).queued
      else first.queued

-- Queueing to one destination: the block is told of one more acknowledgement under flow control,
-- and the destination gets a reference. `now` says whether it is done with the message at once,
-- as a full queue is.
pub queue_to : {D : Type 0} → (D → Bool) → D × Bool → Flow → Option Flow
queue_to now (d, flow_control) m = do
  m' ← log_msg_ref (if flow_control then log_msg_ack_block_inc m else m)
  if now d then log_msg_drop (not flow_control) m' else some m'

pub queue_all : {D : Type 0} → (D → Bool) → List (D × Bool) → Flow → Option Flow
unfolding queue_to
queue_all now [] m = some m
queue_all now (t ∷ ts) m = queue_to now t m >>= queue_all now ts

-- what log_center_queue does with the message: its own reference and block, the destinations, and
-- its own acknowledgement
pub center_flow : {D : Type 0} → (D → Bool) → List (D × Bool) → Flow → Option Flow
unfolding queue_all
center_flow now ts m = do
  m' ← log_msg_ref m
  m'' ← queue_all now ts (log_msg_ack_block_start center_ack m')
  log_msg_ack m''

-- the guint32 counters center(received) and center(queued)
pub record Counters : Type 0 where
  pub received_messages : ℕ
  pub queued_messages : ℕ

pub count_messages : ℕ → Counters → Counters
count_messages n c = record {
  received_messages = (c.received_messages + 1) % 2 ^ 32;
  queued_messages = (c.queued_messages + n) % 2 ^ 32;
}

-- log_center_queue: the message of a source goes where the connections route it
pub log_center_queue :
    {F D : Type 0}
    → (log_filter_rule_eval : F → Bool) → String
    → List (LogConnection F D)
    → (D → Bool)
    → Counters × Flow
    → Option (Counters × Flow)
unfolding route center_flow count_messages
log_center_queue eval source cs now (k, m) =
    let ts = route eval source cs in
    center_flow now ts m >>= λ m'. some (count_messages (length ts) k, m')
