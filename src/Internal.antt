-- ===== src/Internal.antt =====
-- The program's messages about itself: src/messages.c puts them on a queue, src/afinter.c takes
-- them off for the internal source, and makes the marks.
pub mod Marks
pub mod Text
mod Tests
use indigo.Prelude.{
  ℕ, ◌+◌, ◌*◌, ◌%◌, Bool, true, false, not, ◌&&◌, ◌||◌, Option, none, some, List, [], ◌∷◌, ◌++◌,
  ltb, leb, if◌then◌else◌, is_empty,
}
use indigo.Prelude.Bytes.{codes, decimal}
use indigo.Prelude.Int.{ℤ, pos, negsuc, ◌+ℤ◌, ◌-ℤ◌, ltb_ℤ, leb_ℤ, eqb_ℤ, scale_ℤ, to_gint}
use indigo.Message.{LogMessage, ParseFlags}
use indigo.Stamp.{TimeLib}
use indigo.Parser.Whole.{ParseEnv, log_msg_new, log_msg_new_mark}

-- internal_msg_queue, and next_mark_target, a gint where -1 is unset; times are of a long
pub record Internal : Type 0 where
  pub queue : List LogMessage
  pub next_mark_target : ℤ

abbrev pub no_target : ℤ
no_target = negsuc 0

-- afinter_postpone_mark, at a time
pub afinter_postpone_mark : (mark_freq : ℕ) → (now : ℤ) → Internal → Internal
afinter_postpone_mark mark_freq now s =
    if ltb 0 mark_freq then record s { next_mark_target = to_gint (now +ℤ pos mark_freq) } else s

abbrev pub max_ℤ : ℤ → ℤ → ℤ
max_ℤ a b = if ltb_ℤ a b then b else a

-- what prepare leaves: the state, the timeout for poll in milliseconds (a gint), and whether there
-- is work
pub record Prepared : Type 0 where
  pub state : Internal
  pub timeout : ℤ
  pub ready : Bool

-- afinter_source_prepare
pub afinter_source_prepare : (mark_freq : ℕ) → (now : ℤ) → Internal → Prepared
afinter_source_prepare mark_freq now s =
    let target =
      if ltb 0 mark_freq && eqb_ℤ s.next_mark_target no_target
      then to_gint (now +ℤ pos mark_freq)
      else s.next_mark_target in
    record {
      state = record s { next_mark_target = target };
      timeout =
          if eqb_ℤ target no_target
          then no_target
          else to_gint (max_ℤ (scale_ℤ (target -ℤ now) 1000) (pos 0));
      ready = not (is_empty s.queue);
    }

-- a mark is due
abbrev pub mark_due : (now : ℤ) → Internal → Bool
mark_due now s = not (eqb_ℤ s.next_mark_target no_target) && leb_ℤ s.next_mark_target now

-- afinter_source_check
pub afinter_source_check : (now : ℤ) → Internal → Bool
afinter_source_check now s = mark_due now s || not (is_empty s.queue)

-- afinter_source_dispatch: the message for the callback, and PF_FLOW_CTL_OFF; a mark before the
-- queue
pub afinter_source_dispatch :
    (mark : LogMessage) → (now : ℤ) → Internal → Internal × Option (LogMessage × Bool)
afinter_source_dispatch mark now s =
    if mark_due now s
    then (s, some (mark, true))
    else elim s.queue [ [] ↦ (s, none) | m ∷ ms ↦ (record s { queue = ms }, some (m, false)) ]

-- LP_INTERNAL | LP_LOCAL
abbrev pub internal_flags : ParseFlags
internal_flags = record {
  noparse = false;
  internal = true;
  local = true;
  check_hostname = false;
  strict = false;
  kernel = false;
}

-- the text of msg_send_internal_message
abbrev pub internal_text : (prio pid : ℕ) → List ℕ → List ℕ
internal_text prio pid msg =
    b'<'
    ∷ (decimal prio
        ++ b'>'
          ∷ (b' ' ∷ (codes "syslog-ng[" ++ (decimal pid ++ (codes "]: " ++ (msg ++ 10 ∷ []))))))

-- where and when a message is made
pub record Place : Type 0 where
  pub log_stderr : Bool
  pub syslog_started : Bool
  pub pid : ℕ
  pub lib : TimeLib
  pub now : ℤ
  pub sec : ℤ
  pub usec : ℤ

-- msg_send_internal_message, once msg_init has made the queue: what is printed on stderr, and the
-- state
unfoldable pub msg_send_internal_message :
    Place → (prio : ℕ) → List ℕ → Internal → Option (List ℕ) × Internal
unfolding log_msg_new decimal
msg_send_internal_message p prio msg s =
    if p.log_stderr || (not p.syslog_started && leb (prio % 8) 4)
    then (some (msg ++ 10 ∷ []), s)
    else (let env : ParseEnv = record {
      flags = internal_flags;
      lib = p.lib;
      now = p.now;
      is_bad_hostname = λ name. false;
    } in
        let m = log_msg_new env p.sec p.usec (internal_text prio p.pid msg) in
        (none, record s { queue = s.queue ++ m ∷ [] }))
