-- ===== src/FdIo.antt =====
-- src/fdread.c and src/fdwrite.c: reading and writing a descriptor, with the retries of calls that
-- a signal interrupts, and the alarm around a call that may block.
pub mod Retry
mod Tests
use indigo.Prelude.{
  ℕ, zero, suc, Bool, true, false, ◌&&◌, Option, none, some, List, ltb, if◌then◌else◌,
}

-- errno after a call that failed
pub data Errno : Type 0 where
  eagain eintr other : Errno

-- what a system call returns: a result, or -1 with errno
pub data Rc (A : Type 0) : Type 0 where
  ok : A → Rc A
  err : Errno → Rc A

abbrev pub is_eintr : {A : Type 0} → Rc A → Bool
is_eintr (err eintr) = true
is_eintr _ = false

-- The system as the code sees it: write, read and recvfrom with the sender, each with whether
-- SIGALRM came meanwhile; and fsync, which sets errno when it fails.
pub record FdSystem (W A : Type 0) : Type 0 where
  pub write : W → List ℕ → (Rc ℕ × Bool) × W
  pub read : W → ℕ → (Rc (List ℕ) × Bool) × W
  pub recvfrom : W → ℕ → Rc (List ℕ × Option A) × W
  pub fsync : W → Option Errno × W

-- the flags of src/alarms.c
pub record Alarm : Type 0 where
  pub sig_alarm_received : Bool
  pub alarm_pending : Bool

-- alarm_set: nothing while an alarm is active
pub alarm_set : Alarm → Alarm
alarm_set a = if a.alarm_pending then a else record a { alarm_pending = true }

-- alarm_cancel
pub alarm_cancel : Alarm → Alarm
alarm_cancel a = record { sig_alarm_received = false; alarm_pending = false }

-- sig_alarm_handler, if the signal came
pub alarm_handled : Bool → Alarm → Alarm
alarm_handled came a = if came then record a { sig_alarm_received = true } else a

-- how a round of a loop ends: it returns, or goes round again
pub data Round (W R : Type 0) : Type 0 where
  returned : Rc R → W → Alarm → Round W R
  again : W → Alarm → Round W R

-- the alarm around a call, which SIGALRM may have reached
pub call_alarm : (timeout : ℕ) → (came : Bool) → Alarm → Alarm
unfolding alarm_set alarm_handled
call_alarm timeout came a = alarm_handled came (if ltb 0 timeout then alarm_set a else a)

-- a round of the loop of fd_do_read, from what read has returned
pub read_round : {W R : Type 0} → (timeout : ℕ) → Alarm → (Rc R × Bool) × W → Round W R
unfolding call_alarm alarm_cancel
read_round timeout a ((rc, came), w) =
    let a' = call_alarm timeout came a in
    let a'' = if ltb 0 timeout then alarm_cancel a' else a' in
    if ltb 0 timeout && (is_eintr rc && a'.sig_alarm_received)
    then returned rc w (alarm_cancel a')
    else if is_eintr rc
    then again w a''
    else returned rc w a''

module _ {W A : Type 0} (sys : FdSystem W A) where
  open sys use {write, read, recvfrom, fsync}

  -- fsync behind a write: errno of a write that failed may be overwritten
  pub after_fsync : Bool → Rc ℕ → W → Rc ℕ × W
  after_fsync false rc w = (rc, w)
  after_fsync true (ok n) w = (ok n, (fsync w).1)
  after_fsync true (err e) w =
      let (failed, w') = fsync w in elim failed [ none ↦ (err e, w') | some e' ↦ (err e', w') ]

  -- a round of the loop of fd_do_write, from what write has returned
  pub write_round : (timeout : ℕ) → (sync : Bool) → Alarm → (Rc ℕ × Bool) × W → Round W ℕ
  unfolding call_alarm alarm_cancel after_fsync
  write_round timeout sync a ((rc, came), w) =
      let a' = call_alarm timeout came a in
      let a'' = if ltb 0 timeout then alarm_cancel a' else a' in
      let (rc', w') = after_fsync sync rc w in
      if ltb 0 timeout && (is_eintr rc && a'.sig_alarm_received)
      then returned rc w (alarm_cancel a')
      else if is_eintr rc'
      then again w' a''
      else returned rc' w' a''

  -- fd_do_write; `none` is a loop that still goes on when the fuel is gone
  pub fd_do_write : (timeout : ℕ) (sync : Bool) → ℕ → W → Alarm → List ℕ → Option (Rc ℕ × W × Alarm)
  unfolding write_round
  fd_do_write timeout sync zero w a buf = none
  fd_do_write timeout sync (suc fuel) w a buf = elim (write_round timeout sync a (write w buf)) [
    | returned rc w' a' ↦ some (rc, w', a')
    | again w' a' ↦ fd_do_write timeout sync fuel w' a' buf
  ]

  -- fd_do_read without FR_RECV
  pub fd_do_read : (timeout : ℕ) → ℕ → W → Alarm → ℕ → Option (Rc (List ℕ) × W × Alarm)
  unfolding read_round
  fd_do_read timeout zero w a buflen = none
  fd_do_read timeout (suc fuel) w a buflen = elim (read_round timeout a (read w buflen)) [
    | returned rc w' a' ↦ some (rc, w', a')
    | again w' a' ↦ fd_do_read timeout fuel w' a' buflen
  ]

  -- fd_do_read with FR_RECV
  pub fd_do_recv : ℕ → W → ℕ → Option (Rc (List ℕ × Option A) × W)
  fd_do_recv zero w buflen = none
  fd_do_recv (suc fuel) w buflen =
      let (rc, w') = recvfrom w buflen in
      elim (is_eintr rc) [ true ↦ fd_do_recv fuel w' buflen | false ↦ some (rc, w') ]
