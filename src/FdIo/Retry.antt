-- ===== src/FdIo/Retry.antt =====
-- The retries of fd_do_read and fd_do_write, and the first attempt that counts.
use indigo.Prelude.{
  ℕ, suc, ◌<◌, ◌≡◌, refl, ap, ◌∙◌, Bool, true, false, Option, some, List, ltb, arith,
}
use indigo.FdIo.{
  eintr, Rc, err, is_eintr, FdSystem, Alarm, Round, returned, again, call_alarm, read_round,
  write_round, alarm_set, alarm_cancel, alarm_handled, after_fsync, fd_do_write, fd_do_read,
}

-- no alarm
abbrev pub quiet : Alarm
quiet = record { sig_alarm_received = false; alarm_pending = false }

-- A call tried from a state on: `k` times a signal other than the alarm interrupts it; then it
-- succeeds, fails in another way, or is interrupted by the alarm that a timeout has set.
pub data Tried {W R : Type 0} (timeout : ℕ) (call : W → (Rc R × Bool) × W)
    : ℕ → W → Rc R → W → Type 0 where
  ends :
      {w w' : W} {rc : Rc R} {came : Bool}
      → call w ≡ ((rc, came), w')
      → is_eintr rc ≡ false
      → Tried timeout call 0 w rc w'
  times_out :
      {w w' : W}
      → ltb 0 timeout ≡ true
      → call w ≡ ((err eintr, true), w')
      → Tried timeout call 0 w (err eintr) w'
  interrupted :
      {k : ℕ} {w w' w'' : W} {rc : Rc R}
      → call w ≡ ((err eintr, false), w')
      → Tried timeout call k w' rc w''
      → Tried timeout call (suc k) w rc w''

armed : (timeout : ℕ) → 0 < timeout → ltb 0 timeout ≡ true
armed timeout l = ground arith

module _ {W A : Type 0} (sys : FdSystem W A) (timeout : ℕ) where
  open sys use {write, read}

  write_ends :
      (rc : Rc ℕ) (came : Bool) (w : W)
      → 0 < timeout
      → is_eintr rc ≡ false
      → write_round sys timeout false quiet ((rc, came), w) ≡ returned rc w quiet
  unfolding write_round after_fsync call_alarm alarm_set alarm_cancel alarm_handled
  write_ends rc came w l n = rw (armed timeout l, n) refl

  write_times_out :
      (w : W)
      → 0 < timeout
      → write_round sys timeout false quiet ((err eintr, true), w) ≡ returned (err eintr) w quiet
  unfolding write_round after_fsync call_alarm alarm_set alarm_cancel alarm_handled
  write_times_out w l = rw (armed timeout l) refl

  write_interrupted :
      (w : W)
      → 0 < timeout
      → write_round sys timeout false quiet ((err eintr, false), w) ≡ again w quiet
  unfolding write_round after_fsync call_alarm alarm_set alarm_cancel alarm_handled
  write_interrupted w l = rw (armed timeout l) refl

  -- what is left of the loop behind a round
  abbrev write_rest : ℕ → List ℕ → Round W ℕ → Option (Rc ℕ × W × Alarm)
  write_rest fuel buf r = elim r [
    | returned rc w a ↦ some (rc, w, a)
    | again w a ↦ fd_do_write sys timeout false fuel w a buf
  ]

  -- With a timeout and no alarm about, and without fsync, fd_do_write returns, with one attempt
  -- more than the signals that interrupt it; what it returns is the outcome of the first attempt
  -- that no other signal interrupts, a call that blocks until the timeout being the one that fails
  -- with EINTR; and it leaves no alarm behind.
  pub fd_do_write_lem :
      (buf : List ℕ) (k : ℕ) (w w' : W) (rc : Rc ℕ)
      → Tried timeout (λ w. write w buf) k w rc w'
      → 0 < timeout
      → fd_do_write sys timeout false (suc k) w quiet buf ≡ some (rc, w', quiet)
  unfolding fd_do_write
  fd_do_write_lem buf k w w' rc (ends {came = came} e n) l =
      ap (write_rest 0 buf) (ap (write_round sys timeout false quiet) e ∙ write_ends rc came w' l n)
  fd_do_write_lem buf k w w' rc (times_out t e) l =
      ap (write_rest 0 buf) (ap (write_round sys timeout false quiet) e ∙ write_times_out w' l)
  fd_do_write_lem buf (suc k) w w'' rc (interrupted {w' = w'} e more) l =
      ap (write_rest (suc k) buf)
        (ap (write_round sys timeout false quiet) e ∙ write_interrupted w' l)
      ∙ fd_do_write_lem buf k w' w'' rc more l

  read_ends :
      (rc : Rc (List ℕ)) (came : Bool) (w : W)
      → 0 < timeout
      → is_eintr rc ≡ false
      → read_round {R = List ℕ} timeout quiet ((rc, came), w) ≡ returned rc w quiet
  unfolding read_round call_alarm alarm_set alarm_cancel alarm_handled
  read_ends rc came w l n = rw (armed timeout l, n) refl

  read_times_out :
      (w : W)
      → 0 < timeout
      → read_round {R = List ℕ} timeout quiet ((err eintr, true), w) ≡ returned (err eintr) w quiet
  unfolding read_round call_alarm alarm_set alarm_cancel alarm_handled
  read_times_out w l = rw (armed timeout l) refl

  read_interrupted :
      (w : W)
      → 0 < timeout
      → read_round {R = List ℕ} timeout quiet ((err eintr, false), w) ≡ again w quiet
  unfolding read_round call_alarm alarm_set alarm_cancel alarm_handled
  read_interrupted w l = rw (armed timeout l) refl

  -- what is left of the loop behind a round
  abbrev read_rest : ℕ → ℕ → Round W (List ℕ) → Option (Rc (List ℕ) × W × Alarm)
  read_rest fuel buflen r = elim r [
    | returned rc w a ↦ some (rc, w, a)
    | again w a ↦ fd_do_read sys timeout fuel w a buflen
  ]

  -- With a timeout and no alarm about and without FR_RECV, fd_do_read returns, with one attempt
  -- more than the signals that interrupt it; what it returns is the outcome of the first attempt
  -- that no other signal interrupts, a call that blocks until the timeout being the one that fails
  -- with EINTR; and it leaves no alarm behind.
  pub fd_do_read_lem :
      (buflen k : ℕ) (w w' : W) (rc : Rc (List ℕ))
      → Tried timeout (λ w. read w buflen) k w rc w'
      → 0 < timeout
      → fd_do_read sys timeout (suc k) w quiet buflen ≡ some (rc, w', quiet)
  unfolding fd_do_read
  fd_do_read_lem buflen k w w' rc (ends {came = came} e n) l =
      ap (read_rest 0 buflen)
        (ap (read_round {R = List ℕ} timeout quiet) e ∙ read_ends rc came w' l n)
  fd_do_read_lem buflen k w w' rc (times_out t e) l =
      ap (read_rest 0 buflen) (ap (read_round {R = List ℕ} timeout quiet) e ∙ read_times_out w' l)
  fd_do_read_lem buflen (suc k) w w'' rc (interrupted {w' = w'} e more) l =
      ap (read_rest (suc k) buflen)
        (ap (read_round {R = List ℕ} timeout quiet) e ∙ read_interrupted w' l)
      ∙ fd_do_read_lem buflen k w' w'' rc more l
