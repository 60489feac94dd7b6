-- ===== src/Writer/Watch/Tests.antt =====
-- A watch that waits to flush one message.
use indigo.Prelude.{◌+◌, ◌/◌, ◌%◌, ℕ, ◌≡◌, refl, arith, true, false, none, some, [], ◌∷◌}
use indigo.Prelude.Int.{pos, pos_part, ◌+ℤ◌, ◌-ℤ◌, ◌≤ℤ◌, ◌<ℤ◌}
use indigo.Writer.{LogWriterOptions, LogWriter}
use indigo.Writer.Watch.{
  GTimeVal, LogWriterWatch, no_events, log_writer_fd_prepare, log_writer_fd_check,
}
use indigo.Writer.Watch.Timeout.{micros, log_writer_fd_check-timeout}

abbrev options : LogWriterOptions (Unit {0})
options = record {
  fifo_size = 100;
  flush_lines = 10;
  flush_timeout = 1500;
  template = none;
  file_template = none;
  proto_template = none;
  tmpl_escape = false;
  use_time_recvd = false;
  format_file = true;
  format_proto = false;
}

abbrev writer : LogWriter ℕ
writer = record {
  queue = (7, 0) ∷ [];
  partial = none;
  partial_pos = 0;
  has_source = true;
  dropped_messages = none;
}

abbrev at : ℕ → ℕ → GTimeVal
at sec usec = record { tv_sec = pos sec; tv_usec = pos usec }

abbrev idle : LogWriterWatch
idle = record {
  cond = record no_events { io_out = true };
  events = no_events;
  revents = no_events;
  flush_target = at 0 0;
  flush_waiting_for_timeout = false;
}

abbrev waiting : LogWriterWatch
waiting = record idle { flush_target = at 12 400000; flush_waiting_for_timeout = true }

time_after : GTimeVal → ℕ → GTimeVal
time_after t usec =
    let sum = pos_part t.tv_usec + usec in at (pos_part t.tv_sec + sum / 1000000) (sum % 1000000)

starts_waiting :
    log_writer_fd_prepare time_after options false writer idle (at 10 900000)
    ≡ record { watch = waiting; timeout = some (pos 1500); ready = false }
unfolding time_after log_writer_fd_prepare ◌+ℤ◌ ◌-ℤ◌
starts_waiting = refl

log_writer_fd_check-timeout_example :
    (micros (at 12 400000) ≤ℤ micros (at 12 0)
      → log_writer_fd_check writer waiting (at 12 0) ≡ true)
    × (log_writer_fd_check writer waiting (at 12 0) ≡ true
        → micros (at 12 400000) <ℤ micros (at 12 0) +ℤ pos 1000000)
log_writer_fd_check-timeout_example =
    log_writer_fd_check-timeout writer waiting (at 12 0) refl refl (omega arith, omega arith)
      (omega arith, omega arith)
