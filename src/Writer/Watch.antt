-- ===== src/Writer/Watch.antt =====
-- src/logwriter.c, the event source of a writer: log_writer_fd_prepare, _check and _dispatch.
pub mod Timeout
mod Tests
use indigo.Prelude.{
  ℕ, ◌+◌, ◌*◌, ◌/◌, ◌%◌, Bool, true, false, not, ◌&&◌, ◌||◌, Option, none, some, List, [], ◌∷◌,
  ◌++◌, ◌==◌, ltb, leb, if◌then◌else◌, length, is_empty,
}
use indigo.Prelude.Int.{ℤ, pos, negsuc, ◌+ℤ◌, ◌-ℤ◌, ltb_ℤ, leb_ℤ, eqb_ℤ}
use indigo.Writer.{
  NotifyCode, close, write_error, Call, WriteResult, Formatter, LogWriterOptions, LogWriter,
  log_writer_broken,
}
use indigo.Writer.Flush.{Flushed, log_writer_flush_log}

-- GTimeVal
pub record GTimeVal : Type 0 where
  pub tv_sec : ℤ
  pub tv_usec : ℤ

-- The bits of a GPollFD; G_IO_IN and G_IO_HUP are only asked together.
pub record PollEvents : Type 0 where
  pub io_in : Bool
  pub io_out : Bool
  pub io_err : Bool
  pub io_hup : Bool

-- LogWriterWatch, less the writer and the descriptor. `cond` is the condition of the FDWrite,
-- which `events` takes to flush.
pub record LogWriterWatch : Type 0 where
  pub cond : PollEvents
  pub events : PollEvents
  pub revents : PollEvents
  pub flush_target : GTimeVal
  pub flush_waiting_for_timeout : Bool

abbrev pub no_events : PollEvents
no_events = record { io_in = false; io_out = false; io_err = false; io_hup = false }

-- LW_DETECT_EOF adds G_IO_HUP and G_IO_IN
abbrev pub detect : Bool → PollEvents → PollEvents
detect false e = e
detect true e = record e { io_in = true; io_hup = true }

abbrev pub has_partial : Option (List ℕ) → Bool
has_partial none = false
has_partial (some line) = true

-- the difference of two times, with its microseconds brought into range
abbrev pub diff_of : GTimeVal → GTimeVal → GTimeVal
diff_of target now =
    let sec = target.tv_sec -ℤ now.tv_sec in
    let usec = target.tv_usec -ℤ now.tv_usec in
    if ltb_ℤ usec (pos 0)
    then record { tv_sec = sec -ℤ pos 1; tv_usec = usec +ℤ pos 1000000 }
    else if ltb_ℤ (pos 1000000) usec
    then record { tv_sec = sec +ℤ pos 1; tv_usec = usec -ℤ pos 1000000 }
    else record { tv_sec = sec; tv_usec = usec }

-- `seconds * 1000`, and a number of microseconds that is not negative in milliseconds
abbrev pub thousandfold : ℤ → ℤ
thousandfold (pos n) = pos (n * 1000)
thousandfold (negsuc n) = negsuc (n * 1000 + 999)

abbrev pub div_thousand : ℤ → ℤ
div_thousand (pos n) = pos (n / 1000)
div_thousand (negsuc n) = pos 0 -ℤ pos ((n + 1) / 1000)

-- what prepare leaves: the watch, a timeout for poll if it sets one, and whether it is ready
pub record Prepared : Type 0 where
  pub watch : LogWriterWatch
  pub timeout : Option ℤ
  pub ready : Bool

-- Fewer messages than flush_lines wait (`g_time_val_add` is GLib's, with microseconds): the watch
-- starts to wait, or waits on
pub wait_for_timeout :
    {T : Type 0}
    → (g_time_val_add : GTimeVal → ℕ → GTimeVal) → LogWriterOptions T
    → LogWriterWatch
    → GTimeVal
    → Prepared
wait_for_timeout g_time_val_add o w now =
    if not w.flush_waiting_for_timeout
    then record {
      watch = record w {
        flush_target = g_time_val_add now (o.flush_timeout * 1000);
        flush_waiting_for_timeout = true;
      };
      timeout = some (pos o.flush_timeout);
      ready = false;
    }
    else let diff = diff_of w.flush_target now in
      let timeout = thousandfold diff.tv_sec +ℤ div_thousand diff.tv_usec in
      record { watch = w; timeout = some timeout; ready = ltb_ℤ timeout (pos 0) }

-- the descriptor is polled, and no timeout is waited for
pub poll_for : (detect_eof : Bool) → PollEvents → LogWriterWatch → Prepared
poll_for detect_eof events w = record {
  watch = record w {
    events = detect detect_eof events;
    flush_waiting_for_timeout = false;
    revents = no_events;
  };
  timeout = none;
  ready = false;
}

-- the condition for flushing at once
pub wants_flush : {M T : Type 0} → LogWriterOptions T → LogWriter M → Bool
wants_flush o s =
    has_partial s.partial
    || ((o.flush_lines == 0 && not (is_empty s.queue))
        || (ltb 0 o.flush_lines && leb o.flush_lines (length s.queue)))

module _ {M T : Type 0} (g_time_val_add : GTimeVal → ℕ → GTimeVal) (o : LogWriterOptions T)
    (detect_eof : Bool) where
  -- log_writer_fd_prepare
  pub log_writer_fd_prepare : LogWriter M → LogWriterWatch → GTimeVal → Prepared
  unfolding wants_flush wait_for_timeout poll_for
  log_writer_fd_prepare s w now =
      if wants_flush o s
      then poll_for detect_eof w.cond w
      else if not (is_empty s.queue)
      then wait_for_timeout g_time_val_add o w now
      else poll_for detect_eof no_events w

-- log_writer_fd_check
pub log_writer_fd_check : {M : Type 0} → LogWriter M → LogWriterWatch → GTimeVal → Bool
log_writer_fd_check s w now =
    if (not (is_empty s.queue) || has_partial s.partial) && w.flush_waiting_for_timeout
    then leb_ℤ w.flush_target.tv_sec now.tv_sec
      || (eqb_ℤ w.flush_target.tv_sec now.tv_sec && leb_ℤ w.flush_target.tv_usec now.tv_usec)
    else w.revents.io_out || (w.revents.io_err || (w.revents.io_hup || w.revents.io_in))

-- a broken connection, and what dispatch returns then
abbrev broken_by : {M W : Type 0} → NotifyCode → LogWriter M → W → Bool → Flushed M W
broken_by code s world result =
    let (s', calls) = log_writer_broken s code in
    record { writer = s'; world = world; calls = calls; result = result }

-- log_writer_fd_dispatch: what it leaves is as for a flush
pub log_writer_fd_dispatch :
    {M W : Type 0} (f : Formatter M)
    → (W → List ℕ → WriteResult × W)
    → LogWriterOptions f.Template
    → LogWriter M
    → LogWriterWatch
    → W
    → Flushed M W
log_writer_fd_dispatch f write o s w world =
    if w.revents.io_hup || w.revents.io_in
    then broken_by close s world false
    else if w.revents.io_err
    then broken_by write_error s world true
    else if not (is_empty s.queue) || has_partial s.partial
    then log_writer_flush_log f write o s world
    else record { writer = s; world = world; calls = []; result = true }
