-- ===== src/Writer.antt =====
-- The destination side, src/logwriter.c: the output queue of a LogWriter and its flushing.
-- What a writer calls in other components (acknowledging and dropping messages, its control pipe,
-- the statistics) is recorded as a list of calls, in order.
pub mod Flush
pub mod Accept
pub mod Watch
mod Tests
use indigo.Prelude.{
  ℕ, ◌+◌, ◌-◌, ◌%◌, ◌^◌, Bool, true, false, Option, none, some, List, [], ◌∷◌, ◌++◌, ◌==◌,
  if◌then◌else◌, length, drop,
}
use mathlib.Core.Option

-- NC_CLOSE and NC_WRITE_ERROR of logpipe.h, the codes that a writer sends
pub data NotifyCode : Type 0 where
  close write_error : NotifyCode

-- Calls out of the writer: log_msg_ack, log_msg_unref, log_pipe_notify on the control pipe,
-- stats_orphan_counter, and the destruction of the event source.
pub data Call (M : Type 0) : Type 0 where
  ack : M → Call M
  unref : M → Call M
  notify : NotifyCode → Call M
  orphan_counter : Call M
  destroy_source : Call M

-- What `fd_write` reports: a byte count, or -1 with errno EAGAIN, EINTR or another.
pub data WriteResult : Type 0 where
  wrote : ℕ → WriteResult
  again intr failed : WriteResult

-- The formatting that a writer calls: `log_template_format` and `log_stamp_format` with the
-- writer's time options (the flag is `use_time_recvd`), the fields of a message, and the `%d` of
-- GLib's printf.
pub record Formatter (M : Type 0) : Type 1 where
  pub Template : Type 0
  pub template_format : Template → M → (escape : Bool) → (recvd : Bool) → List ℕ
  pub stamp_format : M → (recvd : Bool) → List ℕ
  pub stamp_format_bsd : M → (recvd : Bool) → List ℕ
  pub pri : M → ℕ
  pub host : M → List ℕ
  pub msg : M → List ℕ
  pub decimal : ℕ → List ℕ

-- LogWriterOptions and the constructor flags LW_FORMAT_FILE and LW_FORMAT_PROTO
pub record LogWriterOptions (T : Type 0) : Type 0 where
  pub fifo_size : ℕ
  pub flush_lines : ℕ
  pub flush_timeout : ℕ
  pub template : Option T
  pub file_template : Option T
  pub proto_template : Option T
  pub tmpl_escape : Bool
  pub use_time_recvd : Bool
  pub format_file : Bool
  pub format_proto : Bool

-- LogWriter. An entry of the GQueue is a message and the word pushed behind it; both are always
-- pushed and popped together, so `queue->length / 2` is the length of this list.
-- `dropped_messages` is the counter behind the pointer, `none` for NULL.
pub record LogWriter (M : Type 0) : Type 0 where
  pub queue : List (M × ℕ)
  pub partial : Option (List ℕ)
  pub partial_pos : ℕ
  pub has_source : Bool
  pub dropped_messages : Option ℕ

-- PF_FLOW_CTL_OFF is bit 0 of the path flags.
abbrev pub flow_ctl_off : ℕ → Bool
flow_ctl_off path_flags = path_flags % 2 == 1

-- `0x80000000 | path_flags` on a 32-bit word, and `& 0x7FFFFFFF`
abbrev pub to_word : ℕ → ℕ
to_word path_flags = 2 ^ 31 + path_flags % 2 ^ 31

abbrev pub of_word : ℕ → ℕ
of_word word = word % 2 ^ 31

-- `(*self->dropped_messages)++` on a guint32, if the pointer is set
abbrev pub count_drop : Option ℕ → Option ℕ
count_drop none = none
count_drop (some n) = some ((n + 1) % 2 ^ 32)

module _ {M : Type 0} where
  -- the calls of `log_msg_ack` under the flow control test, then `log_msg_unref`
  abbrev pub settle : M → ℕ → List (Call M)
  settle lm path_flags = if flow_ctl_off path_flags then unref lm ∷ [] else ack lm ∷ unref lm ∷ []

  -- log_msg_drop
  unfoldable pub log_msg_drop : M → ℕ → List (Call M)
  log_msg_drop lm path_flags = settle lm path_flags

  -- log_writer_queue
  unfoldable pub log_writer_queue :
      {T : Type 0} → LogWriterOptions T → LogWriter M → M → ℕ → LogWriter M × List (Call M)
  unfolding log_msg_drop
  log_writer_queue o s lm path_flags =
      if length s.queue == o.fifo_size
      then (
        record s { dropped_messages = count_drop s.dropped_messages },
        log_msg_drop lm path_flags,
      )
      else (record s { queue = s.queue ++ (lm, to_word path_flags) ∷ [] }, [])

  -- log_writer_deinit: the source is destroyed, the counter orphaned
  unfoldable pub log_writer_deinit : LogWriter M → LogWriter M × List (Call M)
  log_writer_deinit s = (
    record s { has_source = false; dropped_messages = none },
    (if s.has_source then destroy_source ∷ [] else [])
        ++ elim s.dropped_messages [ none ↦ [] | some _ ↦ orphan_counter ∷ [] ],
  )

  -- log_writer_broken: first the deinit, then the notification
  pub log_writer_broken : LogWriter M → NotifyCode → LogWriter M × List (Call M)
  unfolding log_writer_deinit
  log_writer_broken s code =
      let (s', calls) = log_writer_deinit s in (s', calls ++ notify code ∷ [])

  -- log_writer_free: what is still queued is released and not acknowledged
  pub log_writer_free : List (M × ℕ) → List (Call M)
  log_writer_free [] = []
  log_writer_free ((lm, _) ∷ q) = unref lm ∷ log_writer_free q

module _ {M : Type 0} (f : Formatter M) where
  open f use {Template, template_format, stamp_format, stamp_format_bsd, pri, host, msg, decimal}

  -- the choice of the template in log_writer_format_log
  unfoldable pub chosen_template : LogWriterOptions Template → Option Template
  chosen_template o = elim o.template [
    | some t ↦ some t
    | none ↦
        if o.format_file then o.file_template else if o.format_proto then o.proto_template else none
  ]

  -- log_writer_format_log; `result` is what the string holds before
  unfoldable pub log_writer_format_log : LogWriterOptions Template → M → List ℕ → List ℕ
  unfolding chosen_template
  log_writer_format_log o lm result = elim (chosen_template o) [
    | some t ↦ template_format t lm o.tmpl_escape o.use_time_recvd
    | none ↦
        if o.format_file
        then stamp_format lm o.use_time_recvd ++ b' ' ∷ (host lm ++ b' ' ∷ (msg lm ++ 10 ∷ []))
        else if o.format_proto
        then b'<'
          ∷ (decimal (pri lm)
              ++ b'>'
                ∷ (stamp_format_bsd lm o.use_time_recvd
                    ++ b' ' ∷ (host lm ++ b' ' ∷ (msg lm ++ 10 ∷ []))))
        else result
  ]
