-- ===== src/Writer/Flush.antt =====
-- src/logwriter.c, log_writer_flush_log: formatting the queue and writing it to the descriptor.
pub mod Conserve
pub mod Settle
pub mod Run
pub mod Drain
use indigo.Prelude.{
  ℕ, ◌+◌, ◌-◌, Bool, true, false, Option, none, some, List, [], ◌∷◌, ◌++◌, ◌==◌, if◌then◌else◌,
  length, drop, is_empty,
}
use indigo.Writer.{
  NotifyCode, write_error, Call, WriteResult, wrote, again, intr, failed, Formatter,
  LogWriterOptions, LogWriter, of_word, settle, log_writer_broken, log_writer_format_log,
}

-- A flush leaves a writer and the world behind the descriptor, what it called, and its result.
pub record Flushed (M W : Type 0) : Type 0 where
  pub writer : LogWriter M
  pub world : W
  pub calls : List (Call M)
  pub result : Bool

-- After a write: the loop goes on with the string, or the function returns.
pub data Progress (M W : Type 0) : Type 0 where
  go_on : List ℕ → W → Progress M W
  return : Flushed M W → Progress M W

module _ {M W : Type 0} where
  -- calls made before the rest of the run
  pub after : List (Call M) → Flushed M W → Flushed M W
  after calls r = record r { calls = calls ++ r.calls }

  -- the label `write_error` for an errno that is neither EAGAIN nor EINTR
  pub write_failed : LogWriter M → W → Flushed M W
  write_failed s w =
      let (s', calls) = log_writer_broken s write_error in
      record { writer = s'; world = w; calls = calls; result = false }

  pub stop : LogWriter M → W → Flushed M W
  stop s w = record { writer = s; world = w; calls = []; result = true }

  -- the test on the result of writing the rest of a partial line
  pub after_partial : LogWriter M → List ℕ → ℕ → WriteResult → W → Progress M W
  unfolding write_failed stop
  after_partial s line len (wrote n) w =
      if n == len
      then go_on line w
      else return (stop (record s { partial_pos = s.partial_pos + n }) w)
  after_partial s line len failed w = return (write_failed s w)
  after_partial s line len _ w = return (stop s w)

  -- the test on the result of writing a whole line
  pub after_line : LogWriter M → List ℕ → WriteResult → W → Progress M W
  unfolding write_failed stop
  after_line s line (wrote n) w =
      if n == length line
      then go_on line w
      else return (stop (record s { partial = some line; partial_pos = n }) w)
  after_line s line failed w =
      return (write_failed (record s { partial = some line; partial_pos = 0 }) w)
  after_line s line _ w = return (stop (record s { partial = some line; partial_pos = 0 }) w)

module _ {M W : Type 0} (f : Formatter M) (write : W → List ℕ → WriteResult × W) where
  open f use {Template}

  -- an empty line is not written
  pub write_line : LogWriter M → List ℕ → W → Progress M W
  unfolding after_line
  write_line s line w =
      if is_empty line then go_on line w else let (rc, w') = write w line in after_line s line rc w'

  -- the rest of the partial line, if there is one; else an empty string
  pub write_partial : LogWriter M → W → Progress M W
  unfolding after_partial
  write_partial s w = elim s.partial [
    | none ↦ go_on [] w
    | some line ↦
        let (rc, w') = write w (drop s.partial_pos line) in
        after_partial s line (length line - s.partial_pos) rc w'
  ]

  module _ (o : LogWriterOptions Template) where
    -- The while loop over the queue, which stands in for `s.queue`. `line` is reused from round
    -- to round.
    pub flush_queue : LogWriter M → List (M × ℕ) → List ℕ → W → Flushed M W
    unfolding after write_line stop
    flush_queue s [] line w = stop (record s { queue = []; partial = none }) w
    flush_queue s ((lm, word) ∷ q) line w =
        after (settle lm (of_word word))
          (elim (write_line (record s { queue = q; partial = none })
            (log_writer_format_log f o lm line) w) [
              | go_on line' w' ↦ flush_queue s q line' w'
              | return r ↦ r
            ])

    -- log_writer_flush_log
    unfoldable pub log_writer_flush_log : LogWriter M → W → Flushed M W
    unfolding flush_queue write_partial
    log_writer_flush_log s w = elim (write_partial s w) [
      | go_on line w' ↦ flush_queue s s.queue line w'
      | return r ↦ r
    ]
