-- ===== src/Writer/Flush/Drain.antt =====
-- A flush of src/logwriter.c to a descriptor that takes whatever it is given.
use indigo.Prelude.{
  ℕ, ◌-◌, ◌≡◌, refl, true, Option, none, some, List, [], ◌∷◌, ◌++◌, arith, length, drop,
  length-drop, ==_refl, append-nil,
}
use indigo.Writer.{
  Formatter, LogWriterOptions, LogWriter, log_writer_format_log, WriteResult, wrote,
}
use indigo.Writer.Flush.{
  write_line, write_partial, after_partial, go_on, flush_queue, log_writer_flush_log, stop, after,
  after_line,
}
use indigo.Writer.Flush.Conserve.{
  Descriptor, HasFormat, pending, partial_rest, render, log_writer_flush_log-pending,
}

-- every write takes all bytes
abbrev pub TakesAll : {W : Type 0} → (W → List ℕ → WriteResult × W) → Type 0
TakesAll {W} write = (w : W) (bytes : List ℕ) → (write w bytes).0 ≡ wrote (length bytes)

module _ {M W : Type 0} (f : Formatter M) (write : W → List ℕ → WriteResult × W)
    (all : TakesAll write) where
  write_line_all :
      (s : LogWriter M) (line : List ℕ) (w : W)
      → (w' : W) × (write_line f write s line w ≡ go_on line w')
  unfolding write_line after_line
  write_line_all s [] w = (w, refl)
  write_line_all s (c ∷ cs) w =
      ((write w (c ∷ cs)).1, rw (all w (c ∷ cs), after_line, ==_refl) refl)

  write_partial_all :
      (s : LogWriter M) (w : W)
      → (line : List ℕ) × (w' : W) × (write_partial f write s w ≡ go_on line w')
  unfolding write_partial after_partial
  write_partial_all s w = go s.partial refl
    where
      go :
          (p : Option (List ℕ))
          → s.partial ≡ p
          → (line : List ℕ) × (w' : W) × (write_partial f write s w ≡ go_on line w')
      go none e = ([], w, rw (e, write_partial))
      go (some line) e =
          let rest = drop s.partial_pos line in
          let same : length rest ≡ length line - s.partial_pos = length-drop s.partial_pos line in
          (line, (write w rest).1, rw (e, write_partial, all w rest, same, ==_refl))

  module _ (o : LogWriterOptions (f.Template)) where
    flush_queue_all :
        (s : LogWriter M) (q : List (M × ℕ)) (line : List ℕ) (w : W)
        → let r = flush_queue f write o s q line w in
          (r.writer.queue ≡ []) × (r.writer.partial ≡ none) × (r.result ≡ true)
    unfolding flush_queue after stop
    flush_queue_all s [] line w = (refl, refl, refl)
    flush_queue_all s ((lm, word) ∷ q) line w =
        let (w', e) =
          write_line_all (record s { queue = q; partial = none })
            (log_writer_format_log f o lm line) w in
        rw e (flush_queue_all s q (log_writer_format_log f o lm line) w')

  module _ (o : LogWriterOptions (f.Template)) where
    flush_all :
        (s : LogWriter M) (w : W)
        → let r = log_writer_flush_log f write o s w in
          (r.writer.queue ≡ []) × (r.writer.partial ≡ none) × (r.result ≡ true)
    unfolding log_writer_flush_log
    flush_all s w =
        let (line, w', e) = write_partial_all s w in
        rw (e, log_writer_flush_log) (flush_queue_all o s s.queue line w')

module _ {M W : Type 0} (f : Formatter M) (d : Descriptor W) (all : TakesAll (d.write)) where
  drained-pending :
      (o : LogWriterOptions (f.Template)) (s : LogWriter M)
      → s.queue ≡ []
      → s.partial ≡ none
      → pending f o s ≡ []
  unfolding pending partial_rest render
  drained-pending o s q p = ground arith

  -- For options whose formatting does not depend on the string of before: a flush to a descriptor
  -- that takes all it is given empties the writer, succeeds, and leaves the descriptor with all
  -- that was pending.
  pub log_writer_flush_log_drains :
      (o : LogWriterOptions (f.Template))
      → HasFormat f o
      → (s : LogWriter M) (w : W)
      → let r = log_writer_flush_log f (d.write) o s w in
        (r.writer.queue ≡ [])
        × (r.writer.partial ≡ none)
        × (r.result ≡ true)
        × (d.out r.world ≡ d.out w ++ pending f o s)
  log_writer_flush_log_drains o hf s w =
      let r = log_writer_flush_log f (d.write) o s w in
      let (q, p, t) = flush_all f (d.write) all o s w in
      (
        q,
        p,
        t,
        ground (
          arith,
          drained-pending o r.writer q p,
          append-nil (d.out r.world),
          log_writer_flush_log-pending f d o hf s w,
        ),
      )
