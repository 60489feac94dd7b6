-- ===== src/Writer/Flush/Settle.antt =====
-- The acknowledgements that a flush of src/logwriter.c makes.
use indigo.Prelude.{
  ℕ, ◌≡◌, refl, sym, inl, inr, ap, ◌∙◌, Bool, true, false, Option, none, some, List, [], ◌∷◌, ◌++◌,
  append_assoc, ◌==◌, length, Bool-cases, ◌-◌, drop,
}
use indigo.Writer.{
  write_error, Call, WriteResult, wrote, again, intr, failed, Formatter, LogWriterOptions,
  LogWriter, of_word, settle, log_writer_broken, log_writer_format_log, log_writer_deinit,
}
use indigo.Writer.Flush.{
  Progress, go_on, return, after_line, after_partial, write_line, write_partial, Flushed, after,
  write_failed, stop, flush_queue, log_writer_flush_log,
}

module _ {M : Type 0} where
  -- the calls that the queued messages are owed, in order
  unfoldable pub owed : List (M × ℕ) → List (Call M)
  owed [] = []
  owed ((lm, word) ∷ q) = settle lm (of_word word) ++ owed q

  -- what a failed flush calls last
  pub failure : LogWriter M → Bool → List (Call M)
  failure s true = []
  failure s false = (log_writer_broken s write_error).1

module _ {M W : Type 0} where
  -- The messages that left the queue `q` have had their calls, in the order of the queue, those
  -- that are left have not, and a failure is reported behind them.
  pub record Settled (s : LogWriter M) (q : List (M × ℕ)) (r : Flushed M W) : Type 0 where
    pub made : List (Call M)
    pub calls : r.calls ≡ made ++ failure s r.result
    pub left : made ++ owed r.writer.queue ≡ owed q

  -- what a write that ends the flush leaves
  Kept : LogWriter M → List (M × ℕ) → Progress M W → Type 0
  Kept s q (go_on line w) = Unit
  Kept s q (return r) = (r.calls ≡ failure s r.result) × (r.writer.queue ≡ q)

  after_line-Kept :
      (s : LogWriter M) (q : List (M × ℕ)) (line : List ℕ) (rc : WriteResult) (w : W)
      → Kept s q (after_line (record s { queue = q; partial = none }) line rc w)
  unfolding Kept after_line write_failed stop failure log_writer_broken log_writer_deinit
  after_line-Kept s q line (wrote n) w = elim (Bool-cases (n == length line)) [
    | inl full ↦ rw full tt
    | inr short ↦ rw short (refl, refl)
  ]
  after_line-Kept s q line again w = (refl, refl)
  after_line-Kept s q line intr w = (refl, refl)
  after_line-Kept s q line failed w = (refl, refl)

  after_partial-Kept :
      (s : LogWriter M) (line : List ℕ) (len : ℕ) (rc : WriteResult) (w : W)
      → Kept s s.queue (after_partial s line len rc w)
  unfolding Kept after_partial write_failed stop failure log_writer_broken log_writer_deinit
  after_partial-Kept s line len (wrote n) w = elim (Bool-cases (n == len)) [
    | inl full ↦ rw full tt
    | inr short ↦ rw short (refl, refl)
  ]
  after_partial-Kept s line len again w = (refl, refl)
  after_partial-Kept s line len intr w = (refl, refl)
  after_partial-Kept s line len failed w = (refl, refl)

module _ {M W : Type 0} (f : Formatter M) (write : W → List ℕ → WriteResult × W) where
  write_line-Kept :
      (s : LogWriter M) (q : List (M × ℕ)) (line : List ℕ) (w : W)
      → Kept s q (write_line f write (record s { queue = q; partial = none }) line w)
  unfolding write_line
  write_line-Kept s q [] w = unfold Kept in tt
  write_line-Kept s q (c ∷ cs) w =
      after_line-Kept s q (c ∷ cs) (write w (c ∷ cs)).0 (write w (c ∷ cs)).1

  write_partial-Kept : (s : LogWriter M) (w : W) → Kept s s.queue (write_partial f write s w)
  unfolding write_partial Kept failure log_writer_broken
  write_partial-Kept s w = go s.partial refl
    where
      go : (p : Option (List ℕ)) → s.partial ≡ p → Kept s s.queue (write_partial f write s w)
      go none e = rw (e, write_partial) (unfold Kept in tt)
      go (some line) e =
          rw (e, write_partial)
            (let (rc, w') = write w (drop s.partial_pos line) in
              after_partial-Kept s line (length line - s.partial_pos) rc w')

  resume-Settled :
      (s : LogWriter M) (q : List (M × ℕ)) (k : List ℕ → W → Flushed M W) (p : Progress M W)
      → Kept s q p
      → ((l : List ℕ) (w : W) → Settled s q (k l w))
      → Settled s q (elim p [ go_on l w ↦ k l w | return r ↦ r ])
  unfolding Kept
  resume-Settled s q k (go_on l w) h ih = ih l w
  resume-Settled s q k (return r) h ih = record { made = []; calls = h.0; left = ap owed h.1 }

  after-Settled :
      (s : LogWriter M) (lm : M) (word : ℕ) (q : List (M × ℕ)) (r : Flushed M W)
      → Settled s q r
      → Settled s ((lm, word) ∷ q) (after (settle lm (of_word word)) r)
  unfolding after owed
  after-Settled s lm word q r h = record {
    made = settle lm (of_word word) ++ h.made;
    calls =
        ap (λ c. settle lm (of_word word) ++ c) h.calls
        ∙ sym (append_assoc (settle lm (of_word word)) h.made (failure s r.result));
    left =
        append_assoc (settle lm (of_word word)) h.made (owed r.writer.queue)
        ∙ ap (λ c. settle lm (of_word word) ++ c) h.left;
  }

  module _ (o : LogWriterOptions (f.Template)) where
    flush_queue-Settled :
        (s : LogWriter M) (q : List (M × ℕ)) (line : List ℕ) (w : W)
        → Settled s q (flush_queue f write o s q line w)
    unfolding flush_queue stop
    flush_queue-Settled s [] line w = record {
      made = [];
      calls = unfold failure in refl;
      left = refl;
    }
    flush_queue-Settled s ((lm, word) ∷ q) line w =
        let line' = log_writer_format_log f o lm line in
        after-Settled s lm word q _ (
          resume-Settled s q (flush_queue f write o s q)
            (write_line f write (record s { queue = q; partial = none }) line' w)
            (write_line-Kept s q line' w) (flush_queue-Settled s q))

    -- A flush acknowledges and releases exactly the messages that it takes off the queue, each
    -- once and in order, those without flow control being released only; when it fails, it then
    -- shuts the writer down and notifies the control pipe.
    pub log_writer_flush_log-Settled :
        (s : LogWriter M) (w : W) → Settled s s.queue (log_writer_flush_log f write o s w)
    unfolding log_writer_flush_log
    log_writer_flush_log-Settled s w =
        resume-Settled s s.queue (flush_queue f write o s s.queue) (write_partial f write s w)
          (write_partial-Kept s w) (flush_queue-Settled s s.queue)
