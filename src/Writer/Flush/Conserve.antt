-- ===== src/Writer/Flush/Conserve.antt =====
-- What a flush of src/logwriter.c keeps: the bytes and the calls still owed.
use indigo.Prelude.{
  ℕ, ◌-◌, ◌≤◌, ◌≡◌, inl, inr, refl, sym, ap, ◌∙◌, Option, none, some, List, [], ◌∷◌, ◌++◌, ◌==◌,
  append-nil, append_assoc, arith, length, take, drop, take-append-drop, take_all, drop-drop,
  Bool-cases, length-drop,
}
use indigo.Writer.{
  WriteResult, wrote, again, intr, failed, Formatter, LogWriterOptions, LogWriter,
  log_writer_broken, log_writer_format_log, log_writer_deinit,
}
use indigo.Writer.Flush.{
  Progress, go_on, return, after_line, after_partial, write_line, write_partial, Flushed, after,
  write_failed, stop, flush_queue, log_writer_flush_log,
}

-- The bytes of `data` that a call of write(2) with this result has taken.
abbrev pub taken : WriteResult → List ℕ → List ℕ
taken (wrote n) bytes = take n bytes
taken _ bytes = []

-- The documented behaviour of write(2): `out` is what the descriptor has received.
pub record Descriptor (W : Type 0) : Type 0 where
  pub write : W → List ℕ → WriteResult × W
  pub out : W → List ℕ
  pub write_out :
      (w : W) (bytes : List ℕ) → out (write w bytes).1 ≡ out w ++ taken (write w bytes).0 bytes
  pub write_bound :
      (w : W) (bytes : List ℕ) (n : ℕ) → (write w bytes).0 ≡ wrote n → n ≤ length bytes

unfoldable pub partial_rest : Option (List ℕ) → ℕ → List ℕ
partial_rest none pos = []
partial_rest (some line) pos = drop pos line

module _ {M : Type 0} (f : Formatter M) (o : LogWriterOptions (f.Template)) where
  -- Some format is set: the text of a message does not depend on the reused string.
  abbrev pub HasFormat : Type 0
  HasFormat =
      (lm : M) (line : List ℕ) → log_writer_format_log f o lm line ≡ log_writer_format_log f o lm []

  -- the text of the queue
  unfoldable pub render : List (M × ℕ) → List ℕ
  render [] = []
  render ((lm, _) ∷ q) = log_writer_format_log f o lm [] ++ render q

  -- the bytes that a writer still owes to its descriptor
  unfoldable pub pending : LogWriter M → List ℕ
  unfolding render partial_rest
  pending s = partial_rest s.partial s.partial_pos ++ render s.queue

-- What one write does: the bytes that the descriptor has and those of the partial line that is
-- left make up the line.
Wrote : {M W : Type 0} → (W → List ℕ) → W → List ℕ → List (M × ℕ) → Progress M W → Type 0
Wrote out w line q (go_on line' w') = out w' ≡ out w ++ line
Wrote out w line q (return r) =
    (out r.world ++ partial_rest r.writer.partial r.writer.partial_pos ≡ out w ++ line)
    × (r.writer.queue ≡ q)

module _ {M W : Type 0} (f : Formatter M) (d : Descriptor W)
    (o : LogWriterOptions (f.Template)) where
  open d use {write, out, write_out, write_bound}

  after_line-Wrote :
      (s : LogWriter M) (line : List ℕ) (w w' : W) (rc : WriteResult)
      → out w' ≡ out w ++ taken rc line
      → ((n : ℕ) → rc ≡ wrote n → n ≤ length line)
      → Wrote out w line s.queue (after_line s line rc w')
  unfolding Wrote after_line write_failed stop log_writer_broken log_writer_deinit partial_rest
  after_line-Wrote s line w w' (wrote n) e b = elim (Bool-cases (n == length line)) [
    | inl full ↦ rw full (ground (arith, take_all n line))
    | inr short ↦ rw short (
      ground (arith, append_assoc (out w) (take n line) (drop n line), take-append-drop n line),
      refl,
    )
  ]
  after_line-Wrote s line w w' again e b = (ground (arith, append-nil (out w)), refl)
  after_line-Wrote s line w w' intr e b = (ground (arith, append-nil (out w)), refl)
  after_line-Wrote s line w w' failed e b = (ground (arith, append-nil (out w)), refl)

  write_line-Wrote :
      (s : LogWriter M) (line : List ℕ) (w : W)
      → Wrote out w line s.queue (write_line f write s line w)
  unfolding write_line
  write_line-Wrote s [] w = unfold Wrote in sym (append-nil (out w))
  write_line-Wrote s (c ∷ cs) w =
      after_line-Wrote s (c ∷ cs) w (write w (c ∷ cs)).1 (write w (c ∷ cs)).0 (write_out w (c ∷ cs))
        (write_bound w (c ∷ cs))

  after_partial-Wrote :
      (s : LogWriter M) (line : List ℕ) (w w' : W) (rc : WriteResult)
      → s.partial ≡ some line
      → out w' ≡ out w ++ taken rc (drop s.partial_pos line)
      → ((n : ℕ) → rc ≡ wrote n → n ≤ length (drop s.partial_pos line))
      → Wrote out w
          (drop s.partial_pos line)
          s.queue
          (after_partial s line (length line - s.partial_pos) rc w')
  unfolding Wrote after_partial write_failed stop log_writer_broken log_writer_deinit partial_rest
  after_partial-Wrote s line w w' (wrote n) p e b =
      let rest = drop s.partial_pos line in
      elim (Bool-cases (n == length line - s.partial_pos)) [
        | inl full ↦ rw full (ground (arith, take_all n rest, length-drop s.partial_pos line))
        | inr short ↦ rw short (
          ground (
            arith,
            append_assoc (out w) (take n rest) (drop n rest),
            take-append-drop n rest,
            drop-drop n s.partial_pos line,
          ),
          refl,
        )
      ]
  after_partial-Wrote s line w w' again p e b = (ground (arith, append-nil (out w)), refl)
  after_partial-Wrote s line w w' intr p e b = (ground (arith, append-nil (out w)), refl)
  after_partial-Wrote s line w w' failed p e b = (ground (arith, append-nil (out w)), refl)

  write_partial-Wrote :
      (s : LogWriter M) (w : W)
      → Wrote out w (partial_rest s.partial s.partial_pos) s.queue (write_partial f write s w)
  unfolding write_partial
  write_partial-Wrote s w = go s.partial refl
    where
      go :
          (p : Option (List ℕ))
          → s.partial ≡ p
          → Wrote out w (partial_rest s.partial s.partial_pos) s.queue (write_partial f write s w)
      go none e = rw (e, write_partial) (unfold Wrote partial_rest in sym (append-nil (out w)))
      go (some line) e =
          rw (e, write_partial)
            (unfold partial_rest in
              (after_partial-Wrote s line w (write w (drop s.partial_pos line)).1
                (write w (drop s.partial_pos line)).0 e (write_out w (drop s.partial_pos line))
                (write_bound w (drop s.partial_pos line))))

  -- the rest of the run, from where a write left it
  resume-pending :
      (w : W) (line : List ℕ) (q : List (M × ℕ)) (k : List ℕ → W → Flushed M W) (p : Progress M W)
      → Wrote out w line q p
      → ((l : List ℕ) (w' : W)
          → out (k l w').world ++ pending f o (k l w').writer ≡ out w' ++ render f o q)
      → (let r : Flushed M W = elim p [ go_on l w' ↦ k l w' | return r ↦ r ] in
          out r.world ++ pending f o r.writer)
        ≡ out w ++ (line ++ render f o q)
  unfolding Wrote pending
  resume-pending w line q k (go_on l w') h ih =
      ground (arith, ih l w', append_assoc (out w) line (render f o q))
  resume-pending w line q k (return r) h ih = ground (
    arith,
    append_assoc (out w) line (render f o q),
    append_assoc (out r.world) (partial_rest r.writer.partial r.writer.partial_pos) (render f o q),
  )

  flush_queue-pending :
      HasFormat f o
      → (s : LogWriter M) (q : List (M × ℕ)) (line : List ℕ) (w : W)
      → let r = flush_queue f write o s q line w in
        out r.world ++ pending f o r.writer ≡ out w ++ render f o q
  unfolding flush_queue after stop
  flush_queue-pending hf s [] line w = unfold pending render partial_rest in refl
  flush_queue-pending hf s ((lm, word) ∷ q) line w =
      let line' = log_writer_format_log f o lm line in
      resume-pending w line' q (flush_queue f write o s q)
        (write_line f write (record s { queue = q; partial = none }) line' w)
        (write_line-Wrote (record s { queue = q; partial = none }) line' w)
        (flush_queue-pending hf s q)
      ∙ unfold render in ap (λ l. out w ++ (l ++ render f o q)) (hf lm line)

  -- For options whose formatting does not depend on the string of before: after a flush, on every
  -- branch, what the descriptor has received and what the writer still owes make up what they
  -- made up before, so that no byte is lost, doubled or reordered.
  pub log_writer_flush_log-pending :
      HasFormat f o
      → (s : LogWriter M) (w : W)
      → let r = log_writer_flush_log f write o s w in
        out r.world ++ pending f o r.writer ≡ out w ++ pending f o s
  unfolding log_writer_flush_log
  log_writer_flush_log-pending hf s w =
      unfold pending in
      resume-pending w (partial_rest s.partial s.partial_pos) s.queue
        (flush_queue f write o s s.queue) (write_partial f write s w) (write_partial-Wrote s w)
        (flush_queue-pending hf s s.queue)
