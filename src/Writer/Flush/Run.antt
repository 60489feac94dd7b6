-- ===== src/Writer/Flush/Run.antt =====
-- A LogWriter of src/logwriter.c over its life: messages come in and flushes happen, in any order.
use indigo.Prelude.{
  ℕ, ◌≡◌, sym, ap, ◌∙◌, List, [], ◌∷◌, ◌++◌, append-nil, append_assoc, arith, ◌==◌, length,
  Bool-cases, if◌then◌else◌, inl, inr,
}
use indigo.Writer.{Formatter, LogWriterOptions, LogWriter, log_writer_queue, log_writer_format_log}
use indigo.Writer.Flush.{log_writer_flush_log}
use indigo.Writer.Flush.Conserve.{
  Descriptor, HasFormat, render, pending, partial_rest, log_writer_flush_log-pending,
}

pub data Event (M : Type 0) : Type 0 where
  push : M → ℕ → Event M
  flush : Event M

module _ {M W : Type 0} (f : Formatter M) (d : Descriptor W)
    (o : LogWriterOptions (f.Template)) where
  pub step : LogWriter M × W → Event M → LogWriter M × W
  step (s, w) (push lm path_flags) = ((log_writer_queue o s lm path_flags).0, w)
  step (s, w) flush = let r = log_writer_flush_log f (d.write) o s w in (r.writer, r.world)

  pub run : LogWriter M × W → List (Event M) → LogWriter M × W
  run c [] = c
  run c (e ∷ es) = run (step c e) es

  -- the text of an incoming message, if the queue has room for it
  pub text_of : LogWriter M → Event M → List ℕ
  text_of s (push lm path_flags) =
      if length s.queue == o.fifo_size then [] else log_writer_format_log f o lm []
  text_of s flush = []

  -- the text of the messages that find room in the queue when they come
  pub accepted : LogWriter M × W → List (Event M) → List ℕ
  accepted c [] = []
  accepted c (e ∷ es) = text_of c.0 e ++ accepted (step c e) es

  -- what the descriptor has, and what is still to come
  abbrev pub stream : LogWriter M × W → List ℕ
  stream c = d.out c.1 ++ pending f o c.0

  render-append :
      (q : List (M × ℕ)) (lm : M) (word : ℕ)
      → render f o (q ++ (lm, word) ∷ []) ≡ render f o q ++ log_writer_format_log f o lm []
  unfolding render
  render-append [] lm word = append-nil (log_writer_format_log f o lm [])
  render-append ((m, v) ∷ q) lm word =
      let text = log_writer_format_log f o m [] in
      ap (λ l. text ++ l) (render-append q lm word)
      ∙ sym (append_assoc text (render f o q) (log_writer_format_log f o lm []))

  step-stream :
      HasFormat f o
      → (c : LogWriter M × W) (e : Event M) → stream (step c e) ≡ stream c ++ text_of c.0 e
  unfolding step text_of
  step-stream hf (s, w) (push lm path_flags) = elim (Bool-cases (length s.queue == o.fifo_size)) [
    | inl full ↦ unfold log_writer_queue pending in rw full (sym (append-nil _))
    | inr room ↦
        let rest = partial_rest s.partial s.partial_pos in
        let text = log_writer_format_log f o lm [] in
        unfold log_writer_queue pending in
        rw (room, render-append)
          (ground (
            arith,
            append_assoc rest (render f o s.queue) text,
            append_assoc (d.out w) (rest ++ render f o s.queue) text,
          ))
  ]
  step-stream hf (s, w) flush = log_writer_flush_log-pending f d o hf s w ∙ sym (append-nil _)

  -- For options whose formatting does not depend on the string of before: whatever the order of
  -- queueing and flushing and however the descriptor behaves, the bytes it has received and those
  -- still owed are those of before, followed by the text of every message that found room in the
  -- queue, in the order of their coming.
  pub run-stream :
      HasFormat f o
      → (c : LogWriter M × W) (es : List (Event M)) → stream (run c es) ≡ stream c ++ accepted c es
  unfolding run accepted
  run-stream hf c [] = sym (append-nil (stream c))
  run-stream hf c (e ∷ es) =
      run-stream hf (step c e) es
      ∙ ap (λ l. l ++ accepted (step c e) es) (step-stream hf c e)
      ∙ append_assoc (stream c) (text_of c.0 e) (accepted (step c e) es)
