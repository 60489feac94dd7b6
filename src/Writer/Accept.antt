-- ===== src/Writer/Accept.antt =====
-- log_writer_queue of src/logwriter.c: every message is queued or dropped.
use indigo.Prelude.{
  ℕ, ◌≤◌, ◌≡◌, ◌≢◌, ◌⊎◌, refl, ◌∷◌, ◌++◌, [], List, arith, length, length-append, ◌==◌, Bool-cases,
  inl, inr, append-nil, append_assoc, sym, ap, ◌∙◌, ◌%◌,
}
use indigo.Writer.{
  LogWriterOptions, LogWriter, log_writer_queue, settle, to_word, of_word, count_drop,
}
use indigo.Writer.Flush.Settle.{owed}

module _ {M : Type 0} where
  settle-of_word :
      (lm : M) (path_flags : ℕ) → settle lm (of_word (to_word path_flags)) ≡ settle lm path_flags
  settle-of_word lm path_flags =
      let e : of_word (to_word path_flags) % 2 ≡ path_flags % 2 = omega arith in rw e

  owed-push :
      (q : List (M × ℕ)) (lm : M) (path_flags : ℕ)
      → owed (q ++ (lm, to_word path_flags) ∷ []) ≡ owed q ++ settle lm path_flags
  unfolding owed
  owed-push [] lm path_flags = append-nil _ ∙ settle-of_word lm path_flags
  owed-push ((m, v) ∷ q) lm path_flags =
      ap (λ l. settle m (of_word v) ++ l) (owed-push q lm path_flags)
      ∙ sym (append_assoc (settle m (of_word v)) (owed q) (settle lm path_flags))

module _ {M T : Type 0} where
  -- What log_writer_queue does with a message, full or not: the queue never grows past
  -- `fifo_size`; a full queue is left alone, the message settled at once and counted (modulo
  -- 2^32, if there is a counter); otherwise nothing is called and the message is owed its calls
  -- behind the others.
  pub log_writer_queue_lem :
      (o : LogWriterOptions T) (s : LogWriter M) (lm : M) (path_flags : ℕ)
      → length s.queue ≤ o.fifo_size
      → let (s', calls) = log_writer_queue o s lm path_flags in
        (length s'.queue ≤ o.fifo_size)
        × (((length s.queue ≡ o.fifo_size)
              × (s'.queue ≡ s.queue)
              × (calls ≡ settle lm path_flags)
              × (s'.dropped_messages ≡ count_drop s.dropped_messages))
            ⊎ ((length s.queue ≢ o.fifo_size)
                × (calls ≡ [])
                × (owed s'.queue ≡ owed s.queue ++ settle lm path_flags)
                × (s'.dropped_messages ≡ s.dropped_messages)))
  unfolding log_writer_queue
  log_writer_queue_lem o s lm path_flags h = elim (Bool-cases (length s.queue == o.fifo_size)) [
    | inl full ↦ rw full (h, inl (ground arith, refl, refl, refl))
    | inr room ↦
        let ne : length s.queue ≢ o.fifo_size = ground arith in
        rw room (
          omega (arith, length-append s.queue ((lm, to_word path_flags) ∷ [])),
          inr (ne, refl, owed-push s.queue lm path_flags, refl),
        )
  ]
