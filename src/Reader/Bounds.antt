-- ===== src/Reader/Bounds.antt =====
-- When the loops of src/logreader.c stop, and what bounds the buffer and the counter.
use indigo.Prelude.{
  ℕ, zero, suc, ◌+◌, ◌≤◌, ◌<◌, ◌≡◌, ◌≢◌, ◌⊎◌, inl, inr, refl, sym, ap, ◌∙◌, Bool, true, false, ◌&&◌,
  Option, none, some, List, [], ◌∷◌, arith, length, drop, take, length-drop, Option-cases,
  Bool-cases,
}
use indigo.Message.{ParseFlags}
use indigo.Reader.{
  LogReaderOptions, LogReader, memchr, find_eol, has_line, trim_end, Pipe, handle_nonempty,
  log_reader_handle_line, Cut, within_limit, cut_lines, takes_all, iterate_all, iterate_lines,
  log_reader_iterate_buf, or_kept, Iterated, parse_flags_of,
}
use indigo.Reader.Frame.{memchr-lt, cut_lines-none, cut_lines-stop, cut_lines-some}

find_eol-lt : (xs : List ℕ) (i : ℕ) → find_eol xs ≡ some i → i < length xs
unfolding find_eol
find_eol-lt xs i h = elim (Option-cases (memchr 0 xs)) [
  | inl e ↦ memchr-lt 10 xs i (ground arith)
  | inr (j, e) ↦ memchr-lt 0 xs i (ground arith)
]

halted : {P : Type 0} (b m : Bool) → (b && m) ≡ false → (m ≡ true) ⊎ P → (b ≡ false) ⊎ P
halted false m h p = inl refl
halted true m h (inl e) = absurd (ground arith)
halted true m h (inr p) = inr p

waits : {P : Type 0} (eol : Option ℕ) → has_line eol ≡ true → (eol ≡ none) ⊎ P → P
waits none h p = absurd (ground arith)
waits (some i) h (inl e) = absurd (ground arith)
waits (some i) h (inr p) = p

no_line : (eol : Option ℕ) → has_line eol ≡ false → eol ≡ none
no_line none h = refl
no_line (some i) h = absurd (ground arith)

module _ {A W : Type 0} (pipe : Pipe A W) (o : LogReaderOptions) where
  -- How the loop over the lines ends: at no further line, at the limit or at a closed pipe; and
  -- it has either done nothing or counted lines and shortened the buffer.
  pub record Ended (rest : List ℕ) (msg_count : ℕ) (w : W) (c : Cut pipe o) : Type 0 where
    pub stopped :
        (find_eol c.rest ≡ none)
        ⊎ (within_limit pipe o c.msg_count ≡ false)
        ⊎ (pipe.free_to_send c.world ≡ false)
    pub moved :
        ((c.msg_count ≡ msg_count) × (c.rest ≡ rest) × (c.world ≡ w))
        ⊎ ((msg_count < c.msg_count) × (length c.rest < length rest))

  moved_on :
      {rest' : List ℕ} {msg_count : ℕ} {w' : W} {c : Cut pipe o} (rest : List ℕ)
      → Ended rest' (msg_count + 1) w' c
      → length rest' < length rest
      → (msg_count < c.msg_count) × (length c.rest < length rest)
  moved_on rest h lt = elim h.moved [
    | inl (n, r, _) ↦ (omega arith, rw r lt)
    | inr (n, r) ↦ (omega arith, omega arith)
  ]

  module _ (pf : ParseFlags) (sa : Option A) where
    -- a line that closes the loop left the pipe closed
    handle_may :
        (w : W) (may_read : Bool) (line : List ℕ)
        → (may_read ≡ true) ⊎ (pipe.free_to_send w ≡ false)
        → let h = handle_nonempty pipe o pf sa w may_read line in
          (h.1 ≡ true) ⊎ (pipe.free_to_send h.0 ≡ false)
    unfolding handle_nonempty log_reader_handle_line
    handle_may w may_read [] m = m
    handle_may w may_read (c ∷ cs) m = Bool-cases _

    cut_lines-Ended :
        (fuel : ℕ) (rest : List ℕ) (msg_count : ℕ) (may_read : Bool) (w : W)
        → length rest ≤ fuel
        → (may_read ≡ true) ⊎ (pipe.free_to_send w ≡ false)
        → Ended rest msg_count w (cut_lines pipe o pf sa fuel rest msg_count may_read w)
    cut_lines-Ended zero [] msg_count may_read w f m =
        unfold cut_lines find_eol memchr in
        record { stopped = inl refl; moved = inl (refl, refl, refl) }
    cut_lines-Ended zero (x ∷ xs) msg_count may_read w f m = absurd (omega arith)
    cut_lines-Ended (suc fuel) rest msg_count may_read w f m = elim (Option-cases (find_eol rest)) [
      | inl e ↦
          rw (cut_lines-none pipe o pf sa fuel rest msg_count may_read w e)
            (record { stopped = inl e; moved = inl (refl, refl, refl) })
      | inr (i, e) ↦ elim (Bool-cases (within_limit pipe o msg_count && may_read)) [
        | inl go ↦
            let line = trim_end (take i rest) in
            let h = handle_nonempty pipe o pf sa w may_read line in
            let lt = find_eol-lt rest i e in
            let len = length-drop (suc i) rest in
            let ih =
              cut_lines-Ended fuel (drop (suc i) rest) (msg_count + 1) h.1 h.0 (omega arith)
                (handle_may w may_read line m) in
            rw (cut_lines-some pipe o pf sa fuel rest msg_count may_read w i e go)
              (record { stopped = ih.stopped; moved = inr (moved_on rest ih (omega arith)) })
        | inr halt ↦
            rw (cut_lines-stop pipe o pf sa fuel rest msg_count may_read w i e halt)
              (record { stopped = inr (halted _ may_read halt m); moved = inl (refl, refl, refl) })
      ]
    ]

  -- The buffer does not grow; a call that leaves no complete line leaves room to read into; a
  -- complete line is left only at the fetch limit or when the pipe takes no more; and a call that
  -- counts no message has changed nothing.
  pub record IsBounded (s : LogReader A) (msg_count : ℕ) (w : W) (r : Iterated pipe o)
      : Type 0 where
    pub shrinks : length r.reader.buffer ≤ length s.buffer
    pub room : r.reader.complete_line ≡ false → length r.reader.buffer < o.msg_size
    pub waiting :
        r.reader.complete_line ≡ true
        → (within_limit pipe o r.msg_count ≡ false) ⊎ (pipe.free_to_send r.world ≡ false)
    pub counted :
        (msg_count < r.msg_count)
        ⊎ ((r.msg_count ≡ msg_count) × (r.reader.buffer ≡ s.buffer) × (r.world ≡ w))

  not_full :
      (s : LogReader A) (flush : Bool)
      → takes_all pipe o s flush ≡ false
      → find_eol s.buffer ≡ none
      → length s.buffer ≢ o.msg_size
  unfolding takes_all
  not_full s flush t e = ground arith

  lines-IsBounded :
      (s : LogReader A) (saddr : Option A) (flush : Bool) (msg_count : ℕ) (w : W)
      → length s.buffer ≤ o.msg_size
      → takes_all pipe o s flush ≡ false
      → IsBounded s msg_count w (iterate_lines pipe o s saddr msg_count w)
  unfolding iterate_lines
  lines-IsBounded s saddr flush msg_count w le t =
      let sa = or_kept saddr s.prev_addr in
      let c =
        cut_lines pipe o (parse_flags_of o s) sa (length s.buffer) s.buffer msg_count true w in
      let h : Ended s.buffer msg_count w c =
        cut_lines-Ended (parse_flags_of o s) sa (length s.buffer) s.buffer msg_count true w
          (omega arith) (inl refl) in
      let waiting =
        λ (e : has_line (find_eol c.rest) ≡ true). waits (find_eol c.rest) e h.stopped in
      elim h.moved [
        | inl (n, r, x) ↦ record {
          shrinks = rw r (omega arith);
          room = λ e.
              let ne = not_full s flush t (ap find_eol (sym r) ∙ no_line (find_eol c.rest) e) in
              rw r (omega arith);
          waiting = waiting;
          counted = inr (n, r, x);
        }
        | inr (n, r) ↦ record {
          shrinks = omega arith;
          room = λ e. omega arith;
          waiting = waiting;
          counted = inl n;
        }
      ]

  -- With a `msg_size` that is not 0 and a buffer within it, one call of log_reader_iterate_buf,
  -- flushing or not, does not grow the buffer, and leaves it shorter than `msg_size` unless a
  -- complete line is left; one is left only at the fetch limit or when the pipe takes no more; and
  -- a call that counts no message has changed neither the buffer nor the state behind the pipe.
  pub log_reader_iterate_buf-IsBounded :
      (s : LogReader A) (saddr : Option A) (flush : Bool) (msg_count : ℕ) (w : W)
      → 0 < o.msg_size
      → length s.buffer ≤ o.msg_size
      → IsBounded s msg_count w (log_reader_iterate_buf pipe o s saddr flush msg_count w)
  unfolding log_reader_iterate_buf
  log_reader_iterate_buf-IsBounded s saddr flush msg_count w p le =
      elim (Bool-cases (takes_all pipe o s flush)) [
        | inl e ↦
            rw (e, log_reader_iterate_buf)
              (unfold iterate_all in
                record {
                  shrinks = omega arith;
                  room = λ _. p;
                  waiting = λ b. absurd (ground arith);
                  counted = inl (omega arith);
                })
        | inr e ↦ rw (e, log_reader_iterate_buf) (lines-IsBounded s saddr flush msg_count w le e)
      ]
