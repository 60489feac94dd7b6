-- ===== src/Reader/Stream/Restart.antt =====
-- A stream that is read by one reader and then by another, which starts behind the lines that the
-- first has handed over.
use indigo.Prelude.{
  ℕ, ◌-◌, ◌≤◌, ◌≡◌, inl, inr, refl, sym, ap, subst, ◌∙◌, none, true, false, Option, List, [], ◌∷◌,
  ◌++◌, append_assoc, append-nil, arith, length, drop, ◌==◌, Bool-cases, length-append, drop-append,
}
use mathlib.Core.List.{flatten}
use indigo.Message.{ParseFlags}
use indigo.Reader.{LogReaderOptions, LogReader, Pipe, memchr, or_kept, parse_flags_of}
use indigo.Reader.Frame.{
  NoNul, memchr-append_none, feed, feed_open, feed-append, feed-newline, feed-other, feed-keeps,
  deliver,
}
use indigo.Reader.Stream.{IsStream, Fits, machine, receive_all, receive_all-feed}

module _ {A W : Type 0} (pipe : Pipe A W) (o : LogReaderOptions) (saddr : Option A) where
  -- the open line is the end of what was taken
  feed-suffix :
      (pf : ParseFlags) (line : List ℕ) (w : W) (xs : List ℕ)
      → (done : List ℕ) × (line ++ xs ≡ done ++ (machine pipe o saddr pf (line, w) xs).0)
  unfolding feed
  feed-suffix pf line w [] = ([], append-nil line)
  feed-suffix pf line w (c ∷ cs) = elim (Bool-cases (c == 10)) [
    | inl newline ↦
        let (done, e) = feed-suffix pf [] (deliver pipe o pf saddr w line) cs in
        rw (feed-newline pipe o pf saddr line w c cs newline)
          (line ++ c ∷ done, ap (λ rest. line ++ c ∷ rest) e ∙ sym (append_assoc line (c ∷ done) _))
    | inr other ↦
        let (done, e) = feed-suffix pf (line ++ c ∷ []) w cs in
        rw (feed-other pipe o pf saddr line w c cs other)
          (done, sym (append_assoc line (c ∷ []) cs) ∙ e)
  ]

  -- a reader that starts with an empty buffer
  receive_all-empty :
      ((w : W) → pipe.free_to_send w ≡ true)
      → (s : LogReader A) (w : W) (chunks : List (List ℕ)) → IsStream pipe o saddr s
      → s.buffer ≡ []
      → Fits pipe o saddr (parse_flags_of o s) ([], w) chunks
      → let c = receive_all pipe o saddr (s, w) chunks in
        ◌≡◌ {A = List ℕ × W}
          (c.0.buffer, c.1)
          (machine pipe o saddr (parse_flags_of o s) ([], w) (flatten chunks))
  receive_all-empty open_pipe s w chunks h e fits =
      let pf = parse_flags_of o s in
      receive_all-feed pipe o saddr open_pipe s w chunks h
        (subst (λ line. Fits pipe o saddr pf (line, w) chunks) (sym e) fits)
      ∙ ap (λ line. machine pipe o saddr pf (line, w) (flatten chunks)) e

  -- the open line is no longer than what was read into an empty buffer
  pub receive_all-length :
      ((w : W) → pipe.free_to_send w ≡ true)
      → (s : LogReader A) (w : W) (chunks : List (List ℕ)) → IsStream pipe o saddr s
      → s.buffer ≡ []
      → Fits pipe o saddr (parse_flags_of o s) ([], w) chunks
      → length (receive_all pipe o saddr (s, w) chunks).0.buffer ≤ length (flatten chunks)
  receive_all-length open_pipe s w chunks h e fits =
      let pf = parse_flags_of o s in
      let c = receive_all pipe o saddr (s, w) chunks in
      let (done, suffix) = feed-suffix pf [] w (flatten chunks) in
      let whole = receive_all-empty open_pipe s w chunks h e fits in
      let same : c.0.buffer ≡ (machine pipe o saddr pf ([], w) (flatten chunks)).0 =
        ap (λ (x : List ℕ × W). x.0) whole in
      let open_line = (machine pipe o saddr pf ([], w) (flatten chunks)).0 in
      omega (arith, ap length same, ap length suffix, length-append done open_line)

  Fits-NoNul :
      (pf : ParseFlags) (st : List ℕ × W) (chunks : List (List ℕ))
      → Fits pipe o saddr pf st chunks
      → NoNul (flatten chunks)
  unfolding Fits flatten memchr
  Fits-NoNul pf st [] f = refl
  Fits-NoNul pf st (chunk ∷ chunks) (n, _, _, f) =
      memchr-append_none 0 chunk (flatten chunks) n
        (Fits-NoNul pf (machine pipe o saddr pf st chunk) chunks f)

  -- what a reader has not handed over of a stream is where the next one starts
  unread :
      (read open_line more done : List ℕ)
      → read ≡ done ++ open_line
      → drop (length read - length open_line) (read ++ more) ≡ open_line ++ more
  unread read open_line more done e = rw e (
      ap (drop _) (append_assoc done open_line more)
      ∙ drop-append (length (done ++ open_line) - length open_line) done (open_line ++ more)
          (omega (arith, length-append done open_line)))

  -- reading on behind the lines that were handed over is reading all
  feed-unread :
      (pf : ParseFlags) (w w' : W) (read open_line more : List ℕ)
      → NoNul read
      → ◌≡◌ {A = List ℕ × W} (open_line, w') (machine pipe o saddr pf ([], w) read)
      → machine pipe o saddr pf ([], w') (drop (length read - length open_line) (read ++ more))
        ≡ machine pipe o saddr pf ([], w) (read ++ more)
  unfolding memchr
  feed-unread pf w w' read open_line more n e =
      let same : open_line ≡ (machine pipe o saddr pf ([], w) read).0 =
        ap (λ (x : List ℕ × W). x.0) e in
      let (done, suffix) = feed-suffix pf [] w read in
      let (newline, nul) = feed-keeps pipe o pf saddr [] w read refl refl n in
      let no_newline : memchr 10 open_line ≡ none = ap (memchr 10) same ∙ newline in
      ap (machine pipe o saddr pf ([], w'))
        (unread read open_line more done (suffix ∙ ap (λ xs. done ++ xs) (sym same)))
      ∙ feed-append pipe o pf saddr ([], w') open_line more
      ∙ ap (λ st. machine pipe o saddr pf st more)
          (feed_open pipe o pf saddr [] w' open_line no_newline ∙ e)
      ∙ sym (feed-append pipe o pf saddr ([], w) read more)

  -- Two readers with the same flags, of which the second takes the rest of the stream behind the
  -- lines that the first has handed over, hand over the lines of the stream and keep its open line.
  pub receive_all-restarted :
      ((w : W) → pipe.free_to_send w ≡ true)
      → (s s' : LogReader A) (w : W) (chunks chunks' : List (List ℕ)) (more : List ℕ)
      → IsStream pipe o saddr s
      → IsStream pipe o saddr s'
      → s.buffer ≡ []
      → s'.buffer ≡ []
      → parse_flags_of o s' ≡ parse_flags_of o s
      → let c = receive_all pipe o saddr (s, w) chunks in
        let pf = parse_flags_of o s in
        Fits pipe o saddr pf ([], w) chunks
        → flatten chunks'
          ≡ drop (length (flatten chunks) - length c.0.buffer) (flatten chunks ++ more)
        → Fits pipe o saddr pf ([], c.1) chunks'
        → let d = receive_all pipe o saddr (s', c.1) chunks' in
          ◌≡◌ {A = List ℕ × W}
            (d.0.buffer, d.1)
            (machine pipe o saddr pf ([], w) (flatten chunks ++ more))
  receive_all-restarted open_pipe s s' w chunks chunks' more h h' e e' flags fits reads fits' =
      let pf = parse_flags_of o s in
      let c = receive_all pipe o saddr (s, w) chunks in
      let first = receive_all-empty open_pipe s w chunks h e fits in
      receive_all-empty open_pipe s' c.1 chunks' h' e'
        (subst (λ f. Fits pipe o saddr f ([], c.1) chunks') (sym flags) fits')
      ∙ ap (λ f. machine pipe o saddr f ([], c.1) (flatten chunks')) flags
      ∙ ap (machine pipe o saddr pf ([], c.1)) reads
      ∙ feed-unread pf w c.1 (flatten chunks) c.0.buffer more (Fits-NoNul pf ([], w) chunks fits)
          first

-- a new reader of a source that has no addresses
pub IsStream-new :
    {A W : Type 0} (pipe : Pipe A W) (o : LogReaderOptions) (s : LogReader A)
    → s.pktterm ≡ false
    → o.padding ≡ 0
    → s.buffer ≡ []
    → s.prev_addr ≡ none
    → IsStream pipe o none s
unfolding memchr or_kept
IsStream-new pipe o s lines unpadded empty no_address = record {
  lines = lines;
  unpadded = unpadded;
  no_nul = ap (memchr 0) empty;
  no_newline = ap (memchr 10) empty;
  address = no_address;
}
