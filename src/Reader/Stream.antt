-- ===== src/Reader/Stream.antt =====
-- A stream read in pieces by src/logreader.c: the pieces do not matter.
pub mod Restart
use indigo.Prelude.{
  ℕ, ◌<◌, ◌≡◌, inl, inr, refl, sym, ap, ◌∙◌, true, false, none, some, List, [], ◌∷◌, ◌++◌, arith,
  length, Option, is_empty, if◌then◌else◌, Option-cases, Bool-cases,
}
use mathlib.Core.List.{flatten}
use indigo.Message.{ParseFlags}
use indigo.Reader.{
  LogReaderOptions, LogReader, memchr, find_eol, Pipe, takes_all, iterate_lines, iterate_all,
  log_reader_iterate_buf, or_kept, parse_flags_of,
}
use indigo.Reader.Frame.{
  NoNul, feed, feed-append, feed_open, feed-keeps, memchr-append_none, HasBudget, cut_lines-feed,
}

module _ {A W : Type 0} (pipe : Pipe A W) (o : LogReaderOptions) (saddr : Option A) where
  -- a read puts bytes behind those in the buffer and iterates, as log_reader_fetch_log does
  pub receive : LogReader A × W → List ℕ → LogReader A × W
  unfolding log_reader_iterate_buf
  receive (s, w) chunk =
      let r =
        log_reader_iterate_buf pipe o (record s { buffer = s.buffer ++ chunk }) saddr false 0 w in
      (r.reader, r.world)

  unfoldable pub receive_all : LogReader A × W → List (List ℕ) → LogReader A × W
  unfolding receive
  receive_all c [] = c
  receive_all c (chunk ∷ chunks) = receive_all (receive c chunk) chunks

  -- A reader on a stream: neither datagrams nor padding, no complete line left over, and no other
  -- address kept.
  pub record IsStream (s : LogReader A) : Type 0 where
    pub lines : s.pktterm ≡ false
    pub unpadded : o.padding ≡ 0
    pub no_nul : NoNul s.buffer
    pub no_newline : memchr 10 s.buffer ≡ none
    pub address : or_kept saddr s.prev_addr ≡ saddr

  -- the machine with the given parse flags
  abbrev pub machine : ParseFlags → List ℕ × W → List ℕ → List ℕ × W
  machine pf = feed pipe o pf saddr

  takes_all-false :
      (s : LogReader A)
      → s.pktterm ≡ false
      → o.padding ≡ 0
      → length s.buffer < o.msg_size
      → takes_all pipe o s false ≡ false
  unfolding takes_all
  takes_all-false s p q lt = elim (Option-cases (find_eol s.buffer)) [
    | inl e ↦ ground arith
    | inr (i, e) ↦ ground arith
  ]

  receive-feed :
      ((w : W) → pipe.free_to_send w ≡ true)
      → (s : LogReader A) (w : W) (chunk : List ℕ) → IsStream s
      → NoNul (s.buffer ++ chunk)
      → length (s.buffer ++ chunk) < o.msg_size
      → HasBudget o 0 (s.buffer ++ chunk)
      → let c = receive (s, w) chunk in
        ◌≡◌ {A = List ℕ × W} (c.0.buffer, c.1) (machine (parse_flags_of o s) (s.buffer, w) chunk)
  unfolding receive log_reader_iterate_buf iterate_lines parse_flags_of
  receive-feed open_pipe s w chunk h n fits b =
      let pf = parse_flags_of o s in
      rw
        (
          takes_all-false (record s { buffer = s.buffer ++ chunk }) h.lines h.unpadded fits,
          h.address,
        )
        (cut_lines-feed pipe o pf saddr open_pipe (length (s.buffer ++ chunk)) (s.buffer ++ chunk) 0
            w (omega arith) n b
          ∙ feed-append pipe o pf saddr ([], w) s.buffer chunk
          ∙ ap (λ st. feed pipe o pf saddr st chunk)
              (feed_open pipe o pf saddr [] w s.buffer h.no_newline))

  -- what a read leaves alone
  receive-keeps :
      (s : LogReader A) (w : W) (chunk : List ℕ)
      → ((receive (s, w) chunk).0.pktterm ≡ s.pktterm)
        × (parse_flags_of o (receive (s, w) chunk).0 ≡ parse_flags_of o s)
  unfolding receive log_reader_iterate_buf iterate_lines iterate_all parse_flags_of
  receive-keeps s w chunk =
      elim (Bool-cases (takes_all pipe o (record s { buffer = s.buffer ++ chunk }) false)) [
        | inl e ↦ rw e (refl, refl)
        | inr e ↦ rw e (refl, refl)
      ]

  or_kept-again :
      (sa prev : Option A) (rest : List ℕ)
      → or_kept sa prev ≡ sa
      → or_kept sa (if is_empty rest then none else or_kept sa prev) ≡ sa
  unfolding or_kept
  or_kept-again (some a) prev rest h = refl
  or_kept-again none prev [] h = refl
  or_kept-again none prev (c ∷ cs) h = h

  receive-address :
      (s : LogReader A) (w : W) (chunk : List ℕ)
      → IsStream s
      → length (s.buffer ++ chunk) < o.msg_size
      → or_kept saddr (receive (s, w) chunk).0.prev_addr ≡ saddr
  unfolding receive log_reader_iterate_buf iterate_lines
  receive-address s w chunk h fits =
      rw (takes_all-false (record s { buffer = s.buffer ++ chunk }) h.lines h.unpadded fits)
        (or_kept-again saddr s.prev_addr _ h.address)

  -- Each read fits into the buffer behind the open line, and holds no NUL.
  unfoldable pub Fits : ParseFlags → List ℕ × W → List (List ℕ) → Type 0
  Fits pf st [] = Unit
  Fits pf st (chunk ∷ chunks) =
      NoNul chunk
      × (length (st.0 ++ chunk) < o.msg_size)
      × HasBudget o 0 (st.0 ++ chunk)
      × Fits pf (machine pf st chunk) chunks

  -- For a pipe that never closes and a reader of a stream (neither datagrams nor padding, no NUL
  -- and no newline in its buffer, no other address kept), and a stream without NULs in reads that
  -- fit the buffer, where each read completes no more lines than the fetch limit, or there is no
  -- limit: however the stream is cut into reads, the reader hands over the lines of the whole
  -- stream, one by one at their newlines, and keeps the open line, as a machine that takes the
  -- bytes one at a time does.
  pub receive_all-feed :
      ((w : W) → pipe.free_to_send w ≡ true)
      → (s : LogReader A) (w : W) (chunks : List (List ℕ)) → IsStream s
      → Fits (parse_flags_of o s) (s.buffer, w) chunks
      → let c = receive_all (s, w) chunks in
        ◌≡◌ {A = List ℕ × W}
          (c.0.buffer, c.1)
          (machine (parse_flags_of o s) (s.buffer, w) (flatten chunks))
  unfolding receive_all Fits flatten feed
  receive_all-feed open_pipe s w [] h f = refl
  receive_all-feed open_pipe s w (chunk ∷ chunks) h (n, fits, b, rest) =
      let c = receive (s, w) chunk in
      let pf = parse_flags_of o s in
      let nul = memchr-append_none 0 s.buffer chunk h.no_nul n in
      let e = receive-feed open_pipe s w chunk h nul fits b in
      let (p, k) = receive-keeps s w chunk in
      let (newline, no_nul) = feed-keeps pipe o pf saddr s.buffer w chunk h.no_newline h.no_nul n in
      let same = ap (λ (x : List ℕ × W). x.0) e in
      let next : IsStream c.0 = record {
        lines = p ∙ h.lines;
        unpadded = h.unpadded;
        no_nul = rw same no_nul;
        no_newline = rw same newline;
        address = receive-address s w chunk h fits;
      } in
      receive_all-feed open_pipe c.0 c.1 chunks next (rw (k, e) rest)
      ∙ rw (k, e) (sym (feed-append pipe o pf saddr (s.buffer, w) chunk (flatten chunks)))
