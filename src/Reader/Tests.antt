-- ===== src/Reader/Tests.antt =====
-- Runs of a reader, and the reader's theorems at concrete values.
use indigo.Prelude.{ℕ, ◌≡◌, inr, refl, zero, suc, true, false, none, some, List, [], ◌∷◌, arith}
use indigo.Prelude.Int.{pos}
use mathlib.Core.List.{flatten}
use indigo.Reader.{
  LogReaderOptions, LogReader, Pipe, memchr, log_reader_iterate_buf, parse_flags_of, trim_end,
  find_eol,
}
use indigo.Reader.Collect.{collect}
use indigo.Reader.Frame.{feed, newlines}
use indigo.Reader.Stream.{IsStream, Fits, machine, receive_all, receive_all-feed}
use indigo.Reader.Bounds.{IsBounded, log_reader_iterate_buf-IsBounded}
use indigo.Reader.Fetch.{ReadResult, bytes, again, Fetched, log_reader_fetch_log}
use indigo.Reader.Fetch.Ends.{ReadBound, log_reader_fetch_log_total}

abbrev options : LogReaderOptions
options = record {
  noparse = false;
  check_hostname = true;
  kernel = false;
  padding = 0;
  prefix = none;
  msg_size = 16;
  fetch_limit = 10;
  zone_offset = pos 3600;
  keep_timestamp = true;
}

abbrev reader : LogReader ℕ
reader = record {
  buffer = b'x' ∷ [];
  prev_addr = none;
  complete_line = false;
  pktterm = false;
  nomread = false;
  follow = false;
  strict = false;
  internal = false;
  local = false;
}

abbrev chunks : List (List ℕ)
chunks = (b'a' ∷ 13 ∷ 10 ∷ b'b' ∷ []) ∷ (b'c' ∷ 10 ∷ 10 ∷ b'd' ∷ []) ∷ []

lines_of_chunks :
    let c = receive_all collect options (some 1) (reader, []) chunks in
    (c.0.buffer ≡ b'd' ∷ []) × (c.1 ≡ (b'x' ∷ b'a' ∷ []) ∷ (b'b' ∷ b'c' ∷ []) ∷ [])
unfolding receive_all
lines_of_chunks = (refl, refl)

reader-IsStream : IsStream collect options (some 1) reader
unfolding memchr indigo.Reader.or_kept
reader-IsStream = record {
  lines = refl;
  unpadded = refl;
  no_nul = refl;
  no_newline = refl;
  address = refl;
}

chunks_fit :
    Fits collect options (some 1) (parse_flags_of options reader) (reader.buffer, []) chunks
unfolding Fits feed memchr find_eol trim_end newlines
chunks_fit = (refl, omega arith, inr (omega arith), (refl, omega arith, inr (omega arith), tt))

receive_all-feed_example :
    let c = receive_all collect options (some 1) (reader, []) chunks in
    ◌≡◌ {A = List ℕ × List (List ℕ)}
      (c.0.buffer, c.1)
      (machine collect options
        (some 1)
        (parse_flags_of options reader)
        (reader.buffer, [])
        (flatten chunks))
receive_all-feed_example =
    receive_all-feed collect options (some 1) (λ w. refl) reader [] chunks reader-IsStream
      chunks_fit

log_reader_iterate_buf-IsBounded_example :
    IsBounded collect options reader 3 []
      (log_reader_iterate_buf collect options reader (some 7) true 3 [])
log_reader_iterate_buf-IsBounded_example =
    log_reader_iterate_buf-IsBounded collect options reader (some 7) true 3 [] (omega arith)
      (omega arith)

-- a descriptor with a number of reads of one byte to come
drip : ℕ → ℕ → ReadResult ℕ × ℕ
drip zero n = (again, 0)
drip (suc k) zero = (again, suc k)
drip (suc k) (suc n) = (bytes (10 ∷ []) none, k)

drip_bound : ReadBound drip
unfolding drip
drip_bound zero n bs sa h = absurd (ground arith)
drip_bound (suc k) zero bs sa h = absurd (ground arith)
drip_bound (suc k) (suc n) bs sa h = ground arith

log_reader_fetch_log_total_example :
    (x : Fetched ℕ (List (List ℕ)) ℕ) × (log_reader_fetch_log collect options drip reader [] 12
      ≡ some x)
log_reader_fetch_log_total_example =
    log_reader_fetch_log_total collect options drip drip_bound (omega arith) reader [] 12
      (record { unpadded = refl; follows_once = inr refl; in_buffer = omega arith })
