-- ===== src/Reader/Fetch.antt =====
-- src/logreader.c, log_reader_fetch_log: the reads of one dispatch, up to the fetch limit.
pub mod Ends
use indigo.Prelude.{
  ℕ, zero, suc, ◌+◌, ◌-◌, ◌*◌, Bool, true, false, not, ◌&&◌, ◌||◌, Option, none, some, List, [],
  ◌∷◌, ◌++◌, ◌==◌, ltb, if◌then◌else◌, length, is_empty,
}
use indigo.Reader.{LogReaderOptions, LogReader, Pipe, Iterated, log_reader_iterate_buf}

-- What `fd_read` reports: bytes and the sender's address (no bytes is end of file), or -1 with
-- errno EAGAIN or another.
pub data ReadResult (A : Type 0) : Type 0 where
  bytes : List ℕ → Option A → ReadResult A
  again failed : ReadResult A

-- NC_CLOSE and NC_READ_ERROR
pub data ReadNotify : Type 0 where
  close read_error : ReadNotify

-- What log_reader_fetch_log leaves: the reader, the states behind the pipe and the descriptor,
-- what it notified its control pipe of, and its result.
pub record Fetched (A W R : Type 0) : Type 0 where
  pub reader : LogReader A
  pub world : W
  pub input : R
  pub notified : Option ReadNotify
  pub result : Bool

-- After a read: the function returns, or the loop goes on.
pub data Round {A W : Type 0} (pipe : Pipe A W) (o : LogReaderOptions) (R : Type 0) : Type 0 where
  finish : Fetched A W R → Round pipe o R
  go_on : Iterated pipe o → R → Round pipe o R

-- `rc == 0 && (self->flags & (LR_FOLLOW + LR_PKTTERM)) == 0`
abbrev pub is_eof : {A : Type 0} → LogReader A → List ℕ → Bool
is_eof s bs = is_empty bs && not (s.follow || s.pktterm)

-- padding is set and another number of bytes has come
abbrev pub is_short : LogReaderOptions → List ℕ → Bool
is_short o bs = not (o.padding == 0) && not (length bs == o.padding)

-- `avail`
abbrev pub room : {A : Type 0} → LogReaderOptions → LogReader A → ℕ
room o s = if o.padding == 0 then o.msg_size - length s.buffer else o.padding

-- the iteration after some bytes have been put behind those in the buffer
abbrev pub take_in :
    {A W : Type 0} (pipe : Pipe A W) (o : LogReaderOptions)
    → LogReader A
    → List ℕ
    → Option A
    → ℕ
    → W
    → Iterated pipe o
take_in pipe o s bs sa msg_count w =
    log_reader_iterate_buf pipe o (record s { buffer = s.buffer ++ bs }) sa false msg_count w

-- the rounds that always suffice: each counts a message or fills the buffer further
abbrev pub enough_fuel : LogReaderOptions → ℕ
enough_fuel o = suc (o.fetch_limit * suc o.msg_size + o.msg_size)

module _ {A W R : Type 0} (pipe : Pipe A W) (o : LogReaderOptions)
    (read : R → ℕ → ReadResult A × R) where
  -- TRUE with nothing to notify
  pub fetched : LogReader A → W → R → Fetched A W R
  fetched s w r = record { reader = s; world = w; input = r; notified = none; result = true }

  -- FALSE: the buffer is flushed with no address, then the control pipe is notified
  pub flushed : LogReader A → ℕ → W → R → ReadNotify → Fetched A W R
  flushed s msg_count w r code =
      let i = log_reader_iterate_buf pipe o s none true msg_count w in
      record { reader = i.reader; world = i.world; input = r; notified = some code; result = false }

  -- what a round does with the result of the read
  pub after_read : LogReader A → ℕ → W → R → ReadResult A → Round pipe o R
  unfolding fetched flushed
  after_read s msg_count w r again = finish (fetched s w r)
  after_read s msg_count w r failed = finish (flushed s msg_count w r read_error)
  after_read s msg_count w r (bytes bs sa) =
      if is_eof s bs
      then finish (flushed s msg_count w r close)
      else if is_short o bs
      then finish
          (record { reader = s; world = w; input = r; notified = some read_error; result = false })
      else let i = take_in pipe o s bs sa msg_count w in
        if s.nomread then finish (fetched i.reader i.world r) else go_on i r

  -- The while loop, on fuel for the number of reads; `none` means that the fuel ran out.
  pub fetch_loop : ℕ → LogReader A → ℕ → W → R → Option (Fetched A W R)
  unfolding after_read
  fetch_loop zero s msg_count w r = none
  fetch_loop (suc fuel) s msg_count w r = elim (ltb msg_count o.fetch_limit) [
    | false ↦ some (fetched s w r)
    | true ↦
        let (rc, r') = read r (room o s) in
        elim (after_read s msg_count w r' rc) [
          | finish x ↦ some x
          | go_on i r'' ↦ fetch_loop fuel i.reader i.msg_count i.world r''
        ]
  ]

  -- log_reader_fetch_log
  pub log_reader_fetch_log : LogReader A → W → R → Option (Fetched A W R)
  unfolding fetch_loop
  log_reader_fetch_log s w r = elim s.complete_line [
    | false ↦ fetch_loop (enough_fuel o) s 0 w r
    | true ↦
        let i = log_reader_iterate_buf pipe o s none false 0 w in
        elim (not (is_empty i.reader.buffer) || s.nomread) [
          | true ↦ some (fetched i.reader i.world r)
          | false ↦ fetch_loop (enough_fuel o) i.reader i.msg_count i.world r
        ]
  ]
