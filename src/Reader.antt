-- ===== src/Reader.antt =====
-- The source side, src/logreader.c: a LogReader cuts what it reads from a descriptor into lines.
pub mod Frame
pub mod Stream
pub mod Bounds
pub mod Fetch
pub mod Watch
pub mod Options
pub mod Collect
mod Tests
use indigo.Prelude.{
  ℕ, zero, suc, ◌+◌, ◌-◌, Bool, true, false, not, ◌&&◌, ◌||◌, Option, none, some, List, [], ◌∷◌,
  ◌++◌, ◌==◌, ltb, if◌then◌else◌, length, take, drop, is_empty,
}
use indigo.Prelude.Int.{ℤ, negsuc, eqb_ℤ}
use indigo.Message.{LogStamp, LogMessage, ParseFlags}

-- The LRO_* options and the numbers of LogReaderOptions.
pub record LogReaderOptions : Type 0 where
  pub noparse : Bool
  pub check_hostname : Bool
  pub kernel : Bool
  pub padding : ℕ
  pub prefix : Option (List ℕ)
  pub msg_size : ℕ
  pub fetch_limit : ℕ
  pub zone_offset : ℤ
  pub keep_timestamp : Bool

-- LogReader: `buffer` holds the first `ofs` bytes of the C buffer, so `ofs` is its length; the
-- LR_* flags follow.
pub record LogReader (A : Type 0) : Type 0 where
  pub buffer : List ℕ
  pub prev_addr : Option A
  pub complete_line : Bool
  pub pktterm : Bool
  pub nomread : Bool
  pub follow : Bool
  pub strict : Bool
  pub internal : Bool
  pub local : Bool

-- memchr: the index of the first `c`
unfoldable pub memchr : ℕ → List ℕ → Option ℕ
memchr c [] = none
memchr c (x ∷ xs) =
    if x == c then some 0 else elim (memchr c xs) [ none ↦ none | some i ↦ some (suc i) ]

-- the two searches for `eol`: a NUL anywhere wins over a newline
unfoldable pub find_eol : List ℕ → Option ℕ
unfolding memchr
find_eol xs = elim (memchr 0 xs) [ none ↦ memchr 10 xs | some i ↦ some i ]

-- `eol != NULL`
abbrev pub has_line : Option ℕ → Bool
has_line none = false
has_line (some i) = true

abbrev pub is_eol : ℕ → Bool
is_eol c = c == 13 || (c == 10 || c == 0)

-- the loop that moves `end` back over trailing CR, LF and NUL
unfoldable pub trim_end : List ℕ → List ℕ
trim_end [] = []
trim_end (x ∷ xs) = let rest = trim_end xs in if is_empty rest && is_eol x then [] else x ∷ rest

-- an address, or the one that was kept where none is given
pub or_kept : {A : Type 0} → Option A → Option A → Option A
or_kept none kept = kept
or_kept (some a) kept = some a

-- the parse flags of log_reader_iterate_buf; LRO_KERNEL assigns where the others add
unfoldable pub parse_flags_of : {A : Type 0} → LogReaderOptions → LogReader A → ParseFlags
parse_flags_of o s = record {
  noparse = o.noparse && not o.kernel;
  internal = s.internal;
  local = s.local;
  check_hostname = o.check_hostname && not o.kernel;
  strict = s.strict;
  kernel = o.kernel;
}

-- What the reader calls in other components: log_msg_new, log_pipe_queue on itself (a LogSource),
-- and log_source_free_to_send. `A` is the type of socket addresses, `W` the state behind the pipe.
pub record Pipe (A W : Type 0) : Type 0 where
  pub log_msg_new : List ℕ → Option A → ParseFlags → LogMessage
  pub queue : W → LogMessage → Option A → W
  pub free_to_send : W → Bool

-- options->prefix is prepended
abbrev add_prefix : Option (List ℕ) → LogMessage → LogMessage
add_prefix none m = m
add_prefix (some p) m = record m { msg = p ++ m.msg }

-- a stamp with no offset gets that of the options
abbrev set_zone : ℤ → LogMessage → LogMessage
set_zone zone m =
    if eqb_ℤ m.stamp.zone_offset (negsuc 0)
    then record m { stamp = record m.stamp { zone_offset = zone } }
    else m

module _ {A W : Type 0} (pipe : Pipe A W) (o : LogReaderOptions) where
  open pipe use {log_msg_new, queue, free_to_send}

  -- the changes that log_reader_handle_line makes to a new message
  pub finish : LogMessage → LogMessage
  finish m =
      let m' = set_zone o.zone_offset (add_prefix o.prefix m) in
      if o.keep_timestamp then m' else record m' { stamp = m'.recvd }

  -- log_reader_handle_line
  pub log_reader_handle_line : ParseFlags → Option A → W → List ℕ → W × Bool
  unfolding finish
  log_reader_handle_line pf saddr w line =
      let w' = queue w (finish (log_msg_new line saddr pf)) saddr in (w', free_to_send w')

  -- a line of length zero makes no message
  pub handle_nonempty : ParseFlags → Option A → W → Bool → List ℕ → W × Bool
  unfolding log_reader_handle_line
  handle_nonempty pf saddr w may_read line =
      if is_empty line then (w, may_read) else log_reader_handle_line pf saddr w line

  -- what the loop over the lines leaves: the rest of the buffer, the counter, the state
  pub record Cut : Type 0 where
    pub rest : List ℕ
    pub msg_count : ℕ
    pub world : W

  -- `fetch_limit == 0 || *msg_count < fetch_limit`
  abbrev pub within_limit : ℕ → Bool
  within_limit msg_count = o.fetch_limit == 0 || ltb msg_count o.fetch_limit

  -- The while loop of log_reader_iterate_buf. Each round takes at least the terminator off the
  -- buffer, so the length of the buffer is enough fuel.
  pub cut_lines : ParseFlags → Option A → ℕ → List ℕ → ℕ → Bool → W → Cut
  unfolding find_eol trim_end handle_nonempty
  cut_lines pf saddr zero rest msg_count may_read w = record {
    rest = rest;
    msg_count = msg_count;
    world = w;
  }
  cut_lines pf saddr (suc fuel) rest msg_count may_read w = elim (find_eol rest) [
    | none ↦ record { rest = rest; msg_count = msg_count; world = w }
    | some i ↦ elim (within_limit msg_count && may_read) [
      | true ↦
          let (w', may_read') = handle_nonempty pf saddr w may_read (trim_end (take i rest)) in
          cut_lines pf saddr fuel (drop (suc i) rest) (msg_count + 1) may_read' w'
      | false ↦ record { rest = rest; msg_count = msg_count; world = w }
    ]
  ]

  -- what log_reader_iterate_buf leaves
  pub record Iterated : Type 0 where
    pub reader : LogReader A
    pub msg_count : ℕ
    pub world : W

  -- the test for handing over the whole buffer
  pub takes_all : LogReader A → Bool → Bool
  unfolding find_eol
  takes_all s flush =
      s.pktterm
      || ((not (has_line (find_eol s.buffer)) && length s.buffer == o.msg_size)
          || (not (o.padding == 0) || flush))

  -- the branch that hands over the buffer, or in padded mode the part before `eol`
  pub iterate_all : LogReader A → Option A → ℕ → W → Iterated
  unfolding find_eol handle_nonempty parse_flags_of
  iterate_all s saddr msg_count w =
      let whole = s.buffer in
      let line : List ℕ =
        if o.padding == 0
        then whole
        else elim (find_eol whole) [ none ↦ whole | some i ↦ take i whole ] in
      record {
        reader = record s { buffer = []; complete_line = false };
        msg_count = msg_count + 1;
        world = (handle_nonempty (parse_flags_of o s) saddr w true line).0;
      }

  -- the branch that cuts lines; an address that was kept is used when none is given
  pub iterate_lines : LogReader A → Option A → ℕ → W → Iterated
  unfolding cut_lines parse_flags_of or_kept
  iterate_lines s saddr msg_count w =
      let sa = or_kept saddr s.prev_addr in
      let c = cut_lines (parse_flags_of o s) sa (length s.buffer) s.buffer msg_count true w in
      record {
        reader = record s {
          buffer = c.rest;
          complete_line = has_line (find_eol c.rest);
          prev_addr = if is_empty c.rest then none else sa;
        };
        msg_count = c.msg_count;
        world = c.world;
      }

  -- log_reader_iterate_buf
  pub log_reader_iterate_buf : LogReader A → Option A → Bool → ℕ → W → Iterated
  unfolding takes_all iterate_all iterate_lines
  log_reader_iterate_buf s saddr flush msg_count w =
      if takes_all s flush
      then iterate_all s saddr msg_count w
      else iterate_lines s saddr msg_count w
