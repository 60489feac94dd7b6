-- ===== src/File/Source.antt =====
-- src/affile.c, file sources, with the position functions of src/logreader.c: a file is opened, read
-- from where it was left, and its position kept for the next start.
pub mod Decimal
pub mod Driver
pub mod Kept
pub mod Resume
pub mod Restart
pub mod Deferred
pub mod Lines
mod Sample
mod Tests
use indigo.Prelude.{
  ℕ, zero, suc, ◌+◌, ◌-◌, ◌*◌, Bool, true, false, ◌&&◌, ◌||◌, Option, none, some, List, [], ◌∷◌,
  ◌++◌, ◌==◌, leb, if◌then◌else◌, length, take, min,
}
use indigo.Prelude.Bytes.{codes, isdigit}
use indigo.Prelude.Int.{ℤ, pos, negsuc, ◌-ℤ◌, ltb_ℤ, leb_ℤ}
use indigo.Stamp.{decimal_ℤ}
use indigo.Reader.{LogReader}
use indigo.Reader.Options.{RawOptions, log_reader_options_defaults, is_buffer_too_small}
use indigo.File.{minus_one}

pub data Whence : Type 0 where
  seek_set seek_cur seek_end : Whence

-- lseek, which gives an offset or -1, and close
pub record Files (W : Type 0) : Type 0 where
  pub lseek : W → ℕ → (offset : ℤ) → Whence → ℤ × W
  pub close : W → ℕ → W

-- LogReader with its FDRead: descriptor, `none` for -1, timeout, and whether the event source is
-- there
pub record FileReader (A : Type 0) : Type 0 where
  pub fd : Option ℕ
  pub timeout : ℕ
  pub attached : Bool
  pub reader : LogReader A

pub record AfFileSourceDriver (A : Type 0) : Type 0 where
  pub filename : List ℕ
  pub pipe : Bool
  pub optional : Bool
  pub reader_options : RawOptions
  pub reader : Option (FileReader A)

-- isspace
abbrev pub isspace : ℕ → Bool
isspace c = c == 32 || (leb 9 c && leb c 13)

-- the value of the digits in front, behind some that are read
unfoldable pub digits_value : ℕ → List ℕ → ℕ
digits_value n [] = n
digits_value n (c ∷ cs) =
    let rest = digits_value (n * 10 + (c - b'0')) cs in if isdigit c then rest else n

-- minus a number
abbrev negate : ℕ → ℤ
negate zero = pos 0
negate (suc n) = negsuc n

-- strtoll behind the spaces, base 10, which stops at the bounds of a long long
unfoldable pub signed_value : List ℕ → ℤ
unfolding digits_value
signed_value [] = pos 0
signed_value (c ∷ cs) =
    if c == b'-'
    then negate (min (digits_value 0 cs) 9223372036854775808)
    else pos (min (digits_value 0 (if c == b'+' then cs else c ∷ cs)) 9223372036854775807)

-- strtoll
unfoldable pub strtoll : List ℕ → ℤ
unfolding signed_value
strtoll [] = pos 0
strtoll (c ∷ cs) = let rest = strtoll cs in if isspace c then rest else signed_value (c ∷ cs)

module _ {W : Type 0} (files : Files W) where
  open files use {lseek, close}

  -- lseek, which fails on -1
  abbrev pub seek : Option ℕ → (offset : ℤ) → Whence → W → ℤ × W
  seek none offset whence w = (minus_one, w)
  seek (some n) offset whence w = lseek w n offset whence

  -- close, which fails on -1
  abbrev pub close_fd : Option ℕ → W → W
  close_fd none w = w
  close_fd (some n) w = close w n

  module _ {A : Type 0} where
    -- log_reader_set_pos
    unfoldable pub log_reader_set_pos : FileReader A → (ofs : ℤ) → W → FileReader A × W
    log_reader_set_pos s ofs w =
        let (size, w') = seek s.fd (pos 0) seek_end w in
        let ofs' : ℤ = if ltb_ℤ size ofs then size else ofs in
        let (res, w'') = seek s.fd ofs' seek_set w' in
        if leb_ℤ (pos 0) res
        then (record s { reader = record s.reader { buffer = [] } }, w'')
        else (s, w'')

    -- log_reader_get_pos
    unfoldable pub log_reader_get_pos : FileReader A → W → ℤ × W
    log_reader_get_pos s w =
        let (res, w') = seek s.fd (pos 0) seek_cur w in
        if leb_ℤ (pos 0) res then (res -ℤ pos (length s.reader.buffer), w') else (res, w')

    -- log_reader_deinit; the event source closes the descriptor as it goes
    unfoldable pub log_reader_deinit : FileReader A → W → FileReader A × W
    log_reader_deinit s w =
        if s.attached then (record s { attached = false }, close_fd s.fd w) else (s, w)

-- log_reader_new with LR_LOCAL and LR_NOMREAD, on a descriptor with a timeout
unfoldable pub log_reader_new :
    {A : Type 0} → (fd : Option ℕ) → (timeout : ℕ) → RawOptions → FileReader A
log_reader_new fd timeout o = record {
  fd = fd;
  timeout = timeout;
  attached = false;
  reader = record {
    buffer = [];
    prev_addr = none;
    complete_line = false;
    pktterm = false;
    nomread = true;
    follow = ltb_ℤ (pos 0) o.follow_freq;
    strict = false;
    internal = false;
    local = true;
  };
}

-- log_reader_init: `none` is FALSE
unfoldable pub log_reader_init : {A : Type 0} → RawOptions → FileReader A → Option (FileReader A)
unfolding is_buffer_too_small
log_reader_init o s = if is_buffer_too_small o then none else some (record s { attached = true })

-- affile_sd_format_persist_name, cut to 1023 bytes
unfoldable pub affile_sd_format_persist_name : List ℕ → List ℕ
affile_sd_format_persist_name filename =
    take 1023 (codes "affile_sd_curpos(" ++ (filename ++ codes ")"))

-- the conversion of a position to 31 characters at most
unfoldable pub format_pos : ℤ → List ℕ
unfolding decimal_ℤ
format_pos cur_pos = take 31 (decimal_ℤ cur_pos)

-- affile_sd_new, whose reader options are of g_new0 before
unfoldable pub affile_sd_new :
    {A : Type 0} → RawOptions → List ℕ → (pipe : Bool) → AfFileSourceDriver A
unfolding log_reader_options_defaults
affile_sd_new blank filename pipe = record {
  filename = filename;
  pipe = pipe;
  optional = false;
  reader_options = record (log_reader_options_defaults blank) { follow_filename = some filename };
  reader = none;
}
