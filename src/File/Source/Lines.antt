-- ===== src/File/Source/Lines.antt =====
-- The lines of a file that is read before and after a restart.
mod Tests
use indigo.Prelude.{
  ℕ, ◌+◌, ◌-◌, ◌≤◌, ◌<◌, ◌≡◌, refl, sym, ap, ◌∙◌, subst, true, false, none, some, List, [], ◌∷◌,
  ◌++◌, length, length-append, drop, min, arith,
}
use mathlib.Core.List.{flatten}
use indigo.Persist.{PersistentConfig, Stdio, lookup, persist_config_save, persist_config_load}
use indigo.Persist.Restart.{IsPlain, IsStorable, stored}
use indigo.Reader.{LogReader, LogReaderOptions, Pipe, parse_flags_of}
use indigo.Reader.Options.{
  GlobalConfig, RawOptions, log_reader_options_init, is_buffer_too_small, options_of,
}
use indigo.Reader.Stream.{Fits, machine, receive_all}
use indigo.Reader.Stream.Restart.{receive_all-length, receive_all-restarted, IsStream-new}
use indigo.File.{Os}
use indigo.File.Source.{
  Files, FileReader, AfFileSourceDriver, log_reader_new, affile_sd_format_persist_name,
}
use indigo.File.Source.Driver.{affile_sd_open_file, affile_sd_init, affile_sd_deinit}
use indigo.File.Source.Resume.{IsAt, IsRegular, IsReadingFrom, started}
use indigo.File.Source.Restart.{affile_sd_init-affile_sd_deinit}

module _ {A M : Type 0} (pipe : Pipe A M) (os : Os) (files : Files os.World) where
  -- what a new reader with the options of a source makes of reads from a file, which have no address
  abbrev pub read_all : RawOptions → ℕ → M → List (List ℕ) → LogReader A × M
  read_all o fd m chunks =
      receive_all pipe (options_of o) none ((started os files fd o).reader, m) chunks

  -- the machine that takes the bytes one at a time, with an empty line
  abbrev pub lines_of : RawOptions → M → List ℕ → List ℕ × M
  lines_of o m bs =
      machine pipe (options_of o) none
        (parse_flags_of {A = A} (options_of o) (started os files 0 o).reader) ([], m) bs

  -- the reads fit into the buffer and hold no NUL
  abbrev pub IsReadable : RawOptions → M → List (List ℕ) → Type 0
  IsReadable o m chunks =
      Fits pipe (options_of o) none
        (parse_flags_of {A = A} (options_of o) (started os files 0 o).reader) ([], m) chunks

  read_all-restarted :
      ((m : M) → pipe.free_to_send m ≡ true)
      → (o o' : RawOptions) (fd fd' : ℕ) (m : M) (chunks chunks' : List (List ℕ)) (more : List ℕ)
      → (options_of o).padding ≡ 0
      → options_of o' ≡ options_of o
      → let c = read_all o fd m chunks in
        IsReadable o m chunks
        → flatten chunks'
          ≡ drop (length (flatten chunks) - length c.0.buffer) (flatten chunks ++ more)
        → IsReadable o c.1 chunks'
        → let d = read_all o' fd' c.1 chunks' in
          ◌≡◌ {A = List ℕ × M} (d.0.buffer, d.1) (lines_of o m (flatten chunks ++ more))
  unfolding log_reader_new parse_flags_of
  read_all-restarted open_pipe o o' fd fd' m chunks chunks' more unpadded same fits reads fits' =
      let s = (started os files fd o).reader in
      let s' = (started os files fd' o').reader in
      let c = read_all o fd m chunks in
      ap (λ options. (let d = receive_all pipe options none (s', c.1) chunks' in (d.0.buffer, d.1)))
        same
      ∙ receive_all-restarted pipe (options_of o) none open_pipe s s' m chunks chunks' more
          (IsStream-new pipe (options_of o) s refl unpadded refl refl)
          (IsStream-new pipe (options_of o) s' refl unpadded refl refl) refl refl refl fits reads
          fits'

  -- how far the reader of a source has handed on what it has read
  abbrev pub handed_on : RawOptions → ℕ → M → List (List ℕ) → ℕ
  handed_on o fd m chunks = length (flatten chunks) - length (read_all o fd m chunks).0.buffer

  -- A source has read a file from its start in some reads when syslog-ng stops, which saves what
  -- drivers keep to a new file, on a disk that is not full. syslog-ng starts again and loads it,
  -- with fuel for its entries, and the source of the same file, with the same options, opens the
  -- file, which holds what was read of it before and perhaps more. The reads fit the buffer, hold
  -- no NUL and complete no more lines than the fetch limit, if there is one; there is no padding,
  -- the pipe never closes, an off_t can count what has been read, no other driver has kept anything
  -- under the name, and the texts that are saved have no NUL and 4096 bytes at most, as their
  -- names, of which none comes twice. Then the source starts behind the lines that it has handed on
  -- before, and if it reads the file from there to its end, the two readers together have handed on
  -- the lines of the file, each once and in order, and its open line is kept, as by a machine that
  -- takes the bytes of the file one at a time.
  pub read_all-affile_sd_init :
      {V : Type 0} (S : Stdio) (P : IsPlain S) (cfg : GlobalConfig) (s s' : AfFileSourceDriver A)
      (o' : RawOptions) (m : M) (chunks chunks' : List (List ℕ)) (more : List ℕ)
      (keys kept : PersistentConfig V) (w w1 w1' : os.World) (fd fd' fuel : ℕ) (new saved : S.File)
      → ((m : M) → pipe.free_to_send m ≡ true)
      → o' ≡ log_reader_options_init s'.reader_options cfg
      → options_of o' ≡ options_of s.reader_options
      → (options_of s.reader_options).padding ≡ 0
      → is_buffer_too_small o' ≡ false
      → IsReadable s.reader_options m chunks
      → s.reader
        ≡ some (record (started os files fd s.reader_options) {
          reader = (read_all s.reader_options fd m chunks).0;
        })
      → IsAt files w fd (length (flatten chunks))
      → length (flatten chunks) ≤ 9223372036854775807
      → lookup (affile_sd_format_persist_name s.filename) keys ≡ none
      → (affile_sd_deinit os files s (some keys) w).persist ≡ some kept
      → P.written new ≡ []
      → P.unread saved ≡ P.written (persist_config_save S kept new)
      → length (stored kept) < fuel
      → IsStorable {V = V} [] (stored kept)
      → s'.filename ≡ s.filename
      → affile_sd_open_file os s' w1 ≡ (some fd', w1')
      → IsRegular files w1' fd' (length (flatten chunks ++ more))
      → flatten chunks' ≡ drop (handed_on s.reader_options fd m chunks) (flatten chunks ++ more)
      → IsReadable s.reader_options (read_all s.reader_options fd m chunks).1 chunks'
      → (loaded : PersistentConfig V) × (persist_config_load S {V = V} fuel [] (some saved)
          ≡ some loaded)
        × IsReadingFrom os files
            (affile_sd_init os files cfg s' (some loaded) w1)
            fd'
            (handed_on s.reader_options fd m chunks)
        × (let d = read_all o' fd' (read_all s.reader_options fd m chunks).1 chunks' in
            ◌≡◌ {A = List ℕ × M}
              (d.0.buffer, d.1)
              (lines_of s.reader_options m (flatten chunks ++ more)))
  unfolding log_reader_new parse_flags_of
  read_all-affile_sd_init S P cfg s s' o' m chunks chunks' more keys kept w w1 w1' fd fd' fuel new
        saved open_pipe options' same_options unpadded enough fits reading at small fresh_name keeps
        empty reopened enough_fuel storable same_name opened regular reads fits' =
      let o = s.reader_options in
      let r : FileReader A = started os files fd o in
      let c = read_all o fd m chunks in
      let read = flatten chunks in
      let size = length (read ++ more) in
      let buffered : length c.0.buffer ≤ length read =
        receive_all-length pipe (options_of o) none open_pipe r.reader m chunks
          (IsStream-new pipe (options_of o) r.reader refl unpadded refl refl) refl fits in
      let whole : min (length read - length c.0.buffer) size ≡ handed_on o fd m chunks =
        omega (arith, length-append read more) in
      let (loaded, load, resumed) =
        affile_sd_init-affile_sd_deinit os files S P cfg s s' (record r { reader = c.0 }) keys kept
          w w1 w1' fd (length read) fd' size fuel new saved reading refl at buffered small
          fresh_name keeps empty reopened enough_fuel storable same_name opened regular
          (ap is_buffer_too_small (sym options') ∙ enough) in
      (
        loaded,
        load,
        subst (IsReadingFrom os files (affile_sd_init os files cfg s' (some loaded) w1) fd') whole
            resumed,
        read_all-restarted open_pipe o o' fd fd' m chunks chunks' more unpadded same_options fits
            reads fits',
      )
