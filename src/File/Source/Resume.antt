-- ===== src/File/Source/Resume.antt =====
-- Where a file source reads on after a reload or a restart.
use indigo.Prelude.{
  ℕ, ◌≡◌, refl, ap, true, false, Option, some, List, [], arith, Bool-cases, inl, inr, min,
  if◌then◌else◌,
}
use indigo.Prelude.Int.{pos, negsuc, ltb_ℤ, leb_ℤ}
use indigo.Persist.{Value, string, PersistentConfig, lookup, persist_config_fetch}
use indigo.Reader.Options.{GlobalConfig, RawOptions, log_reader_options_init, is_buffer_too_small}
use indigo.File.{Os}
use indigo.File.Source.{
  seek_set, seek_cur, seek_end, Files, FileReader, AfFileSourceDriver, strtoll, log_reader_set_pos,
  log_reader_new, log_reader_init, affile_sd_format_persist_name,
}
use indigo.File.Source.Driver.{
  Done, affile_sd_open_file, restore_pos, init_reader, start_reader, affile_sd_init,
}

persist_config_fetch-found :
    {V : Type 0} (keys : PersistentConfig V) (name : List ℕ) (value : Value V)
    → lookup name keys ≡ some value
    → (persist_config_fetch (some keys) name).0 ≡ some value
unfolding persist_config_fetch
persist_config_fetch-found keys name value found = rw (found, persist_config_fetch) refl

nearest : (size k : ℕ) → (if ltb_ℤ (pos size) (pos k) then pos size else pos k) ≡ pos (min k size)
nearest size k = elim (Bool-cases (ltb_ℤ (pos size) (pos k))) [
  | inl short ↦ rw short (ap pos (ground arith))
  | inr long ↦ rw long (ap pos (ground arith))
]

not_negative : (k : ℕ) → leb_ℤ (pos 0) (pos k) ≡ true
not_negative k = ground arith

module _ {W : Type 0} (files : Files W) where
  -- the offset of an open descriptor
  abbrev pub IsAt : W → ℕ → ℕ → Type 0
  IsAt w fd offset = (files.lseek w fd (pos 0) seek_cur).0 ≡ pos offset

  abbrev pub at_end : W → ℕ → W
  at_end w fd = (files.lseek w fd (pos 0) seek_end).1

  -- An open regular file: its end can be sought, from there any offset, and an offset below zero is
  -- refused.
  pub record IsRegular (w : W) (fd size : ℕ) : Type 0 where
    pub end_size : (files.lseek w fd (pos 0) seek_end).0 ≡ pos size
    pub end_at : IsAt (at_end w fd) fd size
    pub set_result : (k : ℕ) → (files.lseek (at_end w fd) fd (pos k) seek_set).0 ≡ pos k
    pub set_at : (k : ℕ) → IsAt (files.lseek (at_end w fd) fd (pos k) seek_set).1 fd k
    pub set_refused :
        (k : ℕ) → files.lseek (at_end w fd) fd (negsuc k) seek_set ≡ (negsuc 0, at_end w fd)

  module _ {A : Type 0} (r : FileReader A) (w : W) (fd size : ℕ) (regular : IsRegular w fd size)
      (opened : r.fd ≡ some fd) where
    -- the position is set, or the end where the file is shorter
    pub log_reader_set_pos-IsAt :
        (k : ℕ)
        → IsAt (log_reader_set_pos files r (pos k) w).1 fd (min k size)
          × ((log_reader_set_pos files r (pos k) w).0
              ≡ record r { reader = record r.reader { buffer = [] } })
    unfolding log_reader_set_pos
    log_reader_set_pos-IsAt k =
        rw
          (
            opened,
            regular.end_size,
            nearest size k,
            regular.set_result (min k size),
            not_negative (min k size),
          )
          (regular.set_at (min k size), refl)

    -- a position of -1 leaves the reader at the end
    pub log_reader_set_pos-failed :
        IsAt (log_reader_set_pos files r (negsuc 0) w).1 fd size
        × ((log_reader_set_pos files r (negsuc 0) w).0 ≡ r)
    unfolding log_reader_set_pos
    log_reader_set_pos-failed =
        rw (opened, regular.end_size, above, regular.set_refused 0) (regular.end_at, refl)
      where
        above : ltb_ℤ (pos size) (negsuc 0) ≡ false
        above = ground arith

pub log_reader_init-enough :
    {A : Type 0} (o : RawOptions) (r : FileReader A)
    → is_buffer_too_small o ≡ false
    → log_reader_init o r ≡ some (record r { attached = true })
unfolding log_reader_init
log_reader_init-enough o r enough = rw (enough, log_reader_init) refl

module _ {A : Type 0} (os : Os) (files : Files os.World) where
  -- a new reader
  abbrev pub fresh : (fd : ℕ) → RawOptions → FileReader A
  fresh fd o = log_reader_new (some fd) 10 o

  -- a new reader that has been started: with nothing in its buffer and its event source attached
  abbrev pub started : (fd : ℕ) → RawOptions → FileReader A
  started fd o = record (fresh fd o) { attached = true }

  -- a source with a new reader at an offset of the file that it has opened
  abbrev pub IsReadingFrom : {V : Type 0} → Done A V os.World → (fd offset : ℕ) → Type 0
  IsReadingFrom done fd offset =
      (done.ok ≡ true)
      × (done.driver.reader ≡ some (started fd done.driver.reader_options))
      × IsAt files done.world fd offset

  init_reader-IsReadingFrom :
      {V : Type 0} (s : AfFileSourceDriver A) (fd offset : ℕ)
      (persist : Option (PersistentConfig V)) (w : os.World)
      → is_buffer_too_small s.reader_options ≡ false
      → IsAt files w fd offset
      → IsReadingFrom
          (init_reader os files s (some fd) (fresh fd s.reader_options) persist w)
          fd
          offset
  unfolding init_reader
  init_reader-IsReadingFrom s fd offset persist w enough at =
      let r = fresh fd s.reader_options in
      rw (log_reader_init-enough s.reader_options r enough, init_reader) (refl, refl, at)

  module _ {V : Type 0} (cfg : GlobalConfig) (s : AfFileSourceDriver A) (keys : PersistentConfig V)
      (w w' : os.World) (fd size : ℕ) (opened : affile_sd_open_file os s w ≡ (some fd, w'))
      (regular : IsRegular files w' fd size)
      (enough : is_buffer_too_small (log_reader_options_init s.reader_options cfg) ≡ false) where
    -- init with a text that is remembered
    pub affile_sd_init-string :
        (str : List ℕ) (offset : ℕ)
        → lookup (affile_sd_format_persist_name s.filename) keys ≡ some (string str)
        → let o = log_reader_options_init s.reader_options cfg in
          let set = log_reader_set_pos files (fresh fd o) (strtoll str) w' in
          IsAt files set.1 fd offset
          → set.0 ≡ fresh fd o
          → IsReadingFrom (affile_sd_init os files cfg s (some keys) w) fd offset
    unfolding affile_sd_init start_reader restore_pos affile_sd_open_file
    affile_sd_init-string str offset found at same_reader =
        let s' : AfFileSourceDriver A = record s {
          reader_options = log_reader_options_init s.reader_options cfg;
        } in
        let name = affile_sd_format_persist_name s.filename in
        rw (opened, persist_config_fetch-found keys name (string str) found, same_reader)
          (init_reader-IsReadingFrom s' fd offset (persist_config_fetch (some keys) name).1
            (log_reader_set_pos files (fresh fd s'.reader_options) (strtoll str) w').1 enough at)
