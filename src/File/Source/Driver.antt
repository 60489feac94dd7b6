-- ===== src/File/Source/Driver.antt =====
-- src/affile.c, file sources: the driver from its start to its end.
use indigo.Prelude.{Bool, true, false, ◌||◌, Option, none, some, List, ℕ, if◌then◌else◌}
use indigo.Prelude.Int.{ℤ, pos, ltb_ℤ}
use indigo.Persist.{
  Value, string, PersistentConfig, persist_config_add_survivor, persist_config_fetch,
}
use indigo.Reader.Options.{GlobalConfig, log_reader_options_init}
use indigo.File.{Os, Permissions, minus_one, OpenFlags, rdwr, rdonly, affile_open_file}
use indigo.File.Source.{
  Files, FileReader, AfFileSourceDriver, strtoll, close_fd, log_reader_set_pos, log_reader_get_pos,
  log_reader_new, log_reader_init, log_reader_deinit, affile_sd_format_persist_name, format_pos,
}

-- what init and deinit leave: the result, the driver, the persistent configuration and the system
pub record Done (A V W : Type 0) : Type 0 where
  pub ok : Bool
  pub driver : AfFileSourceDriver A
  pub persist : Option (PersistentConfig V)
  pub world : W

abbrev none_given : Permissions
none_given = record { uid = minus_one; gid = minus_one; mode = minus_one }

abbrev zeroes : Permissions
zeroes = record { uid = pos 0; gid = pos 0; mode = pos 0 }

abbrev flags_of : (pipe : Bool) → OpenFlags
flags_of true = rdwr
flags_of false = rdonly

abbrev is_some : {A : Type 0} → Option A → Bool
is_some none = false
is_some (some x) = true

-- the position is added to what is kept
unfoldable pub keep_pos :
    {V : Type 0} → List ℕ → ℤ → Option (PersistentConfig V) → Option (PersistentConfig V)
keep_pos filename cur_pos none = none
keep_pos filename cur_pos (some keys) =
    some (
      persist_config_add_survivor keys (affile_sd_format_persist_name filename)
        (format_pos cur_pos))

module _ {A : Type 0} (os : Os) where
  open os use {World}

  -- affile_sd_open_file
  unfoldable pub affile_sd_open_file : AfFileSourceDriver A → World → Option ℕ × World
  affile_sd_open_file s w =
      affile_open_file os none_given zeroes false s.filename (flags_of s.pipe) w

  module _ (files : Files World) where
    -- the position that is remembered, where the file is open; only texts are kept under this name
    unfoldable pub restore_pos :
        {V : Type 0}
        → (file_opened : Bool) → Option (Value V)
        → FileReader A
        → World
        → FileReader A × World
    restore_pos true (some (string str)) r w = log_reader_set_pos files r (strtoll str) w
    restore_pos file_opened str r w = (r, w)

    -- the rest of affile_sd_init once a reader is there
    unfoldable pub init_reader :
        {V : Type 0}
        → AfFileSourceDriver A
        → Option ℕ
        → FileReader A
        → Option (PersistentConfig V)
        → World
        → Done A V World
    init_reader s fd r persist w = elim (log_reader_init s.reader_options r) [
      | some r' ↦ record {
        ok = true;
        driver = record s { reader = some r' };
        persist = persist;
        world = w;
      }
      | none ↦ record {
        ok = false;
        driver = record s { reader = none };
        persist = persist;
        world = close_fd files fd w;
      }
    ]

    -- a reader on the descriptor, at the remembered position
    unfoldable pub start_reader :
        {V : Type 0}
        → AfFileSourceDriver A
        → Option ℕ
        → Option (PersistentConfig V)
        → World
        → Done A V World
    unfolding restore_pos init_reader
    start_reader s fd persist w =
        let (str, persist') =
          persist_config_fetch persist (affile_sd_format_persist_name s.filename) in
        let (r, w') = restore_pos (is_some fd) str (log_reader_new fd 10 s.reader_options) w in
        init_reader s fd r persist' w'

    -- affile_sd_init
    unfoldable pub affile_sd_init :
        {V : Type 0}
        → GlobalConfig
        → AfFileSourceDriver A
        → Option (PersistentConfig V)
        → World
        → Done A V World
    unfolding start_reader affile_sd_open_file
    affile_sd_init cfg s persist w =
        let s' : AfFileSourceDriver A = record s {
          reader_options = log_reader_options_init s.reader_options cfg;
        } in
        let (fd, w') = affile_sd_open_file s' w in
        if is_some fd || ltb_ℤ (pos 0) s'.reader_options.follow_freq
        then start_reader s' fd persist w'
        else record { ok = s.optional; driver = s'; persist = persist; world = w' }

    -- affile_sd_deinit; without a persistent configuration the position is not asked for
    unfoldable pub affile_sd_deinit :
        {V : Type 0} → AfFileSourceDriver A → Option (PersistentConfig V) → World → Done A V World
    unfolding keep_pos
    affile_sd_deinit s persist w = elim s.reader [
      | none ↦ record { ok = true; driver = s; persist = persist; world = w }
      | some r ↦
          let (cur_pos, w') : ℤ × World = elim persist [
            | none ↦ (minus_one, w)
            | some keys ↦ log_reader_get_pos files r w
          ] in
          record {
            ok = true;
            driver = record s { reader = none };
            persist = keep_pos s.filename cur_pos persist;
            world = (log_reader_deinit files r w').1;
          }
    ]

    -- a reader for the file that took the place of the old one
    unfoldable pub moved_reader :
        AfFileSourceDriver A → Option ℕ → World → AfFileSourceDriver A × World
    moved_reader s none w = (record s { reader = none }, w)
    moved_reader s (some fd) w =
        elim (log_reader_init s.reader_options (log_reader_new (some fd) 0 s.reader_options)) [
          | some r ↦ (record s { reader = some r }, w)
          | none ↦ (record s { reader = none }, files.close w fd)
        ]

    -- affile_sd_notify on NC_FILE_MOVED; `none` is a null pointer that is followed
    unfoldable pub affile_sd_notify :
        AfFileSourceDriver A → World → Option (AfFileSourceDriver A × World)
    unfolding moved_reader affile_sd_open_file
    affile_sd_notify s w = elim s.reader [
      | none ↦ none
      | some r ↦
          let (fd, w') = affile_sd_open_file s (log_reader_deinit files r w).1 in
          some (moved_reader s fd w')
    ]
