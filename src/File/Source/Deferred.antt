-- ===== src/File/Source/Deferred.antt =====
-- A file source that waits for its file, over a reload.
use indigo.Prelude.{ℕ, ◌≡◌, refl, ap, ◌∙◌, true, false, Option, none, some, List}
use indigo.Prelude.Int.{pos, negsuc, ltb_ℤ}
use indigo.Persist.{
  string, PersistentConfig, lookup, persist_config_add_survivor, persist_config_fetch,
}
use indigo.Reader.Options.{GlobalConfig, RawOptions, log_reader_options_init, is_buffer_too_small}
use indigo.File.{Os}
use indigo.File.Source.{
  Files, FileReader, AfFileSourceDriver, log_reader_get_pos, log_reader_new,
  affile_sd_format_persist_name, format_pos,
}
use indigo.File.Source.Driver.{
  affile_sd_open_file, affile_sd_init, affile_sd_deinit, start_reader, init_reader, restore_pos,
}
use indigo.File.Source.Decimal.{strtoll-failed}
use indigo.File.Source.Kept.{lookup-persist_config_add_survivor}
use indigo.File.Source.Restart.{affile_sd_deinit-persist}
use indigo.File.Source.Resume.{
  IsRegular, IsReadingFrom, log_reader_init-enough, log_reader_set_pos-failed, fresh,
  affile_sd_init-string,
}

log_reader_new-fd :
    (A : Type 0) (fd : Option ℕ) (timeout : ℕ) (o : RawOptions)
    → (log_reader_new {A = A} fd timeout o).fd ≡ fd
unfolding log_reader_new
log_reader_new-fd A fd timeout o = refl

module _ {A : Type 0} where
  log_reader_get_pos-closed :
      {W : Type 0} (files : Files W) (r : FileReader A) (w : W)
      → r.fd ≡ none
      → (log_reader_get_pos files r w).0 ≡ negsuc 0
  unfolding log_reader_get_pos
  log_reader_get_pos-closed files r w closed = rw closed refl

  module _ {V : Type 0} (os : Os) (files : Files os.World) (cfg : GlobalConfig)
      (s : AfFileSourceDriver A) (keys : PersistentConfig V) (w w' : os.World) (fd size : ℕ)
      (opened : affile_sd_open_file os s w ≡ (some fd, w')) (regular : IsRegular files w' fd size)
      (enough : is_buffer_too_small (log_reader_options_init s.reader_options cfg) ≡ false) where
    -- init with a failure that is remembered
    affile_sd_init-failed :
        lookup (affile_sd_format_persist_name s.filename) keys
          ≡ some (string (format_pos (negsuc 0)))
        → IsReadingFrom os files (affile_sd_init os files cfg s (some keys) w) fd size
    unfolding log_reader_new
    affile_sd_init-failed found =
        let r = fresh os files fd (log_reader_options_init s.reader_options cfg) in
        let (at, same_reader) = log_reader_set_pos-failed files r w' fd size regular refl in
        affile_sd_init-string os files cfg s keys w w' fd size opened regular enough
          (format_pos (negsuc 0)) size found (rw strtoll-failed at) (rw strtoll-failed same_reader)

  -- a driver whose reader waits for its file
  abbrev IsDeferred : List ℕ → AfFileSourceDriver A → Type 0
  IsDeferred filename s =
      (s.filename ≡ filename) × (r : FileReader A) × (s.reader ≡ some r) × (r.fd ≡ none)

  init_reader-IsDeferred :
      {V : Type 0} (os : Os) (files : Files os.World) (s : AfFileSourceDriver A) (r : FileReader A)
      (persist : Option (PersistentConfig V)) (w : os.World)
      → r.fd ≡ none
      → is_buffer_too_small s.reader_options ≡ false
      → ((init_reader os files s none r persist w).ok ≡ true)
        × IsDeferred s.filename (init_reader os files s none r persist w).driver
  unfolding init_reader
  init_reader-IsDeferred os files s r persist w closed enough =
      let r' : FileReader A = record r { attached = true } in
      rw (log_reader_init-enough s.reader_options r enough, init_reader)
        (refl, (refl, r', refl, closed))

  affile_sd_init-IsDeferred :
      {V : Type 0} (os : Os) (files : Files os.World) (cfg : GlobalConfig)
      (s : AfFileSourceDriver A) (persist : Option (PersistentConfig V)) (w w' : os.World)
      → affile_sd_open_file os s w ≡ (none, w')
      → ltb_ℤ (pos 0) (log_reader_options_init s.reader_options cfg).follow_freq ≡ true
      → is_buffer_too_small (log_reader_options_init s.reader_options cfg) ≡ false
      → ((affile_sd_init os files cfg s persist w).ok ≡ true)
        × IsDeferred s.filename (affile_sd_init os files cfg s persist w).driver
  unfolding affile_sd_init affile_sd_open_file start_reader restore_pos
  affile_sd_init-IsDeferred os files cfg s persist w w' missing follows enough =
      let s' : AfFileSourceDriver A = record s {
        reader_options = log_reader_options_init s.reader_options cfg;
      } in
      let name = affile_sd_format_persist_name s.filename in
      rw (missing, follows)
        (init_reader-IsDeferred os files s' (log_reader_new none 10 s'.reader_options)
          (persist_config_fetch persist name).1 w' (log_reader_new-fd A none 10 s'.reader_options)
          enough)

  -- A file source that follows a file that is not there waits for it. If it is stopped before it has
  -- found the file, and nothing else is kept under its name, the next init from what it has kept,
  -- with the file there now, starts at the end of the file, and skips what it holds. The buffers
  -- are large enough for the padding.
  pub affile_sd_init_deferred :
      {V : Type 0} (os : Os) (files : Files os.World) (cfg cfg' : GlobalConfig)
      (s s' : AfFileSourceDriver A) (persist : Option (PersistentConfig V))
      (keys : PersistentConfig V) (w0 w0' w1 w2 w2' : os.World) (fd size : ℕ)
      → affile_sd_open_file os s w0 ≡ (none, w0')
      → ltb_ℤ (pos 0) (log_reader_options_init s.reader_options cfg).follow_freq ≡ true
      → is_buffer_too_small (log_reader_options_init s.reader_options cfg) ≡ false
      → lookup (affile_sd_format_persist_name s.filename) keys ≡ none
      → s'.filename ≡ s.filename
      → affile_sd_open_file os s' w2 ≡ (some fd, w2')
      → IsRegular files w2' fd size
      → is_buffer_too_small (log_reader_options_init s'.reader_options cfg') ≡ false
      → let started = affile_sd_init os files cfg s persist w0 in
        (started.ok ≡ true)
        × (kept : PersistentConfig V) × ((affile_sd_deinit os files started.driver
              (some keys)
              w1).persist
            ≡ some kept)
        × IsReadingFrom os files (affile_sd_init os files cfg' s' (some kept) w2) fd size
  affile_sd_init_deferred os files cfg cfg' s s' persist keys w0 w0' w1 w2 w2' fd size missing
        follows enough fresh_name same_name opened regular enough' =
      let (ok, (named, r, reading, closed)) =
        affile_sd_init-IsDeferred os files cfg s persist w0 w0' missing follows enough in
      let name = affile_sd_format_persist_name s.filename in
      let text = format_pos (negsuc 0) in
      let kept : (affile_sd_deinit os files (affile_sd_init os files cfg s persist w0).driver
            (some keys) w1).persist
          ≡ some (persist_config_add_survivor keys name text) =
        affile_sd_deinit-persist os files (affile_sd_init os files cfg s persist w0).driver r keys
          w1 reading
        ∙ ap
            (λ c. some (
              persist_config_add_survivor keys (affile_sd_format_persist_name c)
                (format_pos (log_reader_get_pos files r w1).0)))
            named
        ∙ ap (λ c. some (persist_config_add_survivor keys name (format_pos c)))
            (log_reader_get_pos-closed files r w1 closed) in
      (
        ok,
        persist_config_add_survivor keys name text,
        kept,
        affile_sd_init-failed os files cfg' s' (persist_config_add_survivor keys name text) w2 w2'
            fd size opened regular enough'
            (ap
                (λ f.
                  lookup (affile_sd_format_persist_name f)
                    (persist_config_add_survivor keys name text))
                same_name
              ∙ lookup-persist_config_add_survivor keys name text fresh_name),
      )
