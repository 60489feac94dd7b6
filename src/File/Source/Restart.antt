-- ===== src/File/Source/Restart.antt =====
-- A file source over a restart: where it reads on.
use indigo.Prelude.{
  ℕ, ◌-◌, ◌≤◌, ◌<◌, ◌≡◌, refl, sym, ap, ◌∙◌, true, false, none, some, [], arith, length, min,
}
use indigo.Prelude.Int.{pos, leb_ℤ, ◌-ℤ◌}
use indigo.Persist.{
  string, PersistentConfig, Stdio, lookup, persist_config_add_survivor, persist_config_save,
  persist_config_load,
}
use indigo.Persist.Restart.{
  IsPlain, IsStorable, stored, entries, persist_config_load-persist_config_save,
}
use indigo.Reader.Options.{GlobalConfig, log_reader_options_init, is_buffer_too_small}
use indigo.File.{Os}
use indigo.File.Source.{
  Files, FileReader, AfFileSourceDriver, log_reader_get_pos, log_reader_new,
  affile_sd_format_persist_name, format_pos,
}
use indigo.File.Source.Driver.{affile_sd_open_file, affile_sd_init, affile_sd_deinit, keep_pos}
use indigo.File.Source.Decimal.{strtoll-format_pos}
use indigo.File.Source.Kept.{lookup-restart}
use indigo.File.Source.Resume.{
  IsAt, IsRegular, IsReadingFrom, log_reader_set_pos-IsAt, fresh, affile_sd_init-string,
}

module _ {A : Type 0} where
  log_reader_get_pos_lem :
      {W : Type 0} (files : Files W) (r : FileReader A) (w : W) (fd p : ℕ)
      → r.fd ≡ some fd
      → IsAt files w fd p
      → length r.reader.buffer ≤ p
      → (log_reader_get_pos files r w).0 ≡ pos (p - length r.reader.buffer)
  unfolding log_reader_get_pos ◌-ℤ◌
  log_reader_get_pos_lem files r w fd p opened at buffered =
      rw (opened, at, not_negative) (less (length r.reader.buffer) buffered)
    where
      not_negative : leb_ℤ (pos 0) (pos p) ≡ true
      not_negative = ground arith

      less : (b : ℕ) → b ≤ p → pos p -ℤ pos b ≡ pos (p - b)
      less b h = ground arith

  -- deinit adds the position to what is kept
  pub affile_sd_deinit-persist :
      {V : Type 0} (os : Os) (files : Files os.World) (s : AfFileSourceDriver A) (r : FileReader A)
      (keys : PersistentConfig V) (w : os.World)
      → s.reader ≡ some r
      → (affile_sd_deinit os files s (some keys) w).persist
        ≡ some (
            persist_config_add_survivor keys
              (affile_sd_format_persist_name s.filename)
              (format_pos (log_reader_get_pos files r w).0))
  unfolding affile_sd_deinit keep_pos
  affile_sd_deinit-persist os files s r keys w reading = rw reading refl

  module _ {V : Type 0} (os : Os) (files : Files os.World) (cfg : GlobalConfig)
      (s : AfFileSourceDriver A) (keys : PersistentConfig V) (w w' : os.World) (fd size : ℕ)
      (opened : affile_sd_open_file os s w ≡ (some fd, w')) (regular : IsRegular files w' fd size)
      (enough : is_buffer_too_small (log_reader_options_init s.reader_options cfg) ≡ false) where
    -- init with an offset that is remembered
    affile_sd_init-pos :
        (k : ℕ)
        → k ≤ 9223372036854775807
        → lookup (affile_sd_format_persist_name s.filename) keys
          ≡ some (string (format_pos (pos k)))
        → IsReadingFrom os files (affile_sd_init os files cfg s (some keys) w) fd (min k size)
    unfolding log_reader_new
    affile_sd_init-pos k small found =
        let r = fresh os files fd (log_reader_options_init s.reader_options cfg) in
        let (at, same_reader) = log_reader_set_pos-IsAt files r w' fd size regular refl k in
        affile_sd_init-string os files cfg s keys w w' fd size opened regular enough
          (format_pos (pos k)) (min k size) found (rw (strtoll-format_pos k small) at)
          (rw (strtoll-format_pos k small) same_reader)

  -- A file source that has read its file up to an offset and handed on all but the bytes of its
  -- buffer saves a position when syslog-ng stops. If that is an off_t, no other driver has saved
  -- one under the name, and the texts that are saved can be, then the source of the same file reads
  -- on behind the bytes that were handed on when syslog-ng starts again, or at the end of the file
  -- if that is shorter now.
  pub affile_sd_init-affile_sd_deinit :
      {V : Type 0} (os : Os) (files : Files os.World) (S : Stdio) (P : IsPlain S)
      (cfg : GlobalConfig) (s s' : AfFileSourceDriver A) (r : FileReader A)
      (keys kept : PersistentConfig V) (w w1 w1' : os.World) (fd p fd' size fuel : ℕ)
      (new saved : S.File)
      → s.reader ≡ some r
      → r.fd ≡ some fd
      → IsAt files w fd p
      → length r.reader.buffer ≤ p
      → p ≤ 9223372036854775807
      → lookup (affile_sd_format_persist_name s.filename) keys ≡ none
      → (affile_sd_deinit os files s (some keys) w).persist ≡ some kept
      → P.written new ≡ []
      → P.unread saved ≡ P.written (persist_config_save S kept new)
      → length (stored kept) < fuel
      → IsStorable {V = V} [] (stored kept)
      → s'.filename ≡ s.filename
      → affile_sd_open_file os s' w1 ≡ (some fd', w1')
      → IsRegular files w1' fd' size
      → is_buffer_too_small (log_reader_options_init s'.reader_options cfg) ≡ false
      → (loaded : PersistentConfig V) × (persist_config_load S {V = V} fuel [] (some saved)
          ≡ some loaded)
        × IsReadingFrom os files
            (affile_sd_init os files cfg s' (some loaded) w1)
            fd'
            (min (p - length r.reader.buffer) size)
  affile_sd_init-affile_sd_deinit os files S P cfg s s' r keys kept w w1 w1' fd p fd' size fuel new
        saved reading opened at buffered small fresh_name keeps empty reopened enough_fuel storable
        same_name opened' regular enough =
      let name = affile_sd_format_persist_name s.filename in
      let k = p - length r.reader.buffer in
      let added : some kept ≡ some (persist_config_add_survivor keys name (format_pos (pos k))) =
        sym keeps
        ∙ affile_sd_deinit-persist os files s r keys w reading
        ∙ ap (λ c. some (persist_config_add_survivor keys name (format_pos c)))
            (log_reader_get_pos_lem files r w fd p opened at buffered) in
      let this : kept ≡ persist_config_add_survivor keys name (format_pos (pos k)) = cc added in
      (
        entries (stored kept),
        persist_config_load-persist_config_save S P kept new saved fuel empty reopened enough_fuel
            storable,
        affile_sd_init-pos os files cfg s' (entries (stored kept)) w1 w1' fd' size opened' regular
            enough k (omega arith)
            (ap (λ f. lookup (affile_sd_format_persist_name f) (entries (stored kept))) same_name
              ∙ ap (λ table. lookup name (entries (stored table))) this
              ∙ lookup-restart keys name (format_pos (pos k)) fresh_name),
      )
