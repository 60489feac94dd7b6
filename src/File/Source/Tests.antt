-- ===== src/File/Source/Tests.antt =====
-- A file of ten bytes that is followed, there or not there yet.
use indigo.Prelude.{
  ℕ, ◌≡◌, refl, Bool, true, false, Option, none, some, List, [], ◌∷◌, ◌++◌, arith, if◌then◌else◌,
}
use indigo.Prelude.Bytes.{codes}
use indigo.Prelude.Int.{ℤ, pos, negsuc, ltb_ℤ}
use indigo.Persist.{string, PersistentConfig, lookup, persist_config_load, persist_config_save}
use indigo.Persist.Restart.{IsStorable, stored}
use indigo.Persist.Plain.{bytes_io, bytes_io-IsPlain}
use indigo.Reader.Options.{GlobalConfig, RawOptions, log_reader_options_init, is_buffer_too_small}
use indigo.File.{Os, fd, no_entry, missing}
use indigo.File.Source.{
  Whence, seek_set, seek_cur, seek_end, Files, FileReader, AfFileSourceDriver,
  affile_sd_format_persist_name, affile_sd_new, strtoll, log_reader_new,
}
use indigo.File.Source.Sample.{disk, ten, ten-IsRegular, cfg, blank, followed}
use indigo.File.Source.Driver.{
  affile_sd_notify, affile_sd_init, affile_sd_deinit, affile_sd_open_file,
}
use indigo.File.Source.Resume.{IsReadingFrom}
use indigo.File.Source.Restart.{affile_sd_init-affile_sd_deinit}
use indigo.File.Source.Deferred.{affile_sd_init_deferred}

-- after seven bytes, of which two are in the buffer
abbrev at_seven : FileReader ℕ
at_seven = record {
  fd = some 3;
  timeout = 10;
  attached = true;
  reader = record {
    buffer = codes "ab";
    prev_addr = none;
    complete_line = false;
    pktterm = false;
    nomread = true;
    follow = true;
    strict = false;
    internal = false;
    local = true;
  };
}

abbrev reading : AfFileSourceDriver ℕ
reading = record followed { reader = some at_seven }

-- what is kept of it
abbrev kept : PersistentConfig ℕ
kept =
    record {
      name = codes "affile_sd_curpos(/l/a)";
      value = string (codes "5");
      survive_across_restarts = true;
    }
    ∷ []

kept_now : (affile_sd_deinit disk ten reading (some []) (true, 7)).persist ≡ some kept
unfolding affile_sd_deinit indigo.File.Source.Driver.keep_pos
    indigo.Persist.persist_config_add_survivor affile_sd_format_persist_name
    indigo.File.Source.format_pos indigo.File.Source.log_reader_get_pos indigo.Prelude.Int.◌-ℤ◌
kept_now = refl

kept-IsStorable : IsStorable {V = ℕ} [] (stored kept)
unfolding lookup indigo.Parser.span_until
kept-IsStorable = ((omega arith, refl), (omega arith, refl), refl, tt)

nothing_kept : lookup {V = ℕ} (affile_sd_format_persist_name followed.filename) [] ≡ none
unfolding lookup
nothing_kept = refl

opened : affile_sd_open_file disk followed (true, 0) ≡ (some 3, (true, 0))
unfolding affile_sd_open_file indigo.File.affile_open_file indigo.File.is_spurious
opened = refl

not_there : affile_sd_open_file disk followed (false, 0) ≡ (none, (false, 0))
unfolding affile_sd_open_file indigo.File.affile_open_file indigo.File.is_spurious
not_there = refl

enough : is_buffer_too_small (log_reader_options_init blank cfg) ≡ false
unfolding is_buffer_too_small log_reader_options_init
enough = refl

follows : ltb_ℤ (pos 0) (log_reader_options_init blank cfg).follow_freq ≡ true
unfolding log_reader_options_init indigo.Reader.Options.default
follows = refl

affile_sd_init-affile_sd_deinit_example :
    (loaded : PersistentConfig ℕ) × (persist_config_load bytes_io {V = ℕ} 2 []
        (some (persist_config_save bytes_io kept []))
      ≡ some loaded)
    × IsReadingFrom disk ten (affile_sd_init disk ten cfg followed (some loaded) (true, 0)) 3 5
affile_sd_init-affile_sd_deinit_example =
    affile_sd_init-affile_sd_deinit disk ten bytes_io bytes_io-IsPlain cfg reading followed at_seven
      [] kept (true, 7) (true, 0) (true, 0) 3 7 3 10 2 [] (persist_config_save bytes_io kept [])
      refl refl refl (omega arith) (omega arith) nothing_kept kept_now refl refl (omega arith)
      kept-IsStorable refl opened ten-IsRegular enough

affile_sd_init_deferred_example :
    let started = affile_sd_init disk ten {V = ℕ} cfg followed (some []) (false, 0) in
    (started.ok ≡ true)
    × (kept : PersistentConfig ℕ) × ((affile_sd_deinit disk ten started.driver
          (some [])
          (false, 0)).persist
        ≡ some kept)
    × IsReadingFrom disk ten (affile_sd_init disk ten cfg followed (some kept) (true, 0)) 3 10
affile_sd_init_deferred_example =
    affile_sd_init_deferred disk ten cfg cfg followed followed (some []) [] (false, 0) (false, 0)
      (false, 0) (true, 0) (true, 0) 3 10 not_there follows enough nothing_kept refl opened
      ten-IsRegular enough

-- a file that has moved and cannot be opened leaves the source without a reader
moved : affile_sd_notify disk ten reading (false, 10) ≡ some (followed, (false, 10))
unfolding affile_sd_notify affile_sd_open_file indigo.File.affile_open_file indigo.File.is_spurious
    indigo.File.Source.log_reader_deinit
moved = refl

-- spaces, a sign, digits and what follows
signs : strtoll (codes " -12x") ≡ negsuc 11
unfolding strtoll
signs = refl

-- the options of a new source are left to the configuration
new_defaults :
    (log_reader_options_init
      (affile_sd_new {A = ℕ} blank (codes "/l/a") false).reader_options
      cfg).msg_size
    ≡ pos 8192
unfolding affile_sd_new log_reader_options_init indigo.Reader.Options.default
new_defaults = refl
