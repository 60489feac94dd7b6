-- ===== src/File/Source/Lines/Tests.antt =====
-- A file of three lines in ten bytes, of which five are read before a restart.
use indigo.Prelude.{
  ℕ, ◌≡◌, refl, inr, true, false, none, some, List, [], ◌∷◌, ◌++◌, arith, length, drop, ◌-◌,
}
use indigo.Prelude.Bytes.{codes}
use indigo.Prelude.Int.{pos, negsuc}
use mathlib.Core.List.{flatten}
use indigo.Persist.{string, PersistentConfig, lookup, persist_config_load, persist_config_save}
use indigo.Persist.Restart.{IsStorable, stored}
use indigo.Persist.Plain.{bytes_io, bytes_io-IsPlain}
use indigo.Reader.{memchr, trim_end, find_eol}
use indigo.Reader.Collect.{collect}
use indigo.Reader.Frame.{feed, newlines}
use indigo.Reader.Stream.{Fits, receive_all}
use indigo.Reader.Options.{RawOptions, log_reader_options_init, is_buffer_too_small, options_of}
use indigo.File.Source.{
  FileReader, AfFileSourceDriver, affile_sd_format_persist_name, log_reader_new,
}
use indigo.File.Source.Sample.{disk, ten, ten-IsRegular, cfg, blank, followed}
use indigo.File.Source.Driver.{affile_sd_init, affile_sd_deinit, affile_sd_open_file}
use indigo.File.Source.Resume.{IsReadingFrom, started}
use indigo.File.Source.Lines.{read_all, lines_of, IsReadable, read_all-affile_sd_init}

-- sixteen bytes in the buffer, ten lines for each fetch
abbrev raw : RawOptions
raw = record blank { msg_size = pos 16; fetch_limit = pos 10 }

abbrev before : List (List ℕ)
before = codes "ab" ∷ (10 ∷ codes "cd") ∷ []

abbrev after : List (List ℕ)
after = (codes "cd" ++ 10 ∷ codes "ef") ∷ (codes "g" ++ 10 ∷ []) ∷ []

abbrev more : List ℕ
more = 10 ∷ (codes "efg" ++ 10 ∷ [])

abbrev reading : AfFileSourceDriver ℕ
reading = record followed {
  reader_options = raw;
  reader =
      some (record (started disk ten 3 raw) {
        reader = (read_all collect disk ten raw 3 [] before).0;
      });
}

abbrev kept : PersistentConfig ℕ
kept =
    record {
      name = codes "affile_sd_curpos(/l/a)";
      value = string (codes "3");
      survive_across_restarts = true;
    }
    ∷ []

before_fits : IsReadable collect disk ten raw [] before
unfolding Fits feed memchr find_eol trim_end newlines options_of log_reader_new
before_fits = (refl, omega arith, inr (omega arith), (refl, omega arith, inr (omega arith), tt))

after_fits : IsReadable collect disk ten raw (read_all collect disk ten raw 3 [] before).1 after
unfolding Fits feed memchr find_eol trim_end newlines options_of log_reader_new
after_fits = (refl, omega arith, inr (omega arith), (refl, omega arith, inr (omega arith), tt))

kept_now : (affile_sd_deinit disk ten reading (some []) (true, 5)).persist ≡ some kept
unfolding affile_sd_deinit indigo.File.Source.Driver.keep_pos
    indigo.Persist.persist_config_add_survivor affile_sd_format_persist_name
    indigo.File.Source.format_pos indigo.File.Source.log_reader_get_pos indigo.Prelude.Int.◌-ℤ◌
    receive_all options_of log_reader_new
kept_now = refl

kept-IsStorable : IsStorable {V = ℕ} [] (stored kept)
unfolding lookup indigo.Parser.span_until
kept-IsStorable = ((omega arith, refl), (omega arith, refl), refl, tt)

nothing_kept : lookup {V = ℕ} (affile_sd_format_persist_name followed.filename) [] ≡ none
unfolding lookup
nothing_kept = refl

opened :
    affile_sd_open_file disk (record followed { reader_options = raw }) (true, 0)
    ≡ (some 3, (true, 0))
unfolding affile_sd_open_file indigo.File.affile_open_file indigo.File.is_spurious
opened = refl

enough : is_buffer_too_small (log_reader_options_init raw cfg) ≡ false
unfolding is_buffer_too_small log_reader_options_init
enough = refl

same_options : options_of (log_reader_options_init raw cfg) ≡ options_of raw
unfolding options_of log_reader_options_init indigo.Reader.Options.default
same_options = refl

reads_on :
    flatten after
    ≡ drop
        (length (flatten before) - length (read_all collect disk ten raw 3 [] before).0.buffer)
        (flatten before ++ more)
unfolding receive_all options_of log_reader_new flatten
reads_on = refl

read_all-affile_sd_init_example :
    let c = read_all collect disk ten raw 3 [] before in
    let s' : AfFileSourceDriver ℕ = record followed { reader_options = raw } in
    (loaded : PersistentConfig ℕ) × (persist_config_load bytes_io {V = ℕ} 2 []
        (some (persist_config_save bytes_io kept []))
      ≡ some loaded)
    × IsReadingFrom disk ten
        (affile_sd_init disk ten cfg s' (some loaded) (true, 0))
        3
        (length (flatten before) - length c.0.buffer)
    × (let d = read_all collect disk ten (log_reader_options_init raw cfg) 3 c.1 after in
        ◌≡◌ {A = List ℕ × List (List ℕ)}
          (d.0.buffer, d.1)
          (lines_of collect disk ten raw [] (flatten before ++ more)))
unfolding options_of flatten
read_all-affile_sd_init_example =
    read_all-affile_sd_init collect disk ten bytes_io bytes_io-IsPlain cfg reading
      (record followed { reader_options = raw }) (log_reader_options_init raw cfg) [] before after
      more [] kept (true, 5) (true, 0) (true, 0) 3 3 2 [] (persist_config_save bytes_io kept [])
      (λ m. refl) refl same_options refl enough before_fits refl refl (omega arith) nothing_kept
      kept_now refl refl (omega arith) kept-IsStorable refl opened ten-IsRegular reads_on after_fits

-- what the lines are
three_lines :
    let c = read_all collect disk ten raw 3 [] before in
    (read_all collect disk ten raw 3 c.1 after).1 ≡ codes "ab" ∷ codes "cd" ∷ codes "efg" ∷ []
unfolding receive_all options_of log_reader_new
three_lines = refl
