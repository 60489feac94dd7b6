-- ===== src/File/Source/Sample.antt =====
-- A file of ten bytes for the tests of src/affile.c, and a source that follows it.
use indigo.Prelude.{ℕ, refl, Bool, true, false, none, if◌then◌else◌}
use indigo.Prelude.Bytes.{codes}
use indigo.Prelude.Int.{ℤ, pos, negsuc}
use indigo.Reader.Options.{GlobalConfig, RawOptions}
use indigo.File.{Os, fd, no_entry, missing}
use indigo.File.Source.{Whence, seek_set, seek_cur, seek_end, Files, AfFileSourceDriver}
use indigo.File.Source.Resume.{IsRegular}

-- whether the file is there, and the offset of its descriptor
abbrev pub World : Type 0
World = Bool × ℕ

abbrev pub disk : Os
disk = record {
  World = World;
  open_file = λ w name flags mode. if w.0 then (fd 3, (true, 0)) else (no_entry, w);
  stat = λ w name. missing;
  mkdir = λ w name mode. (true, w);
  chown = λ w name uid gid. w;
  chmod = λ w name mode. w;
  fchown = λ w n uid gid. w;
  fchmod = λ w n mode. w;
  unlink = λ w name. w;
  time = λ w. 0;
}

abbrev pub seek_ten : World → ℕ → ℤ → Whence → ℤ × World
seek_ten (there, at) n offset seek_cur = (pos at, (there, at))
seek_ten (there, at) n offset seek_end = (pos 10, (there, 10))
seek_ten (there, at) n (pos k) seek_set = (pos k, (there, k))
seek_ten (there, at) n (negsuc k) seek_set = (negsuc 0, (there, at))

abbrev pub ten : Files World
ten = record { lseek = seek_ten; close = λ w n. w }

abbrev pub ten-IsRegular : IsRegular ten (true, 0) 3 10
ten-IsRegular = record {
  end_size = refl;
  end_at = refl;
  set_result = λ k. refl;
  set_at = λ k. refl;
  set_refused = λ k. refl;
}

abbrev pub cfg : GlobalConfig
cfg = record {
  log_iw_size = pos 100;
  log_fetch_limit = pos 10;
  log_msg_size = pos 8192;
  follow_freq = negsuc 0;
  recv_zone_offset = pos 0;
  keep_timestamp = pos 1;
  check_hostname = false;
  bad_hostname_compiled = false;
}

abbrev pub blank : RawOptions
blank = record {
  init_window_size = pos 0;
  window_size = pos 0;
  noparse = false;
  check_hostname = false;
  kernel = false;
  padding = pos 0;
  prefix = none;
  msg_size = pos 0;
  follow_filename = none;
  follow_freq = pos 1;
  fetch_limit = pos 0;
  zone_offset = pos 0;
  keep_timestamp = pos 0;
  bad_hostname = false;
}

-- file("/l/a" follow_freq(1))
abbrev pub followed : AfFileSourceDriver ℕ
followed = record {
  filename = codes "/l/a";
  pipe = false;
  optional = false;
  reader_options = blank;
  reader = none;
}
