-- ===== src/Persist/Plain.antt =====
-- A plain file for the tests of src/cfg.c, which is its bytes.
use indigo.Prelude.{ℕ, refl, List, ◌++◌, length, take, drop}
use indigo.Persist.{Stdio}
use indigo.Persist.Restart.{IsPlain}

-- a file that is its bytes
abbrev pub bytes_io : Stdio
bytes_io = record {
  File = List ℕ;
  fwrite = λ file bs. (length bs, file ++ bs);
  fread = λ file n. (take n file, drop n file);
}

abbrev pub bytes_io-IsPlain : IsPlain bytes_io
bytes_io-IsPlain = record {
  written = λ file. file;
  unread = λ file. file;
  fwrite_count = λ file bs. refl;
  fwrite_all = λ file bs. refl;
  fread_take = λ file n. refl;
  fread_drop = λ file n. refl;
}
