-- ===== src/File/Tests.antt =====
-- A destination file("/l/$HOST") in a small file system.
use indigo.Prelude.{ℕ, ◌+◌, ◌≤◌, ◌≡◌, refl, true, false, none, some, List, [], ◌∷◌, ◌++◌, arith}
use indigo.Prelude.Bytes.{codes}
use indigo.Prelude.Int.{negsuc}
use indigo.Writer.{LogWriterOptions}
use indigo.File.{
  Os, fd, missing, Permissions, is_spurious, parents, affile_open_file, append_create,
}
use indigo.File.Table.{lookup}
use indigo.File.Dest.{Options, AfFileDestDriver, hash_of, overwrite, affile_dd_queue}
use indigo.File.Reload.{affile_dd_reap}
use indigo.File.Delivery.{
  Event, message, work, reap_timer, reload, elapse, State, of_name, run, start,
}
use indigo.File.Delivery.Driver.{pending}
use indigo.File.Delivery.Kept.{run-accepted}
use indigo.File.Optional.{affile_dd_reap_spurious}

-- a system whose state is the time, and that opens every file
abbrev clock : Os
clock = record {
  World = ℕ;
  open_file = λ w name flags mode. (fd 3, w);
  stat = λ w name. missing;
  mkdir = λ w name mode. (true, w);
  chown = λ w name uid gid. w;
  chmod = λ w name mode. w;
  fchown = λ w n uid gid. w;
  fchmod = λ w n mode. w;
  unlink = λ w name. w;
  time = λ w. w;
}

abbrev nobody : Permissions
nobody = record { uid = negsuc 0; gid = negsuc 0; mode = negsuc 0 }

abbrev writer_options : LogWriterOptions ℕ
writer_options = record {
  fifo_size = 2;
  flush_lines = 0;
  flush_timeout = 10;
  template = none;
  file_template = none;
  proto_template = none;
  tmpl_escape = false;
  use_time_recvd = false;
  format_file = true;
  format_proto = false;
}

abbrev hosts : Options ℕ
hosts = record {
  template = codes "/l/$HOST";
  pipe = false;
  no_expand = false;
  create_dirs = false;
  optional = false;
  file = nobody;
  dir = nobody;
  overwrite_if_older = 0;
  time_reap = 60;
  writer_options = writer_options;
}

-- a message is the last byte of the name of its file
abbrev name_of : ℕ → List ℕ
name_of m = codes "/l/" ++ m ∷ []

-- Three messages for a file, of which the last is too many for its queue, and one for another that
-- is written, a reload, and the reap timer, when only the other file is idle.
abbrev events : List (Event ℕ ℕ)
events =
    message b'a' 0
    ∷ message b'b' 1
    ∷ message b'a' 1
    ∷ message b'a' 0
    ∷ work (name_of b'b') 1
    ∷ reload
    ∷ elapse 1000
    ∷ reap_timer
    ∷ []

run-accepted_example :
    (s : State ℕ ℕ) × (run clock none hosts 60 name_of events (start 100) ≡ some s)
    × ((f : List ℕ) → of_name f s.sent ++ pending hosts s.driver f ≡ of_name f s.accepted)
run-accepted_example = run-accepted clock none hosts refl 60 name_of events 100

abbrev optional_hosts : Options ℕ
optional_hosts = record hosts { optional = true }

abbrev up : ℕ → List ℕ
up m = codes "/l/../" ++ m ∷ []

abbrev empty : AfFileDestDriver ℕ
empty = record { writer = none; writer_hash = none }

up_spurious : is_spurious (up b'a') ≡ true
unfolding is_spurious
up_spurious = refl

up_new : lookup (up b'a') (hash_of empty) ≡ none
unfolding lookup
up_new = refl

no_overwrite : clock.time (overwrite clock optional_hosts (up b'a') 100) + 60 ≤ 160
unfolding overwrite
no_overwrite = omega arith

affile_dd_reap_spurious_example :
    affile_dd_reap 60 160 (affile_dd_queue clock none optional_hosts 60 up empty b'a' 0 100).0.0
    ≡ none
affile_dd_reap_spurious_example =
    affile_dd_reap_spurious clock none optional_hosts 60 up empty b'a' 0 160 100 refl refl
      up_spurious up_new no_overwrite

-- directories on the way, the root and the file itself left out
paths : parents (codes "/a/bc/d") ≡ codes "/a" ∷ codes "/a/bc" ∷ []
unfolding parents
paths = refl

opened_plain :
    affile_open_file clock nobody nobody true (codes "/a/b") append_create 7 ≡ (some 3, 7)
unfolding affile_open_file is_spurious
opened_plain = refl
