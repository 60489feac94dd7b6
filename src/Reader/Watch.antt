-- ===== src/Reader/Watch.antt =====
-- src/logreader.c, the event source of a reader: log_reader_fd_prepare and log_reader_fd_check.
pub mod Moved
mod Tests
use indigo.Prelude.{
  ℕ, ◌*◌, Bool, true, false, not, ◌&&◌, ◌||◌, Option, none, some, ◌==◌, ltb, if◌then◌else◌,
}
use indigo.Reader.{LogReader}

-- What the system says of the descriptor and of the file that is followed: whether the descriptor
-- is open, lseek's position, fstat's size and inode, and the inode of the followed name, which is
-- `none` without such an option or when stat fails.
pub record FollowedFile : Type 0 where
  pub is_open : Bool
  pub pos : Option ℕ
  pub st : Option (ℕ × ℕ)
  pub followed_ino : Option ℕ

-- what prepare leaves: whether the descriptor is polled for input, poll's timeout in
-- milliseconds if it is set, and whether the source is ready
pub record ReadPrepared : Type 0 where
  pub polls_in : Bool
  pub timeout : Option ℕ
  pub ready : Bool

-- what check finds: whether the source is ready, and whether NC_FILE_MOVED is sent
pub record Checked : Type 0 where
  pub ready : Bool
  pub file_moved : Bool

abbrev pub not_ready : Checked
not_ready = record { ready = false; file_moved = false }

abbrev pub is_ready : Checked
is_ready = record { ready = true; file_moved = false }

-- the followed name at the end of the open file: another file has come in its place
pub check_name : FollowedFile → Checked
check_name file = elim file.followed_ino [
  | none ↦ not_ready
  | some ino ↦
      if not file.is_open || not (elim file.st [ none ↦ false | some (size, now) ↦ now == ino ])
      then record { ready = true; file_moved = true }
      else not_ready
]

-- the branch for LR_FOLLOW: bytes that are not read yet come first
pub check_followed : FollowedFile → Checked
unfolding check_name
check_followed file = if not file.is_open then check_name file else elim file.pos [
  | none ↦ not_ready
  | some pos ↦ elim file.st [
    | none ↦ not_ready
    | some (size, ino) ↦ if ltb pos size then is_ready else check_name file
  ]
]

module _ {A : Type 0} where
  -- log_reader_fd_prepare; `free` is log_source_free_to_send
  pub log_reader_fd_prepare : (free : Bool) → (follow_freq : ℕ) → LogReader A → ReadPrepared
  log_reader_fd_prepare free follow_freq s =
      if not free
      then record { polls_in = false; timeout = none; ready = false }
      else if s.complete_line
      then record { polls_in = false; timeout = none; ready = true }
      else if s.follow
      then record { polls_in = false; timeout = some (follow_freq * 1000); ready = false }
      else record { polls_in = true; timeout = none; ready = false }

  -- log_reader_fd_check; `polled` is whether poll reported input, an error or a hangup
  pub log_reader_fd_check : (free polled : Bool) → LogReader A → FollowedFile → Checked
  unfolding check_followed
  log_reader_fd_check free polled s file =
      if not free
      then not_ready
      else if s.complete_line
      then is_ready
      else if s.follow
      then check_followed file
      else record { ready = polled; file_moved = false }
