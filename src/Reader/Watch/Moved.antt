-- ===== src/Reader/Watch/Moved.antt =====
-- When a reader turns to the file that has taken the place of the one it follows.
use indigo.Prelude.{
  ℕ, ◌≤◌, ◌≡◌, ◌⊎◌, inl, inr, refl, Bool, true, false, some, ltb, arith, Bool-cases, Option-cases,
}
use indigo.Reader.{LogReader}
use indigo.Reader.Watch.{FollowedFile, check_followed, log_reader_fd_check}

-- all that is in the open file has been read
abbrev pub IsAtEnd : FollowedFile → Type 0
IsAtEnd file = (pos : ℕ) × (st : ℕ × ℕ) × (file.pos ≡ some pos) × (file.st ≡ some st) × (st.0 ≤ pos)

check_followed-moved :
    (file : FollowedFile)
    → (check_followed file).file_moved ≡ true
    → (file.is_open ≡ false) ⊎ IsAtEnd file
unfolding check_followed
check_followed-moved file = elim (Bool-cases file.is_open) [
  | inr closed ↦ λ moved. inl closed
  | inl opened ↦ elim (Option-cases file.pos) [
    | inl lost ↦ rw (opened, lost, check_followed) (λ moved. absurd (ground arith))
    | inr (pos, at) ↦ elim (Option-cases file.st) [
      | inl lost ↦ rw (opened, at, lost, check_followed) (λ moved. absurd (ground arith))
      | inr ((size, ino), eq) ↦ elim (Bool-cases (ltb pos size)) [
        | inl more ↦ rw (opened, at, eq, check_followed, more) (λ moved. absurd (ground arith))
        | inr read ↦ λ moved. inr (pos, (size, ino), at, eq, ground arith)
      ]
    ]
  ]
]

-- NC_FILE_MOVED is sent only for a followed file, when the window is open and no complete line
-- waits in the buffer, and only if no file is open or the open file has been read to its end.
pub log_reader_fd_check-moved :
    {A : Type 0} (free polled : Bool) (s : LogReader A) (file : FollowedFile)
    → (log_reader_fd_check free polled s file).file_moved ≡ true
    → (free ≡ true)
      × (s.complete_line ≡ false)
      × (s.follow ≡ true)
      × ((file.is_open ≡ false) ⊎ IsAtEnd file)
unfolding log_reader_fd_check
log_reader_fd_check-moved free polled s file = elim (Bool-cases free) [
  | inr shut ↦ rw shut (λ moved. absurd (ground arith))
  | inl open_window ↦ elim (Bool-cases s.complete_line) [
    | inl complete ↦ rw (open_window, complete) (λ moved. absurd (ground arith))
    | inr incomplete ↦ elim (Bool-cases s.follow) [
      | inr plain ↦ rw (open_window, incomplete, plain) (λ moved. absurd (ground arith))
      | inl followed ↦
          rw (open_window, incomplete, followed)
            (λ moved. (refl, refl, refl, check_followed-moved file moved))
    ]
  ]
]
