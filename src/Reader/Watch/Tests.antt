-- ===== src/Reader/Watch/Tests.antt =====
-- A followed file that another has replaced.
use indigo.Prelude.{ℕ, ◌≡◌, refl, true, false, none, some, [], ◌∷◌}
use indigo.Reader.{LogReader}
use indigo.Reader.Watch.{FollowedFile, log_reader_fd_check}

abbrev follower : LogReader ℕ
follower = record {
  buffer = b'a' ∷ [];
  prev_addr = none;
  complete_line = false;
  pktterm = false;
  nomread = false;
  follow = true;
  strict = false;
  internal = false;
  local = false;
}

abbrev rotated : FollowedFile
rotated = record { is_open = true; pos = some 90; st = some (90, 7); followed_ino = some 8 }

rotated_moved : (log_reader_fd_check true false follower rotated).file_moved ≡ true
unfolding log_reader_fd_check
rotated_moved = refl

unread_stays :
    log_reader_fd_check true false follower (record rotated { st = some (91, 7) })
    ≡ record { ready = true; file_moved = false }
unfolding log_reader_fd_check
unread_stays = refl
