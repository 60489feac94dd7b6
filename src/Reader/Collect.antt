-- ===== src/Reader/Collect.antt =====
-- A pipe behind src/logreader.c for the tests, which collects the lines that it gets.
use indigo.Prelude.{ℕ, true, false, List, [], ◌∷◌, ◌++◌}
use indigo.Prelude.Int.{pos, negsuc}
use indigo.Message.{LogStamp}
use indigo.Reader.{Pipe}

abbrev unset : LogStamp
unset = record { tv_sec = pos 0; tv_usec = pos 0; zone_offset = negsuc 0 }

-- lines are collected as they come
abbrev pub collect : Pipe ℕ (List (List ℕ))
collect = record {
  log_msg_new = λ line a pf. record {
    internal = false;
    local = false;
    mark = false;
    pri = 13;
    stamp = unset;
    recvd = unset;
    date = [];
    host = [];
    program = [];
    msg = line;
  };
  queue = λ w m a. w ++ m.msg ∷ [];
  free_to_send = λ w. true;
}
