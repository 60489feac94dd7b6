-- ===== src/Socket/Dest/Alive.antt =====
-- A socket destination never gives up.
use indigo.Prelude.{ℕ, zero, suc, ◌<◌, ◌≡◌, Bool, true, false, List, [], ◌∷◌, ◌==◌, ==_refl, arith}
use indigo.Socket.Dest.{
  Source, reconnect_timer, connect_source, AfSocketDestDriver, SocketError, getsockopt_failed,
  pending, no_error, Attempt, no_socket, no_setup, in_progress, refused, at_once, remove,
  afsocket_dd_start_reconnect_timer, established, afsocket_dd_connected, afsocket_dd_reconnect,
  afsocket_dd_init, afsocket_dd_deinit, deinit_connect, deinit_writer, Event, timer_fired,
  connect_ready, broken, restarted, step, run, new,
}

abbrev at :
    (source_id timer_id next_id : ℕ)
    → Bool
    → List (ℕ × Source)
    → (open_sockets : ℕ) → AfSocketDestDriver
at source_id timer_id next_id writer_open sources open_sockets = record {
  source_id = source_id;
  timer_id = timer_id;
  writer_open = writer_open;
  sources = sources;
  next_id = next_id;
  open_sockets = open_sockets;
}

-- The writer has a connection and nothing is attached; or one connection is in progress and its
-- source attached; or the reconnect timer is attached. There is one open socket in the first two
-- cases, and none in the last. Ids of sources that are gone are older than the one attached.
pub data IsAlive : AfSocketDestDriver → Type 0 where
  connected : (s t n : ℕ) → s < n → t < n → IsAlive (at s t n true [] 1)
  connecting : (s t n : ℕ) → t < s → s < n → IsAlive (at s t n false ((s, connect_source) ∷ []) 1)
  waiting : (s t n : ℕ) → s < t → t < n → IsAlive (at s t n false ((t, reconnect_timer) ∷ []) 0)

-- a driver that is stopped
data IsIdle : AfSocketDestDriver → Type 0 where
  idle : (s t n : ℕ) → s < n → t < n → IsIdle (at s t n false [] 0)

suc-ne-zero : (n : ℕ) → (suc n == 0) ≡ false
suc-ne-zero n = ground arith

timer-IsAlive :
    (s t n : ℕ) → s < n → t < n → IsAlive (afsocket_dd_start_reconnect_timer (at s t n false [] 0))
unfolding afsocket_dd_start_reconnect_timer
timer-IsAlive s zero n a b = waiting s n (suc n) a (omega arith)
timer-IsAlive s (suc t) n a b = rw (suc-ne-zero t) (waiting s n (suc n) a (omega arith))

established-IsAlive : (s t n : ℕ) → s < n → t < n → IsAlive (established (at s t n false [] 1))
unfolding established
established-IsAlive zero t n a b = connected 0 t n a b
established-IsAlive (suc s) t n a b = rw (suc-ne-zero s) (connected 0 t n (omega arith) b)

reconnect-IsAlive :
    (stream : Bool) (attempt : Attempt) (d : AfSocketDestDriver)
    → IsIdle d
    → IsAlive (afsocket_dd_reconnect stream attempt d)
unfolding afsocket_dd_reconnect
reconnect-IsAlive stream no_socket d (idle s t n a b) = timer-IsAlive s t n a b
reconnect-IsAlive stream no_setup d (idle s t n a b) = timer-IsAlive s t n a b
reconnect-IsAlive stream refused d (idle s t n a b) = timer-IsAlive s t n a b
reconnect-IsAlive stream in_progress d (idle s t n a b) = connecting n t (suc n) b (omega arith)
reconnect-IsAlive false (at_once e) d (idle s t n a b) = established-IsAlive s t n a b
reconnect-IsAlive true (at_once getsockopt_failed) d (idle s t n a b) = timer-IsAlive s t n a b
reconnect-IsAlive true (at_once pending) d (idle s t n a b) = timer-IsAlive s t n a b
reconnect-IsAlive true (at_once no_error) d (idle s t n a b) = established-IsAlive s t n a b

-- an id is not an older one
newer : (m n : ℕ) → m < n → (n == m) ≡ false
newer m n h = ground arith

-- stopping without a timer
stop-IsIdle :
    (s t n : ℕ)
    → s < n
    → t < n
    → IsIdle (deinit_writer (deinit_connect (at s t n true [] 1)))
      × IsIdle (deinit_writer (deinit_connect (at s t n false [] 0)))
unfolding deinit_connect deinit_writer
stop-IsIdle zero t n a b = (idle 0 t n a b, idle 0 t n a b)
stop-IsIdle (suc s) t n a b = rw (suc-ne-zero s) (idle (suc s) t n a b, idle (suc s) t n a b)

stop_connect-IsIdle :
    (s t n : ℕ)
    → t < s
    → s < n
    → IsIdle (deinit_writer (deinit_connect (at s t n false ((s, connect_source) ∷ []) 1)))
unfolding deinit_connect deinit_writer
stop_connect-IsIdle zero t n a b = absurd (omega arith)
stop_connect-IsIdle (suc s) t n a b =
    rw (suc-ne-zero s, ==_refl (suc s)) (idle (suc s) t n b (omega arith))

deinit-IsIdle : (d : AfSocketDestDriver) → IsAlive d → IsIdle (afsocket_dd_deinit d)
unfolding afsocket_dd_deinit
deinit-IsIdle d (connected s zero n a b) = (stop-IsIdle s 0 n a b).0
deinit-IsIdle d (connected s (suc t) n a b) = rw (suc-ne-zero t) (stop-IsIdle s (suc t) n a b).0
deinit-IsIdle d (connecting s zero n a b) = stop_connect-IsIdle s 0 n a b
deinit-IsIdle d (connecting s (suc t) n a b) =
    rw (suc-ne-zero t, newer (suc t) s a) (stop_connect-IsIdle s (suc t) n a b)
deinit-IsIdle d (waiting s zero n a b) = absurd (omega arith)
deinit-IsIdle d (waiting s (suc t) n a b) =
    rw (suc-ne-zero t, ==_refl (suc t)) (stop-IsIdle s (suc t) n (omega arith) b).1

-- the source that was called is destroyed
abbrev without : ℕ → AfSocketDestDriver → AfSocketDestDriver
without id d = record d { sources = remove id d.sources }

-- a connection in progress has failed
failed-IsAlive :
    (s t n : ℕ)
    → t < s
    → s < n
    → IsAlive (
        without s (afsocket_dd_start_reconnect_timer (at s t n false ((s, connect_source) ∷ []) 0)))
unfolding afsocket_dd_start_reconnect_timer
failed-IsAlive s zero n a b = rw (newer s n b, ==_refl s) (waiting s n (suc n) b (omega arith))
failed-IsAlive s (suc t) n a b =
    rw (suc-ne-zero t, newer (suc t) s a, newer s n b, ==_refl s)
      (waiting s n (suc n) b (omega arith))

-- a connection in progress has succeeded
ready-IsAlive :
    (s t n : ℕ)
    → t < s
    → s < n
    → IsAlive (without s (established (at s t n false ((s, connect_source) ∷ []) 1)))
unfolding established
ready-IsAlive zero t n a b = absurd (omega arith)
ready-IsAlive (suc s) t n a b =
    rw (suc-ne-zero s, ==_refl (suc s)) (connected 0 t n (omega arith) (omega arith))

-- the timer that has fired is replaced
again-IsAlive :
    (s t n : ℕ)
    → s < t
    → t < n
    → IsAlive (
        without t
          (afsocket_dd_start_reconnect_timer (at s t n false ((t, reconnect_timer) ∷ []) 0)))
unfolding afsocket_dd_start_reconnect_timer
again-IsAlive s zero n a b = absurd (omega arith)
again-IsAlive s (suc t) n a b =
    rw (suc-ne-zero t, ==_refl (suc t), newer (suc t) n b)
      (waiting s n (suc n) (omega arith) (omega arith))

at_once-IsAlive :
    (s t n : ℕ)
    → s < t
    → t < n
    → IsAlive (without t (established (at s t n false ((t, reconnect_timer) ∷ []) 1)))
unfolding established
at_once-IsAlive zero t n a b = rw (==_refl t) (connected 0 t n (omega arith) b)
at_once-IsAlive (suc s) t n a b =
    rw (suc-ne-zero s, newer (suc s) t a, ==_refl t) (connected 0 t n (omega arith) b)

ready_step-IsAlive :
    (stream : Bool) (e : SocketError) (s t n : ℕ)
    → t < s
    → s < n
    → IsAlive
        (without s (afsocket_dd_connected stream e (at s t n false ((s, connect_source) ∷ []) 1)))
unfolding afsocket_dd_connected
ready_step-IsAlive false e s t n a b = ready-IsAlive s t n a b
ready_step-IsAlive true no_error s t n a b = ready-IsAlive s t n a b
ready_step-IsAlive true pending s t n a b = failed-IsAlive s t n a b
ready_step-IsAlive true getsockopt_failed s t n a b = failed-IsAlive s t n a b

fired_step-IsAlive :
    (stream : Bool) (attempt : Attempt) (s t n : ℕ)
    → s < t
    → t < n
    → IsAlive (
        without t
          (afsocket_dd_reconnect stream attempt (at s t n false ((t, reconnect_timer) ∷ []) 0)))
unfolding afsocket_dd_reconnect
fired_step-IsAlive stream no_socket s t n a b = again-IsAlive s t n a b
fired_step-IsAlive stream no_setup s t n a b = again-IsAlive s t n a b
fired_step-IsAlive stream refused s t n a b = again-IsAlive s t n a b
fired_step-IsAlive stream in_progress s t n a b =
    rw (newer t n b, ==_refl t) (connecting n t (suc n) b (omega arith))
fired_step-IsAlive false (at_once e) s t n a b = at_once-IsAlive s t n a b
fired_step-IsAlive true (at_once no_error) s t n a b = at_once-IsAlive s t n a b
fired_step-IsAlive true (at_once pending) s t n a b = again-IsAlive s t n a b
fired_step-IsAlive true (at_once getsockopt_failed) s t n a b = again-IsAlive s t n a b

step-IsAlive :
    (stream : Bool) (e : Event) (d : AfSocketDestDriver) → IsAlive d → IsAlive (step stream e d)
unfolding step
step-IsAlive stream (restarted attempt) d h =
    reconnect-IsAlive stream attempt (afsocket_dd_deinit d) (deinit-IsIdle d h)
step-IsAlive stream broken d (connecting s t n a b) = connecting s t n a b
step-IsAlive stream broken d (waiting s t n a b) = waiting s t n a b
step-IsAlive stream broken d (connected s zero n a b) = waiting s n (suc n) a (omega arith)
step-IsAlive stream broken d (connected s (suc t) n a b) =
    rw (suc-ne-zero t) (waiting s n (suc n) a (omega arith))
step-IsAlive stream (connect_ready e) d (connected s t n a b) = connected s t n a b
step-IsAlive stream (connect_ready e) d (waiting s t n a b) = rw (newer s t a) (waiting s t n a b)
step-IsAlive stream (connect_ready e) d (connecting s t n a b) =
    rw (==_refl s) (ready_step-IsAlive stream e s t n a b)
step-IsAlive stream (timer_fired attempt) d (connected s t n a b) = connected s t n a b
step-IsAlive stream (timer_fired attempt) d (connecting s t n a b) =
    rw (newer t s a) (connecting s t n a b)
step-IsAlive stream (timer_fired attempt) d (waiting s t n a b) =
    rw (==_refl t) (fired_step-IsAlive stream attempt s t n a b)

run-IsAlive :
    (stream : Bool) (es : List Event) (d : AfSocketDestDriver)
    → IsAlive d
    → IsAlive (run stream es d)
unfolding run
run-IsAlive stream [] d h = h
run-IsAlive stream (e ∷ es) d h =
    run-IsAlive stream es (step stream e d) (step-IsAlive stream e d h)

-- A socket destination is started in a main loop whose ids are not 0. Then whatever its
-- connections, the calls of the system and restarts come to, in any order, its writer has a
-- connection, or one connection is in progress and waited for, or the reconnect timer runs: exactly
-- one of these, so that it never stops trying; and of the sockets that it has opened none is left
-- behind, there being one open in the first two cases and none in the last.
pub run_alive :
    (stream : Bool) (attempt : Attempt) (es : List Event) (next_id : ℕ)
    → 0 < next_id
    → IsAlive (run stream es (afsocket_dd_init stream attempt (new next_id)))
unfolding afsocket_dd_init new
run_alive stream attempt es n h =
    run-IsAlive stream es (afsocket_dd_reconnect stream attempt (new n))
      (reconnect-IsAlive stream attempt (new n) (idle 0 0 n h h))
