-- ===== src/Socket/Dest.antt =====
-- src/afsocket.c, socket destinations: connecting, and connecting again when that fails or the
-- connection breaks.
pub mod Alive
use indigo.Prelude.{
  ℕ, suc, ◌+◌, ◌-◌, Bool, true, false, not, ◌&&◌, List, [], ◌∷◌, ◌==◌, if◌then◌else◌,
}

-- the sources of the main loop that a driver attaches
pub data Source : Type 0 where
  reconnect_timer connect_source : Source

-- AFSocketDestDriver with the main loop: ids of sources are given out in order, and 0 is none.
-- `writer_open` is whether the writer has a descriptor, and `open_sockets` counts the sockets
-- that were opened and not closed.
pub record AfSocketDestDriver : Type 0 where
  pub source_id : ℕ
  pub timer_id : ℕ
  pub writer_open : Bool
  pub sources : List (ℕ × Source)
  pub next_id : ℕ
  pub open_sockets : ℕ

-- getsockopt with SO_ERROR on a socket that is connecting
pub data SocketError : Type 0 where
  getsockopt_failed pending no_error : SocketError

-- what comes of the calls of the system in afsocket_dd_start_connect
pub data Attempt : Type 0 where
  no_socket no_setup in_progress refused : Attempt
  at_once : SocketError → Attempt

-- g_source_remove and g_source_destroy
pub remove : ℕ → List (ℕ × Source) → List (ℕ × Source)
remove id [] = []
remove id ((n, s) ∷ l) = let rest = remove id l in if n == id then l else (n, s) ∷ rest

-- what g_source_remove returns
pub is_source : ℕ → List (ℕ × Source) → Bool
is_source id [] = false
is_source id ((n, s) ∷ l) = let rest = is_source id l in if n == id then true else rest

-- g_timeout_add, and g_source_attach of a g_connect_source: the id is next_id
abbrev pub attach : Source → AfSocketDestDriver → AfSocketDestDriver
attach s d = record d { sources = (d.next_id, s) ∷ d.sources; next_id = suc d.next_id }

-- afsocket_dd_start_reconnect_timer
unfoldable pub afsocket_dd_start_reconnect_timer : AfSocketDestDriver → AfSocketDestDriver
unfolding remove
afsocket_dd_start_reconnect_timer d =
    let d' = if d.timer_id == 0 then d else record d { sources = remove d.timer_id d.sources } in
    record (attach reconnect_timer d') { timer_id = d'.next_id }

abbrev close_socket : AfSocketDestDriver → AfSocketDestDriver
close_socket d = record d { open_sockets = d.open_sockets - 1 }

-- the end of afsocket_dd_connected, with log_writer_reopen, which closes a descriptor that the
-- writer still has
unfoldable pub established : AfSocketDestDriver → AfSocketDestDriver
unfolding remove
established d =
    let d' =
      if d.source_id == 0
      then d
      else record d { sources = remove d.source_id d.sources; source_id = 0 } in
    record d' {
      writer_open = true;
      open_sockets = if d'.writer_open then d'.open_sockets - 1 else d'.open_sockets;
    }

-- afsocket_dd_connected
unfoldable pub afsocket_dd_connected :
    (stream : Bool) → SocketError → AfSocketDestDriver → AfSocketDestDriver
unfolding afsocket_dd_start_reconnect_timer established
afsocket_dd_connected false error d = established d
afsocket_dd_connected true getsockopt_failed d = afsocket_dd_start_reconnect_timer (close_socket d)
afsocket_dd_connected true pending d = afsocket_dd_start_reconnect_timer (close_socket d)
afsocket_dd_connected true no_error d = established d

abbrev open_socket : AfSocketDestDriver → AfSocketDestDriver
open_socket d = record d { open_sockets = d.open_sockets + 1 }

-- afsocket_dd_start_connect
unfoldable pub afsocket_dd_start_connect :
    (stream : Bool) → Attempt → AfSocketDestDriver → Bool × AfSocketDestDriver
unfolding afsocket_dd_connected
afsocket_dd_start_connect stream no_socket d = (false, d)
afsocket_dd_start_connect stream no_setup d = (false, close_socket (open_socket d))
afsocket_dd_start_connect stream refused d = (false, close_socket (open_socket d))
afsocket_dd_start_connect stream (at_once error) d =
    (true, afsocket_dd_connected stream error (open_socket d))
afsocket_dd_start_connect stream in_progress d =
    (true, record (attach connect_source (open_socket d)) { source_id = d.next_id })

-- afsocket_dd_reconnect
unfoldable pub afsocket_dd_reconnect :
    (stream : Bool) → Attempt → AfSocketDestDriver → AfSocketDestDriver
unfolding afsocket_dd_start_connect afsocket_dd_start_reconnect_timer
afsocket_dd_reconnect stream attempt d =
    let (started, d') = afsocket_dd_start_connect stream attempt d in
    if started then d' else afsocket_dd_start_reconnect_timer d'

-- afsocket_dd_init with a destination address; the writer is new or has no descriptor
unfoldable pub afsocket_dd_init :
    (stream : Bool) → Attempt → AfSocketDestDriver → AfSocketDestDriver
unfolding afsocket_dd_reconnect
afsocket_dd_init stream attempt d = afsocket_dd_reconnect stream attempt d

-- afsocket_dd_deinit: first the timer is removed
unfoldable pub deinit_timer : AfSocketDestDriver → AfSocketDestDriver
unfolding remove
deinit_timer d = if d.timer_id == 0 then d else record d { sources = remove d.timer_id d.sources }

-- then a connection in progress is stopped
unfoldable pub deinit_connect : AfSocketDestDriver → AfSocketDestDriver
unfolding remove is_source
deinit_connect d =
    if not (d.source_id == 0) && is_source d.source_id d.sources
    then close_socket (record d { sources = remove d.source_id d.sources })
    else d

-- then log_writer_deinit, by which the descriptor of the writer is closed
unfoldable pub deinit_writer : AfSocketDestDriver → AfSocketDestDriver
deinit_writer d = record d {
  writer_open = false;
  open_sockets = if d.writer_open then d.open_sockets - 1 else d.open_sockets;
}

-- afsocket_dd_deinit
unfoldable pub afsocket_dd_deinit : AfSocketDestDriver → AfSocketDestDriver
unfolding deinit_timer deinit_connect deinit_writer
afsocket_dd_deinit d = deinit_writer (deinit_connect (deinit_timer d))

-- afsocket_dd_notify for NC_CLOSE and NC_WRITE_ERROR
unfoldable pub afsocket_dd_notify : AfSocketDestDriver → AfSocketDestDriver
unfolding remove
afsocket_dd_notify d =
    let d' =
      if d.timer_id == 0
      then d
      else record d { sources = remove d.timer_id d.sources; timer_id = 0 } in
    record (attach reconnect_timer d') { timer_id = d'.next_id }

-- What happens to a driver: the timer fires and a connection is tried; a connection that was in
-- progress is ready; the writer finds its connection broken; the driver is stopped and started.
pub data Event : Type 0 where
  timer_fired : Attempt → Event
  connect_ready : SocketError → Event
  broken : Event
  restarted : Attempt → Event

-- The main loop calls a source, and destroys it afterwards, as the callbacks return FALSE. An event
-- of a source that is not attached, or of a writer without a descriptor, does not happen.
unfoldable pub step : (stream : Bool) → Event → AfSocketDestDriver → AfSocketDestDriver
unfolding is_source remove afsocket_dd_reconnect afsocket_dd_connected afsocket_dd_notify
    afsocket_dd_deinit afsocket_dd_init
step stream (timer_fired attempt) d =
    if is_source d.timer_id d.sources
    then (let d' = afsocket_dd_reconnect stream attempt d in
        record d' { sources = remove d.timer_id d'.sources })
    else d
step stream (connect_ready error) d =
    if is_source d.source_id d.sources
    then (let d' = afsocket_dd_connected stream error d in
        record d' { sources = remove d.source_id d'.sources })
    else d
step stream broken d =
    if d.writer_open
    then afsocket_dd_notify (record d { writer_open = false; open_sockets = d.open_sockets - 1 })
    else d
step stream (restarted attempt) d = afsocket_dd_init stream attempt (afsocket_dd_deinit d)

unfoldable pub run : (stream : Bool) → List Event → AfSocketDestDriver → AfSocketDestDriver
unfolding step
run stream [] d = d
run stream (e ∷ es) d = run stream es (step stream e d)

-- afsocket_dd_init_instance on a new driver, in a main loop that gives out ids from some number
unfoldable pub new : ℕ → AfSocketDestDriver
new next_id = record {
  source_id = 0;
  timer_id = 0;
  writer_open = false;
  sources = [];
  next_id = next_id;
  open_sockets = 0;
}
