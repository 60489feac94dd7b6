-- ===== src/Socket.antt =====
-- src/afsocket.c, socket sources: the connections of a driver, and their way through a reload.
pub mod Limit
pub mod Listener
pub mod Dest
mod Tests
use indigo.Prelude.{
  ℕ, suc, ◌+◌, Bool, true, false, not, ◌||◌, Option, none, some, List, [], ◌∷◌, ◌++◌, ◌==◌,
  if◌then◌else◌, is_empty, take,
}
use indigo.Prelude.Bytes.{codes}
use indigo.Prelude.Int.{ℤ, pos, ◌+ℤ◌, ◌-ℤ◌, leb_ℤ}
use indigo.Persist.{
  Value, string, object, PersistentConfig, persist_config_add, persist_config_fetch,
}

-- The flags AFSOCKET_STREAM and AFSOCKET_KEEP_ALIVE, `optional` of the driver, the limit, and
-- g_sockaddr_format of the address.
pub record Options : Type 0 where
  pub stream : Bool
  pub keep_alive : Bool
  pub optional : Bool
  pub max_connections : ℕ
  pub bind_addr : List ℕ

-- AFSocketSourceDriver: a connection is its descriptor; `fd` is the listener, 0 at first
pub record AfSocketSourceDriver : Type 0 where
  pub fd : ℕ
  pub connections : List ℕ
  pub num_connections : ℤ

-- what a driver leaves in the PersistentConfig; the listener is its descriptor and one
pub data Kept : Type 0 where
  connection_list : List ℕ → Kept
  listen_fd : ℕ → Kept

-- a driver, and the descriptors that have been closed
abbrev pub Closing : Type 0
Closing = AfSocketSourceDriver × List ℕ

-- afsocket_sd_init_instance on a new driver
unfoldable pub afsocket_sd_init_instance : AfSocketSourceDriver
afsocket_sd_init_instance = record { fd = 0; connections = []; num_connections = pos 0 }

-- g_list_remove, `none` if it is not there
unfoldable pub remove : ℕ → List ℕ → Option (List ℕ)
remove fd [] = none
remove fd (c ∷ cs) =
    let rest = remove fd cs in
    if c == fd then some cs else elim rest [ none ↦ none | some cs' ↦ some (c ∷ cs') ]

-- afsocket_sd_process_connection; `allowed` is what hosts_access says, if it is asked
unfoldable pub afsocket_sd_process_connection :
    Options → (allowed : Bool) → AfSocketSourceDriver → ℕ → Closing
afsocket_sd_process_connection o allowed d fd =
    if not allowed
    then (d, fd ∷ [])
    else if leb_ℤ (pos o.max_connections) d.num_connections
    then (d, fd ∷ [])
    else (
      record d { num_connections = d.num_connections +ℤ pos 1; connections = fd ∷ d.connections },
      [],
    )

-- afsocket_sd_accept: `accepted` is what g_accept gives, `setup` what setup_socket returns
unfoldable pub afsocket_sd_accept :
    Options → (accepted : Option ℕ) → (setup allowed : Bool) → AfSocketSourceDriver → Closing
unfolding afsocket_sd_process_connection
afsocket_sd_accept o none setup allowed d = (d, [])
afsocket_sd_accept o (some fd) setup allowed d =
    if not setup then (d, fd ∷ []) else afsocket_sd_process_connection o allowed d fd

-- afsocket_sd_close_connection, with afsocket_sc_deinit; the reader closes the descriptor
unfoldable pub afsocket_sd_close_connection : AfSocketSourceDriver → ℕ → Closing
unfolding remove
afsocket_sd_close_connection d fd = elim (remove fd d.connections) [
  | none ↦ (d, [])
  | some connections ↦ (
    record d { connections = connections; num_connections = d.num_connections -ℤ pos 1 },
    fd ∷ [],
  )
]

-- afsocket_sc_notify for NC_CLOSE and NC_READ_ERROR, from a connection that the driver has
unfoldable pub afsocket_sc_notify : Options → AfSocketSourceDriver → ℕ → Closing
unfolding afsocket_sd_close_connection
afsocket_sc_notify o d fd = if o.stream then afsocket_sd_close_connection d fd else (d, [])

-- afsocket_sd_format_persist_name, cut to 127 bytes
unfoldable pub afsocket_sd_format_persist_name : Options → (listener_name : Bool) → List ℕ
afsocket_sd_format_persist_name o listener_name = take 127 (
    (if listener_name then codes "afsocket_sd_listen_fd(" else codes "afsocket_sd_connections(")
    ++ ((if o.stream then codes "stream" else codes "dgram")
        ++ (codes "," ++ (o.bind_addr ++ codes ")"))))

-- the connections that were kept; a value of another kind is not looked for
abbrev pub kept_connections : Option (Value Kept) → List ℕ
kept_connections (some (object (connection_list cs))) = cs
kept_connections _ = []

-- a listener that was kept, 0 for a null pointer and none for -1
abbrev pub kept_listener : Option (Value Kept) → Option ℕ
kept_listener (some (object (listen_fd (suc fd)))) = some fd
kept_listener _ = none

-- what init leaves: the driver, the PersistentConfig, the descriptors it closed and its result
pub record Started : Type 0 where
  pub driver : AfSocketSourceDriver
  pub persist : Option (PersistentConfig Kept)
  pub closed : List ℕ
  pub result : Bool

-- what the calls of the system give to init: afsocket_open_socket, listen and setup_socket
pub record Calls : Type 0 where
  pub opened : Option ℕ
  pub listens : ℕ → Bool
  pub setup : ℕ → Bool
  pub setup_none : Bool

-- the listener of a stream source, kept or opened, and what follows
unfoldable pub start_listener :
    Options → Calls → AfSocketSourceDriver → Option (PersistentConfig Kept) → Option ℕ → Started
start_listener o c d persist none = record {
  driver = d;
  persist = persist;
  closed = [];
  result = o.optional;
}
start_listener o c d persist (some sock) =
    if not (c.listens sock) || not (c.setup sock)
    then record { driver = d; persist = persist; closed = sock ∷ []; result = false }
    else record { driver = record d { fd = sock }; persist = persist; closed = []; result = true }

abbrev pub or_opened : Option ℕ → Option ℕ → Option ℕ
or_opened none opened = opened
or_opened (some fd) opened = some fd

-- the connection of a datagram source, on a socket that was opened or not
unfoldable pub open_datagram :
    Options → Calls → AfSocketSourceDriver → Option (PersistentConfig Kept) → Option ℕ → Started
unfolding afsocket_sd_process_connection
open_datagram o c d persist none = record {
  driver = d;
  persist = persist;
  closed = [];
  result = o.optional;
}
open_datagram o c d persist (some sock) =
    if not (c.setup sock)
    then record { driver = d; persist = persist; closed = sock ∷ []; result = false }
    else (let (d', closed) = afsocket_sd_process_connection o true d sock in
        record { driver = d'; persist = persist; closed = closed; result = true })

-- A datagram source has one connection, a new one if none was kept; `setup_none` is setup_socket
-- of -1.
unfoldable pub start_datagram :
    Options → Calls → AfSocketSourceDriver → Option (PersistentConfig Kept) → Started
unfolding open_datagram
start_datagram o c d persist =
    if is_empty d.connections
    then open_datagram o c d persist c.opened
    else record { driver = d; persist = persist; closed = []; result = c.setup_none }

-- afsocket_sd_init
unfoldable pub afsocket_sd_init :
    Options → Calls → AfSocketSourceDriver → Option (PersistentConfig Kept) → Started
unfolding start_listener start_datagram
afsocket_sd_init o c d persist =
    let (conns, persist') =
      if o.keep_alive
      then persist_config_fetch persist (afsocket_sd_format_persist_name o false)
      else (none, persist) in
    let d' = record d {
      connections = if o.keep_alive then kept_connections conns else d.connections;
    } in
    if o.stream
    then (let (sock, persist'') =
          if o.keep_alive
          then persist_config_fetch persist' (afsocket_sd_format_persist_name o true)
          else (none, persist') in
        start_listener o c d' persist'' (or_opened (kept_listener sock) c.opened))
    else start_datagram o c d' persist'

-- persist_config_add of a list, of which the empty one is a null pointer
abbrev pub add_connections : PersistentConfig Kept → List ℕ → List ℕ → PersistentConfig Kept
add_connections persist name [] = persist
add_connections persist name (c ∷ cs) =
    persist_config_add persist name (object (connection_list (c ∷ cs)))

-- the end of afsocket_sd_deinit: the listener is closed or kept
unfoldable pub deinit_listener :
    Options → ℕ → PersistentConfig Kept → PersistentConfig Kept × List ℕ
unfolding persist_config_add
deinit_listener o fd persist =
    if not o.stream then (persist, []) else if not o.keep_alive then (persist, fd ∷ []) else (
      persist_config_add persist (afsocket_sd_format_persist_name o true)
          (object (listen_fd (suc fd))),
      [],
    )

-- afsocket_sd_deinit with a PersistentConfig: what is kept, and the descriptors that are closed
unfoldable pub afsocket_sd_deinit :
    Options → AfSocketSourceDriver → PersistentConfig Kept → PersistentConfig Kept × List ℕ
unfolding persist_config_add deinit_listener
afsocket_sd_deinit o d persist =
    if not o.keep_alive
    then (let (persist', closed) = deinit_listener o d.fd persist in
        (persist', d.connections ++ closed))
    else deinit_listener o d.fd
        (add_connections persist (afsocket_sd_format_persist_name o false) d.connections)
