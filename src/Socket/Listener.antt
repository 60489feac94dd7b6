-- ===== src/Socket/Listener.antt =====
-- The listener of a stream source that is kept alive, through a reload.
use indigo.Prelude.{ℕ, suc, ◌≡◌, refl, true, false, none, some, List, [], ◌∷◌, ap}
use indigo.Prelude.Bytes.{same, same_refl}
use indigo.Prelude.Int.{pos}
use indigo.Persist.{
  PersistentConfig, PersistentConfigEntry, object, persist_config_add, persist_config_add_entry,
  persist_config_fetch, steal,
}
use indigo.Socket.Limit.{names_differ}
use indigo.Socket.{
  Options, AfSocketSourceDriver, Kept, connection_list, listen_fd, Calls, afsocket_sd_init_instance,
  afsocket_sd_format_persist_name, start_listener, afsocket_sd_init, afsocket_sd_deinit,
}

abbrev pub alive : Options → Options
alive o = record o { stream = true; keep_alive = true }

abbrev inherits : AfSocketSourceDriver → AfSocketSourceDriver
inherits d = record { fd = 0; connections = d.connections; num_connections = pos 0 }

-- the entry at the front is fetched by its name
fetch_front :
    (p : PersistentConfigEntry Kept) (ps : PersistentConfig Kept)
    → persist_config_fetch (some (p ∷ ps)) p.name ≡ (some p.value, some ps)
unfolding persist_config_fetch
fetch_front p ps = rw (same_refl p.name, persist_config_fetch, steal, same_refl p.name) refl

-- an entry of another name is not
fetch_other :
    (p : PersistentConfigEntry Kept) (name : List ℕ)
    → same p.name name ≡ false
    → persist_config_fetch (some (p ∷ [])) name ≡ (none, some (p ∷ []))
unfolding persist_config_fetch
fetch_other p name other = rw (other, persist_config_fetch) refl

abbrev entry : List ℕ → Kept → PersistentConfigEntry Kept
entry name kept = record { name = name; value = object kept; survive_across_restarts = false }

-- a new driver takes the connections and the descriptor of the old one
init-deinit :
    (o : Options) (c : Calls) (d : AfSocketSourceDriver)
    → afsocket_sd_init
        (alive o)
        c
        afsocket_sd_init_instance
        (some (afsocket_sd_deinit (alive o) d []).0)
      ≡ start_listener (alive o) c (inherits d) (some []) (some d.fd)
unfolding afsocket_sd_init afsocket_sd_deinit afsocket_sd_init_instance
init-deinit o c d = by_list d.connections
  where
    names : List ℕ
    names = afsocket_sd_format_persist_name (alive o) false

    listener : PersistentConfigEntry Kept
    listener = entry (afsocket_sd_format_persist_name (alive o) true) (listen_fd (suc d.fd))

    by_list :
        (cs : List ℕ)
        → afsocket_sd_init
            (alive o)
            c
            afsocket_sd_init_instance
            (some (afsocket_sd_deinit (alive o) (record d { connections = cs }) []).0)
          ≡ start_listener
              (alive o)
              c
              (inherits (record d { connections = cs }))
              (some [])
              (some d.fd)
    by_list [] =
        rw (fetch_other listener names (names_differ (alive o) true), fetch_front listener []) refl
    by_list (x ∷ xs) =
        let list = entry names (connection_list (x ∷ xs)) in
        let kept : persist_config_add (list ∷ []) listener.name listener.value
            ≡ list ∷ listener ∷ [] =
          rw (names_differ (alive o) false, persist_config_add, persist_config_add_entry) refl in
        rw (kept, fetch_front list (listener ∷ []), fetch_front listener []) refl

-- A stream source with keep-alive goes through a reload. If listen and setup_socket succeed on the
-- old listener, the new driver listens on it, whether or not another socket could be opened, and
-- has the old connections.
pub afsocket_sd_init-afsocket_sd_deinit :
    (o : Options) (c : Calls) (d : AfSocketSourceDriver)
    → c.listens d.fd ≡ true
    → c.setup d.fd ≡ true
    → let s =
        afsocket_sd_init
          (alive o)
          c
          afsocket_sd_init_instance
          (some (afsocket_sd_deinit (alive o) d []).0) in
      (s.result ≡ true)
      × (s.driver.fd ≡ d.fd)
      × (s.driver.connections ≡ d.connections)
      × (s.closed ≡ [])
unfolding start_listener
afsocket_sd_init-afsocket_sd_deinit o c d listens setup =
    rw (init-deinit o c d, start_listener, listens, setup) (refl, refl, refl, refl)

abbrev none_yet : AfSocketSourceDriver
none_yet = record { fd = 0; connections = []; num_connections = pos 0 }

-- A stream source that is optional and kept alive cannot open its socket, so that it starts without
-- one. At the next reload descriptor 0 is taken for its listener, even if now a socket could be
-- opened. If listen fails on descriptor 0, init fails, as no optional source should, and closes it.
pub afsocket_sd_init_optional :
    (o : Options) (c c' : Calls)
    → o.optional ≡ true
    → c.opened ≡ none
    → c'.listens 0 ≡ false
    → let s = afsocket_sd_init (alive o) c afsocket_sd_init_instance (some []) in
      let s' =
        afsocket_sd_init
          (alive o)
          c'
          afsocket_sd_init_instance
          (some (afsocket_sd_deinit (alive o) s.driver []).0) in
      (s.result ≡ true) × (s'.result ≡ false) × (s'.closed ≡ 0 ∷ [])
unfolding afsocket_sd_init afsocket_sd_init_instance persist_config_fetch start_listener
afsocket_sd_init_optional o c c' optional unopened refused =
    let first : afsocket_sd_init (alive o) c afsocket_sd_init_instance (some []) ≡ record {
      driver = inherits none_yet;
      persist = some [];
      closed = [];
      result = o.optional;
    } =
      ap (start_listener (alive o) c (inherits none_yet) (some [])) unopened in
    rw (first, init-deinit o c' (inherits none_yet), refused) (optional, refl, refl)
