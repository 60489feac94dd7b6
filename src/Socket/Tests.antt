-- ===== src/Socket/Tests.antt =====
-- Sources and destinations with sockets at concrete values.
use indigo.Prelude.{◌+◌, ◌≤◌, ◌≡◌, refl, true, false, none, some, List, [], ◌∷◌, length, arith}
use indigo.Prelude.Bytes.{codes}
use indigo.Prelude.Int.{pos, negsuc, ◌+ℤ◌, ◌-ℤ◌}
use indigo.Socket.{
  Options, AfSocketSourceDriver, Calls, afsocket_sd_init_instance, afsocket_sd_init,
  afsocket_sd_deinit,
}
use indigo.Persist.{persist_config_fetch}
use indigo.Socket.Limit.{Event, accept, ended, reload, run, start, run_limit}
use indigo.Socket.Listener.{alive, afsocket_sd_init-afsocket_sd_deinit, afsocket_sd_init_optional}
use indigo.Socket.Dest
use indigo.Socket.Dest.{
  no_error, in_progress, no_socket, pending, timer_fired, connect_ready, broken, restarted,
  afsocket_dd_init, new,
}
use indigo.Socket.Dest.Alive.{IsAlive, run_alive}

abbrev options : Options
options = record {
  stream = true;
  keep_alive = true;
  optional = true;
  max_connections = 2;
  bind_addr = codes "AF_UNIX(/dev/log)";
}

abbrev calls : Calls
calls = record { opened = some 5; listens = λ fd. true; setup = λ fd. true; setup_none = true }

-- three connections, of which the last is too many; a reload; and one more and the end of two
abbrev events : List Event
events =
    accept (some 6) true true
    ∷ accept (some 7) true true
    ∷ accept (some 8) true true
    ∷ reload calls
    ∷ accept (some 9) true true
    ∷ ended 6
    ∷ ended 7
    ∷ []

run_limit_example :
    ((run options events (start options calls)).driver.num_connections
      ≡ pos (length (run options events (start options calls)).driver.connections)
        -ℤ pos (run options events (start options calls)).inherited)
    × (length (run options events (start options calls)).driver.connections
        ≤ options.max_connections + (run options events (start options calls)).inherited)
run_limit_example = run_limit options calls events

-- the count is below 0 while a connection is there
undercounted :
    ((run options events (start options calls)).driver.connections ≡ 9 ∷ [])
    × ((run options events (start options calls)).driver.num_connections ≡ negsuc 0)
unfolding run start persist_config_fetch ◌+ℤ◌ ◌-ℤ◌ indigo.Socket.afsocket_sd_format_persist_name
undercounted = (refl, refl)

abbrev kept : AfSocketSourceDriver
kept = record { fd = 5; connections = 6 ∷ 7 ∷ []; num_connections = pos 2 }

afsocket_sd_init-afsocket_sd_deinit_example :
    ((afsocket_sd_init
        (alive options)
        calls
        afsocket_sd_init_instance
        (some (afsocket_sd_deinit (alive options) kept []).0)).result
      ≡ true)
    × ((afsocket_sd_init
          (alive options)
          calls
          afsocket_sd_init_instance
          (some (afsocket_sd_deinit (alive options) kept []).0)).driver.fd
        ≡ 5)
    × ((afsocket_sd_init
          (alive options)
          calls
          afsocket_sd_init_instance
          (some (afsocket_sd_deinit (alive options) kept []).0)).driver.connections
        ≡ 6 ∷ 7 ∷ [])
    × ((afsocket_sd_init
          (alive options)
          calls
          afsocket_sd_init_instance
          (some (afsocket_sd_deinit (alive options) kept []).0)).closed
        ≡ [])
afsocket_sd_init-afsocket_sd_deinit_example =
    afsocket_sd_init-afsocket_sd_deinit options calls kept refl refl

abbrev nothing_opens : Calls
nothing_opens = record {
  opened = none;
  listens = λ fd. true;
  setup = λ fd. true;
  setup_none = true;
}

abbrev no_listen : Calls
no_listen = record { opened = some 5; listens = λ fd. false; setup = λ fd. true; setup_none = true }

afsocket_sd_init_optional_example :
    ((afsocket_sd_init (alive options) nothing_opens afsocket_sd_init_instance (some [])).result
      ≡ true)
    × ((afsocket_sd_init (alive options) no_listen afsocket_sd_init_instance (
          some
            (afsocket_sd_deinit
              (alive options)
              (afsocket_sd_init
                (alive options)
                nothing_opens
                afsocket_sd_init_instance
                (some [])).driver
              []).0)).result
        ≡ false)
    × ((afsocket_sd_init (alive options) no_listen afsocket_sd_init_instance (
          some
            (afsocket_sd_deinit
              (alive options)
              (afsocket_sd_init
                (alive options)
                nothing_opens
                afsocket_sd_init_instance
                (some [])).driver
              []).0)).closed
        ≡ 0 ∷ [])
afsocket_sd_init_optional_example =
    afsocket_sd_init_optional options nothing_opens no_listen refl refl refl

-- a connection that is refused, one that comes up later and breaks, and a restart
run_alive_example : IsAlive (
    Dest.run true
      (connect_ready pending
        ∷ timer_fired in_progress
        ∷ connect_ready no_error
        ∷ broken
        ∷ restarted no_socket
        ∷ [])
      (afsocket_dd_init true in_progress (new 1)))
run_alive_example =
    run_alive true in_progress
      (connect_ready pending
        ∷ timer_fired in_progress
        ∷ connect_ready no_error
        ∷ broken
        ∷ restarted no_socket
        ∷ [])
      1 (omega arith)
