-- ===== src/Center/Tests.antt =====
-- Messages through the center, and its theorems at concrete values.
use indigo.Prelude.{
  ℕ, ◌≡◌, refl, Bool, true, false, some, List, [], ◌∷◌, arith, ◌==◌, if◌then◌else◌, is_empty, map,
}
use indigo.Prelude.Int.{pos, ◌-ℤ◌}
use indigo.Ack.{Flow, ◌>>=◌, log_source_queue}
use indigo.Center.{LogConnection, route, center_flow}
use indigo.Center.Routing.{taking, all_targets, route_lem}
use indigo.Center.Init.{Config, ep_source, ep_destination, log_connection_new, log_center_init}
use indigo.Center.Started.{AllResolved, all_up, log_center_init_lem}
use indigo.Center.Out.{acks, settle_all}
use indigo.Center.Settling.{deferred, fresh, finished, flow_balance}

abbrev to : ℕ → Bool → Bool → LogConnection Bool ℕ
to d fallback final = record {
  source_cache = "s_net" ∷ [];
  filters = true ∷ [];
  destinations = d ∷ [];
  catchall = false;
  fallback = fallback;
  final = final;
  flow_control = d == 1;
}

abbrev statements : List (LogConnection Bool ℕ)
statements = to 9 true false ∷ to 1 false false ∷ to 2 false true ∷ to 3 false false ∷ []

-- up to the final statement, and not to the fallback
route-statements : route (λ b. b) "s_net" statements ≡ (1, true) ∷ (2, false) ∷ []
unfolding route
route-statements = refl

route_lem_example : route (λ b. b) "s_local" statements ≡ (
    if is_empty (taking (λ b. b) "s_local" false statements)
    then all_targets (λ b. b) "s_local" (taking (λ b. b) "s_local" true statements)
    else all_targets (λ b. b) "s_local" (taking (λ b. b) "s_local" false statements))
route_lem_example = route_lem (λ b. b) "s_local" statements

abbrev now : ℕ → Bool
now d = d == 2

abbrev goals : List (ℕ × Bool)
goals = (1, true) ∷ (2, true) ∷ (3, false) ∷ []

-- destination 3 has settled the message, and destination 1 has not
flow_balance_example :
    (m : Flow) × (m' : Flow) × ((log_source_queue (fresh (pos 100) 1) >>= center_flow now goals)
      ≡ some m)
    × (settle_all (false ∷ []) m ≡ some m')
    × (m'.window_size ≡ (if acks (true ∷ []) == 0 then pos 100 else pos 100 -ℤ pos 1))
    × (m'.freed ≡ is_empty {A = Bool} (true ∷ []))
    × (settle_all (true ∷ []) m' ≡ some (finished (pos 100) 1))
unfolding acks deferred
flow_balance_example =
    flow_balance now (pos 100) 1 goals (false ∷ []) (true ∷ []) (omega arith) (omega arith) refl
      refl

-- one source, no filter and one destination
abbrev small : Config ℕ ℕ ℕ
small = record {
  sources = ("s", 1) ∷ [];
  filters = [];
  destinations = ("d", 2) ∷ [];
  connections =
      log_connection_new
        (record { type = ep_source; name = "s" }
          ∷ record { type = ep_destination; name = "d" }
          ∷ [])
        (record { catchall = false; fallback = false; final = true; flow_control = false })
      ∷ [];
}

abbrev small_connection : LogConnection ℕ ℕ
small_connection = record {
  source_cache = "s" ∷ [];
  filters = [];
  destinations = 2 ∷ [];
  catchall = false;
  fallback = false;
  final = true;
  flow_control = false;
}

small_starts :
    log_center_init small (λ s. true) (λ d. true) ≡ (some (small_connection ∷ []), 1 ∷ [], 2 ∷ [])
unfolding log_center_init log_connection_new
small_starts = refl

log_center_init_lem_example :
    AllResolved small small.connections (small_connection ∷ [])
    × (all_up {P = ℕ} (λ s. true) (1 ∷ []) ≡ true)
    × (all_up {P = ℕ} (λ d. true) (2 ∷ []) ≡ true)
    × ((1 ∷ []) ≡ map (λ e. e.1) small.sources)
    × ((2 ∷ []) ≡ map (λ e. e.1) small.destinations)
log_center_init_lem_example =
    log_center_init_lem small (λ s. true) (λ d. true) (small_connection ∷ []) (1 ∷ []) (2 ∷ [])
      small_starts
