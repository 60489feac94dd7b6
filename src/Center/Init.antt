-- ===== src/Center/Init.antt =====
-- log_connection_new and log_center_init of src/center.c: the log statements of
-- a configuration, the references they make, and the start of its sources and destinations.
use Prim.Native.String.{String}
use text.Mathlib.Text.{◌==◌ as str_eq}
use indigo.Prelude.{Bool, true, false, Option, none, some, List, [], ◌∷◌, map, if◌then◌else◌}
use indigo.Ack.{◌>>=◌}
use indigo.Center.{LogConnection}

-- EP_SOURCE, EP_FILTER, EP_DESTINATION
pub data EndpointType : Type 0 where
  ep_source ep_filter ep_destination : EndpointType

pub record LogEndpoint : Type 0 where
  pub type : EndpointType
  pub name : String

-- the LC_* flags of a log statement
pub record Flags : Type 0 where
  pub catchall : Bool
  pub fallback : Bool
  pub final : Bool
  pub flow_control : Bool

-- a LogConnection before init: the names in its arrays
pub record Statement : Type 0 where
  pub sources : List String
  pub filters : List String
  pub destinations : List String
  pub flags : Flags

-- the loop of log_connection_new
unfoldable pub log_connection_new : List LogEndpoint → Flags → Statement
log_connection_new [] flags = record {
  sources = [];
  filters = [];
  destinations = [];
  flags = flags;
}
log_connection_new (ep ∷ eps) flags =
    let rest = log_connection_new eps flags in
    elim ep.type [
      | ep_source ↦ record rest { sources = ep.name ∷ rest.sources }
      | ep_filter ↦ record rest { filters = ep.name ∷ rest.filters }
      | ep_destination ↦ record rest { destinations = ep.name ∷ rest.destinations }
    ]

-- g_hash_table_lookup on a table of names
unfoldable pub lookup {ℓ} : {X : Type ℓ} → List (String × X) → String → Option X
lookup [] name = none
lookup ((key, x) ∷ table) name =
    let rest = lookup table name in if str_eq key name then some x else rest

-- a loop over the endpoints of one array: every name has an object
unfoldable pub resolve : {X : Type 0} → List (String × X) → List String → Option (List X)
unfolding lookup
resolve table [] = some []
resolve table (name ∷ names) = do x ← lookup table name; xs ← resolve table names; some (x ∷ xs)

-- the tables of a GlobalConfig, in the order in which a hash table goes over them
pub record Config (S F D : Type 0) : Type 0 where
  pub sources : List (String × S)
  pub filters : List (String × F)
  pub destinations : List (String × D)
  pub connections : List Statement

-- the loop of g_hash_table_foreach with log_center_init_component or log_center_deinit_component:
-- after a failure no more are called; `success` and those that were called
unfoldable pub init_components : {P : Type 0} → (P → Bool) → Bool → List P → Bool × List P
init_components init success [] = (success, [])
init_components init true (p ∷ ps) =
    let (success, called) = init_components init (init p) ps in (success, p ∷ called)
init_components init false (p ∷ ps) = init_components init false ps

module _ {S F D : Type 0} (cfg : Config S F D) where
  -- the references of one log statement
  unfoldable pub resolve_connection : Statement → Option (LogConnection F D)
  unfolding resolve
  resolve_connection st = do
    _ ← resolve cfg.sources st.sources
    filters ← resolve cfg.filters st.filters
    destinations ← resolve cfg.destinations st.destinations
    some record {
      source_cache = st.sources;
      filters = filters;
      destinations = destinations;
      catchall = st.flags.catchall;
      fallback = st.flags.fallback;
      final = st.flags.final;
      flow_control = st.flags.flow_control;
    }

  unfoldable pub resolve_connections : List Statement → Option (List (LogConnection F D))
  unfolding resolve_connection
  resolve_connections [] = some []
  resolve_connections (st ∷ sts) = do
    c ← resolve_connection st
    cs ← resolve_connections sts
    some (c ∷ cs)

  -- log_center_init: the connections that are routed by, or `none` for FALSE, and the calls of init
  unfoldable pub log_center_init :
      (init_source : S → Bool)
      → (init_dest : D → Bool) → Option (List (LogConnection F D)) × List S × List D
  unfolding resolve_connections init_components
  log_center_init init_source init_dest = elim (resolve_connections cfg.connections) [
    | none ↦ (none, [], [])
    | some cs ↦
        let (sources_up, ss) = init_components init_source true (map (λ e. e.1) cfg.sources) in
        let (dests_up, ds) = init_components init_dest true (map (λ e. e.1) cfg.destinations) in
        if sources_up then (if dests_up then some cs else none, ss, ds) else (none, ss, [])
  ]
