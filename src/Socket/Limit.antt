-- ===== src/Socket/Limit.antt =====
-- The count of the connections of a socket source, and its limit.
use indigo.Prelude.{
  ℕ, suc, ◌+◌, ◌≤◌, ◌≡◌, refl, sym, ap, subst, ◌∙◌, Bool, true, false, not, ◌||◌, Option, none,
  some, List, [], ◌∷◌, if◌then◌else◌, is_empty, length, Bool-cases, Option-cases, inl, inr, arith,
}
use indigo.Prelude.Bytes.{same, same_refl}
use indigo.Prelude.Int.{pos, ◌+ℤ◌, ◌-ℤ◌, ◌≤ℤ◌, -ℤ_parts, eq_of_parts, pos_part, neg_part}
use indigo.Persist.{
  PersistentConfig, persist_config_add, persist_config_fetch, persist_config_add_entry,
}
use indigo.Socket.{
  Options, AfSocketSourceDriver, Kept, afsocket_sd_init_instance, remove,
  afsocket_sd_process_connection, afsocket_sd_accept, afsocket_sd_close_connection,
  afsocket_sc_notify, afsocket_sd_format_persist_name, kept_connections, Calls, start_listener,
  open_datagram, start_datagram, afsocket_sd_init, afsocket_sd_deinit,
}

-- What happens to a driver: g_accept returns; a connection ends; the configuration is reloaded.
pub data Event : Type 0 where
  accept : (accepted : Option ℕ) → (setup allowed : Bool) → Event
  ended : ℕ → Event
  reload : Calls → Event

-- a driver, with the number of connections it got from the last configuration
pub record State : Type 0 where
  pub driver : AfSocketSourceDriver
  pub inherited : ℕ

-- afsocket_sd_deinit, and afsocket_sd_init of a new driver with the same options
unfoldable pub reloaded : Options → Calls → AfSocketSourceDriver → AfSocketSourceDriver
unfolding afsocket_sd_deinit afsocket_sd_init afsocket_sd_init_instance
reloaded o c d =
    (afsocket_sd_init o c afsocket_sd_init_instance (some (afsocket_sd_deinit o d []).0)).driver

unfoldable pub step : Options → Event → State → State
unfolding afsocket_sd_accept afsocket_sc_notify reloaded
step o (accept accepted setup allowed) s = record s {
  driver = (afsocket_sd_accept o accepted setup allowed s.driver).0;
}
step o (ended fd) s = record s { driver = (afsocket_sc_notify o s.driver fd).0 }
step o (reload c) s = record {
  driver = reloaded o c s.driver;
  inherited = if o.keep_alive then length s.driver.connections else 0;
}

unfoldable pub run : Options → List Event → State → State
unfolding step
run o [] s = s
run o (e ∷ es) s = run o es (step o e s)

-- a driver that is started for the first time
unfoldable pub start : Options → Calls → State
unfolding afsocket_sd_init afsocket_sd_init_instance
start o c = record {
  driver = (afsocket_sd_init o c afsocket_sd_init_instance (some [])).driver;
  inherited = 0;
}

-- the count of the connections, less those that were inherited
pub record IsCounted (max_connections inherited : ℕ) (d : AfSocketSourceDriver) : Type 0 where
  pub counted :
      pos_part d.num_connections + inherited ≡ length d.connections + neg_part d.num_connections
  pub limited : d.num_connections ≤ℤ pos max_connections

process-IsCounted :
    (o : Options) (allowed : Bool) (inherited : ℕ) (d : AfSocketSourceDriver) (fd : ℕ)
    → IsCounted o.max_connections inherited d
    → IsCounted o.max_connections inherited (afsocket_sd_process_connection o allowed d fd).0
unfolding afsocket_sd_process_connection ◌+ℤ◌
process-IsCounted o allowed inherited d fd v = ground arith

remove-length : (fd : ℕ) (cs cs' : List ℕ) → remove fd cs ≡ some cs' → length cs ≡ suc (length cs')
unfolding remove
remove-length fd [] cs' h = absurd ((cc))
remove-length fd (c ∷ cs) cs' h = elim (Option-cases (remove fd cs)) [
  | inl gone ↦ ground arith
  | inr (r, e) ↦ ground (arith, remove-length fd cs r e)
]

close-IsCounted :
    (o : Options) (inherited : ℕ) (d : AfSocketSourceDriver) (fd : ℕ)
    → IsCounted o.max_connections inherited d
    → IsCounted o.max_connections inherited (afsocket_sd_close_connection d fd).0
unfolding afsocket_sd_close_connection ◌-ℤ◌
close-IsCounted o inherited d fd v = elim (Option-cases (remove fd d.connections)) [
  | inl gone ↦ rw (gone, afsocket_sd_close_connection) v
  | inr (cs, e) ↦
      rw (e, afsocket_sd_close_connection) (ground (arith, remove-length fd d.connections cs e))
]

start_listener-IsCounted :
    (o : Options) (c : Calls) (inherited : ℕ) (d : AfSocketSourceDriver)
    (persist : Option (PersistentConfig Kept)) (sock : Option ℕ)
    → IsCounted o.max_connections inherited d
    → IsCounted o.max_connections inherited (start_listener o c d persist sock).driver
unfolding start_listener
start_listener-IsCounted o c inherited d persist none v = v
start_listener-IsCounted o c inherited d persist (some sock) v =
    elim (Bool-cases (not (c.listens sock) || not (c.setup sock))) [
      | inl failed ↦ rw failed v
      | inr ready ↦ rw ready (record { counted = v.counted; limited = v.limited })
    ]

open_datagram-IsCounted :
    (o : Options) (c : Calls) (inherited : ℕ) (d : AfSocketSourceDriver)
    (persist : Option (PersistentConfig Kept)) (opened : Option ℕ)
    → IsCounted o.max_connections inherited d
    → IsCounted o.max_connections inherited (open_datagram o c d persist opened).driver
unfolding open_datagram
open_datagram-IsCounted o c inherited d persist none v = v
open_datagram-IsCounted o c inherited d persist (some sock) v =
    elim (Bool-cases (not (c.setup sock))) [
      | inl failed ↦ rw failed v
      | inr ready ↦ rw ready (process-IsCounted o true inherited d sock v)
    ]

start_datagram-IsCounted :
    (o : Options) (c : Calls) (inherited : ℕ) (d : AfSocketSourceDriver)
    (persist : Option (PersistentConfig Kept))
    → IsCounted o.max_connections inherited d
    → IsCounted o.max_connections inherited (start_datagram o c d persist).driver
unfolding start_datagram
start_datagram-IsCounted o c inherited d persist v = elim (Bool-cases (is_empty d.connections)) [
  | inr kept ↦ rw kept v
  | inl new ↦ rw new (open_datagram-IsCounted o c inherited d persist c.opened v)
]

-- the names of a listener and of connections are different
pub names_differ :
    (o : Options) (b : Bool)
    → same (afsocket_sd_format_persist_name o b) (afsocket_sd_format_persist_name o (not b)) ≡ false
unfolding afsocket_sd_format_persist_name
names_differ o true = refl
names_differ o false = refl

-- what is kept of the connections is fetched again
fetch-deinit :
    (o : Options) (d : AfSocketSourceDriver)
    → o.keep_alive ≡ true
    → kept_connections
        (persist_config_fetch
          (some (afsocket_sd_deinit o d []).0)
          (afsocket_sd_format_persist_name o false)).0
      ≡ d.connections
unfolding afsocket_sd_deinit persist_config_fetch
fetch-deinit o d keep = by_flags o.keep_alive o.stream keep d.connections
  where
    by_flags :
        (keep_alive stream : Bool)
        → keep_alive ≡ true
        → (cs : List ℕ)
        → kept_connections
            (persist_config_fetch
              (some
                (afsocket_sd_deinit
                  (record o { keep_alive = keep_alive; stream = stream })
                  (record d { connections = cs })
                  []).0)
              (afsocket_sd_format_persist_name
                (record o { keep_alive = keep_alive; stream = stream })
                false)).0
          ≡ cs
    by_flags false stream keep cs = absurd ((cc))
    by_flags true false keep [] = refl
    by_flags true true keep [] =
        rw (names_differ (record o { keep_alive = true; stream = true }) true, persist_config_fetch)
          refl
    by_flags true false keep (c ∷ cs) =
        rw
          (
            same_refl (
                afsocket_sd_format_persist_name (record o { keep_alive = true; stream = false })
                  false),
            persist_config_fetch,
          )
          refl
    by_flags true true keep (c ∷ cs) =
        let o' = record o { keep_alive = true; stream = true } in
        rw
          (
            names_differ o' false,
            persist_config_add,
            persist_config_add_entry,
            same_refl (afsocket_sd_format_persist_name o' false),
            persist_config_fetch,
          )
          refl

-- a driver with connections that it has not counted
abbrev uncounted : List ℕ → AfSocketSourceDriver
uncounted cs = record { fd = 0; connections = cs; num_connections = pos 0 }

uncounted-IsCounted :
    (o : Options) (cs : List ℕ) → IsCounted o.max_connections (length cs) (uncounted cs)
uncounted-IsCounted o cs = record { counted = omega arith; limited = omega arith }

-- the connections that init finds
abbrev found : Options → Option (PersistentConfig Kept) → List ℕ
found o persist =
    if o.keep_alive
    then kept_connections (persist_config_fetch persist (afsocket_sd_format_persist_name o false)).0
    else []

-- init counts none of them
init-IsCounted :
    (o : Options) (c : Calls) (persist : Option (PersistentConfig Kept))
    → IsCounted o.max_connections
        (length (found o persist))
        (afsocket_sd_init o c afsocket_sd_init_instance persist).driver
unfolding afsocket_sd_init afsocket_sd_init_instance
init-IsCounted o c persist = by_flags o.keep_alive o.stream
  where
    by_flags :
        (keep_alive stream : Bool)
        → IsCounted o.max_connections
            (length (found (record o { keep_alive = keep_alive; stream = stream }) persist))
            (afsocket_sd_init
              (record o { keep_alive = keep_alive; stream = stream })
              c
              afsocket_sd_init_instance
              persist).driver
    by_flags true true =
        start_listener-IsCounted (record o { keep_alive = true; stream = true }) c _ _ _ _
          (uncounted-IsCounted o _)
    by_flags true false =
        start_datagram-IsCounted (record o { keep_alive = true; stream = false }) c _ _ _
          (uncounted-IsCounted o _)
    by_flags false true =
        start_listener-IsCounted (record o { keep_alive = false; stream = true }) c _ _ _ _
          (uncounted-IsCounted o [])
    by_flags false false =
        start_datagram-IsCounted (record o { keep_alive = false; stream = false }) c _ _ _
          (uncounted-IsCounted o [])

found-deinit :
    (o : Options) (d : AfSocketSourceDriver)
    → found o (some (afsocket_sd_deinit o d []).0) ≡ (if o.keep_alive then d.connections else [])
found-deinit o d = elim (Bool-cases o.keep_alive) [
  | inl keep ↦
      subst (λ b. if_keep b ≡ (if b then d.connections else [])) (sym keep) (fetch-deinit o d keep)
  | inr drop ↦ subst (λ b. if_keep b ≡ (if b then d.connections else [])) (sym drop) refl
]
  where
    if_keep : Bool → List ℕ
    if_keep b =
        if b
        then kept_connections
            (persist_config_fetch (some (afsocket_sd_deinit o d []).0)
              (afsocket_sd_format_persist_name o false)).0
        else []

if_length : (b : Bool) (cs : List ℕ) → length (if b then cs else []) ≡ (if b then length cs else 0)
if_length true cs = refl
if_length false cs = refl

accept-IsCounted :
    (o : Options) (accepted : Option ℕ) (setup allowed : Bool) (inherited : ℕ)
    (d : AfSocketSourceDriver)
    → IsCounted o.max_connections inherited d
    → IsCounted o.max_connections inherited (afsocket_sd_accept o accepted setup allowed d).0
unfolding afsocket_sd_accept
accept-IsCounted o none setup allowed inherited d v = v
accept-IsCounted o (some fd) false allowed inherited d v = v
accept-IsCounted o (some fd) true allowed inherited d v =
    process-IsCounted o allowed inherited d fd v

step-IsCounted :
    (o : Options) (e : Event) (s : State)
    → IsCounted o.max_connections s.inherited s.driver
    → IsCounted o.max_connections (step o e s).inherited (step o e s).driver
unfolding step reloaded
step-IsCounted o (accept accepted setup allowed) s v =
    accept-IsCounted o accepted setup allowed s.inherited s.driver v
step-IsCounted o (ended fd) s v = elim (Bool-cases o.stream) [
  | inl stream ↦
      subst
        (λ b.
          IsCounted o.max_connections s.inherited
            (if b then afsocket_sd_close_connection s.driver fd else (s.driver, [])).0)
        (sym stream) (close-IsCounted o s.inherited s.driver fd v)
  | inr datagram ↦
      subst
        (λ b.
          IsCounted o.max_connections s.inherited
            (if b then afsocket_sd_close_connection s.driver fd else (s.driver, [])).0)
        (sym datagram) v
]
step-IsCounted o (reload c) s v =
    subst (λ n. IsCounted o.max_connections n (reloaded o c s.driver))
      (ap length (found-deinit o s.driver) ∙ if_length o.keep_alive s.driver.connections)
      (init-IsCounted o c (some (afsocket_sd_deinit o s.driver []).0))

run-IsCounted :
    (o : Options) (es : List Event) (s : State)
    → IsCounted o.max_connections s.inherited s.driver
    → IsCounted o.max_connections (run o es s).inherited (run o es s).driver
unfolding run
run-IsCounted o [] s v = v
run-IsCounted o (e ∷ es) s v = run-IsCounted o es (step o e s) (step-IsCounted o e s v)

start-IsCounted : (o : Options) (c : Calls) → IsCounted o.max_connections 0 (start o c).driver
unfolding start persist_config_fetch
start-IsCounted o c =
    subst
      (λ n.
        IsCounted o.max_connections n
          (afsocket_sd_init o c afsocket_sd_init_instance (some [])).driver)
      (none_found o.keep_alive) (init-IsCounted o c (some []))
  where
    none_found :
        (b : Bool)
        → length (
            if b
            then kept_connections
                (persist_config_fetch (some []) (afsocket_sd_format_persist_name o false)).0
            else [])
          ≡ 0
    none_found true = refl
    none_found false = refl

limit_of :
    (max_connections inherited : ℕ) (d : AfSocketSourceDriver)
    → IsCounted max_connections inherited d
    → (d.num_connections ≡ pos (length d.connections) -ℤ pos inherited)
      × (length d.connections ≤ max_connections + inherited)
limit_of max_connections inherited d v =
    let e = -ℤ_parts (pos (length d.connections)) (pos inherited) in
    (
      eq_of_parts d.num_connections (pos (length d.connections) -ℤ pos inherited)
          (omega (arith, e, v.counted)),
      omega (arith, v.counted, v.limited),
    )

-- A socket source starts, and then connections come and go and the configuration is reloaded, in
-- any order. Its count of connections is the number of its connections less those that it
-- inherited at the last reload, so it has max_connections and those that it inherited at most;
-- without keep-alive it inherits none.
pub run_limit :
    (o : Options) (c : Calls) (es : List Event)
    → let s = run o es (start o c) in
      (s.driver.num_connections ≡ pos (length s.driver.connections) -ℤ pos s.inherited)
      × (length s.driver.connections ≤ o.max_connections + s.inherited)
unfolding start
run_limit o c es =
    let s = run o es (start o c) in
    limit_of o.max_connections s.inherited s.driver
      (run-IsCounted o es (start o c) (start-IsCounted o c))
