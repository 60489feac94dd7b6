-- ===== src/Center/Started.antt =====
-- What holds once log_center_init has succeeded.
use Prim.Native.String.{String}
use indigo.Prelude.{
  ◌≡◌, refl, ap, ap₂, sym, ◌∙◌, subst, Bool, true, false, ◌&&◌, Option, none, some, List, [], ◌∷◌,
  map, if◌then◌else◌, Bool-cases, inl, inr, arith,
}
use indigo.Ack.{◌>>=◌}
use indigo.Center.{LogConnection}
use indigo.Center.Init.{
  Config, Statement, lookup, resolve, resolve_connection, resolve_connections, init_components,
  log_center_init,
}

-- every component comes up
pub all_up : {P : Type 0} → (P → Bool) → List P → Bool
all_up init [] = true
all_up init (p ∷ ps) = init p && all_up init ps

init_components-false :
    {P : Type 0} (init : P → Bool) (ps : List P) → init_components init false ps ≡ (false, [])
unfolding init_components
init_components-false init [] = refl
init_components-false init (p ∷ ps) = init_components-false init ps

-- a loop that succeeds has called all, and all have come up
init_components-true :
    {P : Type 0} (init : P → Bool) (ps : List P)
    → (init_components init true ps).0 ≡ true
    → (all_up init ps ≡ true) × ((init_components init true ps).1 ≡ ps)
unfolding init_components all_up
init_components-true init [] h = (refl, refl)
init_components-true init (p ∷ ps) h = elim (Bool-cases (init p)) [
  | inl up ↦
      let (all, same) =
        init_components-true init ps (subst (λ b. (init_components init b ps).0 ≡ true) up h) in
      (rw up all, rw up (ap (◌∷◌ p) same))
  | inr down ↦ absurd (
      false_true (
        sym (ap (λ r. r.0) (init_components-false init ps))
        ∙ subst (λ b. (init_components init b ps).0 ≡ true) down h))
]
  where
    false_true : false ≡ true → ⊥
    false_true e = ground arith

none-some : {A : Type 0} (a : A) → none ≡ some a → ⊥
none-some a e = ground arith

some-injective : {A : Type 0} (a b : A) → some a ≡ some b → a ≡ b
some-injective a b e = ap (λ o. elim o [ none ↦ a | some x ↦ x ]) e

-- a chain of results that ends in one went through all its steps
bind_some :
    {A B : Type 0} (o : Option A) (k : A → Option B) (b : B)
    → (o >>= k) ≡ some b
    → (a : A) × ((o ≡ some a) × (k a ≡ some b))
bind_some none k b h = absurd (none-some b h)
bind_some (some a) k b h = (a, (refl, h))

-- the names have the objects of the table
resolve-lookup :
    {X : Type 0} (table : List (String × X)) (names : List String) (xs : List X)
    → resolve table names ≡ some xs
    → map (lookup table) names ≡ map some xs
unfolding resolve
resolve-lookup table [] xs h = ap (map some) (some-injective [] xs h)
resolve-lookup table (name ∷ names) xs h =
    let (x, (found, h')) = bind_some (lookup table name) _ xs h in
    let (ys, (rest, h'')) = bind_some (resolve table names) _ xs h' in
    ap₂ (λ o os. o ∷ os) found (resolve-lookup table names ys rest)
    ∙ ap (map some) (some-injective (x ∷ ys) xs h'')

-- the end of log_center_init, of what the resolving and the two loops have given
abbrev ended :
    {C S D : Type 0} → Option C → Bool × List S → Bool × List D → Option C × List S × List D
ended o (sources_up, ss) (dests_up, ds) = elim o [
  | none ↦ (none, [], [])
  | some cs ↦ if sources_up then (if dests_up then some cs else none, ss, ds) else (none, ss, [])
]

parts :
    {C S D : Type 0} (cs : C) (ss : List S) (ds : List D) (o : Option C) (rs : Bool × List S)
    (rd : Bool × List D)
    → ended o rs rd ≡ (some cs, ss, ds)
    → (o ≡ some cs) × (rs.0 ≡ true) × (rd.0 ≡ true) × (rs.1 ≡ ss) × (rd.1 ≡ ds)
parts cs ss ds none rs rd h = absurd (none-some cs (ap (λ r. r.0) h))
parts cs ss ds (some c) (true, l) (true, l') h =
    (ap (λ r. r.0) h, refl, refl, ap (λ r. r.1) h, ap (λ r. r.2) h)
parts cs ss ds (some c) (true, l) (false, l') h = absurd (none-some cs (ap (λ r. r.0) h))
parts cs ss ds (some c) (false, l) (b, l') h = absurd (none-some cs (ap (λ r. r.0) h))

module _ {S F D : Type 0} (cfg : Config S F D) where
  -- a connection has the objects that its statement names, in order, and its flags
  pub record IsResolved (st : Statement) (c : LogConnection F D) : Type 0 where
    pub sources : c.source_cache ≡ st.sources
    pub filters : map (lookup cfg.filters) st.filters ≡ map some c.filters
    pub destinations : map (lookup cfg.destinations) st.destinations ≡ map some c.destinations
    pub catchall : c.catchall ≡ st.flags.catchall
    pub fallback : c.fallback ≡ st.flags.fallback
    pub final : c.final ≡ st.flags.final
    pub flow_control : c.flow_control ≡ st.flags.flow_control

  -- and the sources it names are there
  pub AllResolved : List Statement → List (LogConnection F D) → Type 0
  AllResolved [] [] = Unit
  AllResolved (st ∷ sts) (c ∷ cs) =
      ((ss : List S) × (map (lookup cfg.sources) st.sources ≡ map some ss))
      × (IsResolved st c × AllResolved sts cs)
  AllResolved _ _ = ⊥

  resolve_connections-AllResolved :
      (sts : List Statement) (cs : List (LogConnection F D))
      → resolve_connections cfg sts ≡ some cs
      → AllResolved sts cs
  unfolding resolve_connections AllResolved resolve_connection
  resolve_connections-AllResolved [] cs h = subst (AllResolved []) (some-injective [] cs h) tt
  resolve_connections-AllResolved (st ∷ sts) cs h =
      let (c, (one, h')) = bind_some (resolve_connection cfg st) _ cs h in
      let (cs', (rest, h'')) = bind_some (resolve_connections cfg sts) _ cs h' in
      let (ss, (found, g)) = bind_some (resolve cfg.sources st.sources) _ c one in
      let (fs, (filters, g')) = bind_some (resolve cfg.filters st.filters) _ c g in
      let (ds, (dests, g'')) = bind_some (resolve cfg.destinations st.destinations) _ c g' in
      subst (AllResolved (st ∷ sts)) (some-injective (c ∷ cs') cs h'') (
        (ss, resolve-lookup cfg.sources st.sources ss found),
        (
          subst (IsResolved st) (some-injective _ c g'') record {
            sources = refl;
            filters = resolve-lookup cfg.filters st.filters fs filters;
            destinations = resolve-lookup cfg.destinations st.destinations ds dests;
            catchall = refl;
            fallback = refl;
            final = refl;
            flow_control = refl;
          },
          resolve_connections-AllResolved sts cs' rest,
        ),
      )

  -- When log_center_init succeeds, every name in the log statements has its object, the connections
  -- that messages are routed by have these objects in the order of the statements with their flags,
  -- and every source and then every destination has been initialized, with success.
  pub log_center_init_lem :
      (init_source : S → Bool) (init_dest : D → Bool) (cs : List (LogConnection F D)) (ss : List S)
      (ds : List D)
      → log_center_init cfg init_source init_dest ≡ (some cs, ss, ds)
      → AllResolved cfg.connections cs
        × (all_up init_source ss ≡ true)
        × (all_up init_dest ds ≡ true)
        × (ss ≡ map (λ e. e.1) cfg.sources)
        × (ds ≡ map (λ e. e.1) cfg.destinations)
  unfolding log_center_init
  log_center_init_lem init_source init_dest cs ss ds h =
      let (resolved, up_s, up_d, called_s, called_d) =
        parts cs ss ds (resolve_connections cfg cfg.connections)
          (init_components init_source true (map (λ e. e.1) cfg.sources))
          (init_components init_dest true (map (λ e. e.1) cfg.destinations)) h in
      let (all_s, same_s) = init_components-true init_source (map (λ e. e.1) cfg.sources) up_s in
      let (all_d, same_d) = init_components-true init_dest (map (λ e. e.1) cfg.destinations) up_d in
      let eq_s = sym called_s ∙ same_s in
      let eq_d = sym called_d ∙ same_d in
      (
        resolve_connections-AllResolved cfg.connections cs resolved,
        rw eq_s all_s,
        rw eq_d all_d,
        eq_s,
        eq_d,
      )
