-- ===== src/DnsCache/Hosts/Run.antt =====
-- Runs of the cache of host names: lookups, stores and reloads of the hosts file.
use indigo.Prelude.{
  ℕ, ◌+◌, ◌≡◌, ◌≤◌, subst, ◌⊎◌, inl, inr, refl, Bool, true, false, Option, none, some, List, [],
  ◌∷◌, ◌++◌, arith, length, Bool-cases, Option-cases, if◌then◌else◌, ◌==◌,
}
use indigo.Prelude.Int.{pos, ◌-ℤ◌, ltb_ℤ}
use indigo.DnsCache.{
  DnsCacheKey, DnsCacheEntry, DnsCache, dns_cache_key_equal, find, unlink, is_found, hash_size,
  hash_lookup, hash_remove, dns_cache_cleanup_persistent_hosts, link, insert, evict,
  dns_cache_store,
}
use indigo.DnsCache.Hosts.{
  HostsFile, is_changed, host_of_line, load_lines, reload, dns_cache_check_hosts, is_fresh,
  lookup_fresh, dns_cache_lookup, resolve_cached,
}
use indigo.DnsCache.Bounds.{
  IsBounded, IsBounded-cached, HasPlace, dns_cache_cleanup_persistent_hosts-IsBounded,
  dns_cache_store-IsBounded,
}

-- entries that never expire
abbrev pub IsPersistent : List DnsCacheEntry → Type 0
IsPersistent [] = Unit
IsPersistent (e ∷ es) = (e.resolved ≡ 0) × IsPersistent es

-- the invariant of the cache
abbrev pub IsSound : DnsCache → Type 0
IsSound s = IsBounded s × IsPersistent s.persist

unlink-IsPersistent :
    (k : DnsCacheKey) (es : List DnsCacheEntry) → IsPersistent es → IsPersistent (unlink k es)
unfolding unlink
unlink-IsPersistent k [] h = h
unlink-IsPersistent k (e ∷ es) (zeroed, h) = elim (Bool-cases (dns_cache_key_equal k e.key)) [
  | inl hit ↦ rw hit h
  | inr miss ↦ rw miss (zeroed, unlink-IsPersistent k es h)
]

snoc-IsPersistent :
    (es : List DnsCacheEntry) (e : DnsCacheEntry)
    → e.resolved ≡ 0
    → IsPersistent es
    → IsPersistent (es ++ e ∷ [])
snoc-IsPersistent [] e zeroed h = (zeroed, tt)
snoc-IsPersistent (d ∷ ds) e zeroed (first, h) = (first, snoc-IsPersistent ds e zeroed h)

abbrev resolved_of : Option DnsCacheEntry → ℕ
resolved_of none = 0
resolved_of (some e) = e.resolved

find-IsPersistent :
    (k : DnsCacheKey) (es : List DnsCacheEntry) → IsPersistent es → resolved_of (find k es) ≡ 0
unfolding find
find-IsPersistent k [] h = refl
find-IsPersistent k (d ∷ ds) (zeroed, h) = elim (Bool-cases (dns_cache_key_equal k d.key)) [
  | inl hit ↦ rw hit zeroed
  | inr miss ↦ rw miss (find-IsPersistent k ds h)
]

hash_remove-IsPersistent :
    (s : DnsCache) (k : DnsCacheKey)
    → IsPersistent s.persist
    → IsPersistent (hash_remove s k).persist
unfolding hash_remove
hash_remove-IsPersistent s k h = elim (Bool-cases (is_found (find k s.cached))) [
  | inl found ↦ rw found h
  | inr missed ↦ rw missed (unlink-IsPersistent k s.persist h)
]

insert-IsPersistent :
    (persistent : Bool) (k : DnsCacheKey) (name : Option (List ℕ)) (now : ℕ) (s : DnsCache)
    → IsPersistent s.persist
    → IsPersistent (insert persistent k name now s).persist
unfolding insert link
insert-IsPersistent true k name now s h =
    snoc-IsPersistent (hash_remove s k).persist (record { key = k; resolved = 0; hostname = name })
      refl (hash_remove-IsPersistent s k h)
insert-IsPersistent false k name now s h = hash_remove-IsPersistent s k h

-- nothing is claimed of a failed assertion
abbrev IfSome : (DnsCache → Type 0) → Option DnsCache → Type 0
IfSome P none = Unit
IfSome P (some s) = P s

evict_from-IsPersistent :
    (s : DnsCache) (es : List DnsCacheEntry)
    → IsPersistent s.persist
    → IfSome (λ s'. IsPersistent s'.persist) (evict (record s { cached = es }))
unfolding evict
evict_from-IsPersistent s [] h =
    elim (Bool-cases
      (ltb_ℤ (pos s.cache_size) (pos (0 + length s.persist) -ℤ s.persistent_count))) [
        | inl over ↦ rw over tt
        | inr fits ↦ rw fits h
      ]
evict_from-IsPersistent s (e ∷ es) h =
    let s' : DnsCache = record s { cached = e ∷ es } in
    elim (Bool-cases (ltb_ℤ (pos s.cache_size) (pos (hash_size s') -ℤ s.persistent_count))) [
      | inl over ↦ rw over (hash_remove-IsPersistent s' e.key h)
      | inr fits ↦ rw fits h
    ]

store-IsPersistent :
    (persistent : Bool) (k : DnsCacheKey) (name : Option (List ℕ)) (now : ℕ) (s : DnsCache)
    → IsPersistent s.persist
    → IfSome (λ s'. IsPersistent s'.persist) (dns_cache_store persistent k name now s)
unfolding dns_cache_store
store-IsPersistent persistent k name now s h =
    let s' = insert persistent k name now s in
    evict_from-IsPersistent s' s'.cached (insert-IsPersistent persistent k name now s h)

dns_cache_store-IsSound :
    (persistent : Bool) (k : DnsCacheKey) (name : Option (List ℕ)) (now : ℕ) (s : DnsCache)
    → (persistent ≡ true) ⊎ HasPlace k s
    → IsSound s
    → (s' : DnsCache) × (dns_cache_store persistent k name now s ≡ some s') × IsSound s'
dns_cache_store-IsSound persistent k name now s place (bounded, zeroed) =
    let (s', eq, h) = dns_cache_store-IsBounded persistent k name now s place bounded in
    (
      s',
      eq,
      (
        h,
        subst (IfSome (λ x. IsPersistent x.persist)) eq
            (store-IsPersistent persistent k name now s zeroed),
      ),
    )

-- a lookup that finds nothing leaves room for the name
lookup_fresh-HasPlace :
    (file : HostsFile) (now : ℕ) (k : DnsCacheKey) (s : DnsCache)
    → IsPersistent s.persist
    → lookup_fresh file now s k ≡ none
    → HasPlace k s
unfolding lookup_fresh hash_lookup is_fresh
lookup_fresh-HasPlace file now k s h missed = elim (Option-cases (find k s.cached)) [
  | inr (e, found) ↦ inl (rw found refl)
  | inl uncached ↦ elim (Option-cases (find k s.persist)) [
    | inl unknown ↦ inr (rw unknown refl)
    | inr (e, found) ↦
        let zeroed : e.resolved ≡ 0 =
          subst (λ o. resolved_of o ≡ 0) found (find-IsPersistent k s.persist h) in
        let hit : lookup_fresh file now s k ≡ some e.hostname =
          rw (uncached, found, zeroed, lookup_fresh) refl in
        absurd (ground (arith, hit, missed))
  ]
]

module _ (file : HostsFile) (now : ℕ) where
  load_lines-IsSound :
      (bufs : List (List ℕ)) (s : DnsCache)
      → IsSound s
      → (s' : DnsCache) × (load_lines file now bufs s ≡ some s') × IsSound s'
  unfolding load_lines
  load_lines-IsSound [] s h = (s, refl, h)
  load_lines-IsSound (buf ∷ bufs) s h = elim (Option-cases (host_of_line file now buf)) [
    | inl skipped ↦ rw (skipped, load_lines) (load_lines-IsSound bufs s h)
    | inr ((k, name), eq) ↦
        let (s', stored, h') = dns_cache_store-IsSound true k (some name) now s (inl refl) h in
        rw (eq, load_lines, stored) (load_lines-IsSound bufs s' h')
  ]

  cleanup-IsSound : (s : DnsCache) → IsSound s → IsSound (dns_cache_cleanup_persistent_hosts s)
  unfolding dns_cache_cleanup_persistent_hosts
  cleanup-IsSound s (h, zeroed) = (dns_cache_cleanup_persistent_hosts-IsBounded s h, tt)

  reload-IsSound :
      (mtime : ℕ) (s : DnsCache)
      → IsSound s
      → (s' : DnsCache) × (reload file now mtime s ≡ some s') × IsSound s'
  unfolding reload
  reload-IsSound mtime s h =
      let s' = dns_cache_cleanup_persistent_hosts (record s { hosts_mtime = pos mtime }) in
      let h' = cleanup-IsSound (record s { hosts_mtime = pos mtime }) h in
      elim (Option-cases file.lines) [
        | inl closed ↦ rw closed (s', refl, h')
        | inr (bufs, eq) ↦ rw eq (load_lines-IsSound bufs s' h')
      ]

  dns_cache_check_hosts-IsSound :
      (s : DnsCache)
      → IsSound s
      → (s' : DnsCache) × (dns_cache_check_hosts file now s ≡ some s') × IsSound s'
  unfolding dns_cache_check_hosts
  dns_cache_check_hosts-IsSound s h =
      elim (Option-cases (if s.has_hosts then file.stat else none)) [
        | inl absent ↦
            rw (absent, dns_cache_check_hosts)
              (dns_cache_cleanup_persistent_hosts s, refl, cleanup-IsSound s h)
        | inr (mtime, eq) ↦
            rw (eq, dns_cache_check_hosts)
              (elim (Bool-cases (is_changed file now s mtime)) [
                | inl changed ↦ rw changed (reload-IsSound mtime s h)
                | inr same ↦ rw same (s, refl, h)
              ])
      ]

  -- A request keeps the cache sound and fails no assertion.
  resolve_cached-IsSound :
      (ask : Option (List ℕ)) (usedns : ℕ) (k : DnsCacheKey) (s : DnsCache)
      → IsSound s
      → (x : Option (List ℕ) × DnsCache) × (resolve_cached file now ask usedns k s ≡ some x)
        × IsSound x.1
  unfolding resolve_cached dns_cache_lookup
  resolve_cached-IsSound ask usedns k s h =
      let (s', checked, h') = dns_cache_check_hosts-IsSound s h in
      elim (Option-cases (lookup_fresh file now s' k)) [
        | inr (name, hit) ↦
            rw (checked, resolve_cached, dns_cache_lookup, hit) ((name, s'), refl, h')
        | inl miss ↦
            rw (checked, resolve_cached, dns_cache_lookup, miss)
              (elim (Bool-cases (usedns == 2)) [
                | inl never ↦ rw never ((none, s'), refl, h')
                | inr asks ↦
                    let place = lookup_fresh-HasPlace file now k s' h'.1 miss in
                    let (s'', stored, h'') =
                      dns_cache_store-IsSound false k ask now s' (inr place) h' in
                    rw (asks, stored) ((ask, s''), refl, h'')
              ])
      ]

-- a call of resolve_hostname, with what the system answers at that time
pub record Request : Type 0 where
  pub file : HostsFile
  pub now : ℕ
  pub ask : Option (List ℕ)
  pub usedns : ℕ
  pub key : DnsCacheKey

-- a sequence of calls, with their host names
pub resolve_all : List Request → DnsCache → Option (List (Option (List ℕ)) × DnsCache)
resolve_all [] s = some ([], s)
resolve_all (r ∷ rs) s = elim (resolve_cached r.file r.now r.ask r.usedns r.key s) [
  | none ↦ none
  | some (name, s') ↦ elim (resolve_all rs s') [
    | none ↦ none
    | some (names, s'') ↦ some (name ∷ names, s'')
  ]
]

-- From a sound cache (the persistent count is no more than the persistent entries, the cached
-- entries and the uncounted persistent ones are within the size, no persistent entry expires),
-- any sequence of calls of resolve_hostname, at any times, with any answers and any changes of
-- the hosts file, fails no assertion, gives a name or none for each call, and leaves a sound
-- cache whose cached entries are no more than its size.
pub resolve_all-IsSound :
    (rs : List Request) (s : DnsCache)
    → IsSound s
    → (x : List (Option (List ℕ)) × DnsCache) × (resolve_all rs s ≡ some x)
      × (length x.0 ≡ length rs)
      × IsSound x.1
      × (length x.1.cached ≤ x.1.cache_size)
unfolding resolve_all
resolve_all-IsSound [] s (h, zeroed) = (([], s), refl, refl, (h, zeroed), IsBounded-cached s h)
resolve_all-IsSound (r ∷ rs) s h =
    let ((name, s'), eq, h') = resolve_cached-IsSound r.file r.now r.ask r.usedns r.key s h in
    let ((names, s''), eq', count, sound, cached) = resolve_all-IsSound rs s' h' in
    rw (eq, resolve_all, eq') ((name ∷ names, s''), refl, omega (arith, count), sound, cached)
