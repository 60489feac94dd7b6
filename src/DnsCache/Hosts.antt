-- ===== src/DnsCache/Hosts.antt =====
-- src/dnscache.c, loading of the hosts file and lookup, and src/misc.c, the part of
-- resolve_hostname that asks the cache.
pub mod Run
use indigo.Prelude.{
  ℕ, zero, suc, ◌+◌, Bool, true, false, not, ◌&&◌, ◌||◌, Option, none, some, List, [], ◌∷◌, ◌==◌,
  ltb, if◌then◌else◌, is_empty,
}
use indigo.Prelude.Int.{ℤ, pos, negsuc, ltb_ℤ, eqb_ℤ}
use indigo.DnsCache.{
  DnsCacheKey, inet, inet6, DnsCacheEntry, DnsCache, hash_lookup,
  dns_cache_cleanup_persistent_hosts, dns_cache_store,
}

abbrev is_blank : ℕ → Bool
is_blank c = c == b' ' || c == 9

pub skip_blanks : List ℕ → List ℕ
skip_blanks [] = []
skip_blanks (c ∷ cs) = let rest = skip_blanks cs in if is_blank c then rest else c ∷ cs

-- a token, and what strtok goes on with: the delimiter behind the token is overwritten
pub span_token : List ℕ → List ℕ × List ℕ
span_token [] = ([], [])
span_token (c ∷ cs) =
    let (token, rest) = span_token cs in if is_blank c then ([], cs) else (c ∷ token, rest)

-- strtok with the delimiters of the hosts file
pub strtok : List ℕ → Option (List ℕ × List ℕ)
unfolding skip_blanks span_token
strtok cs = elim (skip_blanks cs) [ [] ↦ none | (d ∷ ds) ↦ some (span_token (d ∷ ds)) ]

pub has_colon : List ℕ → Bool
has_colon [] = false
has_colon (c ∷ cs) = c == b':' || has_colon cs

-- a newline at the end is cut off
pub chomp : List ℕ → List ℕ
chomp [] = []
chomp (c ∷ cs) = let rest = chomp cs in if is_empty cs && c == 10 then [] else c ∷ rest

abbrev is_skipped : List ℕ → Bool
is_skipped [] = true
is_skipped (c ∷ cs) = c == 10 || c == b'#'

-- What the cache asks of the system: the address that inet_pton leaves in `ia` (the flag is
-- AF_INET6), the modification time that stat gives, and the buffers that fgets fills from the
-- opened file.
pub record HostsFile : Type 0 where
  pub inet_pton : Bool → List ℕ → ℕ
  pub stat : Option ℕ
  pub lines : Option (List (List ℕ))

module _ (file : HostsFile) (now : ℕ) where
  open file use {inet_pton, stat, lines}

  pub host_key : List ℕ → DnsCacheKey
  unfolding has_colon
  host_key ip = if has_colon ip then inet6 (inet_pton true ip) else inet (inet_pton false ip)

  -- a line of the hosts file: the address and the first name
  unfoldable pub host_of_line : List ℕ → Option (DnsCacheKey × List ℕ)
  unfolding strtok chomp host_key
  host_of_line buf = if is_skipped buf then none else elim (strtok (chomp buf)) [
    | none ↦ none
    | some (ip, rest) ↦ elim (strtok rest) [
      | none ↦ none
      | some (name, rest') ↦ some (host_key ip, name)
    ]
  ]

  -- the loop over the lines
  pub load_lines : List (List ℕ) → DnsCache → Option DnsCache
  unfolding host_of_line
  load_lines [] s = some s
  load_lines (buf ∷ bufs) s = elim (host_of_line buf) [
    | none ↦ load_lines bufs s
    | some (k, name) ↦ elim (dns_cache_store true k (some name) now s) [
      | none ↦ none
      | some s' ↦ load_lines bufs s'
    ]
  ]

  -- a hosts file that is new or has changed: its time is kept, the old names go, the new come
  pub reload : ℕ → DnsCache → Option DnsCache
  unfolding load_lines
  reload mtime s =
      let s' = dns_cache_cleanup_persistent_hosts (record s { hosts_mtime = pos mtime }) in
      elim lines [ none ↦ some s' | some bufs ↦ load_lines bufs s' ]

  abbrev pub is_changed : DnsCache → ℕ → Bool
  is_changed s mtime = eqb_ℤ s.hosts_mtime (negsuc 0) || ltb_ℤ s.hosts_mtime (pos mtime)

  -- dns_cache_check_hosts
  pub dns_cache_check_hosts : DnsCache → Option DnsCache
  unfolding reload
  dns_cache_check_hosts s = elim (if s.has_hosts then stat else none) [
    | none ↦ some (dns_cache_cleanup_persistent_hosts s)
    | some mtime ↦ if is_changed s mtime then reload mtime s else some s
  ]

  -- an entry that has not expired
  pub is_fresh : DnsCache → DnsCacheEntry → Bool
  is_fresh s e =
      e.resolved == 0
      || not (ltb (e.resolved + elim e.hostname [ none ↦ s.expire_failed | some _ ↦ s.expire ]) now)

  -- what dns_cache_lookup finds in the table: `none` for FALSE, else the host name
  pub lookup_fresh : DnsCache → DnsCacheKey → Option (Option (List ℕ))
  unfolding is_fresh
  lookup_fresh s k = elim (hash_lookup s k) [
    | none ↦ none
    | some e ↦ if is_fresh s e then some e.hostname else none
  ]

  -- dns_cache_lookup
  pub dns_cache_lookup : DnsCacheKey → DnsCache → Option (Option (Option (List ℕ)) × DnsCache)
  unfolding dns_cache_check_hosts lookup_fresh
  dns_cache_lookup k s = elim (dns_cache_check_hosts s) [
    | none ↦ none
    | some s' ↦ some (lookup_fresh s' k, s')
  ]

  -- resolve_hostname with a cache: `ask` is the answer of gethostbyaddr, `usedns` not 0
  pub resolve_cached :
      (ask : Option (List ℕ))
      → (usedns : ℕ) → DnsCacheKey
      → DnsCache
      → Option (Option (List ℕ) × DnsCache)
  unfolding dns_cache_lookup
  resolve_cached ask usedns k s = elim (dns_cache_lookup k s) [
    | none ↦ none
    | some (some name, s') ↦ some (name, s')
    | some (none, s') ↦
        if usedns == 2
        then some (none, s')
        else elim (dns_cache_store false k ask now s') [ none ↦ none | some s'' ↦ some (ask, s'') ]
  ]
