-- ===== src/DnsCache.antt =====
-- src/dnscache.c: the cache of host names, with the names of a hosts file kept apart.
pub mod Hosts
pub mod Bounds
mod Tests
use indigo.Prelude.{
  ℕ, zero, suc, ◌+◌, Bool, true, false, not, ◌&&◌, ◌||◌, Option, none, some, List, [], ◌∷◌, ◌++◌,
  ◌==◌, ltb, if◌then◌else◌, length, is_empty,
}
use indigo.Prelude.Int.{ℤ, pos, negsuc, ◌+ℤ◌, ◌-ℤ◌, ltb_ℤ, eqb_ℤ}

-- DNSCacheKey: the family and the address, as one number; another family is an assertion.
pub data DnsCacheKey : Type 0 where
  inet : ℕ → DnsCacheKey
  inet6 : ℕ → DnsCacheKey

-- DNSCacheEntry without its links; `resolved` is 0 for a persistent entry.
pub record DnsCacheEntry : Type 0 where
  pub key : DnsCacheKey
  pub resolved : ℕ
  pub hostname : Option (List ℕ)

-- The variables of the file. The two lists run from `cache_first` and `persist_first`; the hash
-- table holds the entries of both, since an entry is freed, and so unlinked, when it leaves it.
-- The texts of `dns_cache_hosts` are with the file system, so the path is kept as set or not.
pub record DnsCache : Type 0 where
  pub cached : List DnsCacheEntry
  pub persist : List DnsCacheEntry
  pub cache_size : ℕ
  pub expire : ℕ
  pub expire_failed : ℕ
  pub persistent_count : ℤ
  pub has_hosts : Bool
  pub hosts_mtime : ℤ

-- dns_cache_key_equal
abbrev pub dns_cache_key_equal : DnsCacheKey → DnsCacheKey → Bool
dns_cache_key_equal (inet a) (inet b) = a == b
dns_cache_key_equal (inet6 a) (inet6 b) = a == b
dns_cache_key_equal _ _ = false

pub find : DnsCacheKey → List DnsCacheEntry → Option DnsCacheEntry
find k [] = none
find k (e ∷ es) = if dns_cache_key_equal k e.key then some e else find k es

-- dns_cache_entry_free: the entry with the key is unlinked
pub unlink : DnsCacheKey → List DnsCacheEntry → List DnsCacheEntry
unlink k [] = []
unlink k (e ∷ es) = let rest = unlink k es in if dns_cache_key_equal k e.key then es else e ∷ rest

abbrev pub is_found : Option DnsCacheEntry → Bool
is_found none = false
is_found (some e) = true

-- g_hash_table_size
abbrev pub hash_size : DnsCache → ℕ
hash_size s = length s.cached + length s.persist

-- g_hash_table_lookup; a key has one entry, in one of the lists
pub hash_lookup : DnsCache → DnsCacheKey → Option DnsCacheEntry
unfolding find
hash_lookup s k = elim (find k s.cached) [ none ↦ find k s.persist | some e ↦ some e ]

-- g_hash_table_remove, which frees the entry
pub hash_remove : DnsCache → DnsCacheKey → DnsCache
unfolding find unlink
hash_remove s k =
    if is_found (find k s.cached)
    then record s { cached = unlink k s.cached }
    else record s { persist = unlink k s.persist }

-- the loop of dns_cache_cleanup_persistent_hosts over the persistent entries
pub cleanup_count : List DnsCacheEntry → ℤ → ℤ
cleanup_count [] count = count
cleanup_count (e ∷ es) count = cleanup_count es (count -ℤ pos 1)

-- dns_cache_cleanup_persistent_hosts: each entry is removed and counted down
pub dns_cache_cleanup_persistent_hosts : DnsCache → DnsCache
unfolding cleanup_count
dns_cache_cleanup_persistent_hosts s = record s {
  persist = [];
  persistent_count = cleanup_count s.persist s.persistent_count;
}

-- the new entry, behind the others of its list, and in place of one with its key
pub link : Bool → DnsCacheKey → Option (List ℕ) → ℕ → DnsCache → DnsCache
unfolding hash_remove
link persistent k name now s =
    let s' = hash_remove s k in
    if persistent
    then record s' {
      persist = s'.persist ++ record { key = k; resolved = 0; hostname = name } ∷ [];
    }
    else record s' {
      cached = s'.cached ++ record { key = k; resolved = now; hostname = name } ∷ [];
    }

-- the removal of the oldest entry when there are too many; with no entry but the persistent ones
-- the key of the end marker is asked for, which fails an assertion
pub evict : DnsCache → Option DnsCache
unfolding hash_remove
evict s =
    if ltb_ℤ (pos s.cache_size) (pos (hash_size s) -ℤ s.persistent_count)
    then elim s.cached [ [] ↦ none | (e ∷ es) ↦ some (hash_remove s e.key) ]
    else some s

-- `dns_cache_persistent_count++`, if the table has grown by a persistent entry
pub count_persistent : Bool → (before after : ℕ) → ℤ → ℤ
count_persistent persistent before after n =
    if persistent && not (before == after) then n +ℤ pos 1 else n

-- the entry is linked and counted
pub insert : Bool → DnsCacheKey → Option (List ℕ) → ℕ → DnsCache → DnsCache
unfolding link count_persistent
insert persistent k name now s =
    let s' = link persistent k name now s in
    record s' {
      persistent_count =
          count_persistent persistent (hash_size s) (hash_size s') s'.persistent_count;
    }

-- dns_cache_store at the time `now`; `none` is a failed assertion
pub dns_cache_store : Bool → DnsCacheKey → Option (List ℕ) → ℕ → DnsCache → Option DnsCache
unfolding insert evict
dns_cache_store persistent k name now s = evict (insert persistent k name now s)
