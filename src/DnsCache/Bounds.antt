-- ===== src/DnsCache/Bounds.antt =====
-- The size of the cache of host names, and that it never asks for the key of an end marker.
use indigo.Prelude.{
  ℕ, suc, ◌+◌, ◌≤◌, ◌≡◌, ◌⊎◌, inl, inr, refl, Bool, true, false, Option, some, List, [], ◌∷◌,
  length, length-snoc, arith, Bool-cases, ==_refl,
}
use indigo.Prelude.Int.{ℤ, pos, +ℤ_parts, -ℤ_parts, ◌+ℤ◌, ◌-ℤ◌, ◌≤ℤ◌, ltb_ℤ, pos_part, neg_part}
use indigo.DnsCache.{
  DnsCacheKey, inet, inet6, DnsCacheEntry, DnsCache, dns_cache_key_equal, find, unlink, is_found,
  hash_size, hash_remove, cleanup_count, dns_cache_cleanup_persistent_hosts, link, evict, insert,
  count_persistent, dns_cache_store,
}

-- The count of persistent entries is no more than there are, and what it leaves uncounted is
-- within the size.
abbrev pub IsBounded : DnsCache → Type 0
IsBounded s =
    (s.persistent_count ≤ℤ pos (length s.persist))
    × (pos (hash_size s) -ℤ s.persistent_count ≤ℤ pos s.cache_size)

pub IsBounded-cached : (s : DnsCache) → IsBounded s → length s.cached ≤ s.cache_size
IsBounded-cached s (small, sized) =
    omega (arith, small, sized, -ℤ_parts (pos (hash_size s)) s.persistent_count)

length-unlink :
    (k : DnsCacheKey) (es : List DnsCacheEntry)
    → (is_found (find k es) ≡ true × (length es ≡ suc (length (unlink k es))))
      ⊎ (is_found (find k es) ≡ false × (length (unlink k es) ≡ length es))
unfolding find unlink
length-unlink k [] = inr (refl, refl)
length-unlink k (e ∷ es) =
    let ih = length-unlink k es in
    elim (Bool-cases (dns_cache_key_equal k e.key)) [
      | inl hit ↦ inl (rw hit refl, rw hit refl)
      | inr miss ↦ elim ih [
        | inl (found, eq) ↦ inl (rw miss found, rw miss (omega (arith, eq)))
        | inr (found, eq) ↦ inr (rw miss found, rw miss (omega (arith, eq)))
      ]
    ]

cleanup_count_lem :
    (es : List DnsCacheEntry) (n : ℤ)
    → pos_part n + neg_part (cleanup_count es n)
      ≡ neg_part n + pos_part (cleanup_count es n) + length es
unfolding cleanup_count
cleanup_count_lem [] n = omega arith
cleanup_count_lem (e ∷ es) n = omega (arith, -ℤ_parts n (pos 1), cleanup_count_lem es (n -ℤ pos 1))

pub dns_cache_cleanup_persistent_hosts-IsBounded :
    (s : DnsCache) → IsBounded s → IsBounded (dns_cache_cleanup_persistent_hosts s)
unfolding dns_cache_cleanup_persistent_hosts
dns_cache_cleanup_persistent_hosts-IsBounded s (small, sized) =
    let n = cleanup_count s.persist s.persistent_count in
    let count = cleanup_count_lem s.persist s.persistent_count in
    let before = -ℤ_parts (pos (hash_size s)) s.persistent_count in
    let after = -ℤ_parts (pos (length s.cached + 0)) n in
    (omega (arith, count, small), omega (arith, count, before, after, sized))

-- a name that is not persistent takes the place of a cached one, or of none
abbrev pub HasPlace : DnsCacheKey → DnsCache → Type 0
HasPlace k s = (is_found (find k s.cached) ≡ true) ⊎ (is_found (find k s.persist) ≡ false)

-- within the bounds before the last test of dns_cache_store
abbrev Overfull : DnsCache → Type 0
Overfull s =
    (s.persistent_count ≤ℤ pos (length s.persist))
    × (pos (hash_size s) -ℤ s.persistent_count ≤ℤ pos (suc s.cache_size))
    × (1 ≤ length s.cached)

count_persistent_grown : (a b : ℕ) (n : ℤ) → b ≡ suc a → count_persistent true a b n ≡ n +ℤ pos 1
unfolding count_persistent
count_persistent_grown a b n h = ground arith

count_persistent_same : (a b : ℕ) (n : ℤ) → b ≡ a → count_persistent true a b n ≡ n
unfolding count_persistent
count_persistent_same a b n h = ground arith

abbrev entry : DnsCacheKey → ℕ → Option (List ℕ) → DnsCacheEntry
entry k resolved name = record { key = k; resolved = resolved; hostname = name }

-- linking touches neither the count nor the size
dns_cache_key_equal_refl : (k : DnsCacheKey) → dns_cache_key_equal k k ≡ true
dns_cache_key_equal_refl (inet a) = ==_refl a
dns_cache_key_equal_refl (inet6 a) = ==_refl a

link-keeps :
    (persistent : Bool) (k : DnsCacheKey) (name : Option (List ℕ)) (now : ℕ) (s : DnsCache)
    → let s' = link persistent k name now s in
      (s'.persistent_count ≡ s.persistent_count) × (s'.cache_size ≡ s.cache_size)
unfolding link hash_remove
link-keeps persistent k name now s = ground arith

-- the lengths after a persistent entry is linked: it replaces one of either list, or none
link_persistent-lengths :
    (k : DnsCacheKey) (name : Option (List ℕ)) (now : ℕ) (s : DnsCache)
    → let s' = link true k name now s in
      ((hash_size s' ≡ hash_size s) × (length s.persist ≤ length s'.persist))
      ⊎ ((hash_size s' ≡ suc (hash_size s)) × (length s'.persist ≡ suc (length s.persist)))
unfolding link hash_remove
link_persistent-lengths k name now s = elim (length-unlink k s.cached) [
  | inl (found, eq) ↦ inl (
    rw found (omega (arith, eq, length-snoc s.persist (entry k 0 name))),
    rw found (omega (arith, length-snoc s.persist (entry k 0 name))),
  )
  | inr (missed, eq) ↦ rw missed (elim (length-unlink k s.persist) [
    | inl (found', eq') ↦ inl (
      omega (arith, eq', length-snoc (unlink k s.persist) (entry k 0 name)),
      omega (arith, eq', length-snoc (unlink k s.persist) (entry k 0 name)),
    )
    | inr (missed', eq') ↦ inr (
      omega (arith, eq', length-snoc (unlink k s.persist) (entry k 0 name)),
      omega (arith, eq', length-snoc (unlink k s.persist) (entry k 0 name)),
    )
  ])
]

-- the lengths after a cached entry is linked where it has its place
link_cached-lengths :
    (k : DnsCacheKey) (name : Option (List ℕ)) (now : ℕ) (s : DnsCache)
    → HasPlace k s
    → let s' = link false k name now s in
      (length s'.persist ≡ length s.persist)
      × (length s'.cached ≤ suc (length s.cached))
      × (1 ≤ length s'.cached)
unfolding link hash_remove
link_cached-lengths k name now s place = elim (length-unlink k s.cached) [
  | inl (found, eq) ↦ rw found (
    refl,
    omega (arith, eq, length-snoc (unlink k s.cached) (entry k now name)),
    omega (arith, length-snoc (unlink k s.cached) (entry k now name)),
  )
  | inr (missed, eq) ↦ rw missed (elim place [
    | inl found ↦ absurd (cc (missed, found))
    | inr missed' ↦ elim (length-unlink k s.persist) [
      | inl (found', eq') ↦ absurd (cc (missed', found'))
      | inr (_, eq') ↦ (
        eq',
        omega (arith, length-snoc s.cached (entry k now name)),
        omega (arith, length-snoc s.cached (entry k now name)),
      )
    ]
  ])
]

insert_persistent-IsBounded :
    (k : DnsCacheKey) (name : Option (List ℕ)) (now : ℕ) (s : DnsCache)
    → IsBounded s
    → IsBounded (insert true k name now s)
unfolding insert
insert_persistent-IsBounded k name now s (small, sized) =
    let s' = link true k name now s in
    let n = s.persistent_count in
    let before = -ℤ_parts (pos (hash_size s)) n in
    let (kept, kept_size) = link-keeps true k name now s in
    elim (link_persistent-lengths k name now s) [
      | inl (same, more) ↦
          rw (kept, count_persistent_same (hash_size s) (hash_size s') n same, kept_size)
            (
              omega (arith, small, more),
              omega (arith, before, -ℤ_parts (pos (hash_size s')) n, same, sized),
            )
      | inr (grown, more) ↦
          rw (kept, count_persistent_grown (hash_size s) (hash_size s') n grown, kept_size)
            (
              omega (arith, small, more, +ℤ_parts n (pos 1)),
              omega (
                arith,
                before,
                +ℤ_parts n (pos 1),
                -ℤ_parts (pos (hash_size s')) (n +ℤ pos 1),
                grown,
                sized,
              ),
            )
    ]

insert_cached-Overfull :
    (k : DnsCacheKey) (name : Option (List ℕ)) (now : ℕ) (s : DnsCache)
    → HasPlace k s
    → IsBounded s
    → Overfull (insert false k name now s)
unfolding insert count_persistent
insert_cached-Overfull k name now s place (small, sized) =
    let s' = link false k name now s in
    let n = s.persistent_count in
    let (kept, kept_size) = link-keeps false k name now s in
    let (same, more, some_cached) = link_cached-lengths k name now s place in
    rw (kept, kept_size)
      (
        omega (arith, small, same),
        omega (
          arith,
          -ℤ_parts (pos (hash_size s)) n,
          -ℤ_parts (pos (hash_size s')) n,
          same,
          more,
          sized,
        ),
        some_cached,
      )

-- the oldest entry goes
hash_remove_first :
    (s : DnsCache) (e : DnsCacheEntry) (es : List DnsCacheEntry)
    → hash_remove (record s { cached = e ∷ es }) e.key ≡ record s { cached = es }
unfolding hash_remove find unlink
hash_remove_first s e es = rw (dns_cache_key_equal_refl e.key) refl

evict_from :
    (s : DnsCache) (es : List DnsCacheEntry)
    → let s' = record s { cached = es } in
      Overfull s' → (s'' : DnsCache) × (evict s' ≡ some s'') × IsBounded s''
unfolding evict
evict_from s [] (small, sized, some_cached) = absurd (omega (arith, some_cached))
evict_from s (e ∷ es) (small, sized, some_cached) =
    let s' : DnsCache = record s { cached = e ∷ es } in
    elim (Bool-cases (ltb_ℤ (pos s.cache_size) (pos (hash_size s') -ℤ s.persistent_count))) [
      | inr fits ↦ (s', rw fits refl, (small, ground arith))
      | inl over ↦ (
        record s { cached = es },
        rw (over, hash_remove_first s e es) refl,
        (
          small,
          omega (
            arith,
            sized,
            -ℤ_parts (pos (hash_size s')) s.persistent_count,
            -ℤ_parts (pos (length es + length s.persist)) s.persistent_count,
          ),
        ),
      )
    ]

evict-IsBounded : (s : DnsCache) → Overfull s → (s' : DnsCache) × (evict s ≡ some s') × IsBounded s'
evict-IsBounded s h = evict_from s s.cached h

evict_fits : (s : DnsCache) → IsBounded s → evict s ≡ some s
unfolding evict
evict_fits s (small, sized) =
    elim (Bool-cases (ltb_ℤ (pos s.cache_size) (pos (hash_size s) -ℤ s.persistent_count))) [
      | inr fits ↦ rw fits refl
      | inl over ↦ absurd (ground arith)
    ]

-- Both kinds of store keep the bounds and fail no assertion, where a name that is not persistent
-- does not displace a persistent one.
pub dns_cache_store-IsBounded :
    (persistent : Bool) (k : DnsCacheKey) (name : Option (List ℕ)) (now : ℕ) (s : DnsCache)
    → (persistent ≡ true) ⊎ HasPlace k s
    → IsBounded s
    → (s' : DnsCache) × (dns_cache_store persistent k name now s ≡ some s') × IsBounded s'
unfolding dns_cache_store
dns_cache_store-IsBounded true k name now s place h =
    let h' = insert_persistent-IsBounded k name now s h in
    (insert true k name now s, evict_fits (insert true k name now s) h', h')
dns_cache_store-IsBounded false k name now s (inl never) h = absurd (ground arith)
dns_cache_store-IsBounded false k name now s (inr place) h =
    evict-IsBounded (insert false k name now s) (insert_cached-Overfull k name now s place h)
