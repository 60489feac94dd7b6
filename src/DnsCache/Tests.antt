-- ===== src/DnsCache/Tests.antt =====
-- Lookups of two addresses through a cache for one name, with a hosts file in between.
use indigo.Prelude.{ℕ, ◌≤◌, ◌≡◌, refl, arith, true, Option, none, some, List, [], ◌∷◌, length}
use indigo.Prelude.Int.{pos, negsuc, ◌-ℤ◌}
use indigo.DnsCache.{inet, DnsCache}
use indigo.DnsCache.Hosts.{HostsFile, host_of_line}
use indigo.DnsCache.Hosts.Run.{IsSound, Request, resolve_all, resolve_all-IsSound}

abbrev small_cache : DnsCache
small_cache = record {
  cached = [];
  persist = [];
  cache_size = 1;
  expire = 3600;
  expire_failed = 60;
  persistent_count = pos 0;
  has_hosts = true;
  hosts_mtime = negsuc 0;
}

-- an address is the length of its text
abbrev hosts : HostsFile
hosts = record {
  inet_pton = λ six ip. length ip;
  stat = some 5;
  lines = some (
      (b'#' ∷ b'x' ∷ 10 ∷ [])
      ∷ (b'1' ∷ b'.' ∷ b'2' ∷ 9 ∷ b'a' ∷ b'b' ∷ b' ' ∷ b'c' ∷ 10 ∷ [])
      ∷ []);
}

host_of_line_names :
    host_of_line hosts 0 (b'1' ∷ b'.' ∷ b'2' ∷ 9 ∷ b'a' ∷ b'b' ∷ b' ' ∷ b'c' ∷ 10 ∷ [])
    ≡ some (inet 3, b'a' ∷ b'b' ∷ [])
unfolding host_of_line
host_of_line_names = refl

abbrev requests : List Request
requests =
    record { file = hosts; now = 100; ask = some (b'q' ∷ []); usedns = 1; key = inet 7 }
    ∷ record { file = hosts; now = 101; ask = none; usedns = 1; key = inet 3 }
    ∷ record { file = hosts; now = 102; ask = some (b'r' ∷ []); usedns = 1; key = inet 8 }
    ∷ record { file = hosts; now = 103; ask = none; usedns = 2; key = inet 7 }
    ∷ []

resolve_all-IsSound_example :
    (x : List (Option (List ℕ)) × DnsCache) × (resolve_all requests small_cache ≡ some x)
    × (length x.0 ≡ 4)
    × IsSound x.1
    × (length x.1.cached ≤ x.1.cache_size)
unfolding ◌-ℤ◌
resolve_all-IsSound_example =
    resolve_all-IsSound requests small_cache ((sound_count, sound_size), tt)
  where
    sound_count : 0 ≤ 0
    sound_count = omega arith

    sound_size : 0 ≤ 1
    sound_size = omega arith
