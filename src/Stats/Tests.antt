-- ===== src/Stats/Tests.antt =====
-- A counter that outlives a reload.
use indigo.Prelude.{◌≡◌, refl, arith, false, true, some, [], ◌∷◌}
use indigo.Stats.{
  StatsCounter, stats_find_counter, stats_register_counter, stats_orphan_counter,
  stats_cleanup_orphans,
}
use indigo.Stats.Orphans.{register-orphan}

abbrev used : StatsCounter
used = record {
  address = 4;
  ref_cnt = 2;
  name = "dropped";
  counter = 17;
  orphaned = false;
  shared = true;
}

abbrev other : StatsCounter
other = record {
  address = 3;
  ref_cnt = 1;
  name = "center";
  counter = 5;
  orphaned = true;
  shared = false;
}

cleanup : stats_cleanup_orphans (used ∷ other ∷ []) ≡ some (used ∷ [])
unfolding stats_cleanup_orphans
cleanup = refl

found : stats_find_counter "dropped" (other ∷ used ∷ []) ≡ some used
unfolding stats_find_counter
found = refl

register-orphan_example :
    stats_register_counter 9
      (some "dropped")
      false
      (stats_orphan_counter (some "dropped") (some 4) (other ∷ used ∷ [])).counters
    ≡ record { counters = other ∷ used ∷ []; pointer = some 4 }
register-orphan_example =
    register-orphan 9 "dropped" false (other ∷ used ∷ []) used found refl (omega arith)
