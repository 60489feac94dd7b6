-- ===== src/Stats.antt =====
-- src/stats.c: the registry of statistics counters, of one type.
pub mod Orphans
mod Tests
use Prim.Native.String.{String}
use text.Mathlib.Text.{◌==◌ as str_eq}
use indigo.Prelude.{
  ℕ, ◌+◌, ◌-◌, ◌^◌, Bool, true, false, not, ◌&&◌, ◌||◌, Option, none, some, List, [], ◌∷◌, ◌==◌,
  if◌then◌else◌,
}

-- StatsCounter; `address` is that of its `counter`, which a user's pointer holds.
pub record StatsCounter : Type 0 where
  pub address : ℕ
  pub ref_cnt : ℕ
  pub name : String
  pub counter : ℕ
  pub orphaned : Bool
  pub shared : Bool

-- What an operation leaves: the list, and the user's pointer, `none` for NULL.
pub record Registered : Type 0 where
  pub counters : List StatsCounter
  pub pointer : Option ℕ

-- stats_find_counter: the first counter of the name
pub stats_find_counter : String → List StatsCounter → Option StatsCounter
stats_find_counter name [] = none
stats_find_counter name (sc ∷ scs) =
    if str_eq sc.name name then some sc else stats_find_counter name scs

-- a change of the counter that was found, in its place
pub update : (StatsCounter → StatsCounter) → String → List StatsCounter → List StatsCounter
update f name [] = []
update f name (sc ∷ scs) =
    let rest = update f name scs in if str_eq sc.name name then f sc ∷ scs else sc ∷ rest

-- g_list_delete_link of the counter that was found
pub delete_link : String → List StatsCounter → List StatsCounter
delete_link name [] = []
delete_link name (sc ∷ scs) =
    let rest = delete_link name scs in if str_eq sc.name name then scs else sc ∷ rest

-- `ref_cnt--` on a guint; there are fewer than 2 ^ 32 users, so that `ref_cnt++` does not wrap
abbrev pub decrement : ℕ → ℕ
decrement n = if n == 0 then 2 ^ 32 - 1 else n - 1

-- a user more on a counter that is there: an orphan is adopted with the reference it has
abbrev pub adopt : StatsCounter → StatsCounter
adopt sc = record sc {
  ref_cnt = (if sc.orphaned then decrement sc.ref_cnt else sc.ref_cnt) + 1;
  orphaned = false;
}

-- a counter that is taken, and not shared by both
abbrev pub is_duplicate : Bool → StatsCounter → Bool
is_duplicate shared sc = not sc.orphaned && (not shared || not sc.shared)

-- g_new0, at an address that is free
abbrev pub new_counter : ℕ → String → Bool → StatsCounter
new_counter address name shared = record {
  address = address;
  ref_cnt = 1;
  name = name;
  counter = 0;
  orphaned = false;
  shared = shared;
}

-- stats_register_counter
pub stats_register_counter : ℕ → Option String → Bool → List StatsCounter → Registered
unfolding stats_find_counter update
stats_register_counter free none shared scs = record { counters = scs; pointer = none }
stats_register_counter free (some name) shared scs = elim (stats_find_counter name scs) [
  | none ↦ record { counters = new_counter free name shared ∷ scs; pointer = some free }
  | some sc ↦
      if is_duplicate shared sc
      then record { counters = scs; pointer = none }
      else record { counters = update adopt name scs; pointer = some sc.address }
]

-- `&sc->counter != *counter`
abbrev pub is_at : StatsCounter → Option ℕ → Bool
is_at sc none = false
is_at sc (some p) = sc.address == p

abbrev pub release : StatsCounter → StatsCounter
release sc = record sc { ref_cnt = decrement sc.ref_cnt }

-- stats_unregister_counter; the pointer is left as it is on an error
pub stats_unregister_counter : Option String → Option ℕ → List StatsCounter → Registered
unfolding stats_find_counter update delete_link
stats_unregister_counter none pointer scs = record { counters = scs; pointer = pointer }
stats_unregister_counter (some name) pointer scs = elim (stats_find_counter name scs) [
  | none ↦ record { counters = scs; pointer = pointer }
  | some sc ↦
      if not (is_at sc pointer)
      then record { counters = scs; pointer = pointer }
      else if decrement sc.ref_cnt == 0
      then record { counters = delete_link name scs; pointer = none }
      else record { counters = update release name scs; pointer = none }
]

-- an orphan keeps one reference
abbrev pub keep : StatsCounter → StatsCounter
keep sc = if sc.orphaned then sc else record sc { ref_cnt = sc.ref_cnt + 1; orphaned = true }

-- stats_orphan_counter
pub stats_orphan_counter : Option String → Option ℕ → List StatsCounter → Registered
unfolding stats_unregister_counter
stats_orphan_counter none pointer scs = record { counters = scs; pointer = pointer }
stats_orphan_counter (some name) pointer scs = elim (stats_find_counter name scs) [
  | none ↦ record { counters = scs; pointer = pointer }
  | some sc ↦
      if not (is_at sc pointer) then record { counters = scs; pointer = pointer } else record {
        counters = (stats_unregister_counter (some name) pointer (update keep name scs)).counters;
        pointer = none;
      }
]

-- stats_cleanup_orphans on the list of a type; `none` is the failed assertion
pub stats_cleanup_orphans : List StatsCounter → Option (List StatsCounter)
stats_cleanup_orphans [] = some []
stats_cleanup_orphans (sc ∷ scs) =
    let rest = stats_cleanup_orphans scs in
    if sc.orphaned
    then (if sc.ref_cnt == 1 then rest else none)
    else elim rest [ none ↦ none | some scs' ↦ some (sc ∷ scs') ]
