-- ===== src/Stats/Orphans.antt =====
-- Counters that outlive their users over a reload of the configuration.
use Prim.Native.String.{String}
use text.Mathlib.Text.{◌==◌ as str_eq}
use indigo.Prelude.{
  ℕ, ◌+◌, ◌≤◌, ◌≡◌, refl, Bool, true, false, Option, none, some, List, [], ◌∷◌, ◌==◌, if◌then◌else◌,
  Bool-cases, inl, inr, arith, ==_refl, ap,
}
use indigo.Stats.{
  StatsCounter, stats_find_counter, update, adopt, decrement, release, keep, stats_register_counter,
  stats_unregister_counter, stats_orphan_counter,
}

abbrev map_found : (StatsCounter → StatsCounter) → Option StatsCounter → Option StatsCounter
map_found f none = none
map_found f (some sc) = some (f sc)

-- a counter that is changed is still found by its name
find-update :
    (f : StatsCounter → StatsCounter)
    → ((sc : StatsCounter) → (f sc).name ≡ sc.name)
    → (name : String) (scs : List StatsCounter)
    → stats_find_counter name (update f name scs) ≡ map_found f (stats_find_counter name scs)
unfolding stats_find_counter update
find-update f same name [] = refl
find-update f same name (sc ∷ scs) = elim (Bool-cases (str_eq sc.name name)) [
  | inl hit ↦ rw (hit, update, stats_find_counter, same sc, hit) refl
  | inr miss ↦ rw (miss, update, stats_find_counter, miss) (find-update f same name scs)
]

update-update :
    (f g : StatsCounter → StatsCounter)
    → ((sc : StatsCounter) → (f sc).name ≡ sc.name)
    → (name : String) (scs : List StatsCounter)
    → update g name (update f name scs) ≡ update (λ sc. g (f sc)) name scs
unfolding update
update-update f g same name [] = refl
update-update f g same name (sc ∷ scs) = elim (Bool-cases (str_eq sc.name name)) [
  | inl hit ↦ rw (hit, update, same sc, hit) refl
  | inr miss ↦ rw (miss, update, miss) (ap (◌∷◌ sc) (update-update f g same name scs))
]

-- a change that leaves what was found as it is
abbrev Fixed : (StatsCounter → StatsCounter) → Option StatsCounter → Type 0
Fixed f none = Unit
Fixed f (some sc) = f sc ≡ sc

update_same :
    (f : StatsCounter → StatsCounter) (name : String) (scs : List StatsCounter)
    → Fixed f (stats_find_counter name scs)
    → update f name scs ≡ scs
unfolding update stats_find_counter
update_same f name [] h = refl
update_same f name (d ∷ ds) h = by_name (str_eq d.name name) (update_same f name ds) h
  where
    by_name :
        (b : Bool)
        → (Fixed f (stats_find_counter name ds) → update f name ds ≡ ds)
        → Fixed f (if b then some d else stats_find_counter name ds)
        → (if b then f d ∷ ds else d ∷ update f name ds) ≡ d ∷ ds
    by_name true rest h = ap (λ x. x ∷ ds) h
    by_name false rest h = ap (◌∷◌ d) (rest h)

decrement_twice : (n : ℕ) → 1 ≤ n → decrement (decrement (n + 1)) + 1 ≡ n
decrement_twice n h = ground arith

-- a counter that a user leaves as an orphan and another takes up
abbrev pub reuse : StatsCounter → StatsCounter
reuse sc = adopt (release (keep sc))

reuse_used :
    (sc : StatsCounter) (orphaned : Bool)
    → orphaned ≡ false
    → 1 ≤ sc.ref_cnt
    → reuse (record sc { orphaned = orphaned }) ≡ record sc { orphaned = orphaned }
reuse_used sc true used h = absurd (ground arith)
reuse_used sc false used h =
    ap (λ n. record sc { ref_cnt = n; orphaned = false }) (decrement_twice sc.ref_cnt h)

keep_name : (sc : StatsCounter) → (keep sc).name ≡ sc.name
keep_name sc = ground arith

keep_used :
    (sc : StatsCounter)
    → sc.orphaned ≡ false
    → keep sc ≡ record sc { ref_cnt = sc.ref_cnt + 1; orphaned = true }
keep_used sc used = rw used refl

decrement_more : (n : ℕ) → 1 ≤ n → (decrement (n + 1) == 0) ≡ false
decrement_more n h = ground arith

-- the counters after an orphaning by a user that is not the last reference but its own
orphan-release :
    (name : String) (scs : List StatsCounter) (sc : StatsCounter)
    → stats_find_counter name scs ≡ some sc
    → sc.orphaned ≡ false
    → 1 ≤ sc.ref_cnt
    → (stats_orphan_counter (some name) (some sc.address) scs).counters
      ≡ update (λ c. release (keep c)) name scs
unfolding stats_orphan_counter stats_unregister_counter
orphan-release name scs sc found used h =
    rw
      (
        found,
        stats_orphan_counter,
        ==_refl sc.address,
        find-update keep keep_name name scs,
        found,
        stats_unregister_counter,
        keep_used sc used,
        ==_refl sc.address,
        decrement_more sc.ref_cnt h,
      )
      (update-update keep release keep_name name scs)

-- A used counter that its user orphans and that a user then registers again is the same counter:
-- the pointer is the old one, and the list, with the count, is what it was.
pub register-orphan :
    (free : ℕ) (name : String) (shared : Bool) (scs : List StatsCounter) (sc : StatsCounter)
    → stats_find_counter name scs ≡ some sc
    → sc.orphaned ≡ false
    → 1 ≤ sc.ref_cnt
    → stats_register_counter free
        (some name)
        shared
        (stats_orphan_counter (some name) (some sc.address) scs).counters
      ≡ record { counters = scs; pointer = some sc.address }
unfolding stats_register_counter
register-orphan free name shared scs sc found used h =
    let same : reuse sc ≡ sc = reuse_used sc sc.orphaned used h in
    let fixed : Fixed reuse (stats_find_counter name scs) = rw found same in
    rw
      (
        orphan-release name scs sc found used h,
        find-update (λ c. release (keep c)) keep_name name scs,
        found,
        stats_register_counter,
        keep_used sc used,
        orphan-release name scs sc found used h,
        update-update (λ c. release (keep c)) adopt keep_name name scs,
        update_same reuse name scs fixed,
      )
      refl
