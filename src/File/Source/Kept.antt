-- ===== src/File/Source/Kept.antt =====
-- The position of a file source in the persistent configuration, through a reload or a restart.
use indigo.Prelude.{
  ℕ, ◌≡◌, refl, ap, ◌∙◌, Bool, true, false, Bool-cases, inl, inr, none, some, List, [], ◌∷◌, ◌++◌,
}
use indigo.Prelude.Bytes.{same, same_refl}
use indigo.Persist.{
  Value, string, object, PersistentConfigEntry, PersistentConfig, lookup, persist_config_add_entry,
  persist_config_add_survivor,
}
use indigo.Persist.Restart.{stored, stored_value, entries}

module _ {V : Type 0} where
  -- an entry behind a table
  abbrev survivor : List ℕ → List ℕ → PersistentConfigEntry V
  survivor name str = record { name = name; value = string str; survive_across_restarts = true }

  lookup-snoc :
      (keys : PersistentConfig V) (name str : List ℕ)
      → lookup name keys ≡ none
      → lookup name (keys ++ survivor name str ∷ []) ≡ some (string str)
  unfolding lookup
  lookup-snoc [] name str fresh = rw (same_refl name) refl
  lookup-snoc (p ∷ ps) name str fresh = elim (Bool-cases (same p.name name)) [
    | inl here ↦ absurd (cc (rw here at fresh))
    | inr away ↦ rw away (lookup-snoc ps name str (rw away at fresh))
  ]

  add_survivor_fresh :
      (keys : PersistentConfig V) (name str : List ℕ)
      → lookup name keys ≡ none
      → persist_config_add_survivor keys name str ≡ keys ++ survivor name str ∷ []
  unfolding persist_config_add_survivor
  add_survivor_fresh keys name str fresh =
      rw (fresh, persist_config_add_survivor, persist_config_add_entry) refl

  -- what is added under a new name is found
  pub lookup-persist_config_add_survivor :
      (keys : PersistentConfig V) (name str : List ℕ)
      → lookup name keys ≡ none
      → lookup name (persist_config_add_survivor keys name str) ≡ some (string str)
  lookup-persist_config_add_survivor keys name str fresh =
      ap (lookup name) (add_survivor_fresh keys name str fresh) ∙ lookup-snoc keys name str fresh

-- a text that survives is found after a restart, where nothing stood under its name before
lookup-entries :
    {V : Type 0} (keys : PersistentConfig V) (name str : List ℕ)
    → lookup name keys ≡ none
    → lookup name (entries {V = V} (stored (keys ++ survivor name str ∷ []))) ≡ some (string str)
unfolding lookup
lookup-entries [] name str fresh = rw (same_refl name) refl
lookup-entries {V} (p ∷ ps) name str fresh = elim (Bool-cases (same p.name name)) [
  | inl here ↦ absurd (cc (rw here at fresh))
  | inr away ↦
      skip p.survive_across_restarts p.value away (lookup-entries ps name str (rw away at fresh))
]
  where
    skip :
        (survive : Bool) (value : Value V)
        → same p.name name ≡ false
        → lookup name (entries {V = V} (stored (ps ++ survivor name str ∷ []))) ≡ some (string str)
        → lookup name (
            entries {V = V}
              (stored_value survive p.name value (stored (ps ++ survivor name str ∷ []))))
          ≡ some (string str)
    skip true (string t) away found = rw away found
    skip true (object v) away found = found
    skip false value away found = found

-- what is added as a survivor under a new name is found after a restart
pub lookup-restart :
    {V : Type 0} (keys : PersistentConfig V) (name str : List ℕ)
    → lookup name keys ≡ none
    → lookup name (entries {V = V} (stored (persist_config_add_survivor keys name str)))
      ≡ some (string str)
lookup-restart keys name str fresh =
    ap (λ table. lookup name (entries (stored table))) (add_survivor_fresh keys name str fresh)
    ∙ lookup-entries keys name str fresh
