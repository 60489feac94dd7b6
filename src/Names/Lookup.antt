-- ===== src/Names/Lookup.antt =====
-- Names and values of a table, looked up in each other.
use indigo.Prelude.{
  ℕ, ◌≡◌, refl, ap, ◌∙◌, Bool, true, false, not, ◌&&◌, some, List, [], ◌∷◌, ◌==◌, leb, Bool-cases,
  inl, inr, eq_of_==, arith, subst, ◌⊎◌,
}
use indigo.Prelude.Bytes.{same, same_refl}
use indigo.Names.{
  SlName, sl_levels, sl_facilities, syslog_name_find_name, syslog_name_lookup_value_by_name,
  syslog_name_lookup_name_by_value,
}

-- no capital letter
abbrev pub is_small : ℕ → Bool
is_small c = not (leb b'A' c && leb c b'Z')

abbrev pub all_small : List ℕ → Bool
all_small [] = true
all_small (c ∷ cs) = is_small c && all_small cs

abbrev pub all_names : (List ℕ → Bool) → List SlName → Bool
all_names test [] = true
all_names test (e ∷ es) = test e.name && all_names test es

-- the names of a table have no capitals, and no two are the same
abbrev pub is_table : List SlName → Bool
is_table [] = true
is_table (e ∷ es) =
    all_small e.name
    && (all_names all_small es && (all_names (λ n. not (same n e.name)) es && is_table es))

-- a test that all names of a table pass holds of the one that is looked up
lookup-passes :
    (test : List ℕ → Bool) (value : ℕ) (name : List ℕ) (names : List SlName)
    → all_names test names ≡ true
    → syslog_name_lookup_name_by_value value names ≡ some name
    → test name ≡ true
unfolding syslog_name_lookup_name_by_value
lookup-passes test value name [] t h = absurd (ground arith)
lookup-passes test value name (e ∷ es) t h = elim (Bool-cases (e.value == value)) [
  | inl found ↦ subst (λ n. test n ≡ true) (first found) (ground arith)
  | inr other ↦ lookup-passes test value name es (ground arith) (next other)
]
  where
    first : (e.value == value) ≡ true → e.name ≡ name
    first found = ground (arith, h, found)

    next : (e.value == value) ≡ false → syslog_name_lookup_name_by_value value es ≡ some name
    next other = ground (arith, h, other)

module _ (strcasecmp : List ℕ → List ℕ → Bool)
    (on_small : (a b : List ℕ)
      → all_small a ≡ true
      → all_small b ≡ true
      → strcasecmp a b ≡ same a b) where
  lookup_value-name :
      (names : List SlName) (value : ℕ) (name : List ℕ)
      → is_table names ≡ true
      → syslog_name_lookup_name_by_value value names ≡ some name
      → syslog_name_lookup_value_by_name strcasecmp name names ≡ some value
  unfolding syslog_name_lookup_name_by_value syslog_name_lookup_value_by_name syslog_name_find_name
  lookup_value-name [] value name t h = absurd (ground arith)
  lookup_value-name (e ∷ es) value name t h = elim (Bool-cases (e.value == value)) [
    | inl found ↦
        rw (syslog_name_lookup_value_by_name, first found) (ap some (eq_of_== e.value value found))
    | inr other ↦
        rw (syslog_name_lookup_value_by_name, later other)
          (lookup_value-name es value name (ground arith) (next other))
  ]
    where
      named : (e.value == value) ≡ true → e.name ≡ name
      named found = ground (arith, found)

      first : (e.value == value) ≡ true → strcasecmp name e.name ≡ true
      first found =
          subst (λ n. strcasecmp n e.name ≡ true) (named found)
            (on_small e.name e.name (ground arith) (ground arith) ∙ same_refl e.name)

      next : (e.value == value) ≡ false → syslog_name_lookup_name_by_value value es ≡ some name
      next other = ground (arith, h, other)

      later : (e.value == value) ≡ false → strcasecmp name e.name ≡ false
      later other =
          let small = lookup-passes all_small value name es (ground arith) (next other) in
          let new =
            lookup-passes (λ n. not (same n e.name)) value name es (ground arith) (next other) in
          on_small name e.name small (ground arith) ∙ ground (arith, new)

  -- The name that a level or a facility is given is looked up to that level or facility again,
  -- whatever the case of letters that strcasecmp forgives; on names without capitals it tells
  -- different ones apart.
  pub syslog_name_lookup_value_by_name_lem :
      (names : List SlName) (value : ℕ) (name : List ℕ)
      → (names ≡ sl_levels) ⊎ (names ≡ sl_facilities)
      → syslog_name_lookup_name_by_value value names ≡ some name
      → syslog_name_lookup_value_by_name strcasecmp name names ≡ some value
  syslog_name_lookup_value_by_name_lem names value name (inl e) h =
      lookup_value-name names value name (rw e refl) h
  syslog_name_lookup_value_by_name_lem names value name (inr e) h =
      lookup_value-name names value name (rw e refl) h
