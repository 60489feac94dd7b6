-- ===== src/File/Table.antt =====
-- A GHashTable from texts, as the writers of a file destination are kept in.
use indigo.Prelude.{
  ℕ, ◌≡◌, refl, ap₂, sym, ◌∙◌, Bool, true, false, Option, none, some, List, [], ◌∷◌, ◌==◌,
  if◌then◌else◌, Bool-cases, inl, inr, eq_of_==, arith,
}
use indigo.Prelude.Bytes.{same, same_refl}

abbrev pub Table : Type 0 → Type 0
Table A = List (List ℕ × A)

pub same→eq : (a b : List ℕ) → same a b ≡ true → a ≡ b
same→eq [] [] h = refl
same→eq [] (b ∷ bs) h = cc
same→eq (a ∷ as') [] h = cc
same→eq (a ∷ as') (b ∷ bs) h = elim (Bool-cases (a == b)) [
  | inl e ↦ ap₂ ◌∷◌ (eq_of_== a b e) (same→eq as' bs (rw e at h))
  | inr e ↦ absurd ((cc (rw e at h)))
]

-- two names that are both the third are the same
pub same_of : (i k j : List ℕ) → same i j ≡ true → same k j ≡ true → same i k ≡ true
same_of i k j p q = rw (same→eq i j p, same→eq k j q) (same_refl j)

pub same-sym : (i k : List ℕ) (b : Bool) → same i k ≡ b → same k i ≡ b
same-sym i k true h = rw (same→eq i k h) (same_refl k)
same-sym i k false h = elim (Bool-cases (same k i)) [
  | inl e ↦
      let back : same i k ≡ true = rw (same→eq k i e) (same_refl i) in absurd ((cc (sym h ∙ back)))
  | inr e ↦ e
]

module _ {A : Type 0} where
  -- g_hash_table_lookup
  unfoldable pub lookup : List ℕ → Table A → Option A
  lookup k [] = none
  lookup k ((j, v) ∷ t) = let rest = lookup k t in if same j k then some v else rest

  -- g_hash_table_insert; also a change of the value that the table points to
  unfoldable pub insert : List ℕ → A → Table A → Table A
  insert k v [] = (k, v) ∷ []
  insert k v ((j, w) ∷ t) =
      let rest = insert k v t in if same j k then (j, v) ∷ t else (j, w) ∷ rest

  abbrev pub NodupKeys : Table A → Type 0
  NodupKeys [] = Unit
  NodupKeys ((k, v) ∷ t) = (lookup k t ≡ none) × NodupKeys t

  pub lookup-insert :
      (j k : List ℕ) (v : A) (t : Table A)
      → lookup j (insert k v t) ≡ (if same k j then some v else lookup j t)
  unfolding lookup insert
  lookup-insert j k v [] = refl
  lookup-insert j k v ((i, w) ∷ t) = elim (Bool-cases (same i k)) [
    | inl e ↦ rw (e, lookup, same→eq i k e) (ground arith)
    | inr e ↦
        rw (e, lookup, lookup-insert j k v t)
          (elim (Bool-cases (same i j)) [
            | inl here ↦ elim (Bool-cases (same k j)) [
              | inl there ↦ absurd ((cc (sym e ∙ same_of i k j here there)))
              | inr there ↦ rw (here, there) refl
            ]
            | inr here ↦ rw here refl
          ])
  ]

  pub insert-NodupKeys : (k : List ℕ) (v : A) (t : Table A) → NodupKeys t → NodupKeys (insert k v t)
  unfolding insert lookup
  insert-NodupKeys k v [] u = (refl, tt)
  insert-NodupKeys k v ((j, w) ∷ t) (fresh, u) = elim (Bool-cases (same j k)) [
    | inl e ↦ rw e (fresh, u)
    | inr e ↦
        rw e (lookup-insert j k v t ∙ rw (same-sym j k false e) fresh, insert-NodupKeys k v t u)
  ]
