-- ===== src/Center/Routing.antt =====
-- The routes of src/center.c against the rule that the log statements follow.
use Prim.Native.String.{String}
use indigo.Prelude.{
  ◌≡◌, refl, Bool, true, false, not, ◌&&◌, ◌||◌, List, [], ◌∷◌, ◌++◌, arith, if◌then◌else◌,
  Bool-cases, is_empty, append-nil,
}
use indigo.Center.{LogConnection, accepts, targets, pass, route}

-- keeps what passes the test
pub select {ℓ} : {A : Type ℓ} → (A → Bool) → List A → List A
select p [] = []
select p (x ∷ xs) = if p x then x ∷ select p xs else select p xs

-- up to and with the first that passes the test
pub up_to {ℓ} : {A : Type ℓ} → (A → Bool) → List A → List A
up_to p [] = []
up_to p (x ∷ xs) = if p x then x ∷ [] else x ∷ up_to p xs

eq_nil {ℓ} : {A : Type ℓ} (xs : List A) → is_empty xs ≡ true → xs ≡ []
eq_nil [] h = refl
eq_nil (x ∷ xs) h = absurd (ground arith)

module _ {F D : Type 0} (eval : F → Bool) (source : String) where
  pub all_targets : List (LogConnection F D) → List (D × Bool)
  unfolding targets
  all_targets [] = []
  all_targets (c ∷ cs) = targets c ++ all_targets cs

  -- the connections of one kind that take the message, none behind a final one
  pub taking : Bool → List (LogConnection F D) → List (LogConnection F D)
  unfolding up_to select
  taking fallbacks cs =
      up_to (λ c. c.final)
        (select (λ c. (if fallbacks then c.fallback else not c.fallback) && accepts eval source c)
          cs)

  pub has_fallback : List (LogConnection F D) → Bool
  has_fallback [] = false
  has_fallback (c ∷ cs) = c.fallback || has_fallback cs

  pass-taking :
      (fallbacks : Bool) (cs : List (LogConnection F D))
      → ((pass eval source fallbacks cs).queued ≡ all_targets (taking fallbacks cs))
        × ((pass eval source fallbacks cs).match ≡ not (is_empty (taking fallbacks cs)))
  unfolding pass all_targets taking
  pass-taking fallbacks [] = (refl, refl)
  pass-taking fallbacks (c ∷ cs) = ground (arith, pass-taking fallbacks cs, append-nil (targets c))

  pass-have_fallbacks :
      (cs : List (LogConnection F D))
      → (pass eval source false cs).match ≡ false
      → (pass eval source false cs).have_fallbacks ≡ has_fallback cs
  unfolding pass has_fallback
  pass-have_fallbacks [] h = refl
  pass-have_fallbacks (c ∷ cs) h = ground (arith, pass-have_fallbacks cs)

  taking_no_fallback :
      (cs : List (LogConnection F D)) → has_fallback cs ≡ false → taking true cs ≡ []
  unfolding taking has_fallback
  taking_no_fallback [] h = refl
  taking_no_fallback (c ∷ cs) h = ground (arith, taking_no_fallback cs)

  -- A message goes to the destinations of the ordinary connections that accept it, in their
  -- order, up to the first of these that is final; only if no ordinary connection accepts it,
  -- to those of the fallback connections that do, again up to the first final one.
  pub route_lem :
      (cs : List (LogConnection F D))
      → route eval source cs ≡ (
          if is_empty (taking false cs)
          then all_targets (taking true cs)
          else all_targets (taking false cs))
  unfolding route all_targets
  route_lem cs = ground (
    arith,
    pass-taking false cs,
    pass-taking true cs,
    pass-have_fallbacks cs,
    taking_no_fallback cs,
    eq_nil (taking false cs),
    Bool-cases (is_empty (taking false cs)),
  )
