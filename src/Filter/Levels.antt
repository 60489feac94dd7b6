-- ===== src/Filter/Levels.antt =====
-- Ranges of levels, as in level(info..err).
use indigo.Prelude.{
  ℕ, zero, suc, ◌<◌, ◌≡◌, ap, refl, Bool, true, false, ◌&&◌, ltb, leb, if◌then◌else◌, arith,
  eq_of_==, ◌==◌, ◌%◌, xor, Bool-cases, inl, inr,
}
use indigo.Message.{LogMessage}
use indigo.Filter.{level_num, has_bit, bit_and, filter_level_eval, syslog_make_range}

-- a test of all numbers below a bound
abbrev all_below : ℕ → (ℕ → Bool) → Bool
all_below zero p = true
all_below (suc n) p = p n && all_below n p

and_left : (a b : Bool) → (a && b) ≡ true → a ≡ true
and_left a b h = ground arith

and_right : (a b : Bool) → (a && b) ≡ true → b ≡ true
and_right a b h = ground arith

all_below_lem : (n : ℕ) (p : ℕ → Bool) → all_below n p ≡ true → (k : ℕ) → k < n → p k ≡ true
all_below_lem zero p h k less = absurd (omega arith)
all_below_lem (suc n) p h k less = elim (Bool-cases (k == n)) [
  | inl same ↦ rw (eq_of_== k n same) (and_left (p n) (all_below n p) h)
  | inr other ↦
      let below : k < n = ground arith in
      all_below_lem n p (and_right (p n) (all_below n p) h) k below
]

abbrev agree : Bool → Bool → Bool
agree true b = b
agree false true = false
agree false false = true

agree_lem : (a b : Bool) → agree a b ≡ true → a ≡ b
agree_lem a b h = ground arith

-- the level lies between the two, whichever is the lower
abbrev pub is_between : ℕ → ℕ → ℕ → Bool
is_between a b k = leb (if ltb b a then b else a) k && leb k (if ltb b a then a else b)

abbrev all_levels : Bool
all_levels = all_below 8 (λ a.
    all_below 8
      (λ b. all_below 8 (λ k. agree (has_bit (syslog_make_range a b) k) (is_between a b k))))

all_levels_lem : all_levels ≡ true
unfolding syslog_make_range bit_and
all_levels_lem = refl

level_below : (n : ℕ) → n % 8 < 8
level_below n = omega arith

range_lem :
    (a b k : ℕ) → a < 8 → b < 8 → k < 8 → has_bit (syslog_make_range a b) k ≡ is_between a b k
range_lem a b k ha hb hk = agree_lem (has_bit (syslog_make_range a b) k) (is_between a b k) (
    all_below_lem 8 (λ z. agree (has_bit (syslog_make_range a b) z) (is_between a b z))
      (all_below_lem 8
        (λ y. all_below 8 (λ z. agree (has_bit (syslog_make_range a y) z) (is_between a y z)))
        (all_below_lem 8
          (λ x.
            all_below 8 (λ y.
              all_below 8 (λ z. agree (has_bit (syslog_make_range x y) z) (is_between x y z))))
          all_levels_lem a ha)
        b hb)
      k hk)

-- For levels below 8, in either order, a level filter made of their range matches exactly the
-- messages whose level lies between the two, and a complemented one exactly the others.
pub filter_level_eval-range :
    (a b : ℕ) (m : LogMessage) (comp : Bool)
    → a < 8
    → b < 8
    → filter_level_eval comp (syslog_make_range a b) m ≡ xor (is_between a b (level_num m)) comp
unfolding filter_level_eval
filter_level_eval-range a b m comp ha hb =
    ap (λ x. xor x comp) (range_lem a b (level_num m) ha hb (level_below m.pri))
