-- ===== src/Parser/Usec.antt =====
-- The microseconds of the dates that log_msg_parse reads.
use indigo.Prelude.{
  ℕ, zero, suc, ◌+◌, ◌-◌, ◌*◌, ◌/◌, ◌≤◌, ◌<◌, ◌≡◌, refl, Option, none, some, List, drop, [], ◌∷◌,
  ◌==◌, arith, Bool-cases, inl, inr,
}
use indigo.Prelude.Bytes.{isdigit}
use indigo.Prelude.Int.{ℤ, pos}
use indigo.Stamp.{TimeLib, iso, pix, linksys}
use indigo.Parser.{span_until}
use indigo.Parser.Date.{
  Layout, rfc3339, pix_date, linksys_date, rfc3164, no_date, layout, read_frac, usec_of, read_tail,
  read_rfc3339, read_fixed, read_rfc3164, cisco_frac, read_date, Dated,
}
use native.Mathlib.Nat.{mul-div-le, mul-le-mul_right}

-- the fraction stays below its power of ten
read_frac-bound :
    (left frac div : ℕ) (cs : List ℕ)
    → frac < div
    → (read_frac left frac div cs).0 < (read_frac left frac div cs).1
unfolding read_frac
read_frac-bound zero frac div cs h = h
read_frac-bound (suc left) frac div [] h = h
read_frac-bound (suc left) frac div (c ∷ cs) h = elim (Bool-cases (isdigit c)) [
  | inl digit ↦
      rw digit (read_frac-bound left (10 * frac + (c - b'0')) (div * 10) cs (ground arith))
  | inr other ↦ rw other h
]

small_product : (frac div q : ℕ) → frac < div → div * q ≤ 1000000 → frac * q < 1000000
small_product frac div zero h l = omega arith
small_product frac div (suc q) h l =
    omega (arith, mul-le-mul_right {m = suc frac} {n = div} (suc q) h)

usec_of-bound : (cs : List ℕ) → (usec_of cs).0 < 1000000
unfolding usec_of
usec_of-bound cs =
    let (frac, div, rest) = read_frac 6 0 1 cs in
    small_product frac div (1000000 / div) (read_frac-bound 6 0 1 cs (omega arith))
      (mul-div-le 1000000 div)

-- a number of microseconds
unfoldable pub IsUsec : ℤ → Type 0
IsUsec t = (u : ℕ) × ((t ≡ pos u) × (u < 1000000))

abbrev pub HasUsec : Option Dated → Type 0
HasUsec none = Unit
HasUsec (some d) = IsUsec d.stamp.tv_usec

-- the date of every format has its microseconds in bounds
module _ (lib : TimeLib) (now : ℤ) where
  read_tail-bound : (p : Option (List ℕ)) → (read_tail p).0 < 1000000
  unfolding read_tail
  read_tail-bound none = omega arith
  read_tail-bound (some []) = omega arith
  read_tail-bound (some (c ∷ cs)) = elim (Bool-cases (c == b'.')) [
    | inl point ↦ rw point (usec_of-bound cs)
    | inr none' ↦ rw none' (omega arith)
  ]

  read_rfc3339-IsUsec : (src : List ℕ) → IsUsec (read_rfc3339 lib now src).stamp.tv_usec
  unfolding read_rfc3339 IsUsec
  read_rfc3339-IsUsec src =
      (_, (refl, read_tail-bound (lib.strptime iso date (lib.localtime now)).1))
    where
      date : List ℕ
      date = (span_until (λ c. c == b' ') src).0

  cisco_frac-bound : (cs : List ℕ) → (cisco_frac lib now cs).0 < 1000000
  unfolding cisco_frac
  cisco_frac-bound [] = omega arith
  cisco_frac-bound (c ∷ cs) = elim (Bool-cases (c == b'.')) [
    | inl point ↦ rw point (usec_of-bound cs)
    | inr none' ↦ rw none' (omega arith)
  ]

  pub read_date-HasUsec : (src : List ℕ) → HasUsec (read_date lib now src)
  unfolding read_date read_fixed read_rfc3164 IsUsec
  read_date-HasUsec src = elim (layout src) as (λ l. HasUsec (date_of l)) [
    | rfc3339 ↦ read_rfc3339-IsUsec src
    | pix_date ↦ (0, (refl, omega arith))
    | linksys_date ↦ (0, (refl, omega arith))
    | rfc3164 ↦ (_, (refl, cisco_frac-bound (drop 15 src)))
    | no_date ↦ tt
  ]
    where
      date_of : Layout → Option Dated
      date_of l = elim l [
        | rfc3339 ↦ some (read_rfc3339 lib now src)
        | pix_date ↦ some (read_fixed lib now pix 21 src)
        | linksys_date ↦ some (read_fixed lib now linksys 20 src)
        | rfc3164 ↦ some (read_rfc3164 lib now src)
        | no_date ↦ none
      ]
