-- ===== src/Groups/Hosts.antt =====
-- The host that a source group gives a message, and what the macro HOST shows of it.
use indigo.Prelude.{
  ℕ, ◌≡◌, refl, ap, ◌∙◌, Bool, true, false, not, ◌||◌, Option, none, some, List, [], ◌∷◌, ◌++◌,
  ◌==◌, if◌then◌else◌, is_empty, Bool-cases, inl, inr, arith,
}
use indigo.Prelude.Bytes.{AllBytes}
use indigo.Message.{LogMessage}
use indigo.Parser.{span_until}
use indigo.Parser.Whole.{c_string, or_else}
use indigo.Macros.Expand.{behind, short_host}
use indigo.Groups.{LogSourceGroup, rewritten, group_host, log_source_group_queue}

-- bytes of a host name that the chain of hosts does not use itself, and no NUL
abbrev pub is_plain : ℕ → Bool
is_plain c = not (c == b'@' || (c == b'/' || c == 0))

span_until-all :
    (test : ℕ → Bool) (xs ys : List ℕ) (y : ℕ)
    → AllBytes (λ c. not (test c)) xs
    → test y ≡ true
    → span_until test (xs ++ y ∷ ys) ≡ (xs, y ∷ ys)
unfolding span_until
span_until-all test [] ys y h t = rw t refl
span_until-all test (x ∷ xs) ys y (h, hs) t = rw (span_until-all test xs ys y hs t, stop) refl
  where
    stop : test x ≡ false
    stop = ground arith

span_until-none :
    (test : ℕ → Bool) (xs : List ℕ)
    → AllBytes (λ c. not (test c)) xs
    → span_until test xs ≡ (xs, [])
unfolding span_until
span_until-none test [] h = refl
span_until-none test (x ∷ xs) (h, hs) = rw (span_until-none test xs hs, stop) refl
  where
    stop : test x ≡ false
    stop = ground arith

-- up to the first byte that passes, whatever is put behind it
span_until-append :
    (test : ℕ → Bool) (xs ys : List ℕ) (y : ℕ)
    → test y ≡ true
    → (span_until test (xs ++ y ∷ ys)).0 ≡ (span_until test xs).0
unfolding span_until
span_until-append test [] ys y t = rw t refl
span_until-append test (x ∷ xs) ys y t = elim (Bool-cases (test x)) [
  | inl stop ↦ rw stop refl
  | inr goes ↦ rw goes (ap (◌∷◌ x) (span_until-append test xs ys y t))
]

abbrev at_sign : ℕ → Bool
at_sign c = c == b'@'

abbrev slash : ℕ → Bool
slash c = c == b'/'

abbrev longer : List ℕ → Option (List ℕ) → Option (List ℕ)
longer ys none = none
longer ys (some xs) = some (xs ++ ys)

-- what is put behind has no `@` of its own
behind-append :
    (xs ys : List ℕ)
    → behind at_sign ys ≡ none
    → behind at_sign (xs ++ ys) ≡ longer ys (behind at_sign xs)
unfolding behind
behind-append [] ys h = h
behind-append (x ∷ xs) ys h = elim (Bool-cases (at_sign x)) [
  | inl stop ↦ rw stop refl
  | inr goes ↦ rw goes (behind-append xs ys h)
]

behind-none : (xs : List ℕ) → AllBytes (λ c. not (at_sign c)) xs → behind at_sign xs ≡ none
unfolding behind
behind-none [] h = refl
behind-none (x ∷ xs) (h, hs) = rw (behind-none xs hs, other) refl
  where
    other : at_sign x ≡ false
    other = ground arith

behind-found :
    (xs ys : List ℕ)
    → AllBytes (λ c. not (at_sign c)) xs
    → behind at_sign (xs ++ b'@' ∷ ys) ≡ some ys
unfolding behind
behind-found [] ys h = refl
behind-found (x ∷ xs) ys (h, hs) = rw (behind-found xs ys hs, other) refl
  where
    other : at_sign x ≡ false
    other = ground arith

plain_bytes :
    (test : ℕ → Bool) (xs : List ℕ)
    → ((c : ℕ) → is_plain c ≡ true → test c ≡ true)
    → AllBytes is_plain xs
    → AllBytes test xs
plain_bytes test [] f h = tt
plain_bytes test (x ∷ xs) f (h, hs) = (f x h, plain_bytes test xs f hs)

no_at : (xs : List ℕ) → AllBytes is_plain xs → AllBytes (λ c. not (at_sign c)) xs
no_at xs h = plain_bytes (λ c. not (at_sign c)) xs (λ c p. ground arith) h

no_slash : (xs : List ℕ) → AllBytes is_plain xs → AllBytes (λ c. not (slash c)) xs
no_slash xs h = plain_bytes (λ c. not (slash c)) xs (λ c p. ground arith) h

c_string-plain : (xs : List ℕ) → AllBytes is_plain xs → c_string xs ≡ xs
c_string-plain xs h =
    ap (λ p. p.0)
      (span_until-none (λ c. c == 0) xs
        (plain_bytes (λ c. not (c == 0)) xs (λ c p. ground arith) h))

-- a host that is put behind a chain is not shown
short_host-append :
    (old from : List ℕ) → AllBytes is_plain from → short_host (old ++ b'/' ∷ from) ≡ short_host old
unfolding short_host
short_host-append old from h =
    ap (λ o. (span_until slash (or_else (old ++ b'/' ∷ from) o)).0)
      (behind-append old (b'/' ∷ from) (behind-none (b'/' ∷ from) (refl, no_at from h)))
    ∙ shown (behind at_sign old)
  where
    shown :
        (o : Option (List ℕ))
        → (span_until slash (or_else (old ++ b'/' ∷ from) (longer (b'/' ∷ from) o))).0
          ≡ (span_until slash (or_else old o)).0
    shown none = span_until-append slash old from b'/' refl
    shown (some start) = span_until-append slash start from b'/' refl

shown_whole : (from : List ℕ) → AllBytes is_plain from → (span_until slash from).0 ≡ from
shown_whole from h = ap (λ p. p.0) (span_until-none slash from (no_slash from h))

short_host-at :
    (name from : List ℕ)
    → AllBytes is_plain name
    → AllBytes is_plain from
    → short_host (name ++ b'@' ∷ from) ≡ from
unfolding short_host
short_host-at name from n h =
    ap (λ o. (span_until slash (or_else (name ++ b'@' ∷ from) o)).0)
      (behind-found name from (no_at name n))
    ∙ shown_whole from h

short_host-plain : (from : List ℕ) → AllBytes is_plain from → short_host from ≡ from
unfolding short_host
short_host-plain from h =
    ap (λ o. (span_until slash (or_else from o)).0) (behind-none from (no_at from h))
    ∙ shown_whole from h

not_empty : (xs ys : List ℕ) (y : ℕ) → is_empty (xs ++ y ∷ ys) ≡ false
not_empty [] ys y = refl
not_empty (x ∷ xs) ys y = refl

-- the host under the options of the theorem
abbrev chained : (short name from : List ℕ) → LogMessage → List ℕ
chained short name from m =
    let host =
      if m.local
      then name ++ b'@' ∷ from
      else if is_empty m.host
      then from ++ b'/' ∷ from
      else m.host ++ b'/' ∷ from in
    if is_empty host then short else host

-- A source group that chains host names, and does not keep or normalize them, leaves the macro HOST
-- as it should be: for a message with a host that came from elsewhere it shows what it showed
-- before the message was received here, and for one without, and for a local one, the host that it
-- was received from. The names of the group and of that host have no `@`, no `/` and no NUL.
pub short_host-log_source_group_queue :
    (short : List ℕ) (lower : List ℕ → List ℕ) (s : LogSourceGroup) (from : List ℕ) (m : LogMessage)
    → s.chain_hostnames ≡ true
    → s.keep_hostname ≡ false
    → s.normalize_hostnames ≡ false
    → AllBytes is_plain s.name
    → AllBytes is_plain from
    → short_host (log_source_group_queue short lower s from m).1.host
      ≡ (if m.local || is_empty m.host then from else short_host m.host)
unfolding log_source_group_queue group_host rewritten
short_host-log_source_group_queue short lower s from m chain keep normal n h =
    rw (keep, chain, c_string-plain s.name n, c_string-plain from h, normal) by_origin
  where
    by_origin :
        short_host (chained short s.name from m)
        ≡ (if m.local || is_empty m.host then from else short_host m.host)
    by_origin = elim (Bool-cases m.local) [
      | inl here ↦ rw (here, not_empty s.name from b'@') (short_host-at s.name from n h)
      | inr elsewhere ↦ elim (Bool-cases (is_empty m.host)) [
        | inl unnamed ↦
            rw (elsewhere, unnamed, not_empty from from b'/')
              (short_host-append from from h ∙ short_host-plain from h)
        | inr named ↦
            rw (elsewhere, named, not_empty m.host from b'/') (short_host-append m.host from h)
      ]
    ]
