-- ===== src/Internal/Marks.antt =====
-- When the internal source makes its marks, and how long poll waits for them.
use indigo.Prelude.{
  ℕ, ◌+◌, ◌-◌, ◌*◌, ◌<◌, ◌≤◌, ◌≡◌, refl, true, false, ltb, leb, if◌then◌else◌, arith,
}
use indigo.Prelude.Int.{ℤ, pos, negsuc, ◌+ℤ◌, ◌-ℤ◌, eqb_ℤ, scale_ℤ, to_gint}
use indigo.Internal.{
  Internal, no_target, afinter_postpone_mark, afinter_source_prepare, mark_due, max_ℤ,
}

-- the target of a mark: the sum of a time and a number of seconds that a gint holds, or a time
-- before 1970
unfoldable pub target_of : ℕ → ℤ
target_of t = if ltb t 2147483648 then pos t else negsuc (4294967295 - t)

to_gint_sum :
    (n k : ℕ) → n < 2147483648 → k < 2147483648 → to_gint (pos n +ℤ pos k) ≡ target_of (n + k)
unfolding to_gint ◌+ℤ◌ target_of
to_gint_sum n k h h' = ground arith

postponed :
    (mark_freq n : ℕ) (s : Internal)
    → 0 < mark_freq
    → mark_freq < 2147483648
    → n < 2147483648
    → afinter_postpone_mark mark_freq (pos n) s
      ≡ record s { next_mark_target = target_of (n + mark_freq) }
unfolding afinter_postpone_mark
postponed mark_freq n s h small time = rw (freq, to_gint_sum n mark_freq time small) refl
  where
    freq : ltb 0 mark_freq ≡ true
    freq = ground arith

-- no sum of two numbers that a gint holds is taken for no target
is_target : (t : ℕ) → t < 4294967295 → eqb_ℤ (target_of t) no_target ≡ false
unfolding target_of
is_target t h = ground arith

-- the seconds that are left to a target
abbrev pub left : ℕ → ℕ → ℕ
left t j = if ltb t 2147483648 then t - j else 0

timeout_of :
    (t j : ℕ)
    → t ≤ j + 2147483
    → t < 4294967295
    → to_gint (max_ℤ (scale_ℤ (target_of t -ℤ pos j) 1000) (pos 0)) ≡ pos (left t j * 1000)
unfolding to_gint ◌-ℤ◌ target_of
timeout_of t j near h = ground arith

due_from :
    (t j k : ℕ) (s : Internal)
    → j ≤ k
    → t < 4294967295
    → mark_due (pos k) (record s { next_mark_target = target_of t }) ≡ leb (j + left t j) k
unfolding target_of
due_from t j k s later h = ground arith

-- After a message has gone through the center at a time that a gint holds, with a mark_freq between
-- one second and the 2147483 that poll can wait, poll waits until the next mark is due and no
-- longer: at the time j, not before the message, prepare keeps the target and gives a timeout of
-- whole seconds, and at a time k from then on a mark is due just if they have passed. They are what
-- is left of mark_freq, or none where the time and mark_freq add up to what a gint does not hold.
pub afinter_postpone_mark_lem :
    (mark_freq n j k : ℕ) (s : Internal)
    → 0 < mark_freq
    → mark_freq ≤ 2147483
    → n < 2147483648
    → n ≤ j
    → j ≤ k
    → let s' = afinter_postpone_mark mark_freq (pos n) s in
      let p = afinter_source_prepare mark_freq (pos j) s' in
      let seconds = left (n + mark_freq) j in
      (p.state ≡ s')
      × (p.timeout ≡ pos (seconds * 1000))
      × (mark_due (pos k) p.state ≡ leb (j + seconds) k)
unfolding afinter_source_prepare
afinter_postpone_mark_lem mark_freq n j k s h few time later later' =
    rw
      (
        postponed mark_freq n s h (omega arith) time,
        is_target (n + mark_freq) (omega arith),
        freq,
        is_target (n + mark_freq) (omega arith),
      )
      (
        refl,
        timeout_of (n + mark_freq) j (omega arith) (omega arith),
        rw (is_target (n + mark_freq) (omega arith)) at
            (due_from (n + mark_freq) j k s later' (omega arith)),
      )
  where
    freq : ltb 0 mark_freq ≡ true
    freq = ground arith
