-- ===== src/Writer/Watch/Timeout.antt =====
-- The flush timeout of a writer: when it fires.
use indigo.Prelude.{◌+◌, ◌*◌, ◌≡◌, refl, true, not, ◌&&◌, ◌||◌, arith, is_empty}
use indigo.Prelude.Int.{
  ℤ, pos, negsuc, ◌+ℤ◌, ◌≤ℤ◌, ◌<ℤ◌, leb_ℤ, eqb_ℤ, pos_part, neg_part, +ℤ_parts,
}
use indigo.Writer.{LogWriter}
use indigo.Writer.Watch.{GTimeVal, LogWriterWatch, has_partial, log_writer_fd_check}

-- a time whose microseconds are in range
abbrev pub IsNormal : GTimeVal → Type 0
IsNormal t = (pos 0 ≤ℤ t.tv_usec) × (t.tv_usec <ℤ pos 1000000)

abbrev pub millionfold : ℤ → ℤ
millionfold (pos n) = pos (n * 1000000)
millionfold (negsuc n) = negsuc (n * 1000000 + 999999)

-- a time in microseconds
abbrev pub micros : GTimeVal → ℤ
micros t = millionfold t.tv_sec +ℤ t.tv_usec

millionfold_parts :
    (a : ℤ)
    → (pos_part (millionfold a) ≡ pos_part a * 1000000)
      × (neg_part (millionfold a) ≡ neg_part a * 1000000)
millionfold_parts (pos n) = (refl, refl)
millionfold_parts (negsuc n) = (refl, omega arith)

micros_parts :
    (t : GTimeVal)
    → pos_part (micros t) + neg_part t.tv_sec * 1000000 + neg_part t.tv_usec
      ≡ neg_part (micros t) + pos_part t.tv_sec * 1000000 + pos_part t.tv_usec
micros_parts t =
    let (p, n) = millionfold_parts t.tv_sec in
    omega (arith, p, n, +ℤ_parts (millionfold t.tv_sec) t.tv_usec)

fires :
    (target now : GTimeVal)
    → (leb_ℤ target.tv_sec now.tv_sec
        || (eqb_ℤ target.tv_sec now.tv_sec && leb_ℤ target.tv_usec now.tv_usec))
      ≡ leb_ℤ target.tv_sec now.tv_sec
fires target now = ground arith

-- log_writer_fd_check on a waiting watch with something to write: it fires once the target is
-- reached, and not when a second or more is left.
pub log_writer_fd_check-timeout :
    {M : Type 0} (s : LogWriter M) (w : LogWriterWatch) (now : GTimeVal)
    → (not (is_empty s.queue) || has_partial s.partial) ≡ true
    → w.flush_waiting_for_timeout ≡ true
    → IsNormal w.flush_target
    → IsNormal now
    → (micros w.flush_target ≤ℤ micros now → log_writer_fd_check s w now ≡ true)
      × (log_writer_fd_check s w now ≡ true → micros w.flush_target <ℤ micros now +ℤ pos 1000000)
unfolding log_writer_fd_check
log_writer_fd_check-timeout s w now pending waiting target_normal now_normal =
    rw (pending, waiting, fires w.flush_target now)
      (
        λ reached. ground (
          arith,
          reached,
          micros_parts w.flush_target,
          micros_parts now,
          target_normal,
          now_normal,
        ),
        λ fired. ground (
          arith,
          fired,
          micros_parts w.flush_target,
          micros_parts now,
          target_normal,
          now_normal,
          +ℤ_parts (micros now) (pos 1000000),
        ),
      )
