-- ===== src/FdIo/Tests.antt =====
-- A descriptor whose calls are interrupted twice.
use indigo.Prelude.{ℕ, zero, suc, ◌≡◌, refl, Bool, true, false, none, some, List, [], ◌∷◌, arith}
use indigo.FdIo.{eagain, eintr, Rc, ok, err, FdSystem, fd_do_write}
use indigo.FdIo.Retry.{quiet, ends, interrupted, fd_do_write_lem}

-- the state counts the signals that are still to come
abbrev signals : ℕ → (Rc ℕ × Bool) × ℕ
signals zero = ((ok 3, false), zero)
signals (suc n) = ((err eintr, false), n)

abbrev blocks : ℕ → (Rc (List ℕ) × Bool) × ℕ
blocks zero = ((err eintr, true), zero)
blocks (suc n) = ((err eintr, false), n)

abbrev system : FdSystem ℕ (Unit {0})
system = record {
  write = λ w buf. signals w;
  read = λ w n. blocks w;
  recvfrom = λ w n. (err eagain, w);
  fsync = λ w. (none, w);
}

fd_do_write_lem_example : fd_do_write system 10 false 3 2 quiet (1 ∷ []) ≡ some (ok 3, 0, quiet)
fd_do_write_lem_example =
    fd_do_write_lem system 10 (1 ∷ []) 2 2 0 (ok 3)
      (interrupted refl (interrupted refl (ends refl refl))) (omega arith)
