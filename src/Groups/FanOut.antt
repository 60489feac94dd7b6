-- ===== src/Groups/FanOut.antt =====
-- A message that goes through the center to groups of drivers, which may be done with it at once or
-- later: what it owes, and what the source gets back.
use indigo.Prelude.{
  ℕ, zero, suc, ◌+◌, ◌^◌, ◌<◌, ◌≡◌, refl, ap, ◌∙◌, subst, ◌++◌, ◌==◌, is_empty, Bool, true, false,
  Option, some, List, [], ◌∷◌, arith, Bool-cases, inl, inr, length, if◌then◌else◌,
}
use indigo.Prelude.Int.{ℤ, pos, ◌+ℤ◌}
use indigo.Ack.{
  Flow, center_ack, ◌>>=◌, log_msg_unref, log_msg_ack, log_msg_ack_block_inc,
  log_msg_ack_block_start, log_msg_drop,
}
use indigo.Center.Out.{acks, settle_all, suc_not_zero}
use indigo.Groups.{queue_drivers, log_dest_group_queue}
use indigo.Groups.Owed.{Owes, closed_flow, unref-Owes, ref-Owes, inc-Owes, start-Owes, ack-Owes}

-- the drivers that are not done at once
unfoldable pub later : {D : Type 0} → (D → Bool) → List D → ℕ
later now [] = 0
later now (d ∷ ds) = if now d then later now ds else suc (later now ds)

module _ (win : ℤ) (refs : ℕ) where
  -- the message after a step, which does not fail, and what it owes
  unfoldable pub Gives : (n a r : ℕ) → Option Flow → Type 0
  Gives n a r o = (m : Flow) × ((o ≡ some m) × Owes win refs n a r m)

  -- one step after another
  Gives-bind :
      (n a r n' a' r' : ℕ) (o : Option Flow) (k : Flow → Option Flow)
      → Gives n a r o
      → ((m : Flow) → Owes win refs n a r m → Gives n' a' r' (k m))
      → Gives n' a' r' (o >>= k)
  unfolding Gives
  Gives-bind n a r n' a' r' o k (m, (e, h)) next =
      let (m', (e', h')) = next m h in (m', (rw e e', h'))

  Gives-cast :
      (n a r a' r' : ℕ) (o : Option Flow) → a ≡ a' → r ≡ r' → Gives n a r o → Gives n a' r' o
  Gives-cast n a r a' r' o e f g = subst (λ k. Gives n k r' o) e (subst (λ k. Gives n a k o) f g)

  drop-Gives :
      (n a r : ℕ) (m : Flow)
      → Owes win refs n (suc a) (suc r) m
      → Gives n a r (log_msg_drop false m)
  unfolding Gives log_msg_drop
  drop-Gives n a r m h =
      Gives-bind n a (suc r) n a r (log_msg_ack m) log_msg_unref (ack-Owes win refs n a (suc r) m h)
        (unref-Owes win refs n a r)

  drop_off-Gives :
      (n a r : ℕ) (m : Flow) → Owes win refs n a (suc r) m → Gives n a r (log_msg_drop true m)
  unfolding Gives log_msg_drop
  drop_off-Gives n a r m h = unref-Owes win refs n a r m h

  -- some settle the message, in any order, and those that are left have it out
  pub settle_all-Owes :
      (n : ℕ) (part rest : List Bool) (m : Flow)
      → Owes win refs n (acks (part ++ rest)) (length (part ++ rest)) m
      → Gives n (acks rest) (length rest) (settle_all part m)
  unfolding settle_all acks Gives
  settle_all-Owes n [] rest m h = (m, (refl, h))
  settle_all-Owes n (true ∷ l) rest m h =
      let (m', (e, o)) = drop-Gives n (acks (l ++ rest)) (length (l ++ rest)) m h in
      rw e (settle_all-Owes n l rest m' o)
  settle_all-Owes n (false ∷ l) rest m h =
      let (m', (e, o)) = drop_off-Gives n (acks (l ++ rest)) (length (l ++ rest)) m h in
      rw e (settle_all-Owes n l rest m' o)

  pub Owes-none :
      (n : ℕ) (m : Flow)
      → Owes win refs n (acks []) (length {A = Bool} []) m
      → m ≡ closed_flow win refs 0
  unfolding Owes acks
  Owes-none n m h = h

  -- the window is back when nobody owes an acknowledgement
  pub Owes-window :
      (n a r : ℕ) (m : Flow)
      → Owes win refs n a r m
      → m.window_size ≡ (if a == 0 then win +ℤ pos 1 else win)
  unfolding Owes
  Owes-window n zero r m e = ap (λ f. f.window_size) e
  Owes-window n (suc a) r m (bs, (s, (x, (l, e)))) = rw (suc_not_zero a) (ap (λ f. f.window_size) e)

  -- the message is gone when nobody has it
  pub Owes-freed :
      (n : ℕ) (rest : List Bool) (m : Flow)
      → Owes win refs n (acks rest) (length rest) m
      → m.freed ≡ is_empty rest
  unfolding Owes acks
  Owes-freed n [] m e = ap (λ f. f.freed) e
  Owes-freed n (true ∷ l) m (bs, (s, (x, (small, e)))) = ap (λ f. f.freed) e
  Owes-freed n (false ∷ l) m h = freed_not (acks l) (length l) m h
    where
      freed_not : (a r : ℕ) (m : Flow) → Owes win refs n a (suc r) m → m.freed ≡ false
      freed_not zero r m e = ap (λ f. f.freed) e ∙ suc_not_zero r
      freed_not (suc a) r m (bs, (s, (x, (small, e)))) = ap (λ f. f.freed) e

module _ {D : Type 0} (now : D → Bool) (win : ℤ) (refs : ℕ) where
  -- the drivers of a group under flow control, while one acknowledgement and one reference are kept
  queue_drivers-Gives :
      (n a r : ℕ) (ds : List D) (m : Flow)
      → Owes win refs n (suc a) (suc r) m
      → r + n + length ds + 2 < 2 ^ 16
      → Gives win refs n
          (suc (a + later now ds))
          (suc (r + later now ds))
          (queue_drivers now false ds m)
  unfolding queue_drivers later Gives
  queue_drivers-Gives n a r [] m h l =
      Gives-cast win refs n (suc a) (suc r) _ _ (some m) (omega arith) (omega arith) (m, (refl, h))
  queue_drivers-Gives n a r (d ∷ ds) m h l =
      let (m', (e, o)) =
        ref-Owes win refs n (suc (suc a)) (suc r) (log_msg_ack_block_inc m)
          (inc-Owes win refs n a (suc r) m h) (omega arith) (omega arith) in
      elim (Bool-cases (now d)) [
        | inl done ↦
            let (m'', (e', o')) = drop-Gives win refs n (suc a) (suc r) m' o in
            rw (e, done, e') (queue_drivers-Gives n a r ds m'' o' (omega arith))
        | inr waits ↦
            rw (e, waits)
              (Gives-cast win refs n _ _ _ _ (queue_drivers now false ds m') (omega arith)
                (omega arith) (queue_drivers-Gives n (suc a) (suc r) ds m' o (omega arith)))
      ]

  -- and without flow control, where only the references count
  queue_drivers_off-Gives :
      (n a r : ℕ) (ds : List D) (m : Flow)
      → Owes win refs n a (suc r) m
      → r + n + length ds + 2 < 2 ^ 16
      → Gives win refs n a (suc (r + later now ds)) (queue_drivers now true ds m)
  unfolding queue_drivers later Gives
  queue_drivers_off-Gives n a r [] m h l =
      Gives-cast win refs n a (suc r) a _ (some m) refl (omega arith) (m, (refl, h))
  queue_drivers_off-Gives n a r (d ∷ ds) m h l =
      let (m', (e, o)) = ref-Owes win refs n a (suc r) m h (omega arith) (omega arith) in
      elim (Bool-cases (now d)) [
        | inl done ↦
            let (m'', (e', o')) = drop_off-Gives win refs n a (suc r) m' o in
            rw (e, done, e') (queue_drivers_off-Gives n a r ds m'' o' (omega arith))
        | inr waits ↦
            rw (e, waits)
              (Gives-cast win refs n a _ a _ (queue_drivers now true ds m') refl (omega arith)
                (queue_drivers_off-Gives n a (suc r) ds m' o (omega arith)))
      ]

  -- a group takes one acknowledgement and one reference, and leaves those of its drivers
  pub log_dest_group_queue-Gives :
      (n a r : ℕ) (ds : List D) (m : Flow)
      → Owes win refs n (suc a) (suc r) m
      → r + n + length ds + 3 < 2 ^ 16
      → Gives win refs
          (suc n)
          (a + later now ds)
          (r + later now ds)
          (log_dest_group_queue now false ds m)
  unfolding log_dest_group_queue Gives
  log_dest_group_queue-Gives n a r ds m h l =
      let (m', (e, o)) = ref-Owes win refs n (suc a) (suc r) m h (omega arith) (omega arith) in
      let (m'', (e', o')) =
        queue_drivers-Gives (suc n) a r ds (log_msg_ack_block_start center_ack m')
          (start-Owes win refs n a (suc r) m' o) (omega arith) in
      rw (e, e') (drop-Gives win refs (suc n) (a + later now ds) (r + later now ds) m'' o')

  pub log_dest_group_queue_off-Gives :
      (n a r : ℕ) (ds : List D) (m : Flow)
      → Owes win refs n a (suc r) m
      → r + n + length ds + 2 < 2 ^ 16
      → Gives win refs n a (r + later now ds) (log_dest_group_queue now true ds m)
  unfolding log_dest_group_queue Gives
  log_dest_group_queue_off-Gives n a r ds m h l =
      let (m', (e, o)) = queue_drivers_off-Gives n a r ds m h l in
      rw e (drop_off-Gives win refs n a (r + later now ds) m' o)
