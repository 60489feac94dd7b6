-- ===== src/Groups/Owed.antt =====
-- What a message owes, under any nesting of acknowledge blocks: one number of acknowledgements.
use indigo.Prelude.{
  ℕ, zero, suc, ◌+◌, ◌-◌, ◌^◌, ◌≤◌, ◌<◌, ◌≡◌, refl, ap, subst, ◌∙◌, true, false, some, List, [],
  ◌∷◌, ◌==◌, length, arith, Bool-cases, inl, inr,
}
use indigo.Prelude.Int.{ℤ, pos, ◌+ℤ◌}
use indigo.Ack.{
  LogAckBlock, Flow, source_msg_ack, center_ack, ◌>>=◌, log_msg_ref, log_msg_unref, log_pipe_unref,
  log_msg_ack_block_inc, log_msg_ack_block_start, log_source_msg_ack, ack_blocks_ack, log_msg_ack,
}

-- an open stack: the block of the source at the bottom, those of center and groups above it, each
-- with an acknowledgement missing
unfoldable pub IsStack : List LogAckBlock → Type 0
IsStack [] = ⊥
IsStack (b ∷ []) = (b.ack ≡ source_msg_ack) × (b.ack_cnt < b.req_ack_cnt)
IsStack (b ∷ c ∷ bs) = (b.ack ≡ center_ack) × (b.ack_cnt < b.req_ack_cnt) × IsStack (c ∷ bs)

-- the acknowledgements that are missing beyond the last of each block
unfoldable pub extra : List LogAckBlock → ℕ
extra [] = 0
extra (b ∷ bs) = (b.req_ack_cnt - b.ack_cnt - 1) + extra bs

module _ (win : ℤ) (refs : ℕ) where
  -- a message with `r` references beside those of the blocks
  abbrev pub open_flow : List LogAckBlock → ℕ → Flow
  open_flow bs r = record {
    ref_cnt = r + length bs;
    ack_blocks = bs;
    freed = false;
    window_size = win;
    source_refs = refs + 1;
  }

  -- a message that its source has back
  abbrev pub closed_flow : ℕ → Flow
  closed_flow r = record {
    ref_cnt = r;
    ack_blocks = [];
    freed = r == 0;
    window_size = win +ℤ pos 1;
    source_refs = refs;
  }

  -- `a` acknowledgements are owed and `r` references are held, with `n` blocks at most
  unfoldable pub Owes : (n a r : ℕ) → Flow → Type 0
  unfolding IsStack extra
  Owes n zero r m = m ≡ closed_flow r
  Owes n (suc a) r m =
      (bs : List LogAckBlock) × (IsStack bs
        × ((extra bs ≡ a) × ((length bs ≤ n) × (m ≡ open_flow bs r))))

  unref_closed : (r : ℕ) → log_msg_unref (closed_flow (suc r)) ≡ some (closed_flow r)
  unfolding log_msg_unref
  unref_closed r = ground arith

  unref_open :
      (bs : List LogAckBlock) (r : ℕ)
      → 1 ≤ length bs
      → log_msg_unref (open_flow bs (suc r)) ≡ some (open_flow bs r)
  unfolding log_msg_unref
  unref_open bs r h = ground arith

  ref_closed :
      (r : ℕ) → 1 ≤ r → r + 1 < 2 ^ 16 → log_msg_ref (closed_flow r) ≡ some (closed_flow (suc r))
  unfolding log_msg_ref
  ref_closed r some_ref h = ground arith

  ref_open :
      (bs : List LogAckBlock) (r : ℕ)
      → 1 ≤ length bs
      → r + length bs + 1 < 2 ^ 16
      → log_msg_ref (open_flow bs r) ≡ some (open_flow bs (suc r))
  unfolding log_msg_ref
  ref_open bs r l h = ground arith

  stack-length : (bs : List LogAckBlock) → IsStack bs → 1 ≤ length bs
  unfolding IsStack
  stack-length [] s = absurd s
  stack-length (b ∷ bs) s = omega arith

  stack-open :
      (b : LogAckBlock) (bs : List LogAckBlock) → IsStack (b ∷ bs) → b.ack_cnt < b.req_ack_cnt
  unfolding IsStack
  stack-open b [] (k, l) = l
  stack-open b (c ∷ bs) (k, l, s) = l

  closed-Owes : (n r : ℕ) → Owes n 0 r (closed_flow r)
  unfolding Owes
  closed-Owes n r = refl

  -- a reference is released
  pub unref-Owes :
      (n a r : ℕ) (m : Flow)
      → Owes n a (suc r) m
      → (m' : Flow) × ((log_msg_unref m ≡ some m') × Owes n a r m')
  unfolding Owes
  unref-Owes n zero r m e = (closed_flow r, (rw e (unref_closed r), refl))
  unref-Owes n (suc a) r m (bs, (s, (x, (l, e)))) =
      (open_flow bs r, (rw e (unref_open bs r (stack-length bs s)), (bs, (s, (x, (l, refl))))))

  -- a reference is taken of a message that is still there
  pub ref-Owes :
      (n a r : ℕ) (m : Flow)
      → Owes n a r m
      → 1 ≤ a + r
      → r + n + 1 < 2 ^ 16
      → (m' : Flow) × ((log_msg_ref m ≡ some m') × Owes n a (suc r) m')
  unfolding Owes
  ref-Owes n zero r m e there h =
      (closed_flow (suc r), (rw e (ref_closed r (omega arith) (omega arith)), refl))
  ref-Owes n (suc a) r m (bs, (s, (x, (l, e)))) there h = (
    open_flow bs (suc r),
    (rw e (ref_open bs r (stack-length bs s) (omega arith)), (bs, (s, (x, (l, refl))))),
  )

  -- the top block is told of one acknowledgement more
  pub inc-Owes :
      (n a r : ℕ) (m : Flow) → Owes n (suc a) r m → Owes n (suc (suc a)) r (log_msg_ack_block_inc m)
  unfolding Owes log_msg_ack_block_inc IsStack extra
  inc-Owes n a r m ([], (s, rest)) = absurd s
  inc-Owes n a r m (b ∷ bs, (s, (x, (l, e)))) =
      (told ∷ bs, (stays bs s, (more (stack-open b bs s), (l, rw e refl))))
    where
      told : LogAckBlock
      told = record b { req_ack_cnt = b.req_ack_cnt + 1 }

      more : b.ack_cnt < b.req_ack_cnt → extra (told ∷ bs) ≡ suc a
      more l = omega (arith, x)

      stays : (bs : List LogAckBlock) → IsStack (b ∷ bs) → IsStack (told ∷ bs)
      stays [] (k, l) = (k, omega arith)
      stays (c ∷ bs) (k, l, s) = (k, omega arith, s)

  -- a new block takes over one of the references
  pub start-Owes :
      (n a r : ℕ) (m : Flow)
      → Owes n (suc a) (suc r) m
      → Owes (suc n) (suc a) r (log_msg_ack_block_start center_ack m)
  unfolding Owes log_msg_ack_block_start IsStack extra
  start-Owes n a r m ([], (s, rest)) = absurd s
  start-Owes n a r m (b ∷ bs, (s, (x, (l, e)))) =
      (fresh ∷ b ∷ bs, ((refl, omega arith, s), (omega (arith, x), (omega arith, rw e moved))))
    where
      fresh : LogAckBlock
      fresh = record { ack = center_ack; req_ack_cnt = 1; ack_cnt = 0 }

      moved :
          record (open_flow (b ∷ bs) (suc r)) { ack_blocks = fresh ∷ b ∷ bs }
          ≡ open_flow (fresh ∷ b ∷ bs) r
      moved = ap (λ k. record (open_flow (fresh ∷ b ∷ bs) r) { ref_cnt = k }) (omega arith)

  abbrev acked_once : LogAckBlock → LogAckBlock
  acked_once b = record b { ack_cnt = b.ack_cnt + 1 }

  -- the stack of a message whose flow is given but for its blocks
  abbrev with_blocks : List LogAckBlock → ℕ → List LogAckBlock → Flow
  with_blocks bs r junk = record (open_flow bs r) { ack_blocks = junk }

  still_open :
      (n : ℕ) (b : LogAckBlock) (bs : List LogAckBlock) (r : ℕ)
      → IsStack (b ∷ bs)
      → length (b ∷ bs) ≤ n
      → (b.ack_cnt + 1 == b.req_ack_cnt) ≡ false
      → Owes n (extra (b ∷ bs)) r (open_flow (acked_once b ∷ bs) r)
  unfolding Owes IsStack extra
  still_open n b bs r s l h =
      subst (λ a. Owes n a r (open_flow (acked_once b ∷ bs) r)) (fewer bs s)
        (acked_once b ∷ bs, (stays bs s, (refl, (l, refl))))
    where
      stays : (bs : List LogAckBlock) → IsStack (b ∷ bs) → IsStack (acked_once b ∷ bs)
      stays [] (k, l) = (k, ground arith)
      stays (c ∷ bs) (k, l, s) = (k, ground arith, s)

      fewer :
          (bs : List LogAckBlock)
          → IsStack (b ∷ bs)
          → suc (extra (acked_once b ∷ bs)) ≡ extra (b ∷ bs)
      fewer bs s = let l = stack-open b bs s in ground arith

  source_done :
      (b : LogAckBlock) (r : ℕ) (junk : List LogAckBlock)
      → log_source_msg_ack [] (with_blocks (b ∷ []) r junk) ≡ some (closed_flow r)
  unfolding log_source_msg_ack log_msg_unref log_pipe_unref
  source_done b r junk = ground arith

  -- the last acknowledgement of a block adds nothing to what is missing
  extra_last :
      (b : LogAckBlock) (bs : List LogAckBlock)
      → (b.ack_cnt + 1 == b.req_ack_cnt) ≡ true
      → extra bs ≡ extra (b ∷ bs)
  unfolding extra
  extra_last b bs h = ground arith

  -- one acknowledgement, through the blocks that it completes
  ack_blocks_ack-Owes :
      (n : ℕ) (bs : List LogAckBlock) (r : ℕ) (junk : List LogAckBlock)
      → IsStack bs
      → length bs ≤ n
      → (m' : Flow) × ((ack_blocks_ack bs (with_blocks bs r junk) ≡ some m')
          × Owes n (extra bs) r m')
  unfolding ack_blocks_ack IsStack extra
  ack_blocks_ack-Owes n [] r junk s small = absurd s
  ack_blocks_ack-Owes n (b ∷ []) r junk (k, l) small =
      elim (Bool-cases (b.ack_cnt + 1 == b.req_ack_cnt)) [
        | inr more ↦ (
          open_flow (acked_once b ∷ []) r,
          (rw (ack_blocks_ack, more) refl, still_open n b [] r (k, l) small more),
        )
        | inl last ↦ (
          closed_flow r,
          (
            rw (ack_blocks_ack, last, k) (source_done b r junk),
            subst (λ a. Owes n a r (closed_flow r)) (extra_last b [] last) (closed-Owes n r),
          ),
        )
      ]
  ack_blocks_ack-Owes n (b ∷ c ∷ bs) r junk (k, l, s) small =
      elim (Bool-cases (b.ack_cnt + 1 == b.req_ack_cnt)) [
        | inr more ↦ (
          open_flow (acked_once b ∷ c ∷ bs) r,
          (rw (ack_blocks_ack, more) refl, still_open n b (c ∷ bs) r (k, l, s) small more),
        )
        | inl last ↦
            let (m, (e, o)) = ack_blocks_ack-Owes n (c ∷ bs) (suc r) junk s (omega arith) in
            let (m', (e', o')) = unref-Owes n (extra (c ∷ bs)) r m o in
            (
              m',
              (
                rw (ack_blocks_ack, last, k)
                    (ap (λ f. ack_blocks_ack (c ∷ bs) f >>= log_msg_unref) same
                      ∙ ap (λ f. f >>= log_msg_unref) e
                      ∙ e'),
                subst (λ a. Owes n a r m') (extra_last b (c ∷ bs) last) o',
              ),
            )
      ]
    where
      same : with_blocks (b ∷ c ∷ bs) r junk ≡ with_blocks (c ∷ bs) (suc r) junk
      same = ap (λ n. record (with_blocks (c ∷ bs) (suc r) junk) { ref_cnt = n }) (omega arith)

  -- log_msg_ack is one acknowledgement less, the last of which closes the message
  pub ack-Owes :
      (n a r : ℕ) (m : Flow)
      → Owes n (suc a) r m
      → (m' : Flow) × ((log_msg_ack m ≡ some m') × Owes n a r m')
  unfolding Owes log_msg_ack
  ack-Owes n a r m (bs, (s, (x, (l, e)))) =
      let (m', (e', o)) = ack_blocks_ack-Owes n bs r bs s l in
      (m', (rw e e', subst (λ k. Owes n k r m') x o))
