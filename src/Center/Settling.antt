-- ===== src/Center/Settling.antt =====
-- Flow control through src/center.c: what a source gets back for a message.
use indigo.Prelude.{
  ℕ, zero, suc, ◌+◌, ◌^◌, ◌≤◌, ◌<◌, ◌≡◌, refl, ap, ap₂, ◌∙◌, Bool, true, false, some, List, [], ◌∷◌,
  ◌++◌, append-nil, is_empty, arith, ◌==◌, if◌then◌else◌, length, Bool-cases, inl, inr,
}
use indigo.Prelude.Int.{ℤ, pos, ◌+ℤ◌, ◌-ℤ◌, int_laws}
use indigo.Ack.{
  Flow, ◌>>=◌, log_msg_ref, log_msg_ack_block_inc, log_msg_ack_block_start, log_msg_ack,
  log_source_queue,
}
use indigo.Center.{queue_to, queue_all, center_flow}
use indigo.Center.Out.{
  pending, acked, from_source, drop_pending_acks, drop_pending_off, ack_pending, ack_pending_last,
  IsOut, acks, settle_all, settle_all-IsOut, IsOut-none, IsOut-window, IsOut-freed,
}

-- the flow control flags of the destinations that are not done at once
unfoldable pub deferred : {D : Type 0} → (D → Bool) → List (D × Bool) → List Bool
deferred now [] = []
deferred now ((d, flow_control) ∷ ts) =
    if now d then deferred now ts else flow_control ∷ deferred now ts

module _ {D : Type 0} (now : D → Bool) (win : ℤ) (refs : ℕ) where
  ref_inc :
      (cnt p out : ℕ)
      → out + 3 < 2 ^ 16
      → log_msg_ref (log_msg_ack_block_inc (pending win refs cnt p out))
        ≡ some (pending win refs cnt (suc p) (out + 1))
  unfolding log_msg_ref log_msg_ack_block_inc
  ref_inc cnt p out h = ground arith

  ref_only :
      (cnt p out : ℕ)
      → out + 3 < 2 ^ 16
      → log_msg_ref (pending win refs cnt p out) ≡ some (pending win refs cnt p (out + 1))
  unfolding log_msg_ref
  ref_only cnt p out h = ground arith

  -- what one destination leaves: a done one nothing, a deferred one its acknowledgement (under
  -- flow control) and its reference
  queue_to-pending :
      (d : D) (flow_control : Bool) (cnt p out : ℕ)
      → out + 3 < 2 ^ 16
      → let l = deferred now ((d, flow_control) ∷ []) in
        (cnt' : ℕ) × (queue_to now (d, flow_control) (pending win refs cnt (suc p) out)
          ≡ some (pending win refs cnt' (suc (p + acks l)) (out + length l)))
  unfolding queue_to deferred acks
  queue_to-pending d true cnt p out h = elim (Bool-cases (now d)) [
    | inl e ↦ (
      cnt + 1,
      rw (ref_inc cnt (suc p) out h, e, drop_pending_acks win refs cnt p out)
          (ap₂ (λ a b. some (pending win refs (cnt + 1) (suc a) b)) (omega arith) (omega arith)),
    )
    | inr e ↦ (
      cnt,
      rw (ref_inc cnt (suc p) out h, e)
          (ap₂ (λ a b. some (pending win refs cnt (suc a) b)) (omega arith) (omega arith)),
    )
  ]
  queue_to-pending d false cnt p out h = elim (Bool-cases (now d)) [
    | inl e ↦ (
      cnt,
      rw (ref_only cnt (suc p) out h, e, drop_pending_off win refs cnt (suc p) out)
          (ap₂ (λ a b. some (pending win refs cnt (suc a) b)) (omega arith) (omega arith)),
    )
    | inr e ↦ (
      cnt,
      rw (ref_only cnt (suc p) out h, e)
          (ap₂ (λ a b. some (pending win refs cnt (suc a) b)) (omega arith) (omega arith)),
    )
  ]

  deferred-cons :
      (d : D) (flow_control : Bool) (ts : List (D × Bool))
      → (acks (deferred now ((d, flow_control) ∷ ts))
          ≡ acks (deferred now ((d, flow_control) ∷ [])) + acks (deferred now ts))
        × (length (deferred now ((d, flow_control) ∷ ts))
            ≡ length (deferred now ((d, flow_control) ∷ [])) + length (deferred now ts))
  unfolding deferred acks
  deferred-cons d true ts = ground arith
  deferred-cons d false ts = ground arith

  length-deferred-le : (ts : List (D × Bool)) → length (deferred now ts) ≤ length ts
  unfolding deferred
  length-deferred-le [] = omega arith
  length-deferred-le ((d, flow_control) ∷ ts) = ground (arith, length-deferred-le ts)

  queue_all-pending :
      (ts : List (D × Bool)) (cnt p out : ℕ)
      → out + length ts + 3 < 2 ^ 16
      → (cnt' : ℕ) × (queue_all now ts (pending win refs cnt (suc p) out)
          ≡ some (
              pending win refs cnt'
                (suc (p + acks (deferred now ts)))
                (out + length (deferred now ts))))
  unfolding queue_all
  queue_all-pending [] cnt p out h = (
    cnt,
    ap₂ (λ a b. some (pending win refs cnt (suc a) b)) (unfold deferred acks in omega arith)
        (unfold deferred in omega arith),
  )
  queue_all-pending ((d, flow_control) ∷ ts) cnt p out h =
      let l = deferred now ((d, flow_control) ∷ []) in
      let (cnt₁, e₁) = queue_to-pending d flow_control cnt p out (omega arith) in
      let one = length-deferred-le ((d, flow_control) ∷ []) in
      let (cnt₂, e₂) = queue_all-pending ts cnt₁ (p + acks l) (out + length l) (omega arith) in
      let (a, n) = deferred-cons d flow_control ts in
      (
        cnt₂,
        rw (e₁, e₂)
            (ap₂ (λ a b. some (pending win refs cnt₂ (suc a) b)) (omega arith) (omega arith)),
      )

  own_ack :
      (cnt p out : ℕ)
      → (m : Flow) × (log_msg_ack (pending win refs cnt (suc p) out) ≡ some m)
        × IsOut win refs p out m
  unfolding IsOut
  own_ack cnt zero out = (acked win refs out, ack_pending_last win refs cnt out, refl)
  own_ack cnt (suc p) out =
      (pending win refs (cnt + 1) (suc p) out, ack_pending win refs cnt p out, (cnt + 1, refl))

  center_flow-IsOut :
      (ts : List (D × Bool)) (m : Flow)
      → length ts + 3 < 2 ^ 16
      → m ≡ from_source win refs
      → (m' : Flow) × (center_flow now ts m ≡ some m')
        × IsOut win refs (acks (deferred now ts)) (length (deferred now ts)) m'
  unfolding center_flow log_msg_ref log_msg_ack_block_start
  center_flow-IsOut ts m h same =
      let (cnt, e) = queue_all-pending ts 0 0 0 (omega arith) in
      let (m', a, out) = own_ack cnt (acks (deferred now ts)) (length (deferred now ts)) in
      let fix_a : 0 + acks (deferred now ts) ≡ acks (deferred now ts) = omega arith in
      let fix_n : 0 + length (deferred now ts) ≡ length (deferred now ts) = omega arith in
      (m', rw (same, e, fix_a, fix_n) a, out)

-- a message that a source has just made, with one reference and no block
abbrev pub fresh : ℤ → ℕ → Flow
fresh win refs = record {
  ref_cnt = 1;
  ack_blocks = [];
  freed = false;
  window_size = win;
  source_refs = refs;
}

-- the message is gone, and the source as it was before it
abbrev pub finished : ℤ → ℕ → Flow
finished win refs = record {
  ref_cnt = 0;
  ack_blocks = [];
  freed = true;
  window_size = win;
  source_refs = refs;
}

module _ {D : Type 0} (now : D → Bool) (win : ℤ) (refs : ℕ) where
  pub log_source_queue-fresh :
      0 < refs → log_source_queue (fresh win refs) ≡ some (from_source (win -ℤ pos 1) refs)
  unfolding log_source_queue log_msg_ack_block_start
  log_source_queue-fresh h = ground arith

  pub window_restored : (win -ℤ pos 1) +ℤ pos 1 ≡ win
  window_restored = omega int_laws

  -- A message of a source that is referenced goes through the center to fewer than 2^16 - 3
  -- destinations. Those that `now` does not name settle it later, in any order: `part` have done
  -- so, and then `rest` do, each a flag that says whether the destination is under flow control;
  -- together they have as many flags as destinations wait, and as many of them set. No assertion
  -- fails. Once `part` have settled it, the window of the source is what it was before if none of
  -- the rest is under flow control, and one less otherwise; and the message is freed if there is no
  -- rest, and not before. When the rest have settled it too, the source is as it was before.
  pub flow_balance :
      (ts : List (D × Bool)) (part rest : List Bool)
      → 0 < refs
      → length ts + 3 < 2 ^ 16
      → acks (part ++ rest) ≡ acks (deferred now ts)
      → length (part ++ rest) ≡ length (deferred now ts)
      → (m : Flow) × (m' : Flow) × ((log_source_queue (fresh win refs) >>= center_flow now ts)
          ≡ some m)
        × (settle_all part m ≡ some m')
        × (m'.window_size ≡ (if acks rest == 0 then win else win -ℤ pos 1))
        × (m'.freed ≡ is_empty rest)
        × (settle_all rest m' ≡ some (finished win refs))
  flow_balance ts part rest r h a n =
      let (m, e, out) =
        center_flow-IsOut now (win -ℤ pos 1) refs ts (from_source (win -ℤ pos 1) refs) h refl in
      let (m', done, left) = settle_all-IsOut (win -ℤ pos 1) refs part rest m (rw (a, n) out) in
      let (m'', done', end) =
        settle_all-IsOut (win -ℤ pos 1) refs rest [] m' (rw (append-nil rest) left) in
      (
        m,
        m',
        rw (log_source_queue-fresh r) e,
        done,
        rw window_restored at (IsOut-window (win -ℤ pos 1) refs (acks rest) (length rest) m' left),
        IsOut-freed (win -ℤ pos 1) refs rest m' left,
        done' ∙ ap some (rw window_restored at (IsOut-none (win -ℤ pos 1) refs m'' end)),
      )
