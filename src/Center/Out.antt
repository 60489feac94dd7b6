-- ===== src/Center/Out.antt =====
-- src/center.c and src/logmsg.c: a message that the center has handed to destinations, as they
-- settle it one after the other.
use indigo.Prelude.{
  ℕ, zero, suc, ◌+◌, ◌≡◌, refl, ap, ◌∙◌, Bool, true, false, not, Option, some, List, [], ◌∷◌, ◌++◌,
  is_empty, arith, ◌==◌, if◌then◌else◌, length,
}
use indigo.Prelude.Int.{ℤ, pos, ◌+ℤ◌}
use indigo.Ack.{Flow, LogAckBlock, source_msg_ack, center_ack, ◌>>=◌, log_msg_ack, log_msg_drop}

-- a block of the center that waits for `p` more acknowledgements, over the block of the source
abbrev pub waiting : ℕ → ℕ → List LogAckBlock
waiting cnt p =
    record { ack = center_ack; req_ack_cnt = cnt + p; ack_cnt = cnt }
    ∷ record { ack = source_msg_ack; req_ack_cnt = 1; ack_cnt = 0 }
    ∷ []

-- the message while `p` acknowledgements and `d` references of destinations are out
abbrev pub pending : ℤ → ℕ → ℕ → ℕ → ℕ → Flow
pending win refs cnt p d = record {
  ref_cnt = 2 + d;
  ack_blocks = waiting cnt p;
  freed = false;
  window_size = win;
  source_refs = refs + 1;
}

-- the message when the source has its acknowledgement and `d` references are out
abbrev pub acked : ℤ → ℕ → ℕ → Flow
acked win refs d = record {
  ref_cnt = d;
  ack_blocks = [];
  freed = d == 0;
  window_size = win +ℤ pos 1;
  source_refs = refs;
}

-- a message just queued by its source: one reference, the block of the source
abbrev pub from_source : ℤ → ℕ → Flow
from_source win refs = record {
  ref_cnt = 1;
  ack_blocks = record { ack = source_msg_ack; req_ack_cnt = 1; ack_cnt = 0 } ∷ [];
  freed = false;
  window_size = win;
  source_refs = refs + 1;
}

module _ (win : ℤ) (refs : ℕ) where
  pub drop_pending_acks :
      (cnt p d : ℕ)
      → log_msg_drop false (pending win refs cnt (suc (suc p)) (d + 1))
        ≡ some (pending win refs (cnt + 1) (suc p) d)
  unfolding log_msg_drop
  drop_pending_acks cnt p d = ground arith

  drop_pending_last :
      (cnt d : ℕ) → log_msg_drop false (pending win refs cnt 1 (d + 1)) ≡ some (acked win refs d)
  unfolding log_msg_drop
  drop_pending_last cnt d = ground arith

  pub drop_pending_off :
      (cnt p d : ℕ)
      → log_msg_drop true (pending win refs cnt p (d + 1)) ≡ some (pending win refs cnt p d)
  unfolding log_msg_drop
  drop_pending_off cnt p d = ground arith

  drop_acked_off : (d : ℕ) → log_msg_drop true (acked win refs (suc d)) ≡ some (acked win refs d)
  unfolding log_msg_drop
  drop_acked_off d = ground arith

  pub ack_pending :
      (cnt p d : ℕ)
      → log_msg_ack (pending win refs cnt (suc (suc p)) d)
        ≡ some (pending win refs (cnt + 1) (suc p) d)
  unfolding log_msg_ack
  ack_pending cnt p d = ground arith

  pub ack_pending_last :
      (cnt d : ℕ) → log_msg_ack (pending win refs cnt 1 d) ≡ some (acked win refs d)
  unfolding log_msg_ack
  ack_pending_last cnt d = ground arith

  -- where a message stands with `p` acknowledgements and `d` references of destinations out
  unfoldable pub IsOut : ℕ → ℕ → Flow → Type 0
  IsOut zero d m = m ≡ acked win refs d
  IsOut (suc p) d m = (cnt : ℕ) × (m ≡ pending win refs cnt (suc p) d)

  drop-IsOut_ack :
      (p d : ℕ) (m : Flow)
      → IsOut (suc p) (suc d) m
      → (m' : Flow) × (log_msg_drop false m ≡ some m') × IsOut p d m'
  unfolding IsOut
  drop-IsOut_ack zero d m (cnt, e) = (
    acked win refs d,
    rw e (
        ap (λ k. log_msg_drop false (pending win refs cnt 1 k)) (omega arith)
        ∙ drop_pending_last cnt d),
    refl,
  )
  drop-IsOut_ack (suc p) d m (cnt, e) = (
    pending win refs (cnt + 1) (suc p) d,
    rw e (
        ap (λ k. log_msg_drop false (pending win refs cnt (suc (suc p)) k)) (omega arith)
        ∙ drop_pending_acks cnt p d),
    (cnt + 1, refl),
  )

  drop-IsOut_off :
      (p d : ℕ) (m : Flow)
      → IsOut p (suc d) m
      → (m' : Flow) × (log_msg_drop true m ≡ some m') × IsOut p d m'
  unfolding IsOut
  drop-IsOut_off zero d m e = (acked win refs d, rw e (drop_acked_off d), refl)
  drop-IsOut_off (suc p) d m (cnt, e) = (
    pending win refs cnt (suc p) d,
    rw e (
        ap (λ k. log_msg_drop true (pending win refs cnt (suc p) k)) (omega arith)
        ∙ drop_pending_off cnt (suc p) d),
    (cnt, refl),
  )

-- how many of the flags are set
unfoldable pub acks : List Bool → ℕ
acks [] = 0
acks (true ∷ l) = suc (acks l)
acks (false ∷ l) = acks l

-- destinations that are done with a message one after the other; `true` under flow control
unfoldable pub settle_all : List Bool → Flow → Option Flow
settle_all [] m = some m
settle_all (flow_control ∷ l) m = log_msg_drop (not flow_control) m >>= settle_all l

pub suc_not_zero : (n : ℕ) → (suc n == 0) ≡ false
suc_not_zero n = ground arith

module _ (win : ℤ) (refs : ℕ) where
  -- some settle the message, and those that are left have it out
  pub settle_all-IsOut :
      (part rest : List Bool) (m : Flow)
      → IsOut win refs (acks (part ++ rest)) (length (part ++ rest)) m
      → (m' : Flow) × (settle_all part m ≡ some m') × IsOut win refs (acks rest) (length rest) m'
  unfolding settle_all acks
  settle_all-IsOut [] rest m h = (m, refl, h)
  settle_all-IsOut (true ∷ l) rest m h =
      let (m', e, out) = drop-IsOut_ack win refs (acks (l ++ rest)) (length (l ++ rest)) m h in
      let (m'', e', out') = settle_all-IsOut l rest m' out in (m'', rw e e', out')
  settle_all-IsOut (false ∷ l) rest m h =
      let (m', e, out) = drop-IsOut_off win refs (acks (l ++ rest)) (length (l ++ rest)) m h in
      let (m'', e', out') = settle_all-IsOut l rest m' out in (m'', rw e e', out')

  pub IsOut-none :
      (m : Flow) → IsOut win refs (acks []) (length {A = Bool} []) m → m ≡ acked win refs 0
  unfolding IsOut acks
  IsOut-none m h = h

  -- the window is back when nobody owes an acknowledgement
  pub IsOut-window :
      (p d : ℕ) (m : Flow)
      → IsOut win refs p d m
      → m.window_size ≡ (if p == 0 then win +ℤ pos 1 else win)
  unfolding IsOut
  IsOut-window zero d m e = ap (λ x. x.window_size) e
  IsOut-window (suc p) d m (cnt, e) = rw (suc_not_zero p) (ap (λ x. x.window_size) e)

  -- the message is gone when nobody has it
  pub IsOut-freed :
      (rest : List Bool) (m : Flow)
      → IsOut win refs (acks rest) (length rest) m
      → m.freed ≡ is_empty rest
  unfolding IsOut acks
  IsOut-freed [] m e = ap (λ x. x.freed) e
  IsOut-freed (true ∷ l) m (cnt, e) = ap (λ x. x.freed) e
  IsOut-freed (false ∷ l) m h = freed_not (acks l) (length l) m h
    where
      freed_not : (p d : ℕ) (m : Flow) → IsOut win refs p (suc d) m → m.freed ≡ false
      freed_not zero d m e = ap (λ x. x.freed) e ∙ suc_not_zero d
      freed_not (suc p) d m (cnt, e) = ap (λ x. x.freed) e
