-- ===== src/Ack.antt =====
-- Reference counts and acknowledgements of a message: the end of src/logmsg.c, and the acknowledge
-- callbacks of src/logsource.c and src/center.c, which tell a source that its message is done.
use indigo.Prelude.{
  ℕ, ◌+◌, ◌-◌, ◌%◌, ◌^◌, Bool, true, false, Option, none, some, List, [], ◌∷◌, ◌==◌, if◌then◌else◌,
}
use indigo.Prelude.Int.{ℤ, pos, ◌+ℤ◌, ◌-ℤ◌, ltb_ℤ}

-- The LMAckFunc of a block: log_source_msg_ack with the source as user data, or log_center_ack.
pub data AckFunc : Type 0 where
  source_msg_ack center_ack : AckFunc

pub record LogAckBlock : Type 0 where
  pub ack : AckFunc
  pub req_ack_cnt : ℕ
  pub ack_cnt : ℕ

-- A message with the source that it came from: its reference count (a guint16) and acknowledge
-- blocks, innermost first; whether it has been freed; the window of the source and the references
-- to the source's pipe.
pub record Flow : Type 0 where
  pub ref_cnt : ℕ
  pub ack_blocks : List LogAckBlock
  pub freed : Bool
  pub window_size : ℤ
  pub source_refs : ℕ

-- `none` is a failed g_assert, which aborts the program.
infixl 5 ◌>>=◌
abbrev pub ◌>>=◌ : {A B : Type 0} → Option A → (A → Option B) → Option B
none >>= k = none
some a >>= k = k a

-- log_msg_ref
unfoldable pub log_msg_ref : Flow → Option Flow
log_msg_ref m =
    if m.ref_cnt == 0 then none else some (record m { ref_cnt = (m.ref_cnt + 1) % 2 ^ 16 })

-- log_msg_unref
unfoldable pub log_msg_unref : Flow → Option Flow
log_msg_unref m =
    if m.ref_cnt == 0
    then none
    else some (record m { ref_cnt = m.ref_cnt - 1; freed = m.ref_cnt == 1 })

-- log_pipe_ref and log_pipe_unref on the source
unfoldable pub log_pipe_ref : Flow → Option Flow
log_pipe_ref m =
    if m.source_refs == 0 then none else some (record m { source_refs = m.source_refs + 1 })

unfoldable pub log_pipe_unref : Flow → Option Flow
log_pipe_unref m =
    if m.source_refs == 0 then none else some (record m { source_refs = m.source_refs - 1 })

-- log_msg_ack_block_inc: nothing without a block
unfoldable pub log_msg_ack_block_inc : Flow → Flow
log_msg_ack_block_inc m = elim m.ack_blocks [
  | [] ↦ m
  | b ∷ bs ↦ record m { ack_blocks = record b { req_ack_cnt = b.req_ack_cnt + 1 } ∷ bs }
]

-- log_msg_ack_block_start
unfoldable pub log_msg_ack_block_start : AckFunc → Flow → Flow
log_msg_ack_block_start f m = record m {
  ack_blocks = record { ack = f; req_ack_cnt = 1; ack_cnt = 0 } ∷ m.ack_blocks;
}

-- log_source_msg_ack, after log_msg_ack_block_end has left `bs`
unfoldable pub log_source_msg_ack : List LogAckBlock → Flow → Option Flow
unfolding log_msg_unref log_pipe_unref
log_source_msg_ack bs m = do
  m' ← log_msg_unref (record m { ack_blocks = bs; window_size = m.window_size +ℤ pos 1 })
  log_pipe_unref m'

-- log_msg_ack on a message whose blocks are the list; log_center_ack closes its block,
-- acknowledges the one below and releases its reference.
unfoldable pub ack_blocks_ack : List LogAckBlock → Flow → Option Flow
unfolding log_source_msg_ack
ack_blocks_ack [] m = some (record m { ack_blocks = [] })
ack_blocks_ack (b ∷ bs) m =
    let below = ack_blocks_ack bs m in
    elim (b.ack_cnt + 1 == b.req_ack_cnt) [
      | false ↦ some (record m { ack_blocks = record b { ack_cnt = b.ack_cnt + 1 } ∷ bs })
      | true ↦ elim b.ack [
        | source_msg_ack ↦ log_source_msg_ack bs m
        | center_ack ↦ below >>= log_msg_unref
      ]
    ]

unfoldable pub log_msg_ack : Flow → Option Flow
unfolding ack_blocks_ack
log_msg_ack m = ack_blocks_ack m.ack_blocks m

-- log_msg_drop, and what a destination does when it is done with a message: it acknowledges
-- unless PF_FLOW_CTL_OFF is set, and releases.
unfoldable pub log_msg_drop : Bool → Flow → Option Flow
unfolding log_msg_ack
log_msg_drop flow_ctl_off m = do
  m' ← if flow_ctl_off then some m else log_msg_ack m
  log_msg_unref m'

-- log_source_queue up to the call of the next pipe
unfoldable pub log_source_queue : Flow → Option Flow
unfolding log_pipe_ref
log_source_queue m = do
  m' ← log_pipe_ref m
  some (
      let m'' = log_msg_ack_block_start source_msg_ack m' in
      record m'' { window_size = m''.window_size -ℤ pos 1 })

-- log_source_free_to_send
unfoldable pub log_source_free_to_send : Flow → Bool
log_source_free_to_send m = ltb_ℤ (pos 0) m.window_size
