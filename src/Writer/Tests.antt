-- ===== src/Writer/Tests.antt =====
-- Runs of a writer, and the writer's theorems at concrete values.
use indigo.Prelude.{
  ℕ, ◌+◌, ◌-◌, ◌^◌, ◌≤◌, ◌≡◌, ◌≢◌, ◌⊎◌, refl, sym, true, false, none, some, List, [], ◌∷◌, ◌++◌,
  append-nil, arith, ◌==◌, if◌then◌else◌, length, take, take_all, min, Bool-cases, inl, inr,
}
use indigo.Writer.{
  ack, unref, WriteResult, wrote, again, Formatter, LogWriterOptions, LogWriter, count_drop, settle,
  log_writer_queue, log_writer_format_log,
}
use indigo.Writer.Accept.{log_writer_queue_lem}
use indigo.Writer.Flush.{log_writer_flush_log}
use indigo.Writer.Flush.Conserve.{
  Descriptor, taken, HasFormat, pending, log_writer_flush_log-pending,
}
use indigo.Writer.Flush.Settle.{owed, Settled, log_writer_flush_log-Settled}
use indigo.Writer.Flush.Drain.{TakesAll, log_writer_flush_log_drains}
use indigo.Writer.Flush.Run.{Event, push, flush, run, accepted, stream, run-stream}

-- messages are numbers; a message's text is its number
abbrev plain : Formatter ℕ
plain = record {
  Template = Unit {0};
  template_format = λ t m e r. [];
  stamp_format = λ m r. b't' ∷ [];
  stamp_format_bsd = λ m r. b'b' ∷ [];
  pri = λ m. 13;
  host = λ m. b'h' ∷ [];
  msg = λ m. m ∷ [];
  decimal = λ n. b'1' ∷ b'3' ∷ [];
}

abbrev options : LogWriterOptions (Unit {0})
options = record {
  fifo_size = 2;
  flush_lines = 0;
  flush_timeout = 10000;
  template = none;
  file_template = none;
  proto_template = none;
  tmpl_escape = false;
  use_time_recvd = false;
  format_file = true;
  format_proto = false;
}

has_format : HasFormat plain options
unfolding log_writer_format_log
has_format lm line = refl

-- a descriptor that takes a number of bytes and then would block
abbrev Disk : Type 0
Disk = List ℕ × ℕ

disk_write : Disk → List ℕ → WriteResult × Disk
disk_write (o, b) bs =
    if b == 0
    then (again, (o, b))
    else (wrote (min b (length bs)), (o ++ take (min b (length bs)) bs, b - min b (length bs)))

disk_out : (w : Disk) (bs : List ℕ) → (disk_write w bs).1.0 ≡ w.0 ++ taken (disk_write w bs).0 bs
unfolding disk_write
disk_out (o, b) bs = elim (Bool-cases (b == 0)) [ inl e ↦ rw e (sym (append-nil o)) | inr e ↦ rw e ]

disk_bound : (w : Disk) (bs : List ℕ) (n : ℕ) → (disk_write w bs).0 ≡ wrote n → n ≤ length bs
unfolding disk_write
disk_bound (o, b) bs n h = ground arith

abbrev disk : Descriptor Disk
disk = record { write = disk_write; out = λ w. w.0; write_out = disk_out; write_bound = disk_bound }

pipe_out : (w bs : List ℕ) → w ++ bs ≡ w ++ take (length bs) bs
pipe_out w bs = rw (take_all (length bs) bs (omega arith))

pipe_bound : (w bs : List ℕ) (n : ℕ) → wrote (length bs) ≡ wrote n → n ≤ length bs
pipe_bound w bs n h = ground arith

-- one that takes everything
abbrev pipe : Descriptor (List ℕ)
pipe = record {
  write = λ w bs. (wrote (length bs), w ++ bs);
  out = λ w. w;
  write_out = pipe_out;
  write_bound = pipe_bound;
}

-- the third byte of a line of six was the last to be written
abbrev midway : LogWriter ℕ
midway = record {
  queue = (b'x', 2 ^ 31) ∷ (b'y', 2 ^ 31 + 1) ∷ [];
  partial = some (b'a' ∷ b'b' ∷ b'c' ∷ b'd' ∷ []);
  partial_pos = 2;
  has_source = true;
  dropped_messages = some 7;
}

flush_midway :
    let r = log_writer_flush_log plain disk_write options midway ([], 4) in
    (r.world.0 ≡ b'c' ∷ b'd' ∷ b't' ∷ b' ' ∷ [])
    × (r.writer.partial_pos ≡ 2)
    × (r.calls ≡ ack b'x' ∷ unref b'x' ∷ [])
unfolding log_writer_flush_log log_writer_format_log disk_write
flush_midway = (refl, refl, refl)

log_writer_flush_log-pending_example :
    let r = log_writer_flush_log plain disk_write options midway ([], 4) in
    r.world.0 ++ pending plain options r.writer ≡ [] ++ pending plain options midway
log_writer_flush_log-pending_example =
    log_writer_flush_log-pending plain disk options has_format midway ([], 4)

log_writer_flush_log-Settled_example :
    Settled midway midway.queue (log_writer_flush_log plain disk_write options midway ([], 4))
log_writer_flush_log-Settled_example =
    log_writer_flush_log-Settled plain disk_write options midway ([], 4)

pipe-TakesAll : TakesAll (pipe.write)
pipe-TakesAll w bs = refl

log_writer_flush_log_drains_example :
    let r = log_writer_flush_log plain (pipe.write) options midway [] in
    (r.writer.queue ≡ [])
    × (r.writer.partial ≡ none)
    × (r.result ≡ true)
    × (r.world ≡ [] ++ pending plain options midway)
log_writer_flush_log_drains_example =
    log_writer_flush_log_drains plain pipe pipe-TakesAll options has_format midway []

abbrev events : List (Event ℕ)
events = push 1 0 ∷ flush ∷ push 2 1 ∷ push 3 0 ∷ flush ∷ []

run-stream_example :
    stream plain disk options (run plain disk options (midway, ([], 9)) events)
    ≡ stream plain disk options (midway, ([], 9))
      ++ accepted plain disk options (midway, ([], 9)) events
run-stream_example = run-stream plain disk options has_format (midway, ([], 9)) events

log_writer_queue_lem_example :
    let (s', calls) = log_writer_queue options midway 5 0 in
    (length s'.queue ≤ 2)
    × (((length midway.queue ≡ 2)
          × (s'.queue ≡ midway.queue)
          × (calls ≡ settle 5 0)
          × (s'.dropped_messages ≡ count_drop (some 7)))
        ⊎ ((length midway.queue ≢ 2)
            × (calls ≡ [])
            × (owed s'.queue ≡ owed midway.queue ++ settle 5 0)
            × (s'.dropped_messages ≡ some 7)))
log_writer_queue_lem_example = log_writer_queue_lem options midway 5 0 (omega arith)
