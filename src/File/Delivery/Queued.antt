-- ===== src/File/Delivery/Queued.antt =====
-- Queueing a message to a file destination: it goes to the end of the queue of its file, or is
-- dropped, and the queues of other files stay as they are.
use indigo.Prelude.{
  ℕ, ◌≡◌, refl, sym, ap, ◌∙◌, Bool, true, false, Option, none, some, List, [], ◌∷◌, ◌++◌,
  if◌then◌else◌, is_empty, length, ◌==◌, ltb, ◌+◌, append-nil, Bool-cases, inl, inr,
}
use indigo.Writer.{LogWriter, flow_ctl_off, log_writer_queue, log_msg_drop, to_word}
use indigo.File.{Os, rdwr, append_create, affile_open_file}
use indigo.File.Dest.{
  Options, AfFileDestWriter, affile_dw_init, dw_opened, dw_forward, dw_reopen, affile_dw_queue,
  queue_new, queue_named, affile_dw_new, dw_stamped, overwrite, log_writer_init, log_writer_new,
}
use indigo.File.Delivery.{writer_queue, queue_of}

abbrev pub HasWriter : {M : Type 0} → Option (LogWriter M) → Type 0
HasWriter none = ⊥
HasWriter (some s) = Unit

-- a file that is open has a writer
abbrev pub IsGood : {M : Type 0} → Option (AfFileDestWriter M) → Type 0
IsGood none = Unit
IsGood (some dw) = HasWriter dw.writer

-- what is accepted: the message, if nothing is called to settle it
abbrev pub taken : {M C : Type 0} → M → ℕ → List C → List (M × ℕ)
taken lm path_flags calls = if is_empty calls then (lm, to_word path_flags) ∷ [] else []

-- log_msg_drop makes calls, so that a dropped message is not taken
settled :
    {M : Type 0} (lm : M) (path_flags : ℕ) (q : List (M × ℕ))
    → q ≡ q ++ taken lm path_flags (log_msg_drop lm path_flags)
unfolding log_msg_drop
settled lm path_flags q = elim (Bool-cases (flow_ctl_off path_flags)) [
  | inl off ↦ rw off (sym (append-nil q))
  | inr on ↦ rw on (sym (append-nil q))
]

log_writer_init-queue :
    {M : Type 0} (registered : Option ℕ) (s : LogWriter M)
    → (log_writer_init registered s).queue ≡ s.queue
unfolding log_writer_init
log_writer_init-queue {M} registered s = by_counter s.dropped_messages
  where
    by_counter :
        (counter : Option ℕ)
        → (log_writer_init registered (record s { dropped_messages = counter })).queue ≡ s.queue
    by_counter none = refl
    by_counter (some n) = refl

-- the descriptor that affile_dw_init gets
abbrev opened : {T : Type 0} (os : Os) → Options T → List ℕ → os.World → Option ℕ
opened os o name w =
    (affile_open_file os o.file o.dir o.create_dirs name (if o.pipe then rdwr else append_create)
      (overwrite os o name w)).0

module _ {M T : Type 0} (os : Os) (registered : Option ℕ) (o : Options T) where
  open os use {World, time}

  -- opening a file leaves the queue of its writer
  pub dw_opened-queue :
      (fd : Option ℕ) (dw : AfFileDestWriter M)
      → writer_queue (dw_opened os registered o fd dw).1.writer ≡ writer_queue dw.writer
  unfolding dw_opened log_writer_new
  dw_opened-queue none dw = refl
  dw_opened-queue (some fd) dw = by_writer dw.writer
    where
      by_writer :
          (writer : Option (LogWriter M))
          → writer_queue
              (dw_opened os registered o (some fd) (record dw { writer = writer })).1.writer
            ≡ writer_queue writer
      by_writer none = log_writer_init-queue registered log_writer_new
      by_writer (some s) = log_writer_init-queue registered s

  -- a writer stays, and if a driver is not optional there is one after an init that succeeds
  pub dw_opened-HasWriter :
      (fd : Option ℕ) (dw : AfFileDestWriter M)
      → (HasWriter dw.writer → HasWriter (dw_opened os registered o fd dw).1.writer)
        × (o.optional ≡ false
            → (dw_opened os registered o fd dw).0 ≡ true
            → HasWriter (dw_opened os registered o fd dw).1.writer)
  unfolding dw_opened
  dw_opened-HasWriter none dw = (λ h. h, λ h e. absurd ((cc)))
  dw_opened-HasWriter (some fd) dw = (λ h. tt, λ h e. tt)

  -- the message stands at the end of the queue, or is settled
  pub dw_forward-queue :
      (dw : AfFileDestWriter M) (lm : M) (path_flags : ℕ)
      → writer_queue (dw_forward os registered o dw lm path_flags).0.writer
        ≡ writer_queue dw.writer
          ++ taken lm path_flags (dw_forward os registered o dw lm path_flags).1
  unfolding dw_forward log_writer_queue log_msg_drop
  dw_forward-queue dw lm path_flags = by_writer dw.writer
    where
      by_writer :
          (writer : Option (LogWriter M))
          → writer_queue
              (dw_forward os registered o (record dw { writer = writer }) lm path_flags).0.writer
            ≡ writer_queue writer
              ++ taken lm path_flags
                  (dw_forward os registered o (record dw { writer = writer }) lm path_flags).1
      by_writer none = settled lm path_flags []
      by_writer (some s) = elim (Bool-cases (length s.queue == o.writer_options.fifo_size)) [
        | inl full ↦ rw full (settled lm path_flags s.queue)
        | inr free ↦ rw free refl
      ]

  dw_forward-HasWriter :
      (dw : AfFileDestWriter M) (lm : M) (path_flags : ℕ)
      → HasWriter dw.writer
      → HasWriter (dw_forward os registered o dw lm path_flags).0.writer
  unfolding dw_forward
  dw_forward-HasWriter dw lm path_flags = by_writer dw.writer
    where
      by_writer :
          (writer : Option (LogWriter M))
          → HasWriter writer
          → HasWriter
              (dw_forward os registered o (record dw { writer = writer }) lm path_flags).0.writer
      by_writer none h = h
      by_writer (some s) h = tt

  pub affile_dw_init-queue :
      (time_reopen : Option ℕ) (name : List ℕ) (dw : AfFileDestWriter M) (w : World)
      → writer_queue (affile_dw_init os registered o time_reopen name dw w).1.writer
        ≡ writer_queue dw.writer
  unfolding affile_dw_init dw_stamped
  affile_dw_init-queue time_reopen name dw w =
      dw_opened-queue (opened os o name w) (dw_stamped os registered o time_reopen name dw w)

  pub affile_dw_init-HasWriter :
      (time_reopen : Option ℕ) (name : List ℕ) (dw : AfFileDestWriter M) (w : World)
      → (HasWriter dw.writer
          → HasWriter (affile_dw_init os registered o time_reopen name dw w).1.writer)
        × (o.optional ≡ false
            → (affile_dw_init os registered o time_reopen name dw w).0 ≡ true
            → HasWriter (affile_dw_init os registered o time_reopen name dw w).1.writer)
  unfolding affile_dw_init dw_stamped
  affile_dw_init-HasWriter time_reopen name dw w =
      dw_opened-HasWriter (opened os o name w) (dw_stamped os registered o time_reopen name dw w)

  -- trying to open the file again leaves the queue, and a writer
  dw_reopen-queue :
      (name : List ℕ) (dw : AfFileDestWriter M) (w : World)
      → writer_queue (dw_reopen os registered o name dw w).0.writer ≡ writer_queue dw.writer
  unfolding dw_reopen
  dw_reopen-queue name dw w = by_writer dw.writer
    where
      by_writer :
          (writer : Option (LogWriter M))
          → writer_queue (dw_reopen os registered o name (record dw { writer = writer }) w).0.writer
            ≡ writer_queue writer
      by_writer none =
          elim (Bool-cases (ltb (dw.last_open_stamp + dw.time_reopen) dw.last_msg_stamp)) [
            | inl due ↦ rw due (affile_dw_init-queue none name (record dw { writer = none }) w)
            | inr early ↦ rw early refl
          ]
      by_writer (some s) = refl

  dw_reopen-HasWriter :
      (name : List ℕ) (dw : AfFileDestWriter M) (w : World)
      → HasWriter dw.writer
      → HasWriter (dw_reopen os registered o name dw w).0.writer
  unfolding dw_reopen
  dw_reopen-HasWriter name dw w = by_writer dw.writer
    where
      by_writer :
          (writer : Option (LogWriter M))
          → HasWriter writer
          → HasWriter (dw_reopen os registered o name (record dw { writer = writer }) w).0.writer
      by_writer none h = absurd h
      by_writer (some s) h = tt

  affile_dw_queue-queue :
      (name : List ℕ) (dw : AfFileDestWriter M) (lm : M) (path_flags : ℕ) (w : World)
      → writer_queue (affile_dw_queue os registered o name dw lm path_flags w).0.0.writer
        ≡ writer_queue dw.writer
          ++ taken lm path_flags (affile_dw_queue os registered o name dw lm path_flags w).0.1
  unfolding affile_dw_queue
  affile_dw_queue-queue name dw lm path_flags w =
      let dw' = record dw { last_msg_stamp = time w } in
      dw_forward-queue (dw_reopen os registered o name dw' w).0 lm path_flags
      ∙ ap
          (λ q.
            q
            ++ taken lm path_flags
                (dw_forward os registered o (dw_reopen os registered o name dw' w).0 lm
                  path_flags).1)
          (dw_reopen-queue name dw' w)

  pub affile_dw_queue-HasWriter :
      (name : List ℕ) (dw : AfFileDestWriter M) (lm : M) (path_flags : ℕ) (w : World)
      → HasWriter dw.writer
      → HasWriter (affile_dw_queue os registered o name dw lm path_flags w).0.0.writer
  unfolding affile_dw_queue
  affile_dw_queue-HasWriter name dw lm path_flags w h =
      dw_forward-HasWriter
        (dw_reopen os registered o name (record dw { last_msg_stamp = time w }) w).0 lm path_flags
        (dw_reopen-HasWriter name (record dw { last_msg_stamp = time w }) w h)

  -- What queueing under a name does to its writer, which may not be there before: the message is
  -- at the end of its queue or settled, and if the driver is not optional a writer is there for
  -- each file that is kept.
  pub record IsQueued (before after : Option (AfFileDestWriter M)) (es : List (M × ℕ))
      : Type 0 where
    pub appended : queue_of after ≡ queue_of before ++ es
    pub good : o.optional ≡ false → IsGood before → IsGood after
    pub stays : after ≡ none → before ≡ none

  queue_new-IsQueued :
      (time_reopen : ℕ) (name : List ℕ) (lm : M) (path_flags : ℕ) (w : World)
      → IsQueued none
          (queue_new os registered o time_reopen name lm path_flags w).0.0
          (taken lm path_flags (queue_new os registered o time_reopen name lm path_flags w).0.1)
  unfolding queue_new affile_dw_new
  queue_new-IsQueued time_reopen name lm path_flags w = elim (Bool-cases started.0) [
    | inl ok ↦
        rw (ok, queue_new)
          (record {
            appended =
                affile_dw_queue-queue name started.1 lm path_flags started.2
                ∙ ap
                    (λ q.
                      q
                      ++ taken lm path_flags
                          (affile_dw_queue os registered o name started.1 lm path_flags
                            started.2).0.1)
                    (affile_dw_init-queue (some time_reopen) name affile_dw_new w);
            good = λ strict h.
                affile_dw_queue-HasWriter name started.1 lm path_flags started.2
                  ((affile_dw_init-HasWriter (some time_reopen) name affile_dw_new w).1 strict ok);
            stays = λ e. refl;
          })
    | inr failed ↦
        rw (failed, queue_new)
          (record { appended = settled lm path_flags []; good = λ strict h. tt; stays = λ e. refl })
  ]
    where
      started : Bool × AfFileDestWriter M × World
      started = affile_dw_init os registered o (some time_reopen) name affile_dw_new w

  pub queue_named-IsQueued :
      (time_reopen : ℕ) (name : List ℕ) (before : Option (AfFileDestWriter M)) (lm : M)
      (path_flags : ℕ) (w : World)
      → IsQueued before (queue_named os registered o time_reopen name before lm path_flags w).0.0 (
          taken lm path_flags
            (queue_named os registered o time_reopen name before lm path_flags w).0.1)
  unfolding queue_named
  queue_named-IsQueued time_reopen name none lm path_flags w =
      queue_new-IsQueued time_reopen name lm path_flags w
  queue_named-IsQueued time_reopen name (some dw) lm path_flags w = record {
    appended = affile_dw_queue-queue name dw lm path_flags w;
    good = λ strict h. affile_dw_queue-HasWriter name dw lm path_flags w h;
    stays = λ e. absurd ((cc));
  }
