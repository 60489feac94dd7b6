-- ===== src/File/Dest.antt =====
-- src/affile.c, file destinations: a driver and the writers that it keeps by file name.
use indigo.Prelude.{
  ℕ, ◌+◌, Bool, true, false, Option, none, some, List, [], ltb, if◌then◌else◌, is_empty,
}
use indigo.Writer.{
  Call, LogWriter, LogWriterOptions, log_writer_queue, log_writer_deinit, log_msg_drop,
}
use indigo.File.{
  Os, rdwr, append_create, Stat, directory, other, missing, unknown, Permissions, affile_open_file,
}
use indigo.File.Table.{Table, lookup, insert}

-- AFFileDestDriver, less its tables; the flags AFFILE_* are fields. Messages are formatted by
-- templates of type T.
pub record Options (T : Type 0) : Type 0 where
  pub template : List ℕ
  pub pipe : Bool
  pub no_expand : Bool
  pub create_dirs : Bool
  pub optional : Bool
  pub file : Permissions
  pub dir : Permissions
  pub overwrite_if_older : ℕ
  pub time_reap : ℕ
  pub writer_options : LogWriterOptions T

-- AFFileDestWriter, less its owner and name; `pipe_next` is the writer
pub record AfFileDestWriter (M : Type 0) : Type 0 where
  pub writer : Option (LogWriter M)
  pub last_msg_stamp : ℕ
  pub last_open_stamp : ℕ
  pub time_reopen : ℕ

-- the tables of AFFileDestDriver, `none` for a null pointer
pub record AfFileDestDriver (M : Type 0) : Type 0 where
  pub writer : Option (AfFileDestWriter M)
  pub writer_hash : Option (Table (AfFileDestWriter M))

-- what a driver leaves in the PersistentConfig
pub data Kept (M : Type 0) : Type 0 where
  one : AfFileDestWriter M → Kept M
  table : Table (AfFileDestWriter M) → Kept M

module _ {M : Type 0} where
  -- log_writer_new
  unfoldable pub log_writer_new : LogWriter M
  log_writer_new = record {
    queue = [];
    partial = none;
    partial_pos = 0;
    has_source = false;
    dropped_messages = none;
  }

  -- log_writer_init, where stats_register_counter gives a counter, or none under LWOF_NO_STATS
  unfoldable pub log_writer_init : (registered : Option ℕ) → LogWriter M → LogWriter M
  log_writer_init registered s = elim s.dropped_messages [
    | none ↦ record s { dropped_messages = registered }
    | some n ↦ s
  ]

  -- log_writer_reopen with a new descriptor
  unfoldable pub log_writer_reopen : LogWriter M → LogWriter M
  log_writer_reopen s = record s { has_source = true }

  abbrev pub hash_of : AfFileDestDriver M → Table (AfFileDestWriter M)
  hash_of d = elim d.writer_hash [ none ↦ [] | some t ↦ t ]

  -- the writer that a message was queued to stands in the table
  unfoldable pub stored_in :
      List ℕ → Option (AfFileDestWriter M) → Table (AfFileDestWriter M) → Table (AfFileDestWriter M)
  unfolding insert
  stored_in name none t = t
  stored_in name (some dw) t = insert name dw t

  -- affile_dw_new
  unfoldable pub affile_dw_new : AfFileDestWriter M
  affile_dw_new = record {
    writer = none;
    last_msg_stamp = 0;
    last_open_stamp = 0;
    time_reopen = 60;
  }

  -- affile_dw_reapable; `none` is the null pointer that it follows without a writer
  unfoldable pub affile_dw_reapable : AfFileDestWriter M → Option Bool
  affile_dw_reapable dw = elim dw.writer [ none ↦ none | some w ↦ some (is_empty w.queue) ]

  -- affile_dw_deinit
  unfoldable pub affile_dw_deinit : AfFileDestWriter M → AfFileDestWriter M
  unfolding log_writer_deinit
  affile_dw_deinit dw = elim dw.writer [
    | none ↦ dw
    | some w ↦ record dw { writer = some (log_writer_deinit w).0 }
  ]

-- st_mtime if stat succeeds
abbrev st_mtime : Stat → Option ℕ
st_mtime (directory mtime) = some mtime
st_mtime (other mtime) = some mtime
st_mtime missing = none
st_mtime unknown = none

-- the unlinking of a file that has not changed for overwrite_if_older seconds
unfoldable pub overwrite : {T : Type 0} (os : Os) → Options T → List ℕ → os.World → os.World
overwrite os o name w =
    if ltb 0 o.overwrite_if_older
    then elim (st_mtime (os.stat w name)) [
      | none ↦ w
      | some mtime ↦ if ltb (mtime + o.overwrite_if_older) (os.time w) then os.unlink w name else w
    ]
    else w

module _ {M T : Type 0} (os : Os) (registered : Option ℕ) (o : Options T) where
  open os use {World, time}

  -- the writer with the descriptor that was opened
  abbrev writer_or_new : Option (LogWriter M) → LogWriter M
  writer_or_new none = log_writer_new
  writer_or_new (some w) = w

  -- what affile_dw_init does after affile_open_file
  unfoldable pub dw_opened : Option ℕ → AfFileDestWriter M → Bool × AfFileDestWriter M
  unfolding log_writer_new log_writer_init log_writer_reopen
  dw_opened none dw = (o.optional, dw)
  dw_opened (some fd) dw = (
    true,
    record dw {
      writer = some (log_writer_reopen (log_writer_init registered (writer_or_new dw.writer)));
    },
  )

  -- affile_dw_init before affile_open_file, with time_reopen of the configuration if there is one
  unfoldable pub dw_stamped :
      (time_reopen : Option ℕ) → List ℕ → AfFileDestWriter M → World → AfFileDestWriter M
  unfolding overwrite
  dw_stamped time_reopen name dw w = record dw {
    time_reopen = elim time_reopen [ none ↦ dw.time_reopen | some n ↦ n ];
    last_open_stamp = time (overwrite os o name w);
  }

  -- affile_dw_init
  unfoldable pub affile_dw_init :
      (time_reopen : Option ℕ)
      → List ℕ
      → AfFileDestWriter M
      → World
      → Bool × AfFileDestWriter M × World
  unfolding overwrite dw_opened dw_stamped
  affile_dw_init time_reopen name dw w =
      let flags = if o.pipe then rdwr else append_create in
      let (fd, w') =
        affile_open_file os o.file o.dir o.create_dirs name flags (overwrite os o name w) in
      let (ok, dw') = dw_opened fd (dw_stamped time_reopen name dw w) in (ok, dw', w')

  -- the end of affile_dw_queue: the message is forwarded if there is a writer
  unfoldable pub dw_forward : AfFileDestWriter M → M → ℕ → AfFileDestWriter M × List (Call M)
  dw_forward dw lm path_flags = elim dw.writer [
    | none ↦ (dw, log_msg_drop lm path_flags)
    | some s ↦
        let (s', calls) = log_writer_queue o.writer_options s lm path_flags in
        (record dw { writer = some s' }, calls)
  ]

  -- without a writer the file is opened again, when time_reopen has passed
  unfoldable pub dw_reopen : List ℕ → AfFileDestWriter M → World → AfFileDestWriter M × World
  unfolding affile_dw_init
  dw_reopen name dw w = elim dw.writer [
    | some s ↦ (dw, w)
    | none ↦
        let (ok, dw', w') = affile_dw_init none name dw w in
        if ltb (dw.last_open_stamp + dw.time_reopen) dw.last_msg_stamp then (dw', w') else (dw, w)
  ]

  -- affile_dw_queue
  unfoldable pub affile_dw_queue :
      List ℕ → AfFileDestWriter M → M → ℕ → World → (AfFileDestWriter M × List (Call M)) × World
  unfolding dw_reopen dw_forward
  affile_dw_queue name dw lm path_flags w =
      let (dw', w') = dw_reopen name (record dw { last_msg_stamp = time w }) w in
      (dw_forward dw' lm path_flags, w')

  -- A writer for a message of a name that has none: it is initialized, and queued to if that
  -- succeeds.
  unfoldable pub queue_new :
      (time_reopen : ℕ)
      → List ℕ
      → M
      → ℕ
      → World
      → (Option (AfFileDestWriter M) × List (Call M)) × World
  unfolding affile_dw_new affile_dw_init affile_dw_queue
  queue_new time_reopen name lm path_flags w =
      let (ok, dw, w') = affile_dw_init (some time_reopen) name affile_dw_new w in
      if ok
      then (let ((dw', calls), w'') = affile_dw_queue name dw lm path_flags w' in
          ((some dw', calls), w''))
      else ((none, log_msg_drop lm path_flags), w')

  -- a message for a name, for which there is a writer or not
  unfoldable pub queue_named :
      (time_reopen : ℕ)
      → List ℕ
      → Option (AfFileDestWriter M)
      → M
      → ℕ
      → World
      → (Option (AfFileDestWriter M) × List (Call M)) × World
  unfolding affile_dw_queue queue_new
  queue_named time_reopen name none lm path_flags w = queue_new time_reopen name lm path_flags w
  queue_named time_reopen name (some dw) lm path_flags w =
      let ((dw', calls), w') = affile_dw_queue name dw lm path_flags w in ((some dw', calls), w')

  -- affile_dd_queue, with time_reopen of the configuration; `name_of` is log_template_format with
  -- the driver's options
  unfoldable pub affile_dd_queue :
      (time_reopen : ℕ)
      → (name_of : M → List ℕ) → AfFileDestDriver M
      → M
      → ℕ
      → World
      → (AfFileDestDriver M × List (Call M)) × World
  unfolding lookup queue_named stored_in
  affile_dd_queue time_reopen name_of d lm path_flags w =
      if o.no_expand
      then (let ((dw, calls), w') = queue_named time_reopen o.template d.writer lm path_flags w in
          ((record d { writer = dw }, calls), w'))
      else (let t = hash_of d in
          let ((dw, calls), w') =
            queue_named time_reopen (name_of lm) (lookup (name_of lm) t) lm path_flags w in
          ((record d { writer_hash = some (stored_in (name_of lm) dw t) }, calls), w'))
