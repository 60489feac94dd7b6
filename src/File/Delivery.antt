-- ===== src/File/Delivery.antt =====
-- A file destination of src/affile.c at work: messages that are queued, writers that write, idle
-- writers that are closed, reloads, and a world that changes meanwhile.
pub mod Queued
pub mod Moved
pub mod Driver
pub mod Kept
use indigo.Prelude.{
  ℕ, Bool, true, false, Option, none, some, List, [], ◌∷◌, ◌++◌, if◌then◌else◌, is_empty, take,
  drop,
}
use indigo.Prelude.Bytes.{same}
use indigo.Writer.{LogWriter, to_word}
use indigo.File.{Os}
use indigo.File.Table.{Table, lookup, insert}
use indigo.File.Dest.{Options, AfFileDestWriter, AfFileDestDriver, affile_dd_queue, hash_of}
use indigo.File.Reload.{affile_dd_reap, affile_dd_deinit, affile_dd_init}

-- an entry of an output queue, under the name of a file
abbrev pub Log : Type 0 → Type 0
Log M = List (List ℕ × (M × ℕ))

-- What can happen: a message arrives; the writer of a file takes messages from the front of its
-- queue; the reap timer fires; the configuration is reloaded; the file system or the clock
-- changes.
pub data Event (M World : Type 0) : Type 0 where
  message : M → (path_flags : ℕ) → Event M World
  work : (name : List ℕ) → ℕ → Event M World
  reap_timer : Event M World
  reload : Event M World
  elapse : World → Event M World

-- the driver and the world, what has been taken from the queues, and what has been accepted
pub record State (M World : Type 0) : Type 0 where
  pub driver : AfFileDestDriver M
  pub world : World
  pub sent : Log M
  pub accepted : Log M

-- the entries of a log under a name
abbrev pub of_name : {M : Type 0} → List ℕ → Log M → List (M × ℕ)
of_name name [] = []
of_name name ((n, e) ∷ log) = let rest = of_name name log in if same n name then e ∷ rest else rest

-- entries under a name
abbrev pub named : {M : Type 0} → List ℕ → List (M × ℕ) → Log M
named name [] = []
named name (e ∷ es) = (name, e) ∷ named name es

abbrev pub writer_queue : {M : Type 0} → Option (LogWriter M) → List (M × ℕ)
writer_queue none = []
writer_queue (some s) = s.queue

abbrev pub queue_of : {M : Type 0} → Option (AfFileDestWriter M) → List (M × ℕ)
queue_of none = []
queue_of (some dw) = writer_queue dw.writer

-- the writer without the first entries of its queue
pub writer_work : {M : Type 0} → ℕ → Option (LogWriter M) → Option (LogWriter M)
writer_work k none = none
writer_work k (some s) = some (record s { queue = drop k s.queue })

pub dw_work : {M : Type 0} → ℕ → Option (AfFileDestWriter M) → Option (AfFileDestWriter M)
unfolding writer_work
dw_work k none = none
dw_work k (some dw) = some (record dw { writer = writer_work k dw.writer })

module _ {M T : Type 0} (o : Options T) where
  -- the writer of a file
  pub view : AfFileDestDriver M → List ℕ → Option (AfFileDestWriter M)
  unfolding lookup
  view d name =
      if o.no_expand
      then if same o.template name then d.writer else none
      else lookup name (hash_of d)

  -- the driver after the writer of a file has worked
  pub worked : AfFileDestDriver M → List ℕ → ℕ → AfFileDestDriver M
  unfolding dw_work lookup insert
  worked d name k =
      if o.no_expand
      then if same o.template name then record d { writer = dw_work k d.writer } else d
      else elim (dw_work k (lookup name (hash_of d))) [
        | none ↦ d
        | some dw ↦ record d { writer_hash = some (insert name dw (hash_of d)) }
      ]

module _ {M T : Type 0} (os : Os) (registered : Option ℕ) (o : Options T) where
  -- affile_dd_deinit into an empty PersistentConfig, and affile_dd_init from it
  unfoldable pub reloaded : AfFileDestDriver M → os.World → Option (AfFileDestDriver M × os.World)
  unfolding affile_dd_deinit affile_dd_init
  reloaded d w = elim (affile_dd_deinit o d []) [
    | none ↦ none
    | some (d', persist) ↦ elim (affile_dd_init os registered o persist w) [
      | none ↦ none
      | some ((d'', persist'), w') ↦ some (d'', w')
    ]
  ]

module _ {M T : Type 0} (os : Os) (registered : Option ℕ) (o : Options T) (time_reopen : ℕ)
    (name_of : M → List ℕ) where
  open os use {World, time}

  -- the file of a message
  abbrev pub file_of : M → List ℕ
  file_of lm = if o.no_expand then o.template else name_of lm

  abbrev with_driver : State M World → Option (AfFileDestDriver M) → Option (State M World)
  with_driver s none = none
  with_driver s (some d) = some (record s { driver = d })

  -- a step; `none` is a null pointer that is followed, or a failed assertion
  unfoldable pub step : Event M World → State M World → Option (State M World)
  unfolding affile_dd_queue view worked affile_dd_reap reloaded
  step (message lm path_flags) s =
      let ((d, calls), w) =
        affile_dd_queue os registered o time_reopen name_of s.driver lm path_flags s.world in
      some (record s {
        driver = d;
        world = w;
        accepted =
            s.accepted
            ++ (if is_empty calls then (file_of lm, (lm, to_word path_flags)) ∷ [] else []);
      })
  step (work name k) s = some (record s {
    driver = worked o s.driver name k;
    sent = s.sent ++ named name (take k (queue_of (view o s.driver name)));
  })
  step reap_timer s = with_driver s (affile_dd_reap o.time_reap (time s.world) s.driver)
  step reload s = elim (reloaded os registered o s.driver s.world) [
    | none ↦ none
    | some (d, w) ↦ some (record s { driver = d; world = w })
  ]
  step (elapse w) s = some (record s { world = w })

  -- the steps of a history, in order
  unfoldable pub run : List (Event M World) → State M World → Option (State M World)
  unfolding step
  run [] s = some s
  run (e ∷ es) s = elim (step e s) [ none ↦ none | some s' ↦ run es s' ]

-- a driver that affile_dd_init has started without anything kept
pub start : {M World : Type 0} → World → State M World
start w = record {
  driver = record { writer = none; writer_hash = none };
  world = w;
  sent = [];
  accepted = [];
}
