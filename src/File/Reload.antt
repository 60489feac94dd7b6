-- ===== src/File/Reload.antt =====
-- src/affile.c, file destinations over time: writers that are idle are closed, and all of them are
-- handed to the next configuration.
use indigo.Prelude.{
  ℕ, ◌+◌, Bool, false, Option, none, some, List, [], ◌∷◌, ◌++◌, leb, if◌then◌else◌, take,
}
use indigo.Prelude.Bytes.{codes}
use indigo.Persist.{string, object, PersistentConfig, persist_config_add, persist_config_fetch}
use indigo.File.{Os}
use indigo.File.Table.{Table}
use indigo.File.Dest.{
  Options, AfFileDestWriter, AfFileDestDriver, Kept, one, table, affile_dw_reapable,
  affile_dw_deinit, affile_dw_init,
}

-- affile_dd_format_persist_name, cut to 1023 bytes
unfoldable pub affile_dd_format_persist_name : {T : Type 0} → Options T → List ℕ
affile_dd_format_persist_name o =
    take 1023 (codes "affile_dd_writers(" ++ (o.template ++ codes ")"))

module _ {M : Type 0} where
  -- affile_dd_reap_writers: whether a writer is removed
  unfoldable pub affile_dd_reap_writers :
      (time_reap reap_now : ℕ) → AfFileDestWriter M → Option Bool
  unfolding affile_dw_reapable
  affile_dd_reap_writers time_reap reap_now dw =
      if leb (dw.last_msg_stamp + time_reap) reap_now then affile_dw_reapable dw else some false

  -- g_hash_table_foreach_remove with affile_dd_reap_writers
  unfoldable pub reap :
      (time_reap reap_now : ℕ) → Table (AfFileDestWriter M) → Option (Table (AfFileDestWriter M))
  unfolding affile_dd_reap_writers
  reap time_reap reap_now [] = some []
  reap time_reap reap_now ((name, dw) ∷ t) =
      let rest = reap time_reap reap_now t in
      elim (affile_dd_reap_writers time_reap reap_now dw) [
        | none ↦ none
        | some removed ↦ elim rest [
          | none ↦ none
          | some t' ↦ some (if removed then t' else (name, dw) ∷ t')
        ]
      ]

  -- affile_dd_reap
  unfoldable pub affile_dd_reap :
      (time_reap reap_now : ℕ) → AfFileDestDriver M → Option (AfFileDestDriver M)
  unfolding reap
  affile_dd_reap time_reap reap_now d = elim d.writer_hash [
    | none ↦ some d
    | some t ↦ elim (reap time_reap reap_now t) [
      | none ↦ none
      | some t' ↦ some (record d { writer_hash = some t' })
    ]
  ]

  -- affile_dd_deinit_writer on the whole table
  unfoldable pub deinit_writers : Table (AfFileDestWriter M) → Table (AfFileDestWriter M)
  unfolding affile_dw_deinit
  deinit_writers [] = []
  deinit_writers ((name, dw) ∷ t) = (name, affile_dw_deinit dw) ∷ deinit_writers t

  -- affile_dd_deinit; `none` is a failed assertion
  unfoldable pub affile_dd_deinit :
      {T : Type 0}
      → Options T
      → AfFileDestDriver M
      → PersistentConfig (Kept M)
      → Option (AfFileDestDriver M × PersistentConfig (Kept M))
  unfolding deinit_writers affile_dw_deinit persist_config_add
  affile_dd_deinit o d persist = elim d.writer [
    | some dw ↦ elim d.writer_hash [
      | some t ↦ none
      | none ↦ some (
        record { writer = none; writer_hash = none },
        persist_config_add persist (affile_dd_format_persist_name o)
            (object (one (affile_dw_deinit dw))),
      )
    ]
    | none ↦ elim d.writer_hash [
      | none ↦ some (d, persist)
      | some t ↦ some (
        record { writer = none; writer_hash = none },
        persist_config_add persist (affile_dd_format_persist_name o)
            (object (table (deinit_writers t))),
      )
    ]
  ]

module _ {M T : Type 0} (os : Os) (registered : Option ℕ) (o : Options T) where
  open os use {World}

  -- affile_dd_reuse_writer on the whole table: the result of init is not looked at
  unfoldable pub reuse_writers :
      Table (AfFileDestWriter M) → World → Table (AfFileDestWriter M) × World
  unfolding affile_dw_init
  reuse_writers [] w = ([], w)
  reuse_writers ((name, dw) ∷ t) w =
      let (ok, dw', w') = affile_dw_init os registered o none name dw w in
      let (t', w'') = reuse_writers t w' in ((name, dw') ∷ t', w'')

  -- affile_dd_init of a new driver; `none` is a value of the other kind, which the code would cast
  unfoldable pub affile_dd_init :
      PersistentConfig (Kept M)
      → World
      → Option ((AfFileDestDriver M × Option (PersistentConfig (Kept M))) × World)
  unfolding reuse_writers persist_config_fetch affile_dw_init
  affile_dd_init persist w =
      let (value, persist') =
        persist_config_fetch (some persist) (affile_dd_format_persist_name o) in
      elim value [
        | none ↦ some ((record { writer = none; writer_hash = none }, persist'), w)
        | some (string str) ↦ none
        | some (object (one dw)) ↦
            if o.no_expand
            then (let (ok, dw', w') = affile_dw_init os registered o none o.template dw w in
                some ((record { writer = some dw'; writer_hash = none }, persist'), w'))
            else none
        | some (object (table t)) ↦
            if o.no_expand
            then none
            else (let (t', w') = reuse_writers t w in
                some ((record { writer = none; writer_hash = some t' }, persist'), w'))
      ]
