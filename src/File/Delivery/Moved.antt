-- ===== src/File/Delivery/Moved.antt =====
-- The reap timer and a reload: the writers of all files keep what waits in their queues.
use indigo.Prelude.{
  ℕ, ◌≡◌, refl, sym, ap, ◌∙◌, Bool, true, false, Option, none, some, List, [], ◌∷◌, ◌+◌, is_empty,
  leb, Bool-cases, inl, inr,
}
use indigo.Prelude.Bytes.{same}
use indigo.Writer.{LogWriter, log_writer_deinit}
use indigo.File.{Os}
use indigo.File.Table.{Table, NodupKeys, lookup, same→eq}
use indigo.File.Dest.{
  Options, AfFileDestWriter, affile_dw_init, affile_dw_deinit, affile_dw_reapable,
}
use indigo.File.Reload.{affile_dd_reap_writers, reap, deinit_writers, reuse_writers}
use indigo.File.Delivery.{writer_queue, queue_of}
use indigo.File.Delivery.Queued.{HasWriter, affile_dw_init-queue, affile_dw_init-HasWriter}

-- every file that is open has a writer, and stands in the table once
abbrev pub AllGood : {M : Type 0} → Table (AfFileDestWriter M) → Type 0
AllGood [] = Unit
AllGood ((name, dw) ∷ t) = HasWriter dw.writer × AllGood t

-- what waits in a table of writers for a file
abbrev pub waiting : {M : Type 0} → List ℕ → Table (AfFileDestWriter M) → List (M × ℕ)
waiting name t = queue_of (lookup name t)

-- A table after a change: what waits for each file is as before, and no file is new.
pub record IsMoved {M : Type 0} (t t' : Table (AfFileDestWriter M)) : Type 0 where
  pub nodup : NodupKeys t'
  pub good : AllGood t'
  pub kept : (name : List ℕ) → waiting name t' ≡ waiting name t
  pub absent : (name : List ℕ) → lookup name t ≡ none → lookup name t' ≡ none

empty→nil : {A : Type 0} (xs : List A) → is_empty xs ≡ true → xs ≡ []
empty→nil [] h = refl
empty→nil (x ∷ xs) h = cc

module _ {M : Type 0} where
  -- a writer that stays, in front of a table
  IsMoved-cons :
      (name : List ℕ) (dw dw' : AfFileDestWriter M) (t t' : Table (AfFileDestWriter M))
      → writer_queue dw'.writer ≡ writer_queue dw.writer
      → HasWriter dw'.writer
      → lookup name t ≡ none
      → IsMoved t t'
      → IsMoved ((name, dw) ∷ t) ((name, dw') ∷ t')
  unfolding lookup
  IsMoved-cons name dw dw' t t' e h fresh m = record {
    nodup = (m.absent name fresh, m.nodup);
    good = (h, m.good);
    kept = λ f. elim (Bool-cases (same name f)) [
      | inl here ↦ rw here e
      | inr other ↦ rw other (m.kept f)
    ];
    absent = λ f none_before. elim (Bool-cases (same name f)) [
      | inl here ↦ absurd ((cc (rw here at none_before)))
      | inr other ↦ rw other (m.absent f (rw other at none_before))
    ];
  }

  -- only a writer without messages is reaped
  affile_dd_reap_writers_safe :
      (time_reap now : ℕ) (dw : AfFileDestWriter M)
      → HasWriter dw.writer
      → (b : Bool) × (affile_dd_reap_writers time_reap now dw ≡ some b)
        × (b ≡ true → writer_queue dw.writer ≡ [])
  unfolding affile_dd_reap_writers affile_dw_reapable
  affile_dd_reap_writers_safe time_reap now dw = by_writer dw.writer
    where
      by_writer :
          (writer : Option (LogWriter M))
          → HasWriter writer
          → (b : Bool) × (affile_dd_reap_writers time_reap now (record dw { writer = writer })
              ≡ some b)
            × (b ≡ true → writer_queue writer ≡ [])
      by_writer none h = absurd h
      by_writer (some s) h = elim (Bool-cases (leb (dw.last_msg_stamp + time_reap) now)) [
        | inl due ↦ (is_empty s.queue, rw due refl, empty→nil s.queue)
        | inr early ↦ (false, rw early refl, λ e. absurd ((cc e)))
      ]

  pub reap-IsMoved :
      (time_reap now : ℕ) (t : Table (AfFileDestWriter M))
      → NodupKeys t
      → AllGood t
      → (t' : Table (AfFileDestWriter M)) × (reap time_reap now t ≡ some t') × IsMoved t t'
  unfolding reap lookup
  reap-IsMoved time_reap now [] u g =
      ([], refl, record { nodup = tt; good = tt; kept = λ f. refl; absent = λ f h. refl })
  reap-IsMoved time_reap now ((name, dw) ∷ t) (fresh, u) (h, g) =
      let (t', done, m) = reap-IsMoved time_reap now t u g in
      let (b, decided, idle) = affile_dd_reap_writers_safe time_reap now dw h in
      by_test t' done m b decided idle
    where
      by_test :
          (t' : Table (AfFileDestWriter M))
          → reap time_reap now t ≡ some t'
          → IsMoved t t'
          → (b : Bool) → affile_dd_reap_writers time_reap now dw ≡ some b
          → (b ≡ true → writer_queue dw.writer ≡ [])
          → (t'' : Table (AfFileDestWriter M)) × (reap time_reap now ((name, dw) ∷ t) ≡ some t'')
            × IsMoved ((name, dw) ∷ t) t''
      by_test t' done m false decided idle = (
        (name, dw) ∷ t',
        rw (decided, done, reap) refl,
        IsMoved-cons name dw dw t t' refl h fresh m,
      )
      by_test t' done m true decided idle = (
        t',
        rw (decided, done, reap) refl,
        record {
          nodup = m.nodup;
          good = m.good;
          kept = λ f. elim (Bool-cases (same name f)) [
            | inl here ↦
                rw (here, lookup, idle refl)
                  (ap (λ k. waiting k t') (sym (same→eq name f here))
                    ∙ ap queue_of (m.absent name fresh))
            | inr other ↦ rw (other, lookup) (m.kept f)
          ];
          absent = λ f none_before. elim (Bool-cases (same name f)) [
            | inl here ↦ absurd ((cc (rw here at none_before)))
            | inr other ↦ m.absent f (rw other at none_before)
          ];
        },
      )

  pub affile_dw_deinit-queue :
      (dw : AfFileDestWriter M)
      → HasWriter dw.writer
      → (writer_queue (affile_dw_deinit dw).writer ≡ writer_queue dw.writer)
        × HasWriter (affile_dw_deinit dw).writer
  unfolding affile_dw_deinit log_writer_deinit
  affile_dw_deinit-queue dw = by_writer dw.writer
    where
      by_writer :
          (writer : Option (LogWriter M))
          → HasWriter writer
          → (writer_queue (affile_dw_deinit (record dw { writer = writer })).writer
              ≡ writer_queue writer)
            × HasWriter (affile_dw_deinit (record dw { writer = writer })).writer
      by_writer none h = absurd h
      by_writer (some s) h = (refl, tt)

  pub deinit_writers-IsMoved :
      (t : Table (AfFileDestWriter M)) → NodupKeys t → AllGood t → IsMoved t (deinit_writers t)
  unfolding deinit_writers lookup
  deinit_writers-IsMoved [] u g = record {
    nodup = tt;
    good = tt;
    kept = λ f. refl;
    absent = λ f h. refl;
  }
  deinit_writers-IsMoved ((name, dw) ∷ t) (fresh, u) (h, g) =
      let (e, h') = affile_dw_deinit-queue dw h in
      IsMoved-cons name dw (affile_dw_deinit dw) t (deinit_writers t) e h' fresh
        (deinit_writers-IsMoved t u g)

pub reuse_writers-IsMoved :
    {M T : Type 0} (os : Os) (registered : Option ℕ) (o : Options T)
    (t : Table (AfFileDestWriter M)) (w : os.World)
    → NodupKeys t
    → AllGood t
    → IsMoved t (reuse_writers os registered o t w).0
unfolding reuse_writers lookup
reuse_writers-IsMoved os registered o [] w u g = record {
  nodup = tt;
  good = tt;
  kept = λ f. refl;
  absent = λ f h. refl;
}
reuse_writers-IsMoved os registered o ((name, dw) ∷ t) w (fresh, u) (h, g) =
    let w' = (affile_dw_init os registered o none name dw w).2 in
    IsMoved-cons name dw (affile_dw_init os registered o none name dw w).1 t
      (reuse_writers os registered o t w').0 (affile_dw_init-queue os registered o none name dw w)
      ((affile_dw_init-HasWriter os registered o none name dw w).0 h) fresh
      (reuse_writers-IsMoved os registered o t w' u g)
