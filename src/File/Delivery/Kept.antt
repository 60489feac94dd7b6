-- ===== src/File/Delivery/Kept.antt =====
-- A file destination over time: no message is lost between its acceptance and the writing.
use indigo.Prelude.{
  ℕ, ◌≡◌, refl, sym, ap, ◌∙◌, Bool, true, false, Option, none, some, List, [], ◌∷◌, ◌++◌,
  if◌then◌else◌, is_empty, take, drop, take-append-drop, append_assoc, Bool-cases, inl, inr,
}
use indigo.Prelude.Bytes.{same, same_refl}
use indigo.Writer.{to_word}
use indigo.File.{Os}
use indigo.File.Table.{Table, same→eq}
use indigo.File.Dest.{
  Options, AfFileDestWriter, AfFileDestDriver, affile_dd_queue, affile_dw_init, affile_dw_deinit,
}
use indigo.File.Reload.{
  affile_dd_reap, deinit_writers, reuse_writers, affile_dd_format_persist_name,
}
use indigo.File.Delivery.{
  Log, Event, message, work, reap_timer, reload, elapse, State, of_name, named, view, reloaded,
  step, run, start,
}
use indigo.File.Delivery.Queued.{taken, affile_dw_init-queue, affile_dw_init-HasWriter}
use indigo.File.Delivery.Moved.{
  reap-IsMoved, affile_dw_deinit-queue, deinit_writers-IsMoved, reuse_writers-IsMoved,
}
use indigo.File.Delivery.Driver.{IsWell, pending, only, affile_dd_queue-IsStep, worked-IsWork}

-- a step that leaves what waits for each file
pub record IsKept {M T : Type 0} (o : Options T) (d d' : AfFileDestDriver M) : Type 0 where
  pub well : IsWell o.no_expand d'
  pub kept : (f : List ℕ) → pending o d' f ≡ pending o d f

abbrev driver :
    {M : Type 0}
    → Option (AfFileDestWriter M)
    → Option (Table (AfFileDestWriter M))
    → AfFileDestDriver M
driver writer hash = record { writer = writer; writer_hash = hash }

module _ {M T : Type 0} (o : Options T) where
  affile_dd_reap-IsKept :
      (now : ℕ) (d : AfFileDestDriver M)
      → IsWell o.no_expand d
      → (d' : AfFileDestDriver M) × (affile_dd_reap o.time_reap now d ≡ some d') × IsKept o d d'
  unfolding affile_dd_reap view
  affile_dd_reap-IsKept now d = by_parts o.no_expand d.writer d.writer_hash
    where
      by_parts :
          (b : Bool) (writer : Option (AfFileDestWriter M))
          (hash : Option (Table (AfFileDestWriter M)))
          → IsWell b (driver writer hash)
          → (d' : AfFileDestDriver M) × (affile_dd_reap o.time_reap now (driver writer hash)
              ≡ some d')
            × IsKept (record o { no_expand = b }) (driver writer hash) d'
      by_parts b writer none h = (driver writer none, refl, record { well = h; kept = λ f. refl })
      by_parts true writer (some t) (h, g) = absurd ((cc))
      by_parts false writer (some t) (h, u, g) =
          let (t', done, m) = reap-IsMoved o.time_reap now t u g in
          (
            driver writer (some t'),
            rw (done, affile_dd_reap) refl,
            record { well = (h, m.nodup, m.good); kept = m.kept },
          )

module _ {M T : Type 0} (os : Os) (registered : Option ℕ) (o : Options T) where
  reloaded-IsKept :
      (d : AfFileDestDriver M) (w : os.World)
      → IsWell o.no_expand d
      → (d' : AfFileDestDriver M) × (w' : os.World) × (reloaded os registered o d w ≡ some (d', w'))
        × IsKept o d d'
  unfolding reloaded view
  reloaded-IsKept d w = by_parts o.no_expand d.writer d.writer_hash
    where
      by_parts :
          (b : Bool) (writer : Option (AfFileDestWriter M))
          (hash : Option (Table (AfFileDestWriter M)))
          → IsWell b (driver writer hash)
          → (d' : AfFileDestDriver M) × (w' : os.World) × (reloaded os registered
                (record o { no_expand = b })
                (driver writer hash)
                w
              ≡ some (d', w'))
            × IsKept (record o { no_expand = b }) (driver writer hash) d'
      by_parts true writer (some t) (h, g) = absurd ((cc))
      by_parts false (some dw) hash (h, u, g) = absurd ((cc))
      by_parts true none none h = (driver none none, w, refl, record { well = h; kept = λ f. refl })
      by_parts false none none h =
          (driver none none, w, refl, record { well = h; kept = λ f. refl })
      by_parts true (some dw) none (h, g) =
          let o' = record o { no_expand = true } in
          let (e, g') = affile_dw_deinit-queue dw g in
          let r = affile_dw_init os registered o' none o.template (affile_dw_deinit dw) w in
          let e' = affile_dw_init-queue os registered o' none o.template (affile_dw_deinit dw) w in
          (
            driver (some r.1) none,
            r.2,
            rw (same_refl (affile_dd_format_persist_name o'), reloaded) refl,
            record {
              well = (
                refl,
                (affile_dw_init-HasWriter os registered o' none o.template (affile_dw_deinit dw)
                      w).0
                    g',
              );
              kept = λ f. elim (Bool-cases (same o.template f)) [
                | inl here ↦ rw here (e' ∙ e)
                | inr away ↦ rw away refl
              ];
            },
          )
      by_parts false none (some t) (h, u, g) =
          let o' = record o { no_expand = false } in
          let m = deinit_writers-IsMoved t u g in
          let m' = reuse_writers-IsMoved os registered o' (deinit_writers t) w m.nodup m.good in
          let r = reuse_writers os registered o' (deinit_writers t) w in
          (
            driver none (some r.0),
            r.1,
            rw (same_refl (affile_dd_format_persist_name o'), reloaded) refl,
            record { well = (refl, m'.nodup, m'.good); kept = λ f. m'.kept f ∙ m.kept f },
          )

of_name-append :
    {M : Type 0} (f : List ℕ) (a b : Log M) → of_name f (a ++ b) ≡ of_name f a ++ of_name f b
of_name-append f [] b = refl
of_name-append f ((n, e) ∷ a) b = elim (Bool-cases (same n f)) [
  | inl here ↦ rw (here, of_name-append f a b) refl
  | inr away ↦ rw (away, of_name-append f a b) refl
]

of_name-named :
    {M : Type 0} (f name : List ℕ) (es : List (M × ℕ)) → of_name f (named name es) ≡ only name es f
of_name-named f name [] = elim (Bool-cases (same name f)) [
  | inl here ↦ rw here refl
  | inr away ↦ rw away refl
]
of_name-named f name (e ∷ es) = elim (Bool-cases (same name f)) [
  | inl here ↦ rw here (ap (◌∷◌ e) (of_name-named f name es ∙ rw here refl))
  | inr away ↦ rw away (of_name-named f name es ∙ rw away refl)
]

-- an entry that is accepted or not
of_name-if :
    {M : Type 0} (f name : List ℕ) (e : M × ℕ) (b : Bool)
    → of_name f (if b then (name, e) ∷ [] else []) ≡ only name (if b then e ∷ [] else []) f
of_name-if f name e true = of_name-named f name (e ∷ [])
of_name-if f name e false = of_name-named f name []

-- entries that have moved from the front of a queue to a log
of_name-worked :
    {M : Type 0} (f name : List ℕ) (k : ℕ) (sent : Log M) (q : List ℕ → List (M × ℕ))
    → of_name f (sent ++ named name (take k (q name)))
        ++ (if same name f then drop k (q f) else q f)
      ≡ of_name f sent ++ q f
of_name-worked f name k sent q =
    ap (λ es. es ++ (if same name f then drop k (q f) else q f))
      (of_name-append f sent (named name (take k (q name)))
        ∙ ap (◌++◌ (of_name f sent)) (of_name-named f name (take k (q name))))
    ∙ append_assoc (of_name f sent) (only name (take k (q name)) f)
        (if same name f then drop k (q f) else q f)
    ∙ ap (◌++◌ (of_name f sent)) rejoined
  where
    rejoined : only name (take k (q name)) f ++ (if same name f then drop k (q f) else q f) ≡ q f
    rejoined = elim (Bool-cases (same name f)) [
      | inl here ↦
          rw here (
            ap (λ n. take k (q n) ++ drop k (q f)) (same→eq name f here) ∙ take-append-drop k (q f))
      | inr away ↦ rw away refl
    ]

-- The driver is well formed, and for each file what has been written and what waits is what has
-- been accepted, in order.
pub record IsLedger {M T W : Type 0} (o : Options T) (s : State M W) : Type 0 where
  pub well : IsWell o.no_expand s.driver
  pub kept : (f : List ℕ) → of_name f s.sent ++ pending o s.driver f ≡ of_name f s.accepted

start-IsLedger : {M T W : Type 0} (o : Options T) (w : W) → IsLedger {M = M} o (start w)
unfolding start view
start-IsLedger {M} {T} {W} o w = by_flag o.no_expand
  where
    by_flag : (b : Bool) → IsLedger {M = M} (record o { no_expand = b }) (start w)
    by_flag false = record { well = (refl, tt, tt); kept = λ f. refl }
    by_flag true = record {
      well = (refl, tt);
      kept = λ f. elim (Bool-cases (same o.template f)) [
        | inl here ↦ rw here refl
        | inr away ↦ rw away refl
      ];
    }

module _ {M T : Type 0} (os : Os) (registered : Option ℕ) (o : Options T)
    (strict : o.optional ≡ false) (time_reopen : ℕ) (name_of : M → List ℕ) where
  step-IsLedger :
      (e : Event M os.World) (s : State M os.World)
      → IsLedger o s
      → (s' : State M os.World) × (step os registered o time_reopen name_of e s ≡ some s')
        × IsLedger o s'
  unfolding step
  step-IsLedger (elapse w) s l = (_, refl, record { well = l.well; kept = l.kept })
  step-IsLedger reap_timer s l =
      let (d, done, k) = affile_dd_reap-IsKept o (os.time s.world) s.driver l.well in
      (
        record s { driver = d },
        rw (done, step) refl,
        record { well = k.well; kept = λ f. ap (◌++◌ (of_name f s.sent)) (k.kept f) ∙ l.kept f },
      )
  step-IsLedger reload s l =
      let (d, w, done, k) = reloaded-IsKept os registered o s.driver s.world l.well in
      (
        record s { driver = d; world = w },
        rw (done, step) refl,
        record { well = k.well; kept = λ f. ap (◌++◌ (of_name f s.sent)) (k.kept f) ∙ l.kept f },
      )
  step-IsLedger (message lm path_flags) s l =
      let st =
        affile_dd_queue-IsStep os registered o strict time_reopen name_of s.driver lm path_flags
          s.world l.well in
      let calls =
        (affile_dd_queue os registered o time_reopen name_of s.driver lm path_flags s.world).0.1 in
      let file = if o.no_expand then o.template else name_of lm in
      let e : M × ℕ = (lm, to_word path_flags) in
      (
        _,
        refl,
        record {
          well = st.well;
          kept = λ f.
              ap (◌++◌ (of_name f s.sent)) (st.moved f)
              ∙ sym (
                  append_assoc (of_name f s.sent) (pending o s.driver f)
                    (only file (taken lm path_flags calls) f))
              ∙ ap (λ es. es ++ only file (taken lm path_flags calls) f) (l.kept f)
              ∙ ap (◌++◌ (of_name f s.accepted)) (sym (of_name-if f file e (is_empty calls)))
              ∙ sym (of_name-append f s.accepted (if is_empty calls then (file, e) ∷ [] else []));
        },
      )
  step-IsLedger (work name k) s l =
      let wk = worked-IsWork o s.driver name k l.well in
      (
        _,
        refl,
        record {
          well = wk.well;
          kept = λ f.
              ap (◌++◌ (of_name f (s.sent ++ named name (take k (pending o s.driver name)))))
                (wk.done f)
              ∙ of_name-worked f name k s.sent (pending o s.driver)
              ∙ l.kept f;
        },
      )

  run-IsLedger :
      (es : List (Event M os.World)) (s : State M os.World)
      → IsLedger o s
      → (s' : State M os.World) × (run os registered o time_reopen name_of es s ≡ some s')
        × IsLedger o s'
  unfolding run
  run-IsLedger [] s l = (s, refl, l)
  run-IsLedger (e ∷ es) s l =
      let (s', one_step, l') = step-IsLedger e s l in
      let (s'', rest, l'') = run-IsLedger es s' l' in (s'', rw (one_step, run) rest, l'')

  -- A file destination that is not optional, with templates in its name or without, starts with
  -- nothing kept. Then whatever messages arrive, files are opened or not, writers write, idle
  -- writers are closed and the configuration is reloaded, in any order, no null pointer is followed
  -- and no assertion fails; and for each file, what has been taken for writing followed by what
  -- waits in the queue of its writer is what has been accepted for it, in order.
  pub run-accepted :
      (es : List (Event M os.World)) (w : os.World)
      → (s : State M os.World) × (run os registered o time_reopen name_of es (start w) ≡ some s)
        × ((f : List ℕ) → of_name f s.sent ++ pending o s.driver f ≡ of_name f s.accepted)
  run-accepted es w =
      let (s, done, l) = run-IsLedger es (start w) (start-IsLedger o w) in (s, done, l.kept)
