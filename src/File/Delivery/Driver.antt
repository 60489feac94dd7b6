-- ===== src/File/Delivery/Driver.antt =====
-- What each step does to the queues of a file destination, whatever it keeps its writers in.
use indigo.Prelude.{
  ℕ, ◌≡◌, refl, sym, ap, ◌∙◌, Bool, true, false, Option, none, some, List, [], ◌∷◌, ◌++◌,
  if◌then◌else◌, drop, drop-nil, append-nil, Bool-cases, Option-cases, subst, inl, inr,
}
use indigo.Prelude.Bytes.{same}
use indigo.Writer.{LogWriter}
use indigo.File.{Os}
use indigo.File.Table.{
  Table, NodupKeys, lookup, insert, lookup-insert, insert-NodupKeys, same→eq, same_of,
}
use indigo.File.Dest.{
  Options, AfFileDestWriter, AfFileDestDriver, hash_of, stored_in, affile_dd_queue,
}
use indigo.File.Delivery.{writer_queue, queue_of, dw_work, writer_work, view, worked}
use indigo.File.Delivery.Queued.{HasWriter, IsGood, taken, queue_named-IsQueued}
use indigo.File.Delivery.Moved.{AllGood}

-- A driver keeps one writer, or a table in which each name stands once; every file that is open has
-- a writer.
abbrev pub IsWell : {M : Type 0} → (no_expand : Bool) → AfFileDestDriver M → Type 0
IsWell true d = (d.writer_hash ≡ none) × IsGood d.writer
IsWell false d = (d.writer ≡ none) × NodupKeys (hash_of d) × AllGood (hash_of d)

-- what waits in a driver for a file
abbrev pub pending : {M T : Type 0} → Options T → AfFileDestDriver M → List ℕ → List (M × ℕ)
pending o d name = queue_of (view o d name)

-- entries for one file, seen from a file
abbrev pub only : {M : Type 0} → List ℕ → List (M × ℕ) → List ℕ → List (M × ℕ)
only name es f = if same name f then es else []

module _ {M : Type 0} where
  lookup-IsGood : (f : List ℕ) (t : Table (AfFileDestWriter M)) → AllGood t → IsGood (lookup f t)
  unfolding lookup
  lookup-IsGood f [] g = tt
  lookup-IsGood f ((name, dw) ∷ t) (h, g) = elim (Bool-cases (same name f)) [
    | inl here ↦ rw here h
    | inr other ↦ rw other (lookup-IsGood f t g)
  ]

  insert-AllGood :
      (name : List ℕ) (dw : AfFileDestWriter M) (t : Table (AfFileDestWriter M))
      → HasWriter dw.writer
      → AllGood t
      → AllGood (insert name dw t)
  unfolding insert
  insert-AllGood name dw [] h g = (h, tt)
  insert-AllGood name dw ((n, v) ∷ t) h (h', g) = elim (Bool-cases (same n name)) [
    | inl here ↦ rw here (h, g)
    | inr other ↦ rw other (h', insert-AllGood name dw t h g)
  ]

  -- a name whose entry is changed, or which gets one
  stored_in-lookup :
      (f name : List ℕ) (odw : Option (AfFileDestWriter M)) (t : Table (AfFileDestWriter M))
      → (odw ≡ none → lookup name t ≡ none)
      → lookup f (stored_in name odw t) ≡ (if same name f then odw else lookup f t)
  unfolding stored_in
  stored_in-lookup f name (some dw) t h = lookup-insert f name dw t
  stored_in-lookup f name none t h = elim (Bool-cases (same name f)) [
    | inl here ↦ rw here (ap (λ k. lookup k t) (sym (same→eq name f here)) ∙ h refl)
    | inr other ↦ rw other refl
  ]

  stored_in-IsWell :
      (name : List ℕ) (odw : Option (AfFileDestWriter M)) (t : Table (AfFileDestWriter M))
      → IsGood odw
      → NodupKeys t
      → AllGood t
      → NodupKeys (stored_in name odw t) × AllGood (stored_in name odw t)
  unfolding stored_in
  stored_in-IsWell name none t h u g = (u, g)
  stored_in-IsWell name (some dw) t h u g =
      (insert-NodupKeys name dw t u, insert-AllGood name dw t h g)

  dw_work-queue :
      (k : ℕ) (odw : Option (AfFileDestWriter M)) → queue_of (dw_work k odw) ≡ drop k (queue_of odw)
  unfolding dw_work writer_work
  dw_work-queue k none = sym (drop-nil (M × ℕ) k)
  dw_work-queue k (some dw) = by_writer dw.writer
    where
      by_writer :
          (writer : Option (LogWriter M))
          → writer_queue (writer_work k writer) ≡ drop k (writer_queue writer)
      by_writer none = sym (drop-nil (M × ℕ) k)
      by_writer (some s) = refl

  dw_work-IsGood : (k : ℕ) (odw : Option (AfFileDestWriter M)) → IsGood odw → IsGood (dw_work k odw)
  unfolding dw_work writer_work
  dw_work-IsGood k none h = tt
  dw_work-IsGood k (some dw) h = by_writer dw.writer h
    where
      by_writer :
          (writer : Option (LogWriter M)) → HasWriter writer → HasWriter (writer_work k writer)
      by_writer none h = h
      by_writer (some s) h = tt

-- A step of a driver, seen from a file: some entries are added behind what waits for it.
pub record IsStep {M T : Type 0} (o : Options T) (d d' : AfFileDestDriver M) (name : List ℕ)
    (es : List (M × ℕ)) : Type 0 where
  pub well : IsWell o.no_expand d'
  pub moved : (f : List ℕ) → pending o d' f ≡ pending o d f ++ only name es f

-- entries for a file whose writer is looked at through a test of its name
queue_if :
    {M : Type 0} (name f : List ℕ) (before after : Option (AfFileDestWriter M)) (es : List (M × ℕ))
    → queue_of after ≡ queue_of before ++ es
    → queue_of (if same name f then after else none)
      ≡ queue_of (if same name f then before else none) ++ only name es f
queue_if name f before after es e = elim (Bool-cases (same name f)) [
  | inl here ↦ rw here e
  | inr other ↦ rw other refl
]

-- the same in a table, where the entry of the name is changed
queue_stored :
    {M : Type 0} (name f : List ℕ) (t t' : Table (AfFileDestWriter M))
    (after : Option (AfFileDestWriter M)) (es : List (M × ℕ))
    → queue_of after ≡ queue_of (lookup name t) ++ es
    → lookup f t' ≡ (if same name f then after else lookup f t)
    → queue_of (lookup f t') ≡ queue_of (lookup f t) ++ only name es f
queue_stored name f t t' after es e found = elim (Bool-cases (same name f)) [
  | inl here ↦ rw (found, here) (e ∙ ap (λ k. queue_of (lookup k t) ++ es) (same→eq name f here))
  | inr other ↦ rw (found, other) (sym (append-nil (queue_of (lookup f t))))
]

module _ {M T : Type 0} (os : Os) (registered : Option ℕ) (o : Options T)
    (strict : o.optional ≡ false) (time_reopen : ℕ) (name_of : M → List ℕ) where
  -- affile_dd_queue puts the message behind the others of its file, or settles it
  pub affile_dd_queue-IsStep :
      (d : AfFileDestDriver M) (lm : M) (path_flags : ℕ) (w : os.World)
      → IsWell o.no_expand d
      → IsStep o d
          (affile_dd_queue os registered o time_reopen name_of d lm path_flags w).0.0
          (if o.no_expand then o.template else name_of lm)
          (taken lm path_flags
            (affile_dd_queue os registered o time_reopen name_of d lm path_flags w).0.1)
  unfolding affile_dd_queue view
  affile_dd_queue-IsStep d lm path_flags w = by_flag o.no_expand
    where
      by_flag :
          (b : Bool)
          → IsWell b d
          → IsStep
              (record o { no_expand = b })
              d
              (affile_dd_queue os registered
                (record o { no_expand = b })
                time_reopen
                name_of
                d
                lm
                path_flags
                w).0.0
              (if b then o.template else name_of lm)
              (taken lm path_flags
                (affile_dd_queue os registered
                  (record o { no_expand = b })
                  time_reopen
                  name_of
                  d
                  lm
                  path_flags
                  w).0.1)
      by_flag true (no_hash, good) =
          let q =
            queue_named-IsQueued os registered (record o { no_expand = true }) time_reopen
              o.template d.writer lm path_flags w in
          record {
            well = (no_hash, q.good strict good);
            moved = λ f. queue_if o.template f d.writer _ _ q.appended;
          }
      by_flag false (no_writer, u, g) =
          let t = hash_of d in
          let name = name_of lm in
          let q =
            queue_named-IsQueued os registered (record o { no_expand = false }) time_reopen name
              (lookup name t) lm path_flags w in
          let (u', g') = stored_in-IsWell name _ t (q.good strict (lookup-IsGood name t g)) u g in
          record {
            well = (no_writer, u', g');
            moved =
                λ f. queue_stored name f t _ _ _ q.appended (stored_in-lookup f name _ t q.stays);
          }

-- Work takes entries from the front of the queue of a file.
pub record IsWork {M T : Type 0} (o : Options T) (d d' : AfFileDestDriver M) (name : List ℕ) (k : ℕ)
    : Type 0 where
  pub well : IsWell o.no_expand d'
  pub done :
      (f : List ℕ)
      → pending o d' f ≡ (if same name f then drop k (pending o d f) else pending o d f)

nothing_to_do : {A : Type 0} (b : Bool) (k : ℕ) → ◌≡◌ {A = List A} [] (if b then drop k [] else [])
nothing_to_do {A} true k = sym (drop-nil A k)
nothing_to_do false k = refl

-- a table in which the entry of a name has worked
queue_worked :
    {M : Type 0} (name f : List ℕ) (k : ℕ) (t t' : Table (AfFileDestWriter M))
    (after : Option (AfFileDestWriter M))
    → queue_of after ≡ drop k (queue_of (lookup name t))
    → lookup f t' ≡ (if same name f then after else lookup f t)
    → queue_of (lookup f t')
      ≡ (if same name f then drop k (queue_of (lookup f t)) else queue_of (lookup f t))
queue_worked name f k t t' after e found = elim (Bool-cases (same name f)) [
  | inl here ↦ rw (found, here) (e ∙ ap (λ j. drop k (queue_of (lookup j t))) (same→eq name f here))
  | inr other ↦ rw (found, other) refl
]

pub worked-IsWork :
    {M T : Type 0} (o : Options T) (d : AfFileDestDriver M) (name : List ℕ) (k : ℕ)
    → IsWell o.no_expand d
    → IsWork o d (worked o d name k) name k
unfolding worked view
worked-IsWork {M} o d name k = by_flag o.no_expand
  where
    by_flag :
        (b : Bool)
        → IsWell b d
        → IsWork
            (record o { no_expand = b })
            d
            (worked (record o { no_expand = b }) d name k)
            name
            k
    by_flag true (no_hash, good) = elim (Bool-cases (same o.template name)) [
      | inl mine ↦ rw mine (record {
        well = (no_hash, dw_work-IsGood k d.writer good);
        done = λ f. elim (Bool-cases (same o.template f)) [
          | inl here ↦
              let there : same name f ≡ true =
                subst (λ x. same x f ≡ true) (same→eq o.template name mine) here in
              rw (here, there) (dw_work-queue k d.writer)
          | inr other ↦ rw other (nothing_to_do (same name f) k)
        ];
      })
      | inr other ↦ rw other (record {
        well = (no_hash, good);
        done = λ f. elim (Bool-cases (same name f)) [
          | inr away ↦ rw away refl
          | inl there ↦ elim (Bool-cases (same o.template f)) [
            | inl here ↦ absurd ((cc (sym other ∙ same_of o.template name f here there)))
            | inr gone ↦ rw (there, gone) (nothing_to_do true k)
          ]
        ];
      })
    ]
    by_flag false (no_writer, u, g) = elim (Option-cases (lookup name (hash_of d))) [
      | inl absent ↦
          rw (absent, worked, dw_work)
            (record {
              well = (no_writer, u, g);
              done = λ f.
                  queue_worked name f k (hash_of d) (hash_of d) none
                    (rw absent (sym (drop-nil (M × ℕ) k)))
                    (elim (Bool-cases (same name f)) [
                      | inl here ↦
                          rw here
                            (ap (λ j. lookup j (hash_of d)) (sym (same→eq name f here)) ∙ absent)
                      | inr away ↦ rw away refl
                    ]);
            })
      | inr (dw, found) ↦
          let t = hash_of d in
          let dw' = record dw { writer = writer_work k dw.writer } in
          let has_writer =
            dw_work-IsGood k (some dw) (subst IsGood found (lookup-IsGood name t g)) in
          rw (found, worked, dw_work)
            (record {
              well = (
                no_writer,
                insert-NodupKeys name dw' t u,
                insert-AllGood name dw' t has_writer g,
              );
              done = λ f.
                  queue_worked name f k t (insert name dw' t) (some dw')
                    (rw found (dw_work-queue k (some dw))) (lookup-insert f name dw' t);
            })
    ]
