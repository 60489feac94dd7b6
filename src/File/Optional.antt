-- ===== src/File/Optional.antt =====
-- A file destination that is optional, where a file cannot be opened.
use indigo.Prelude.{
  ℕ, ◌+◌, ◌≤◌, ◌≡◌, refl, sym, subst, ◌∙◌, true, false, Option, none, some, List, [], ◌∷◌, ltb, leb,
  Bool-cases, Option-cases, inl, inr, arith,
}
use indigo.Prelude.Bytes.{same, same_refl}
use indigo.File.{Os, is_spurious, affile_open_file}
use indigo.File.Table.{Table, lookup, insert, lookup-insert}
use indigo.File.Dest.{
  Options, AfFileDestWriter, AfFileDestDriver, hash_of, overwrite, dw_opened, dw_stamped,
  affile_dw_init, affile_dw_new, dw_reopen, dw_forward, affile_dw_queue, queue_new, queue_named,
  stored_in, affile_dd_queue, affile_dw_reapable,
}
use indigo.File.Reload.{affile_dd_reap_writers, reap, affile_dd_reap}

-- the writer of a file that is not open
abbrev null : {M : Type 0} → ℕ → ℕ → ℕ → AfFileDestWriter M
null stamp opened reopen = record {
  writer = none;
  last_msg_stamp = stamp;
  last_open_stamp = opened;
  time_reopen = reopen;
}

abbrev IsNull : {M : Type 0} → ℕ → AfFileDestWriter M → Type 0
IsNull stamp dw = (a : ℕ) × (b : ℕ) × (dw ≡ null stamp a b)

-- reaping follows the null pointer of any writer that is due
reap-IsNull :
    {M : Type 0} (time_reap now stamp : ℕ) (name : List ℕ) (t : Table (AfFileDestWriter M))
    (dw : AfFileDestWriter M)
    → lookup name t ≡ some dw
    → IsNull stamp dw
    → stamp + time_reap ≤ now
    → reap time_reap now t ≡ none
unfolding reap lookup
reap-IsNull time_reap now stamp name [] dw found h due = absurd ((cc))
reap-IsNull {M} time_reap now stamp name ((n, v) ∷ t) dw found (a, b, e) due =
    elim (Bool-cases (same n name)) [
      | inl here ↦
          let due' : leb (stamp + time_reap) now ≡ true = ground arith in
          let this : v ≡ dw = cc (rw here at found) in
          rw (this, e, due', reap, affile_dd_reap_writers, affile_dw_reapable) refl
      | inr away ↦ elim (Option-cases (affile_dd_reap_writers time_reap now v)) [
        | inl crash ↦ rw (crash, reap) refl
        | inr (removed, decided) ↦
            rw
              (
                decided,
                reap-IsNull time_reap now stamp name t dw (rw away at found) (a, b, e) due,
                reap,
              )
              refl
      ]
    ]

module _ {M T : Type 0} (os : Os) (registered : Option ℕ) (o : Options T) where
  open os use {World, time}

  -- a spurious name is not opened, when an optional driver opens it, and it succeeds all the same
  affile_dw_init_spurious :
      (time_reopen : Option ℕ) (name : List ℕ) (stamp a b : ℕ) (w : World)
      → is_spurious name ≡ true
      → ((affile_dw_init os registered o time_reopen name (null {M = M} stamp a b) w).0
          ≡ o.optional)
        × IsNull stamp
            (affile_dw_init os registered o time_reopen name (null {M = M} stamp a b) w).1
        × ((affile_dw_init os registered o time_reopen name (null {M = M} stamp a b) w).2
            ≡ overwrite os o name w)
  unfolding affile_dw_init affile_open_file dw_stamped dw_opened
  affile_dw_init_spurious time_reopen name stamp a b w bad =
      rw (bad, affile_open_file) (refl, (_, _, refl), refl)

  dw_reopen_spurious :
      (name : List ℕ) (stamp a b : ℕ) (w : World)
      → is_spurious name ≡ true
      → IsNull stamp (dw_reopen os registered o name (null {M = M} stamp a b) w).0
  unfolding dw_reopen
  dw_reopen_spurious name stamp a b w bad = elim (Bool-cases (ltb (a + b) stamp)) [
    | inl due ↦ rw due (affile_dw_init_spurious none name stamp a b w bad).1
    | inr early ↦ rw early (a, b, refl)
  ]

  dw_forward-IsNull :
      (dw : AfFileDestWriter M) (stamp : ℕ) (lm : M) (path_flags : ℕ)
      → IsNull stamp dw
      → IsNull stamp (dw_forward os registered o dw lm path_flags).0
  unfolding dw_forward
  dw_forward-IsNull dw stamp lm path_flags (a, b, e) =
      subst (λ v. IsNull stamp (dw_forward os registered o v lm path_flags).0) (sym e) (a, b, refl)

  affile_dw_queue_spurious :
      (name : List ℕ) (dw : AfFileDestWriter M) (stamp : ℕ) (lm : M) (path_flags : ℕ) (w : World)
      → is_spurious name ≡ true
      → IsNull stamp dw
      → IsNull (time w) (affile_dw_queue os registered o name dw lm path_flags w).0.0
  unfolding affile_dw_queue
  affile_dw_queue_spurious name dw stamp lm path_flags w bad (a, b, e) =
      rw e (dw_forward-IsNull _ (time w) lm path_flags (dw_reopen_spurious name (time w) a b w bad))

  queue_new_spurious :
      (time_reopen : ℕ) (name : List ℕ) (lm : M) (path_flags : ℕ) (w : World)
      → is_spurious name ≡ true
      → o.optional ≡ true
      → (dw : AfFileDestWriter M) × ((queue_new os registered o time_reopen name lm path_flags
            w).0.0
          ≡ some dw)
        × IsNull (time (overwrite os o name w)) dw
  unfolding queue_new affile_dw_new
  queue_new_spurious time_reopen name lm path_flags w bad optional =
      let (ok, n, same_world) = affile_dw_init_spurious (some time_reopen) name 0 0 60 w bad in
      let r = affile_dw_init os registered o (some time_reopen) name (null {M = M} 0 0 60) w in
      (
        (affile_dw_queue os registered o name r.1 lm path_flags r.2).0.0,
        rw (ok ∙ optional, queue_new) refl,
        subst
            (λ v. IsNull (time v) (affile_dw_queue os registered o name r.1 lm path_flags r.2).0.0)
            same_world (affile_dw_queue_spurious name r.1 0 lm path_flags r.2 bad n),
      )

-- A file destination with templates in its name that is optional gets a message whose file name,
-- which it takes from the message, has `../` or `/..` in it, and which is new. The file is not
-- opened, and a writer for it is kept all the same. If the reap timer then fires time_reap seconds
-- later or more, it follows a null pointer.
pub affile_dd_reap_spurious :
    {M T : Type 0} (os : Os) (registered : Option ℕ) (o : Options T) (time_reopen : ℕ)
    (name_of : M → List ℕ) (d : AfFileDestDriver M) (lm : M) (path_flags now : ℕ) (w : os.World)
    → o.no_expand ≡ false
    → o.optional ≡ true
    → is_spurious (name_of lm) ≡ true
    → lookup (name_of lm) (hash_of d) ≡ none
    → os.time (overwrite os o (name_of lm) w) + o.time_reap ≤ now
    → affile_dd_reap o.time_reap now
        (affile_dd_queue os registered o time_reopen name_of d lm path_flags w).0.0
      ≡ none
unfolding affile_dd_queue affile_dd_reap queue_named stored_in
affile_dd_reap_spurious os registered o time_reopen name_of d lm path_flags now w expand optional
      bad new due =
    let name = name_of lm in
    let t = hash_of d in
    let (dw, kept, n) =
      queue_new_spurious os registered o time_reopen name lm path_flags w bad optional in
    let crash =
      reap-IsNull o.time_reap now _ name (insert name dw t) dw
        (lookup-insert name name dw t ∙ rw (same_refl name) refl) n due in
    rw (expand, affile_dd_queue, new, kept, affile_dd_reap, stored_in, crash) refl
