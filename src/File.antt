-- ===== src/File.antt =====
-- src/affile.c, affile_open_file: opening a file, with the directories on its way.
pub mod Table
pub mod Dest
pub mod Reload
pub mod Delivery
pub mod Optional
pub mod Source
mod Tests
use indigo.Prelude.{
  ℕ, Bool, true, false, not, ◌&&◌, ◌||◌, Option, none, some, List, [], ◌∷◌, ◌++◌, ◌==◌,
  if◌then◌else◌,
}
use indigo.Prelude.Bytes.{codes, starts_with}
use indigo.Prelude.Int.{ℤ, pos, negsuc, eqb_ℤ}

-- the flags that files are opened with, O_NOCTTY, O_NONBLOCK and O_LARGEFILE left out
pub data OpenFlags : Type 0 where
  rdwr rdonly append_create : OpenFlags

-- open: a descriptor, or -1 with errno ENOENT or another
pub data Opened : Type 0 where
  fd : ℕ → Opened
  no_entry not_opened : Opened

-- stat: a directory or something else with its time of modification, or a failure with errno
-- ENOENT or another
pub data Stat : Type 0 where
  directory : (st_mtime : ℕ) → Stat
  other : (st_mtime : ℕ) → Stat
  missing unknown : Stat

-- the calls of the system, on a state of the file system and the clock
pub record Os : Type 1 where
  pub World : Type 0
  pub open_file : World → List ℕ → OpenFlags → (mode : ℤ) → Opened × World
  pub stat : World → List ℕ → Stat
  pub mkdir : World → List ℕ → (mode : ℤ) → Bool × World
  pub chown : World → List ℕ → (uid gid : ℤ) → World
  pub chmod : World → List ℕ → (mode : ℤ) → World
  pub fchown : World → ℕ → (uid gid : ℤ) → World
  pub fchmod : World → ℕ → (mode : ℤ) → World
  pub unlink : World → List ℕ → World
  pub time : World → ℕ

-- owner, group and mode of what is created, -1 for none
pub record Permissions : Type 0 where
  pub uid : ℤ
  pub gid : ℤ
  pub mode : ℤ

abbrev pub minus_one : ℤ
minus_one = negsuc 0

abbrev is_set : ℤ → Bool
is_set n = not (eqb_ℤ n minus_one)

-- strstr, as a test
unfoldable pub contains : List ℕ → List ℕ → Bool
contains needle [] = starts_with needle []
contains needle (c ∷ cs) = starts_with needle (c ∷ cs) || contains needle cs

-- the test for a spurious path
unfoldable pub is_spurious : List ℕ → Bool
unfolding contains
is_spurious name = contains (codes "../") name || contains (codes "/..") name

-- the path up to each slash, behind some bytes that are passed already
pub parents_from : List ℕ → List ℕ → List (List ℕ)
parents_from before [] = []
parents_from before (c ∷ cs) =
    let rest = parents_from (before ++ c ∷ []) cs in if c == b'/' then before ∷ rest else rest

-- the values of `name` at which the loop stops, one for each slash but one in front
unfoldable pub parents : List ℕ → List (List ℕ)
unfolding parents_from
parents [] = []
parents (c ∷ cs) = parents_from (c ∷ []) cs

module _ (os : Os) where
  open os use {World, open_file, stat, mkdir, chown, chmod, fchown, fchmod}

  -- a directory that was made
  pub set_dir : Permissions → List ℕ → World → World
  set_dir dir name w =
      let w' = if is_set dir.uid || is_set dir.gid then chown w name dir.uid dir.gid else w in
      if is_set dir.mode then chmod w' name dir.mode else w'

  -- one round of the loop over the parents: false is the return
  pub make_dir : Permissions → List ℕ → World → Bool × World
  unfolding set_dir
  make_dir dir name w = elim (stat w name) [
    | directory mtime ↦ (true, w)
    | other mtime ↦ (false, w)
    | unknown ↦ (true, w)
    | missing ↦
        let (made, w') = mkdir w name dir.mode in
        if made then (true, set_dir dir name w') else (false, w')
  ]

  -- the loop
  pub make_dirs : Permissions → List (List ℕ) → World → Bool × World
  unfolding make_dir
  make_dirs dir [] w = (true, w)
  make_dirs dir (name ∷ names) w =
      let (going, w') = make_dir dir name w in
      let rest = make_dirs dir names w' in if going then rest else (false, w')

  -- owner, group and mode of the file that is open, set one by one
  pub set_file : Permissions → Opened → World → Option ℕ × World
  set_file file (fd n) w =
      let w' = if is_set file.uid then fchown w n file.uid minus_one else w in
      let w'' = if is_set file.gid then fchown w' n minus_one file.gid else w' in
      (some n, if is_set file.mode then fchmod w'' n file.mode else w'')
  set_file file opened w = (none, w)

  -- what is done after the first attempt to open
  pub open_again :
      Permissions
      → Permissions
      → (create_dirs : Bool) → List ℕ
      → OpenFlags
      → Opened
      → World
      → Option ℕ × World
  unfolding make_dirs set_file parents
  open_again file dir true name flags no_entry w =
      let (going, w') = make_dirs dir (parents name) w in
      if going
      then (let (opened, w'') = open_file w' name flags file.mode in set_file file opened w'')
      else (none, w')
  open_again file dir create_dirs name flags opened w = set_file file opened w

  -- affile_open_file: the descriptor, or `none` for FALSE
  unfoldable pub affile_open_file :
      Permissions
      → Permissions
      → (create_dirs : Bool) → List ℕ
      → OpenFlags
      → World
      → Option ℕ × World
  unfolding is_spurious open_again
  affile_open_file file dir create_dirs name flags w =
      if is_spurious name
      then (none, w)
      else let (opened, w') = open_file w name flags file.mode in
        open_again file dir create_dirs name flags opened w'
