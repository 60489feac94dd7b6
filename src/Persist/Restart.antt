-- ===== src/Persist/Restart.antt =====
-- What is saved of a PersistentConfig is loaded again.
use indigo.Prelude.{
  ℕ, zero, suc, ◌≤◌, ◌<◌, ◌≡◌, refl, sym, ap, ◌∙◌, Bool, true, false, none, some, List, [], ◌∷◌,
  ◌++◌, ltb, ==_refl, length, take, drop, append_assoc, append-nil, take-append, drop-append, arith,
}
use indigo.Prelude.Bytes.{codes}
use indigo.Parser.Whole.{c_string}
use indigo.Persist.{
  Value, string, object, PersistentConfigEntry, PersistentConfig, Stdio, lookup, htonl, ntohl_from,
  persist_config_add_entry, persist_config_add, persist_config_write_string,
  persist_config_read_string, persist_config_save_value, save_values, persist_config_save,
  load_entry, load_loop, persist_config_load,
}

-- An open file on a disk that is not full: what is written is appended, and reading goes on where
-- it stopped.
pub record IsPlain (S : Stdio) : Type 0 where
  pub written : S.File → List ℕ
  pub unread : S.File → List ℕ
  pub fwrite_count : (file : S.File) (bs : List ℕ) → (S.fwrite file bs).0 ≡ length bs
  pub fwrite_all : (file : S.File) (bs : List ℕ) → written (S.fwrite file bs).1 ≡ written file ++ bs
  pub fread_take : (file : S.File) (n : ℕ) → (S.fread file n).0 ≡ take n (unread file)
  pub fread_drop : (file : S.File) (n : ℕ) → unread (S.fread file n).1 ≡ drop n (unread file)

-- names and texts that survive
abbrev pub Stored : Type 0
Stored = List (List ℕ × List ℕ)

abbrev pub stored_value : {V : Type 0} → Bool → List ℕ → Value V → Stored → Stored
stored_value true name (string str) rest = (name, str) ∷ rest
stored_value true name (object v) rest = rest
stored_value false name value rest = rest

abbrev pub stored : {V : Type 0} → PersistentConfig V → Stored
stored [] = []
stored (p ∷ ps) = stored_value p.survive_across_restarts p.name p.value (stored ps)

abbrev pub entry : {V : Type 0} → List ℕ → List ℕ → PersistentConfigEntry V
entry name str = record { name = name; value = string str; survive_across_restarts = false }

-- the entries after a restart, which survive no other one by themselves
abbrev pub entries : {V : Type 0} → Stored → PersistentConfig V
entries [] = []
entries ((name, str) ∷ ps) = entry name str ∷ entries ps

abbrev pub IsText : List ℕ → Type 0
IsText str = (length str ≤ 4096) × (c_string str ≡ str)

-- Names and texts have no NUL and 4096 bytes at most, and no name comes twice, or stands in a table
-- before.
abbrev pub IsStorable : {V : Type 0} → PersistentConfig V → Stored → Type 0
IsStorable keys [] = Unit
IsStorable keys ((name, str) ∷ ps) =
    IsText name
    × IsText str
    × (lookup name keys ≡ none)
    × IsStorable (keys ++ entry name str ∷ []) ps

abbrev block : List ℕ → List ℕ
block str = htonl (length str) ++ str

abbrev image : Stored → List ℕ
image [] = []
image ((name, str) ∷ ps) = block name ++ (block str ++ image ps)

length-htonl : (n : ℕ) → length (htonl n) ≡ 4
unfolding htonl
length-htonl n = refl

ntohl-htonl : (n : ℕ) → n ≤ 4096 → ntohl_from 0 (htonl n) ≡ n
unfolding htonl ntohl_from
ntohl-htonl n h = omega arith

module _ (S : Stdio) (P : IsPlain S) where
  open P use {written, unread}

  write_string-written :
      (file : S.File) (str : List ℕ)
      → written (persist_config_write_string S file str).1 ≡ written file ++ block str
  unfolding persist_config_write_string
  write_string-written file str = rw (P.fwrite_count file (htonl (length str))) (
      P.fwrite_all (S.fwrite file (htonl (length str))).1 str
      ∙ ap (λ bs. bs ++ str) (P.fwrite_all file (htonl (length str)))
      ∙ append_assoc (written file) (htonl (length str)) str)

  read_string-unread :
      (file : S.File) (str rest : List ℕ)
      → IsText str
      → unread file ≡ block str ++ rest
      → ((persist_config_read_string S file).0 ≡ some str)
        × (unread (persist_config_read_string S file).1 ≡ rest)
  unfolding persist_config_read_string
  read_string-unread file str rest (small, text) e =
      let start : unread file ≡ htonl (length str) ++ (str ++ rest) =
        e ∙ append_assoc (htonl (length str)) str rest in
      let head : (S.fread file 4).0 ≡ htonl (length str) =
        P.fread_take file 4
        ∙ ap (take 4) start
        ∙ take-append 4 (htonl (length str)) (str ++ rest) (length-htonl (length str)) in
      let tail : unread (S.fread file 4).1 ≡ str ++ rest =
        P.fread_drop file 4
        ∙ ap (drop 4) start
        ∙ drop-append 4 (htonl (length str)) (str ++ rest) (length-htonl (length str)) in
      let four : length (S.fread file 4).0 ≡ 4 = ap length head ∙ length-htonl (length str) in
      let size : ntohl_from 0 (S.fread file 4).0 ≡ length str =
        ap (ntohl_from 0) head ∙ ntohl-htonl (length str) small in
      let fits : ltb 4096 (length str) ≡ false = ground arith in
      let body : (S.fread (S.fread file 4).1 (length str)).0 ≡ str =
        P.fread_take (S.fread file 4).1 (length str)
        ∙ ap (take (length str)) tail
        ∙ take-append (length str) str rest refl in
      let left : unread (S.fread (S.fread file 4).1 (length str)).1 ≡ rest =
        P.fread_drop (S.fread file 4).1 (length str)
        ∙ ap (drop (length str)) tail
        ∙ drop-append (length str) str rest refl in
      rw (four, size, fits, body, ==_refl (length str), text) (refl, left)

  read_string_end :
      (file : S.File) → unread file ≡ [] → (persist_config_read_string S file).0 ≡ none
  unfolding persist_config_read_string
  read_string_end file e =
      let head : (S.fread file 4).0 ≡ [] = P.fread_take file 4 ∙ ap (take 4) e in rw head refl

  module _ {V : Type 0} where
    save_values-written :
        (keys : PersistentConfig V) (file : S.File)
        → written (save_values S keys file) ≡ written file ++ image (stored keys)
    unfolding save_values
    save_values-written [] file = sym (append-nil (written file))
    save_values-written (p ∷ ps) file =
        save_values-written ps (persist_config_save_value S p file)
        ∙ saved p.survive_across_restarts p.value
      where
        saved :
            (survive : Bool) (value : Value V)
            → written (
                  persist_config_save_value S
                    (record p { survive_across_restarts = survive; value = value })
                    file)
                ++ image (stored ps)
              ≡ written file ++ image (stored_value survive p.name value (stored ps))
        saved true (string str) =
            ap (λ bs. bs ++ image (stored ps))
              (write_string-written (persist_config_write_string S file p.name).1 str
                ∙ ap (λ bs. bs ++ block str) (write_string-written file p.name))
            ∙ append_assoc (written file ++ block p.name) (block str) (image (stored ps))
            ∙ append_assoc (written file) (block p.name) (block str ++ image (stored ps))
        saved true (object v) = refl
        saved false value = refl

    add_fresh :
        (keys : PersistentConfig V) (name str : List ℕ)
        → lookup name keys ≡ none
        → persist_config_add keys name (string str) ≡ keys ++ entry name str ∷ []
    unfolding persist_config_add
    add_fresh keys name str fresh = rw (fresh, persist_config_add, persist_config_add_entry) refl

    load_entry_end :
        (keys : PersistentConfig V) (file : S.File)
        → unread file ≡ []
        → load_entry S keys file ≡ none
    unfolding load_entry
    load_entry_end keys file e = rw (read_string_end file e, load_entry) refl

    -- a name and its text are read and added
    load_entry-entry :
        (keys : PersistentConfig V) (file : S.File) (name str : List ℕ) (ps : Stored)
        → IsText name
        → IsText str
        → lookup name keys ≡ none
        → unread file ≡ image ((name, str) ∷ ps)
        → (file' : S.File) × (load_entry S keys file ≡ some (keys ++ entry name str ∷ [], file'))
          × (unread file' ≡ image ps)
    unfolding load_entry
    load_entry-entry keys file name str ps n s fresh e =
        let (got, more) = read_string-unread file name (block str ++ image ps) n e in
        let (got', more') =
          read_string-unread (persist_config_read_string S file).1 str (image ps) s more in
        (
          (persist_config_read_string S (persist_config_read_string S file).1).1,
          rw (got, got', load_entry, add_fresh keys name str fresh) refl,
          more',
        )

    load_loop-image :
        (fuel : ℕ) (ps : Stored) (keys : PersistentConfig V) (file : S.File)
        → length ps < fuel
        → IsStorable keys ps
        → unread file ≡ image ps
        → load_loop S fuel keys file ≡ some (keys ++ entries ps)
    unfolding load_loop
    load_loop-image zero ps keys file h ok e = absurd (omega arith)
    load_loop-image (suc fuel) [] keys file h ok e =
        rw (load_entry_end keys file e, load_loop, append-nil keys) refl
    load_loop-image (suc fuel) ((name, str) ∷ ps) keys file h (n, s, fresh, ok) e =
        let (file', got, rest) = load_entry-entry keys file name str ps n s fresh e in
        ap (λ o. elim o [ none ↦ some keys | some (k, f) ↦ load_loop S fuel k f ]) got
        ∙ load_loop-image fuel ps (keys ++ entry name str ∷ []) file' (omega arith) ok rest
        ∙ ap some (append_assoc keys (entry name str ∷ []) (entries ps))

    -- A PersistentConfig is saved to a new file, on a disk that is not full, and loaded from what
    -- was written, with fuel for its entries. Its texts that survive restarts have no NUL and 4096
    -- bytes at most, as their names, of which none comes twice. Then the loader returns, with these
    -- texts under their names and nothing else, none of which survives another restart by itself.
    pub persist_config_load-persist_config_save :
        (keys : PersistentConfig V) (new saved : S.File) (fuel : ℕ)
        → written new ≡ []
        → unread saved ≡ written (persist_config_save S keys new)
        → length (stored keys) < fuel
        → IsStorable {V = V} [] (stored keys)
        → persist_config_load S {V = V} fuel [] (some saved) ≡ some (entries (stored keys))
    unfolding persist_config_load persist_config_save
    persist_config_load-persist_config_save keys new saved fuel empty reopened enough ok =
        let magic = codes "SLP1" in
        let all : unread saved ≡ magic ++ image (stored keys) =
          reopened
          ∙ save_values-written keys (S.fwrite new magic).1
          ∙ ap (λ bs. bs ++ image (stored keys))
              (P.fwrite_all new magic ∙ ap (λ bs. bs ++ magic) empty) in
        let head : (S.fread saved 4).0 ≡ magic = P.fread_take saved 4 ∙ ap (take 4) all in
        let tail : unread (S.fread saved 4).1 ≡ image (stored keys) =
          P.fread_drop saved 4 ∙ ap (drop 4) all in
        rw head (load_loop-image fuel (stored keys) [] (S.fread saved 4).1 enough ok tail)
