-- ===== src/Persist.antt =====
-- src/cfg.c, PersistentConfig: values that drivers leave for the next configuration, and the
-- file by which texts among them survive a restart.
pub mod Restart
pub mod Plain
mod Tests
use indigo.Prelude.{
  ℕ, zero, suc, ◌+◌, ◌*◌, ◌/◌, ◌%◌, Bool, true, false, ◌||◌, Option, none, some, List, [], ◌∷◌,
  ◌++◌, ◌==◌, ltb, if◌then◌else◌, length, not,
}
use indigo.Prelude.Bytes.{codes, same}
use indigo.Parser.Whole.{c_string}

-- The pointer of an entry: a text, which is all that can survive a restart, or an object of a
-- driver.
pub data Value (V : Type 0) : Type 0 where
  string : List ℕ → Value V
  object : V → Value V

-- PersistentConfigEntry with its key; the destroy function goes with the kind of value
pub record PersistentConfigEntry (V : Type 0) : Type 0 where
  pub name : List ℕ
  pub value : Value V
  pub survive_across_restarts : Bool

-- PersistentConfig: the entries of the hash table. No operation depends on their order.
abbrev pub PersistentConfig : Type 0 → Type 0
PersistentConfig V = List (PersistentConfigEntry V)

-- stdio on one open file. `fread` gives the bytes that it got.
pub record Stdio : Type 1 where
  pub File : Type 0
  pub fwrite : File → List ℕ → ℕ × File
  pub fread : File → ℕ → List ℕ × File

-- what adding leaves: the table, and a value that was destroyed at once
pub record Added (V : Type 0) : Type 0 where
  pub keys : PersistentConfig V
  pub destroyed : Option (Value V)

module _ {V : Type 0} where
  -- g_hash_table_lookup
  unfoldable pub lookup : List ℕ → PersistentConfig V → Option (Value V)
  lookup name [] = none
  lookup name (p ∷ ps) =
      let rest = lookup name ps in if same p.name name then some p.value else rest

  -- g_hash_table_steal
  unfoldable pub steal : List ℕ → PersistentConfig V → PersistentConfig V
  steal name [] = []
  steal name (p ∷ ps) = let rest = steal name ps in if same p.name name then ps else p ∷ rest

  -- persist_config_add_entry, with the flag that persist_config_add_survivor sets afterwards. `none`
  -- is a null pointer, of the table or the value.
  unfoldable pub persist_config_add_entry :
      Option (PersistentConfig V) → List ℕ → Option (Value V) → (survive : Bool) → Option (Added V)
  unfolding lookup
  persist_config_add_entry none name value survive = none
  persist_config_add_entry (some keys) name none survive =
      some (record { keys = keys; destroyed = none })
  persist_config_add_entry (some keys) name (some value) survive = elim (lookup name keys) [
    | some old ↦ some (record { keys = keys; destroyed = some value })
    | none ↦ some (record {
      keys = keys ++ record { name = name; value = value; survive_across_restarts = survive } ∷ [];
      destroyed = none;
    })
  ]

  -- persist_config_add on a table that is there, less what it destroys
  unfoldable pub persist_config_add : PersistentConfig V → List ℕ → Value V → PersistentConfig V
  unfolding persist_config_add_entry
  persist_config_add keys name value =
      elim (persist_config_add_entry (some keys) name (some value) false) [
        | none ↦ keys
        | some added ↦ added.keys
      ]

  -- persist_config_add_survivor on a table that is there
  unfoldable pub persist_config_add_survivor :
      PersistentConfig V → List ℕ → List ℕ → PersistentConfig V
  unfolding persist_config_add_entry
  persist_config_add_survivor keys name value =
      elim (persist_config_add_entry (some keys) name (some (string value)) true) [
        | none ↦ keys
        | some added ↦ added.keys
      ]

  -- persist_config_fetch
  unfoldable pub persist_config_fetch :
      Option (PersistentConfig V) → List ℕ → Option (Value V) × Option (PersistentConfig V)
  unfolding lookup steal
  persist_config_fetch none name = (none, none)
  persist_config_fetch (some keys) name = elim (lookup name keys) [
    | none ↦ (none, some keys)
    | some value ↦ (some value, some (steal name keys))
  ]

-- htonl on a length: the four bytes of a guint32, the high one first
unfoldable pub htonl : ℕ → List ℕ
htonl n = (n / 16777216 % 256) ∷ (n / 65536 % 256) ∷ (n / 256 % 256) ∷ (n % 256) ∷ []

-- ntohl of bytes
unfoldable pub ntohl_from : ℕ → List ℕ → ℕ
ntohl_from n [] = n
ntohl_from n (c ∷ cs) = ntohl_from (n * 256 + c) cs

module _ (S : Stdio) where
  open S use {File, fwrite, fread}

  -- persist_config_write_string
  pub persist_config_write_string : File → List ℕ → Bool × File
  unfolding htonl
  persist_config_write_string file str =
      let (n, file') = fwrite file (htonl (length str)) in
      if n == 4
      then (let (m, file'') = fwrite file' str in (m == ntohl_from 0 (htonl (length str)), file''))
      else (false, file')

  -- persist_config_read_string; the text ends at its first NUL
  pub persist_config_read_string : File → Option (List ℕ) × File
  unfolding ntohl_from
  persist_config_read_string file =
      let (head, file') = fread file 4 in
      if not (length head == 4)
      then (none, file')
      else let n = ntohl_from 0 head in
        if ltb 4096 n
        then (none, file')
        else let (str, file'') = fread file' n in
          if not (length str == n) then (none, file'') else (some (c_string str), file'')

  module _ {V : Type 0} where
    -- persist_config_save_value; an object is no text and never marked
    pub persist_config_save_value : PersistentConfigEntry V → File → File
    unfolding persist_config_write_string
    persist_config_save_value entry file =
        if entry.survive_across_restarts
        then elim entry.value [
          | string str ↦
              (persist_config_write_string (persist_config_write_string file entry.name).1 str).1
          | object v ↦ file
        ]
        else file

    -- the loop of g_hash_table_foreach
    pub save_values : PersistentConfig V → File → File
    unfolding persist_config_save_value
    save_values [] file = file
    save_values (entry ∷ entries) file = save_values entries (persist_config_save_value entry file)

    -- persist_config_save on a file that opens; the count of fwrite is never below 0
    pub persist_config_save : PersistentConfig V → File → File
    unfolding save_values
    persist_config_save keys file = save_values keys (fwrite file (codes "SLP1")).1

    -- a round of the loop of persist_config_load: the table and the file for the next one
    pub load_entry : PersistentConfig V → File → Option (PersistentConfig V × File)
    unfolding persist_config_read_string persist_config_add
    load_entry keys file =
        let (key, file') = persist_config_read_string file in
        elim key [
          | none ↦ none
          | some name ↦
              let (str, file'') = persist_config_read_string file' in
              elim str [
                | none ↦ none
                | some value ↦ some (persist_config_add keys name (string value), file'')
              ]
        ]

    -- the loop; `none` means that the fuel ran out
    pub load_loop : ℕ → PersistentConfig V → File → Option (PersistentConfig V)
    unfolding load_entry
    load_loop zero keys file = none
    load_loop (suc fuel) keys file = elim (load_entry keys file) [
      | none ↦ some keys
      | some (keys', file') ↦ load_loop fuel keys' file'
    ]

    -- persist_config_load; `none` is a file that does not open
    unfoldable pub persist_config_load :
        ℕ → PersistentConfig V → Option File → Option (PersistentConfig V)
    unfolding load_loop
    persist_config_load fuel keys none = some keys
    persist_config_load fuel keys (some file) =
        let (magic, file') = fread file 4 in
        if not (length magic == 4)
        then some keys
        else if not (same magic (codes "SLP1"))
        then some keys
        else load_loop fuel keys file'
