-- ===== src/Persist/Tests.antt =====
-- A PersistentConfig with a position of a file and an object, saved and loaded.
use indigo.Prelude.{ℕ, ◌≡◌, refl, true, false, some, [], ◌∷◌, ◌++◌, arith}
use indigo.Prelude.Bytes.{codes}
use indigo.Persist.{
  PersistentConfig, string, object, lookup, persist_config_save, persist_config_load,
}
use indigo.Persist.Plain.{bytes_io, bytes_io-IsPlain}
use indigo.Persist.Restart.{IsStorable, stored, entries, persist_config_load-persist_config_save}

abbrev keys : PersistentConfig ℕ
keys =
    record { name = codes "pos(a)"; value = string (codes "120"); survive_across_restarts = true }
    ∷ record { name = codes "fd"; value = object 4; survive_across_restarts = false }
    ∷ record { name = codes "pos(b)"; value = string (codes "7"); survive_across_restarts = true }
    ∷ []

keys-IsStorable : IsStorable {V = ℕ} [] (stored keys)
unfolding lookup indigo.Parser.span_until
keys-IsStorable = (
  (omega arith, refl),
  (omega arith, refl),
  refl,
  ((omega arith, refl), (omega arith, refl), refl, tt),
)

persist_config_load-persist_config_save_example :
    persist_config_load bytes_io {V = ℕ} 3 [] (some (persist_config_save bytes_io keys []))
    ≡ some (entries ((codes "pos(a)", codes "120") ∷ (codes "pos(b)", codes "7") ∷ []))
persist_config_load-persist_config_save_example =
    persist_config_load-persist_config_save bytes_io bytes_io-IsPlain keys []
      (persist_config_save bytes_io keys []) 3 refl refl (omega arith) keys-IsStorable

-- A text of 4097 bytes, of which only the length is there, ends the loading.
too_long :
    persist_config_load bytes_io {V = ℕ} 3 [] (some (codes "SLP1" ++ (0 ∷ 0 ∷ 16 ∷ 1 ∷ [])))
    ≡ some []
unfolding persist_config_load
too_long = refl
