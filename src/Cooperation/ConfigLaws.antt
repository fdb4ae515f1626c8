-- ===== src/Cooperation/ConfigLaws.antt =====
-- configs/dconfig/dconfigmanager.cpp: no object of a configuration is lost, and the check of all
-- configurations.
use dde_file_manager_extensi.Prelude.{
  suc, ◌+◌, ◌==◌, find-insert, eq_refl, some, eq_iff, String, Bool, true, false, ◌&&◌, ◌≡◌, refl,
  none, List, [], ◌∷◌, ◌++◌, length, Hash, find, insert, erase, has_key, IsDistinct, arith,
  Bool-cases, Option-cases, inl, inr, if◌then◌else◌, is_nil,
}
use mathlib.Core.List.{append-nil, append_assoc}
use dde_file_manager_extensi.Settings.{Variant}
use dde_file_manager_extensi.Settings.Tidy.{insert-IsDistinct, erase-IsDistinct}
use dde_file_manager_extensi.Cooperation.Config.{
  DConfig, DConfigManager, Change, adds, removes, sets, keep_valid, add_config, new_manager,
  remove_config, destroy, set_value, validate_from, validate_configs, change, change_all, value,
}

module _ {ℓ} {A : Type ℓ} where
  length-insert :
      (k : String) (a : A) (m : Hash A)
      → length (insert k a m) ≡ (if has_key k m then length m else suc (length m))
  unfolding insert find
  length-insert k a [] = refl
  length-insert k a ((j, b) ∷ m) = ground (arith, length-insert k a m)

  length-erase_absent : (k : String) (m : Hash A) → find k m ≡ none → length (erase k m) ≡ length m
  unfolding erase find
  length-erase_absent k [] h = refl
  length-erase_absent k ((j, b) ∷ m) h = ground (arith, length-erase_absent k m)

  length-erase :
      (k : String) (m : Hash A)
      → IsDistinct m
      → has_key k m ≡ true
      → suc (length (erase k m)) ≡ length m
  unfolding erase find
  length-erase k [] d h = absurd (cc)
  length-erase k ((j, b) ∷ m) (fresh, d) h = elim (Bool-cases (j == k)) [
    | inl same ↦
        rw same (ground (arith, length-erase_absent k m (rw (← (eq_iff j k).0 same) fresh)))
    | inr other ↦ rw other (ground (arith, length-erase k m d))
  ]

-- Every object that was created and not deleted is held, under one name.
pub record IsSound {C : Type 0} (m : DConfigManager C) : Type 0 where
  pub distinct : IsDistinct m.configs
  pub counted : m.created ≡ m.deleted + length m.configs

module _ {C V : Type 0} (dc : DConfig C V) where
  add_config-IsSound :
      (config : String) (m : DConfigManager C) → IsSound m → IsSound (add_config dc config m).1
  unfolding add_config keep_valid
  add_config-IsSound config m s = elim (Bool-cases (has_key config m.configs)) [
    | inl old ↦ rw old s
    | inr new ↦ rw new (elim (Option-cases (dc.create "org.deepin.dde.cooperation" config "")) [
      | inl e ↦ rw e s
      | inr (cfg, e) ↦ rw e (elim (Bool-cases (dc.is_valid cfg)) [
        | inl good ↦ rw good (record {
          distinct = insert-IsDistinct config cfg m.configs s.distinct;
          counted = ground (arith, length-insert config cfg m.configs);
        })
        | inr bad ↦ rw bad (record { distinct = s.distinct; counted = ground arith })
      ])
    ])
  ]

  remove_config-IsSound :
      (config : String) (m : DConfigManager C) → IsSound m → IsSound (remove_config dc config m).1
  unfolding remove_config
  remove_config-IsSound config m s = elim (Bool-cases (has_key config m.configs)) [
    | inl old ↦ rw old (record {
      distinct = erase-IsDistinct config m.configs s.distinct;
      counted = ground (arith, length-erase config m.configs s.distinct old);
    })
    | inr new ↦ rw new s
  ]

  set_value-IsSound :
      (config key : String) (v : Variant V) (m : DConfigManager C)
      → IsSound m
      → IsSound (set_value dc config key v m)
  unfolding set_value
  set_value-IsSound config key v m s = elim (Option-cases (find config m.configs)) [
    | inl e ↦ rw (e, set_value) s
    | inr (cfg, e) ↦
        rw (e, set_value)
          (record {
            distinct = insert-IsDistinct config (dc.write cfg key v) m.configs s.distinct;
            counted = ground (arith, length-insert config (dc.write cfg key v) m.configs);
          })
  ]

  change-IsSound : (c : Change V) (m : DConfigManager C) → IsSound m → IsSound (change dc c m)
  unfolding change
  change-IsSound (adds config) m s = add_config-IsSound config m s
  change-IsSound (removes config) m s = remove_config-IsSound config m s
  change-IsSound (sets config key v) m s = set_value-IsSound config key v m s

  change_all-IsSound :
      (cs : List (Change V)) (m : DConfigManager C) → IsSound m → IsSound (change_all dc cs m)
  unfolding change_all
  change_all-IsSound [] m s = s
  change_all-IsSound (c ∷ cs) m s = change_all-IsSound cs (change dc c m) (change-IsSound c m s)

  pub new_manager-IsSound : IsSound (new_manager dc)
  unfolding new_manager
  new_manager-IsSound =
      add_config-IsSound "org.deepin.dde.cooperation" _ (record { distinct = tt; counted = refl })

  -- Whatever is added, removed and set, the manager holds every configuration that was created and not
  -- deleted, each under one name, and once it is destroyed, as many have been deleted as were created.
  pub destroyed_all :
      (cs : List (Change V))
      → IsSound (change_all dc cs (new_manager dc))
        × ((destroy dc (change_all dc cs (new_manager dc))).deleted
            ≡ (destroy dc (change_all dc cs (new_manager dc))).created)
  unfolding destroy
  destroyed_all cs =
      let s = change_all-IsSound cs (new_manager dc) new_manager-IsSound in
      (s, omega (arith, s.counted))

  -- The names of the configurations that are not valid.
  pub invalid_keys : Hash C → List String
  invalid_keys [] = []
  invalid_keys ((config, cfg) ∷ rest) =
      let more = invalid_keys rest in if dc.is_valid cfg then more else config ∷ more

  validate_from_lem :
      (m : Hash C) (ret : Bool) (invalid : List String)
      → validate_from dc m ret invalid ≡ (ret && is_nil (invalid_keys m), invalid ++ invalid_keys m)
  unfolding validate_from invalid_keys
  validate_from_lem [] ret invalid = rw append-nil (ground arith)
  validate_from_lem ((config, cfg) ∷ rest) ret invalid = elim (Bool-cases (dc.is_valid cfg)) [
    | inl good ↦ rw (good, validate_from_lem rest (ret && true) invalid) (ground arith)
    | inr bad ↦
        rw (bad, validate_from_lem rest (ret && false) (invalid ++ config ∷ []))
          (simp append_assoc (ground arith))
  ]

  -- The check of the configurations adds the names of those that are not valid, in their order, and
  -- answers whether there is none.
  pub validate_configs_lem :
      (m : DConfigManager C) (invalid : List String)
      → validate_configs dc m invalid
        ≡ (is_nil (invalid_keys m.configs), invalid ++ invalid_keys m.configs)
  unfolding validate_configs
  validate_configs_lem m invalid = rw validate_from_lem refl

  pub value-set_value :
      (config key j : String) (v : Variant V) (m : DConfigManager C) (fallback : Variant V) (c : C)
      → find config m.configs ≡ some c
      → value dc (set_value dc config key v m) config j fallback
        ≡ dc.read (dc.write c key v) j fallback
  unfolding value set_value
  value-set_value config key j v m fallback c e =
      rw (e, set_value)
        (ground (arith, find-insert config config (dc.write c key v) m.configs, eq_refl config))

  pub has_key-set_value :
      (config key j : String) (v : Variant V) (m : DConfigManager C)
      → has_key j (set_value dc config key v m).configs ≡ has_key j m.configs
  unfolding set_value
  has_key-set_value config key j v m = elim (Option-cases (find config m.configs)) [
    | inl e ↦ rw (e, set_value) refl
    | inr (c, e) ↦
        rw (e, set_value)
          (ground (arith, find-insert config j (dc.write c key v) m.configs, eq_iff config j))
  ]
