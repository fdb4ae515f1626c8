-- ===== src/Cooperation/Config.antt =====
-- configs/dconfig/dconfigmanager.cpp: `DConfigManager`. The class `DConfig` of the toolkit is a
-- parameter. The locks are left out: every operation holds its lock to its end.
use dde_file_manager_extensi.Prelude.{
  ℕ, ◌+◌, String, Bool, true, false, ◌&&◌, not, Option, none, some, List, [], ◌∷◌, ◌++◌, length,
  Hash, find, insert, erase, has_key, is_empty, if◌then◌else◌,
}
use dde_file_manager_extensi.Settings.{Variant}
use dde_file_manager_extensi.Settings.Keys.{has}

-- What the manager uses of `DConfig`. A written configuration is the same object with a new content.
pub record DConfig (C V : Type 0) : Type 0 where
  pub create : String → String → String → Option C
  pub is_valid : C → Bool
  pub key_list : C → List String
  pub read : C → String → Variant V → Variant V
  pub write : C → String → Variant V → C

abbrev pub default_cfg_path : String
default_cfg_path = "org.deepin.dde.cooperation"

abbrev pub cfg_app_id : String
cfg_app_id = "org.deepin.dde.cooperation"

-- The counts say how many objects were created, and how many deleted.
pub record DConfigManager (C : Type 0) : Type 0 where
  pub configs : Hash C
  pub created : ℕ
  pub deleted : ℕ

-- A result, with the text of `err` where it is set.
abbrev pub Reply : Type 0
Reply = Bool × Option String

-- The calls that change the manager.
pub data Change (V : Type 0) : Type 0 where
  adds removes : String → Change V
  sets : String → String → Variant V → Change V

module _ {C V : Type 0} (dc : DConfig C V) where
  -- The second half of `addConfig`, after the creation.
  unfoldable pub keep_valid : String → C → DConfigManager C → Reply × DConfigManager C
  keep_valid config cfg m =
      if not (dc.is_valid cfg)
      then ((false, some "config is not valid"), record m { deleted = m.deleted + 1 })
      else ((true, none), record m { configs = insert config cfg m.configs })

  unfoldable pub add_config : String → DConfigManager C → Reply × DConfigManager C
  unfolding keep_valid
  add_config config m =
      if has_key config m.configs
      then ((false, some "config is already added"), m)
      else (elim (dc.create cfg_app_id config "") [
        | none ↦ ((false, some "cannot create config"), m)
        | some cfg ↦ keep_valid config cfg (record m { created = m.created + 1 })
      ])

  -- The constructor, which leaves the answer of `addConfig` alone.
  unfoldable pub new_manager : DConfigManager C
  new_manager = (add_config default_cfg_path (record { configs = []; created = 0; deleted = 0 })).1

  unfoldable pub remove_config : String → DConfigManager C → Bool × DConfigManager C
  remove_config config m =
      if has_key config m.configs
      then (true, record m { configs = erase config m.configs; deleted = m.deleted + 1 })
      else (true, m)

  -- The destructor.
  unfoldable pub destroy : DConfigManager C → DConfigManager C
  destroy m = record m { configs = []; deleted = m.deleted + length m.configs }

  unfoldable pub keys : DConfigManager C → String → List String
  keys m config = elim (find config m.configs) [ none ↦ [] | some cfg ↦ dc.key_list cfg ]

  unfoldable pub contains : DConfigManager C → String → String → Bool
  contains m config key = if is_empty key then false else has key (keys m config)

  unfoldable pub value : DConfigManager C → String → String → Variant V → Variant V
  value m config key fallback = elim (find config m.configs) [
    | none ↦ fallback
    | some cfg ↦ dc.read cfg key fallback
  ]

  unfoldable pub set_value : String → String → Variant V → DConfigManager C → DConfigManager C
  set_value config key v m = elim (find config m.configs) [
    | none ↦ m
    | some cfg ↦ record m { configs = insert config (dc.write cfg key v) m.configs }
  ]

  -- The loop of `validateConfigs`, with `ret` and the configurations that are not valid.
  unfoldable pub validate_from : Hash C → Bool → List String → Bool × List String
  validate_from [] ret invalid = (ret, invalid)
  validate_from ((config, cfg) ∷ rest) ret invalid =
      validate_from rest (ret && dc.is_valid cfg)
        (if dc.is_valid cfg then invalid else invalid ++ config ∷ [])

  unfoldable pub validate_configs : DConfigManager C → List String → Bool × List String
  unfolding validate_from
  validate_configs m invalid = validate_from m.configs true invalid

  unfoldable pub change : Change V → DConfigManager C → DConfigManager C
  change (adds config) m = (add_config config m).1
  change (removes config) m = (remove_config config m).1
  change (sets config key v) m = set_value config key v m

  unfoldable pub change_all : List (Change V) → DConfigManager C → DConfigManager C
  change_all [] m = m
  change_all (c ∷ cs) m = change_all cs (change c m)
