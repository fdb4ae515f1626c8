-- ===== src/Settings.antt =====
-- dfmplugin-cooperation/configs/settings/settings.cpp: the state of `Settings` and its private data,
-- and the queries that read the three layers (writable, fallback, default).
-- A faulting step, such as the use of a null timer, is `none`.
pub mod Json
pub mod Edit
pub mod File
pub mod Keys
pub mod Layers
pub mod Removal
pub mod Requests
pub mod Paths
pub mod Timer
pub mod Faults
pub mod Tidy
pub mod RoundTrip
pub mod KeyOrder
pub mod Tests
use dde_file_manager_extensi.Prelude.{
  ℕ, String, Bool, true, false, ◌≡◌, Option, none, some, List, [], ◌∷◌, Hash, find, has_key,
  value_or, is_empty, if◌then◌else◌, is_some, bool_eq,
}

-- A `QVariant`: `none` is the invalid one.
abbrev pub Variant : Type 0 → Type 0
Variant V = Option V

-- The outcome of parsing a settings document: an entry of the root object is `none` where its value
-- is no object.
pub data Document (V : Type 0) : Type 0 where
  parse_error not_object : Document V
  object : Hash (Option (Hash (Variant V))) → Document V

-- What the settings use of Qt: comparison and conversions of variants, and JSON.
pub record Variants (V : Type 0) : Type 0 where
  pub beq : V → V → Bool
  pub beq_refl : (v : V) → beq v v ≡ true
  pub to_map : V → Hash (Variant V)
  pub to_string_list : V → List String
  pub from_json : String → Document V
  pub to_json : Hash (Hash (Variant V)) → String

-- `QVariant::operator==`
abbrev pub variant_eq : {V : Type 0} ⦃q : Variants V⦄ → Variant V → Variant V → Bool
variant_eq none none = true
variant_eq none (some b) = false
variant_eq (some a) none = false
variant_eq ⦃q⦄ (some a) (some b) = q.beq a b

-- A file of the disk, as `fromJsonFile` meets it.
pub data OnDisk : Type 0 where
  absent unreadable : OnDisk
  contents : String → OnDisk

pub data Signal (V : Type 0) : Type 0 where
  value_changed value_edited : String → String → Variant V → Signal V

pub record Data (V : Type 0) : Type 0 where
  pub values : Hash (Hash (Variant V))
  pub private_values : Hash (Hash (Variant V))

-- `sync_timer` is null, or tells whether the timer runs. The emitted signals stand newest first.
pub record Settings (V : Type 0) : Type 0 where
  pub auto_sync : Bool
  pub watch_changes : Bool
  pub dirty : Bool
  pub sync_timer : Option Bool
  pub fallback_file : String
  pub setting_file : String
  pub watcher : Bool
  pub default_data : Data V
  pub fallback_data : Data V
  pub writable_data : Data V
  pub signals : List (Signal V)

module _ {V : Type 0} where
  abbrev pub empty_data : Data V
  empty_data = record { values = []; private_values = [] }

  -- `values.value(group)`: the empty hash where the group is missing.
  abbrev pub group_of : String → Hash (Hash (Variant V)) → Hash (Variant V)
  group_of group m = value_or group m []

  -- `Data::value` with the default that every caller leaves to be the invalid variant.
  unfoldable pub data_value : Data V → String → String → Variant V
  data_value d group key = value_or key (group_of group d.values) none

  unfoldable pub value : Settings V → String → String → Variant V → Variant V
  unfolding data_value
  value s group key default_value = elim (data_value s.writable_data group key) [
    | some v ↦ some v
    | none ↦ elim (data_value s.fallback_data group key) [
      | some v ↦ some v
      | none ↦ value_or key (group_of group s.default_data.values) default_value
    ]
  ]

  unfoldable pub contains : Settings V → String → String → Bool
  contains s group key =
      if is_empty key
      then (if has_key group s.writable_data.values
          then true
          else if has_key group s.fallback_data.values
          then true
          else has_key group s.default_data.values)
      else if has_key key (group_of group s.writable_data.values)
      then true
      else if has_key key (group_of group s.fallback_data.values)
      then true
      else has_key key (group_of group s.default_data.values)

  unfoldable pub is_removable : Settings V → String → String → Bool
  is_removable s group key = has_key key (group_of group s.writable_data.values)

  -- `makeSettingFileToDirty`: the timer is used only where `autoSync` is on. A call from another
  -- thread queues the same start or stop.
  unfoldable pub make_dirty : Bool → Settings V → Option (Settings V)
  make_dirty dirty s =
      if bool_eq s.dirty dirty
      then some s
      else if s.auto_sync
      then (elim s.sync_timer [
        | none ↦ none
        | some _ ↦ some (record s { dirty = dirty; sync_timer = some dirty })
      ])
      else some (record s { dirty = dirty })

  abbrev pub emit : Signal V → Settings V → Settings V
  emit e s = record s { signals = e ∷ s.signals }
