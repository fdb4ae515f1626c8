-- ===== src/Settings/Json.antt =====
-- settings.cpp: `fromJsonFile`, `fromJson`, `toJson`, and the constructor.
use dde_file_manager_extensi.Prelude.{
  String, Bool, false, Option, none, some, [], ◌∷◌, Hash, insert, ◌&&◌, starts_with, ends_with,
  is_empty, if◌then◌else◌,
}
use dde_file_manager_extensi.Settings.{
  Variant, Variants, Document, parse_error, not_object, object, OnDisk, absent, unreadable,
  contents, Data, Settings, empty_data,
}

-- The groups of the private values.
unfoldable pub is_private : String → Bool
is_private group = starts_with group "__" && ends_with group "__"

module _ {V : Type 0} where
  -- The inner loop of `fromJson`.
  unfoldable pub load_hash : Hash (Variant V) → Hash (Variant V) → Hash (Variant V)
  load_hash hash [] = hash
  load_hash hash ((k, v) ∷ rest) = load_hash (insert k v hash) rest

  unfoldable pub store_group : String → Hash (Variant V) → Data V → Data V
  store_group group hash d =
      if is_private group
      then record d { private_values = insert group hash d.private_values }
      else record d { values = insert group hash d.values }

  -- The outer loop of `fromJson`.
  unfoldable pub load_groups : Hash (Option (Hash (Variant V))) → Data V → Data V
  load_groups [] d = d
  load_groups ((group, none) ∷ rest) d = load_groups rest d
  load_groups ((group, some entries) ∷ rest) d =
      load_groups rest (store_group group (load_hash [] entries) d)

  unfoldable pub load_document : Document V → Data V → Data V
  load_document parse_error d = d
  load_document not_object d = d
  load_document (object groups) d = load_groups groups d

  -- `toJson`: only the values are written, not the private ones.
  unfoldable pub to_json : ⦃q : Variants V⦄ → Data V → String
  to_json ⦃q⦄ d = q.to_json d.values

  -- `fromJsonFile`
  unfoldable pub from_json_file : ⦃q : Variants V⦄ → OnDisk → Data V → Data V
  from_json_file absent d = d
  from_json_file unreadable d = d
  from_json_file ⦃q⦄ (contents json) d =
      if is_empty json then d else load_document (q.from_json json) d

  -- The constructor `Settings(defaultFile, fallbackFile, settingFile)`.
  unfoldable pub new_settings :
      ⦃q : Variants V⦄ → (String → OnDisk) → String → String → String → Settings V
  new_settings disk default_file fallback_file setting_file = record {
    auto_sync = false;
    watch_changes = false;
    dirty = false;
    sync_timer = none;
    fallback_file = fallback_file;
    setting_file = setting_file;
    watcher = false;
    default_data = from_json_file (disk default_file) empty_data;
    fallback_data = from_json_file (disk fallback_file) empty_data;
    writable_data = from_json_file (disk setting_file) empty_data;
    signals = [];
  }
