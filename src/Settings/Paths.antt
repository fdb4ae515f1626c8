-- ===== src/Settings/Paths.antt =====
-- settings.cpp: the constructor that finds the three files by a name and a type.
use dde_file_manager_extensi.Prelude.{
  String, ◌<>◌, Bool, true, false, List, [], ◌∷◌, if◌then◌else◌, is_empty,
}
use dde_file_manager_extensi.Settings.{Variants, OnDisk, Settings}
use dde_file_manager_extensi.Settings.Json.{new_settings}

pub data ConfigType : Type 0 where
  app_config generic_config : ConfigType

-- The names of the application.
pub record App : Type 0 where
  pub organization_name : String
  pub application_name : String

-- `QStandardPaths` for each type, and the absolute path of a file in the home directory.
pub record Locations : Type 0 where
  pub writable_location : ConfigType → String
  pub standard_locations : ConfigType → List String
  pub in_home : String → String

-- `list.last()`, with what stands for an empty list.
unfoldable pub last_or : String → List String → String
last_or d [] = d
last_or d (x ∷ xs) = last_or x xs

module _ (places : Locations) (app : App) where
  abbrev own_dir : String
  own_dir = app.organization_name <> ("/" <> app.application_name)

  unfoldable pub get_config_file_path : ConfigType → String → Bool → String
  get_config_file_path type name writable =
      let path = places.writable_location type in
      let dir =
        if writable
        then (if is_empty path then places.in_home (".config/" <> own_dir) else path)
        else last_or ("/etc/xdg/" <> own_dir) (places.standard_locations type) in
      dir <> ("/" <> (name <> ".json"))

  -- The constructor `Settings(name, type)`.
  unfoldable pub new_settings_of :
      {V : Type 0} ⦃q : Variants V⦄ → (String → OnDisk) → String → ConfigType → Settings V
  new_settings_of disk name type =
      new_settings disk (":/config/" <> (name <> ".json")) (get_config_file_path type name false)
        (get_config_file_path type name true)
