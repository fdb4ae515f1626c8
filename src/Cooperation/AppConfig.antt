-- ===== src/Cooperation/AppConfig.antt =====
-- configs/settings/configmanager.cpp: `ConfigManager`, the settings of the cooperation program.
use dde_file_manager_extensi.Prelude.{String, ◌<>◌, Bool, true, Option, none, some, List, [], ◌∷◌}
use dde_file_manager_extensi.Settings.{Variant, Variants, OnDisk, value}
use dde_file_manager_extensi.Settings.Edit.{◌>>=◌, set_value}
use dde_file_manager_extensi.Settings.File.{
  Write, Session, sync, set_auto_sync, set_watch_changes, on_file_changed,
}
use dde_file_manager_extensi.Settings.Paths.{App, Locations, generic_config, new_settings_of}

-- What happens to the manager: its own calls, the timer's timeout, and the change of a file.
pub data Use (V : Type 0) : Type 0 where
  sets : String → String → Variant V → Use V
  syncs times_out : Write → Use V
  changes : String → Use V

module _ {V : Type 0} ⦃q : Variants V⦄ where
  -- `init`: the result of a write, and whether a missing file could be made, are given.
  unfoldable pub init : Locations → App → (String → OnDisk) → Write → Bool → Option (Session V)
  init places app disk outcome created = do
    let name =
        app.organization_name <> ("/" <> (app.application_name <> ("/" <> app.application_name)))
    x ←
        set_auto_sync true outcome
          (record { settings = new_settings_of places app disk name generic_config; disk = disk })
    some (set_watch_changes true created x)

  unfoldable pub app_attribute : Session V → String → String → Variant V
  app_attribute x group key = value x.settings group key none

  unfoldable pub set_app_attribute : String → String → Variant V → Session V → Option (Session V)
  set_app_attribute group key v x = do
    s ← set_value group key v x.settings
    some (record x { settings = s })

  unfoldable pub sync_app_attribute : Write → Session V → Option (Bool × Session V)
  sync_app_attribute outcome x = sync outcome x

  unfoldable pub act : Use V → Session V → Option (Session V)
  act (sets group key v) x = set_app_attribute group key v x
  act (syncs outcome) x = do r ← sync_app_attribute outcome x; some r.1
  act (times_out outcome) x = do r ← sync outcome x; some r.1
  act (changes path) x = on_file_changed path x

  unfoldable pub act_all : List (Use V) → Session V → Option (Session V)
  act_all [] x = some x
  act_all (u ∷ us) x = do y ← act u x; act_all us y
