-- ===== src/Cooperation/Plugin.antt =====
-- cooperationplugin.cpp and utils/cooperationhelper.cpp: the start of the plugin, its place in the
-- settings of the file manager, and the binding of its menu scene.
use dde_file_manager_extensi.Prelude.{
  String, ◌<>◌, Bool, true, false, ◌==◌, Option, none, some, List, [], ◌∷◌, if◌then◌else◌,
}
use dde_file_manager_extensi.Menus.{Menus, no_menus, register_scene, bind_scene, deliver}
use dde_file_manager_extensi.Settings.{Variants, OnDisk}
use dde_file_manager_extensi.Settings.Edit.{◌>>=◌}
use dde_file_manager_extensi.Settings.File.{Write, Session}
use dde_file_manager_extensi.Settings.Paths.{App, Locations}
use dde_file_manager_extensi.Cooperation.AppConfig.{init}

abbrev pub scene_name : String
scene_name = "CooperationMenu"

abbrev pub parent_scene : String
parent_scene = "ExtendMenu"

abbrev pub setting_group : String
setting_group = "10_advance.03_cooperation"

abbrev pub setting_transfer : String
setting_transfer = "00_file_transfer"

-- `ret` is the answer of slot_MenuScene_Contains.
unfoldable pub bind_menu_scene : Bool → Menus → Menus
bind_menu_scene ret m =
    let m' = register_scene scene_name m in
    if ret then bind_scene scene_name parent_scene m' else record m' { subscribed = true }

unfoldable pub on_menu_scene_added : String → Menus → Menus
on_menu_scene_added scene m =
    if scene == parent_scene
    then record (bind_scene scene_name parent_scene m) { subscribed = false }
    else m

-- The plugin: its menus, and whether it waits for the start of all plugins.
pub record Plugin : Type 0 where
  pub menus : Menus
  pub waits : Bool

-- `initialize`, with whether all plugins are started.
unfoldable pub initialize : Bool → Bool → Plugin
initialize started ret =
    if started
    then record { menus = bind_menu_scene ret no_menus; waits = false }
    else record { menus = no_menus; waits = true }

-- The signals that reach the plugin.
pub data Signal : Type 0 where
  plugins_started : Bool → Signal
  scene_added : String → Signal

unfoldable pub receive : Signal → Plugin → Plugin
receive (plugins_started ret) p =
    if p.waits then record p { menus = bind_menu_scene ret p.menus } else p
receive (scene_added scene) p = record p { menus = deliver on_menu_scene_added scene p.menus }

unfoldable pub receive_all : List Signal → Plugin → Plugin
receive_all [] p = p
receive_all (s ∷ ss) p = receive_all ss (receive s p)

-- An item of the settings of the file manager.
pub record SettingItem : Type 0 where
  pub item_path : String
  pub key : String
  pub name : String
  pub type : String
  pub default : String

-- The settings dialog of the file manager: groups with their titles, the types of items that have a
-- maker, and the items.
pub record SettingItems : Type 0 where
  pub groups : List (String × String)
  pub types : List String
  pub items : List SettingItem

unfoldable pub add_cooperation_setting_item : SettingItems → SettingItems
add_cooperation_setting_item s = record {
  groups = (setting_group, "File transfer") ∷ s.groups;
  types = "pushbutton" ∷ s.types;
  items =
      record {
        item_path = setting_group <> ("." <> setting_transfer);
        key = setting_transfer;
        name = "File transfer settings";
        type = "pushbutton";
        default = "Settings";
      }
      ∷ s.items;
}

-- The application, the settings of the cooperation once they are made, and the items.
pub record Started (V : Type 0) : Type 0 where
  pub app : App
  pub config : Option (Session V)
  pub items : SettingItems

module _ {V : Type 0} ⦃q : Variants V⦄ where
  -- `ConfigManager::instance`, which makes the settings at its first call; none where that faults.
  unfoldable pub instance_of :
      Locations → App → (String → OnDisk) → Write → Bool → Option (Session V) → Option (Session V)
  instance_of places app disk outcome created (some x) = some x
  instance_of places app disk outcome created none = init places app disk outcome created

  -- `start`
  unfoldable pub start :
      Locations → (String → OnDisk) → Write → Bool → Started V → Option (Bool × Started V)
  start places disk outcome created p = do
    let app_name = p.app.application_name
    x ←
        instance_of places (record (p.app) { application_name = "dde-cooperation" }) disk outcome
          created p.config
    some (
      true,
      record {
        app = record (p.app) { application_name = app_name };
        config = some x;
        items =
            if app_name == "dde-file-manager"
            then add_cooperation_setting_item p.items
            else p.items;
      },
    )

-- `showSettingDialog`: the parent is the first window of that name.
unfoldable pub dialog_parent {ℓ} : {W : Type ℓ} → (W → String) → List W → Option W
dialog_parent object_name [] = none
dialog_parent object_name (w ∷ more) =
    let rest = dialog_parent object_name more in
    if object_name w == "DSettingsDialog" then some w else rest
