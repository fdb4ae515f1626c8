-- ===== src/Entry/Startup.antt =====
-- plugin_diskencryptentry.cpp: the start of the plugin. The translator is left out.
use dde_file_manager_extensi.Prelude.{
  String, Bool, true, false, not, ◌==◌, List, [], ◌∷◌, if◌then◌else◌,
}
use dde_file_manager_extensi.Menus.{Menus, no_menus, register_scene, bind_scene}

-- The menus, the signals of the daemon that are connected, and the hooks that are followed.
pub record Plugin : Type 0 where
  pub menus : Menus
  pub daemon_signals : List String
  pub hooks : List String

abbrev pub no_plugin : Plugin
no_plugin = record { menus = no_menus; daemon_signals = []; hooks = [] }

abbrev pub scene_name : String
scene_name = "DiskEncryptMenu"

abbrev pub computer_menu : String
computer_menu = "ComputerMenu"

-- `EventsHandler::bindDaemonSignals`: only the file manager itself hears the daemon, not a file dialog.
unfoldable pub bind_daemon_signals : String → Plugin → Plugin
bind_daemon_signals application_name p =
    if not (application_name == "dde-file-manager") then p else record p {
      daemon_signals =
          "PrepareEncryptDiskResult" ∷ "EncryptDiskResult" ∷ "EncryptProgress" ∷ "DecryptDiskResult"
          ∷ "DecryptProgress" ∷ "ChangePassphressResult" ∷ "RequestEncryptParams"
          ∷ p.daemon_signals;
    }

unfoldable pub hook_events : Plugin → Plugin
hook_events p = record p { hooks = "hook_Device_AcquireDevPwd" ∷ p.hooks }

-- `registed` is the answer of `hasComputerMenuRegisted`.
unfoldable pub start_menus : Bool → Menus → Menus
start_menus registed m =
    let m' = register_scene scene_name m in
    if registed then bind_scene scene_name computer_menu m' else record m' { subscribed = true }

unfoldable pub start : String → Bool → Plugin → Bool × Plugin
start application_name registed p =
    let p' = record p { menus = start_menus registed p.menus } in
    (true, hook_events (bind_daemon_signals application_name p'))

unfoldable pub on_computer_menu_scene_added : String → Menus → Menus
on_computer_menu_scene_added scene m =
    if scene == "ComputerMenu"
    then record (bind_scene scene_name computer_menu m) { subscribed = false }
    else m
