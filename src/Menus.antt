-- ===== src/Menus.antt =====
-- The slots and the signal of the plugin dfmplugin_menu, as far as the plugins of this repository use
-- them: cooperationplugin.cpp and plugin_diskencryptentry.cpp bind their scene below another scene,
-- which may be added later.
pub mod Binding
use dde_file_manager_extensi.Prelude.{String, Bool, true, false, List, [], ◌∷◌, if◌then◌else◌, ◌==◌}

-- What was registered, what was bound below what, and whether the plugin hears of added scenes.
pub record Menus : Type 0 where
  pub registered : List String
  pub bound : List (String × String)
  pub subscribed : Bool

abbrev pub no_menus : Menus
no_menus = record { registered = []; bound = []; subscribed = false }

abbrev pub register_scene : String → Menus → Menus
register_scene name m = record m { registered = name ∷ m.registered }

abbrev pub bind_scene : String → String → Menus → Menus
bind_scene name parent m = record m { bound = (name, parent) ∷ m.bound }

-- The signal of an added scene reaches the slot only while it is subscribed.
unfoldable pub deliver : (String → Menus → Menus) → String → Menus → Menus
deliver slot scene m = if m.subscribed then slot scene m else m

unfoldable pub deliver_all : (String → Menus → Menus) → List String → Menus → Menus
deliver_all slot [] m = m
deliver_all slot (scene ∷ more) m = deliver_all slot more (deliver slot scene m)
