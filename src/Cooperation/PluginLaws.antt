-- ===== src/Cooperation/PluginLaws.antt =====
-- cooperationplugin.cpp and plugin_diskencryptentry.cpp: each plugin binds its menu scene once, in
-- whatever order the plugins start and the scenes are added.
use dde_file_manager_extensi.Prelude.{
  String, Bool, true, false, not, ◌||◌, ◌==◌, ◌≡◌, refl, List, [], ◌∷◌, ◌++◌, map, if◌then◌else◌,
  ap, sym, ◌∙◌, is_nil, arith,
}
use dde_file_manager_extensi.Menus.{Menus, no_menus, deliver, deliver_all}
use dde_file_manager_extensi.Menus.Binding.{is_among, settled, deliver_all-settled}
use dde_file_manager_extensi.Entry.Startup.{
  start_menus, on_computer_menu_scene_added, no_plugin, start, bind_daemon_signals, hook_events,
}
use dde_file_manager_extensi.Cooperation.Plugin.{
  Plugin, Signal, plugins_started, scene_added, bind_menu_scene, on_menu_scene_added, initialize,
  receive, receive_all,
}

bind_menu_scene-settled :
    (ret : Bool) → bind_menu_scene ret no_menus ≡ settled "CooperationMenu" "ExtendMenu" ret
unfolding bind_menu_scene settled
bind_menu_scene-settled true = refl
bind_menu_scene-settled false = refl

bound_late :
    (ret : Bool) (scenes : List String)
    → deliver_all on_menu_scene_added scenes (bind_menu_scene ret no_menus)
      ≡ settled "CooperationMenu" "ExtendMenu" (ret || is_among "ExtendMenu" scenes)
unfolding on_menu_scene_added
bound_late ret scenes =
    ap (deliver_all on_menu_scene_added scenes) (bind_menu_scene-settled ret)
    ∙ deliver_all-settled "CooperationMenu" "ExtendMenu" on_menu_scene_added (λ scene m. refl) ret
        scenes

receive_added :
    (scenes : List String) (rest : List Signal) (p : Plugin)
    → receive_all (map scene_added scenes ++ rest) p
      ≡ receive_all rest (record p { menus = deliver_all on_menu_scene_added scenes p.menus })
unfolding receive_all receive deliver_all
receive_added [] rest p = refl
receive_added (scene ∷ more) rest p = receive_added more rest (receive (scene_added scene) p)

receive_last :
    (scenes : List String) (p : Plugin)
    → receive_all (map scene_added scenes) p
      ≡ record p { menus = deliver_all on_menu_scene_added scenes p.menus }
unfolding receive_all receive deliver_all
receive_last [] p = refl
receive_last (scene ∷ more) p = receive_last more (receive (scene_added scene) p)

deliver_all-append :
    (before after : List String) (m : Menus)
    → deliver_all on_menu_scene_added (before ++ after) m
      ≡ deliver_all on_menu_scene_added after (deliver_all on_menu_scene_added before m)
unfolding deliver_all
deliver_all-append [] after m = refl
deliver_all-append (scene ∷ more) after m =
    deliver_all-append more after (deliver on_menu_scene_added scene m)

-- Before the plugins are started nothing is delivered.
early : (scenes : List String) → deliver_all on_menu_scene_added scenes no_menus ≡ no_menus
unfolding deliver_all deliver
early [] = refl
early (scene ∷ more) = early more

-- The menu scene is bound below its parent once and only once if the parent is there when the plugin
-- gets to bind it or is added later, and else the plugin is still subscribed; where not all plugins
-- were started with it, it gets to bind when they are, and scenes added before that do not count.
pub receive_all-bound :
    (started there ret : Bool) (before after : List String)
    → (receive_all
        (map scene_added before ++ plugins_started ret ∷ map scene_added after)
        (initialize started there)).menus
      ≡ settled "CooperationMenu" "ExtendMenu" (
          if started
          then there || is_among "ExtendMenu" (before ++ after)
          else ret || is_among "ExtendMenu" after)
unfolding initialize receive receive_all
receive_all-bound true there ret before after =
    ap (λ p. p.menus)
      (receive_added before (plugins_started ret ∷ map scene_added after) (initialize true there)
        ∙ receive_last after _)
    ∙ sym (deliver_all-append before after (bind_menu_scene there no_menus))
    ∙ bound_late there (before ++ after)
receive_all-bound false there ret before after =
    ap (λ p. p.menus)
      (receive_added before (plugins_started ret ∷ map scene_added after) (initialize false there)
        ∙ receive_last after _)
    ∙ ap (λ m. deliver_all on_menu_scene_added after (bind_menu_scene ret m)) (early before)
    ∙ bound_late ret after

start_menus-settled :
    (registed : Bool)
    → start_menus registed no_menus ≡ settled "DiskEncryptMenu" "ComputerMenu" registed
unfolding start_menus settled
start_menus-settled true = refl
start_menus-settled false = refl

-- The encryption's menu scene is bound below the menu of the computer once and only once if that is
-- there when the plugin starts or is added later, whatever the application is; the daemon's signals are
-- connected in the file manager only.
pub start-bound :
    (application_name : String) (registed : Bool) (scenes : List String)
    → let p = (start application_name registed no_plugin).1 in
      (deliver_all on_computer_menu_scene_added scenes p.menus
        ≡ settled "DiskEncryptMenu" "ComputerMenu" (registed || is_among "ComputerMenu" scenes))
      × (is_nil p.daemon_signals ≡ not (application_name == "dde-file-manager"))
unfolding start bind_daemon_signals hook_events on_computer_menu_scene_added
start-bound application_name registed scenes = (
  ap (deliver_all on_computer_menu_scene_added scenes) (ground arith ∙ start_menus-settled registed)
      ∙ deliver_all-settled "DiskEncryptMenu" "ComputerMenu" on_computer_menu_scene_added
          (λ scene m. refl) registed scenes,
  ground arith,
)
