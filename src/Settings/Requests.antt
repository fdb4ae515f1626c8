-- ===== src/Settings/Requests.antt =====
-- settings.cpp: the calls that an owner of the settings, the sync timer and the file watcher make.
use dde_file_manager_extensi.Prelude.{String, Bool, Option, some}
use dde_file_manager_extensi.Settings.{Variant, Variants, Settings}
use dde_file_manager_extensi.Settings.Edit.{◌>>=◌, set_value, remove, remove_group, clear}
use dde_file_manager_extensi.Settings.File.{
  Write, Session, sync, reload, set_auto_sync, set_watch_changes, on_file_changed,
}

pub data Request (V : Type 0) : Type 0 where
  sets : String → String → Variant V → Request V
  removes : String → String → Request V
  removes_group : String → Request V
  clears : Request V
  reloads : Request V
  -- a call of `sync`, or the timer's timeout
  syncs : Write → Request V
  sets_auto_sync : Bool → Write → Request V
  sets_watch_changes : Bool → Bool → Request V
  file_changes : String → Request V

module _ {V : Type 0} ⦃q : Variants V⦄ where
  abbrev pub on_settings : (Settings V → Option (Settings V)) → Session V → Option (Session V)
  on_settings f x = do s ← f x.settings; some (record x { settings = s })

  unfoldable pub serve : Request V → Session V → Option (Session V)
  serve (sets group key v) x = on_settings (set_value group key v) x
  serve (removes group key) x = on_settings (remove group key) x
  serve (removes_group group) x = on_settings (remove_group group) x
  serve clears x = on_settings clear x
  serve reloads x = some (reload x)
  serve (syncs outcome) x = do r ← sync outcome x; some r.1
  serve (sets_auto_sync b outcome) x = set_auto_sync b outcome x
  serve (sets_watch_changes b created) x = some (set_watch_changes b created x)
  serve (file_changes path) x = on_file_changed path x
