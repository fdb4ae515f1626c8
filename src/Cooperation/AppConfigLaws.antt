-- ===== src/Cooperation/AppConfigLaws.antt =====
-- configs/settings/configmanager.cpp: the settings of the cooperation program never fault.
use dde_file_manager_extensi.Prelude.{String, Bool, false, ◌≡◌, refl, List, [], ◌∷◌, arith}
use dde_file_manager_extensi.Settings.{Variants, OnDisk}
use dde_file_manager_extensi.Settings.Edit.{◌>>=◌}
use dde_file_manager_extensi.Settings.File.{Write, Session, set_auto_sync, set_watch_changes}
use dde_file_manager_extensi.Settings.Json.{new_settings}
use dde_file_manager_extensi.Settings.Requests.{Request, serve}
use dde_file_manager_extensi.Settings.Requests
use dde_file_manager_extensi.Settings.Timer.{Returns, returned, Returns_lem}
use dde_file_manager_extensi.Settings.Faults.{Ready, serve-Returns, turns_on_dirty}
use dde_file_manager_extensi.Settings.Paths.{App, Locations, new_settings_of}
use dde_file_manager_extensi.Cooperation.AppConfig.{
  Use, sets, syncs, times_out, changes, init, act, act_all, set_app_attribute, sync_app_attribute,
}

module _ {V : Type 0} ⦃q : Variants V⦄ where
  -- The call of the settings behind each use.
  request : Use V → Request V
  request (sets group key v) = Requests.sets group key v
  request (syncs outcome) = Requests.syncs outcome
  request (times_out outcome) = Requests.syncs outcome
  request (changes path) = Requests.file_changes path

  act-serve : (u : Use V) (x : Session V) → act u x ≡ serve (request u) x
  unfolding act serve request set_app_attribute sync_app_attribute
  act-serve (sets group key v) x = refl
  act-serve (syncs outcome) x = refl
  act-serve (times_out outcome) x = refl
  act-serve (changes path) x = refl

  act-Returns : (u : Use V) (x : Session V) → Ready x → Returns Ready (act u x)
  unfolding request
  act-Returns u x h = rw (act-serve u x) (serve-Returns (request u) x h (calm u))
    where
      calm : (u : Use V) → turns_on_dirty (request u) x ≡ false
      calm (sets group key v) = refl
      calm (syncs outcome) = refl
      calm (times_out outcome) = refl
      calm (changes path) = refl

  act_all-Returns : (us : List (Use V)) (x : Session V) → Ready x → Returns Ready (act_all us x)
  unfolding act_all
  act_all-Returns [] x h = returned x h
  act_all-Returns (u ∷ us) x h =
      let (y, e, hy) = Returns_lem (act-Returns u x h) in rw e (act_all-Returns us y hy)

  init-Returns :
      (places : Locations) (app : App) (disk : String → OnDisk) (outcome : Write) (created : Bool)
      → Returns (Ready {V = V}) (init places app disk outcome created)
  unfolding init set_auto_sync new_settings_of new_settings set_watch_changes
  init-Returns places app disk outcome created = returned _ (ground arith)

  -- From its making on, whatever is on the disk and whatever writing answers, no sequence of calls of
  -- the manager, timeouts of its timer and changes of its file makes the settings fault: they stay in
  -- the state in which the timer exists exactly while the automatic sync is on.
  pub used-Returns :
      (places : Locations) (app : App) (disk : String → OnDisk) (outcome : Write) (created : Bool)
      (us : List (Use V))
      → Returns (Ready {V = V}) (init places app disk outcome created >>= act_all us)
  used-Returns places app disk outcome created us =
      let (x, e, h) = Returns_lem (init-Returns places app disk outcome created) in
      rw e (act_all-Returns us x h)
