-- ===== src/Settings/Faults.antt =====
-- settings.cpp: no call faults but the one that turns the automatic sync on over unsaved changes.
use Prim.Native.String.{len}
use dde_file_manager_extensi.Prelude.{
  String, Bool, true, false, not, ◌≡◌, ◌↔◌, none, [], ◌∷◌, Hash, arith, ◌&&◌,
}
use dde_file_manager_extensi.Settings.{Variant, Variants, Settings, make_dirty}
use dde_file_manager_extensi.Settings.Json.{to_json, from_json_file}
use dde_file_manager_extensi.Settings.File.{
  Write, cannot_open, written, Session, sync, reload, set_auto_sync, set_watch_changes,
  on_file_changed, notify_new, notify_new_group, notify_new_groups, notify_lost, notify_lost_group,
  notify_lost_groups,
}
use dde_file_manager_extensi.Settings.Requests.{
  Request, sets, removes, removes_group, clears, reloads, syncs, sets_auto_sync, sets_watch_changes,
  file_changes, serve,
}
use dde_file_manager_extensi.Settings.Timer.{
  HasTimer, Returns, returned, Returns_lem, Returns-intro, make_dirty-Returns, set_value-Returns,
  remove-Returns, clear-Returns, remove_group-Returns,
}

module _ {V : Type 0} ⦃q : Variants V⦄ where
  notify_new-HasTimer :
      (old : Hash (Hash (Variant V))) (g k : String) (v : Variant V) (s : Settings V)
      → HasTimer s
      → HasTimer (notify_new old g k v s)
  unfolding notify_new
  notify_new-HasTimer old g k v s h = ground arith

  notify_new_group-HasTimer :
      (old : Hash (Hash (Variant V))) (g : String) (m : Hash (Variant V)) (s : Settings V)
      → HasTimer s
      → HasTimer (notify_new_group old g m s)
  unfolding notify_new_group
  notify_new_group-HasTimer old g [] s h = h
  notify_new_group-HasTimer old g ((k, v) ∷ m) s h =
      notify_new_group-HasTimer old g m _ (notify_new-HasTimer old g k v s h)

  notify_new_groups-HasTimer :
      (old m : Hash (Hash (Variant V))) (s : Settings V)
      → HasTimer s
      → HasTimer (notify_new_groups old m s)
  unfolding notify_new_groups
  notify_new_groups-HasTimer old [] s h = h
  notify_new_groups-HasTimer old ((g, hash) ∷ m) s h =
      notify_new_groups-HasTimer old m _ (notify_new_group-HasTimer old g hash s h)

  notify_lost-HasTimer :
      (old : Hash (Hash (Variant V))) (g k : String) (s : Settings V)
      → HasTimer s
      → HasTimer (notify_lost old g k s)
  unfolding notify_lost
  notify_lost-HasTimer old g k s h = ground arith

  notify_lost_group-HasTimer :
      (old : Hash (Hash (Variant V))) (g : String) (m : Hash (Variant V)) (s : Settings V)
      → HasTimer s
      → HasTimer (notify_lost_group old g m s)
  unfolding notify_lost_group
  notify_lost_group-HasTimer old g [] s h = h
  notify_lost_group-HasTimer old g ((k, v) ∷ m) s h =
      notify_lost_group-HasTimer old g m _ (notify_lost-HasTimer old g k s h)

  notify_lost_groups-HasTimer :
      (old m : Hash (Hash (Variant V))) (s : Settings V)
      → HasTimer s
      → HasTimer (notify_lost_groups old m s)
  unfolding notify_lost_groups
  notify_lost_groups-HasTimer old [] s h = h
  notify_lost_groups-HasTimer old ((g, hash) ∷ m) s h =
      notify_lost_groups-HasTimer old m _ (notify_lost_group-HasTimer old g hash s h)

  abbrev pub Ready : Session V → Type 0
  Ready x = HasTimer x.settings

  sync-Returns :
      (outcome : Write) (x : Session V) → Ready x → Returns (λ r. Ready r.1) (sync outcome x)
  unfolding sync
  sync-Returns outcome x h =
      let (w, e, hw) = Returns_lem (make_dirty-Returns false x.settings h) in
      Returns-intro _ (false, x) (ground arith) (ground arith)

  on_file_changed-Returns :
      (path : String) (x : Session V) → Ready x → Returns Ready (on_file_changed path x)
  unfolding on_file_changed
  on_file_changed-Returns path x h =
      let old = x.writable_data.values in
      let loaded : Settings V = record (x.settings) {
        writable_data =
            from_json_file (x.disk x.setting_file) (record (x.writable_data) { values = [] });
      } in
      let (w, e, hw) = Returns_lem (make_dirty-Returns false loaded h) in
      let kept =
        notify_lost_groups-HasTimer old old (notify_new_groups old w.writable_data.values w)
          (notify_new_groups-HasTimer old w.writable_data.values w hw) in
      Returns-intro _ x (ground arith) (ground arith)

  -- `setAutoSync(true)` from off, over unsaved changes.
  abbrev pub turns_on_dirty : Request V → Session V → Bool
  turns_on_dirty (sets_auto_sync b outcome) x = b && not x.auto_sync && x.dirty
  turns_on_dirty _ x = false

  set_auto_sync-Returns :
      (b : Bool) (outcome : Write) (x : Session V)
      → Ready x
      → (b && not x.auto_sync && x.dirty) ≡ false
      → Returns Ready (set_auto_sync b outcome x)
  unfolding set_auto_sync
  set_auto_sync-Returns b outcome x h calm = Returns-intro _ x (ground arith) (ground arith)

  -- From a state in which the timer exists exactly while the automatic sync is on, every call but the
  -- one that turns the automatic sync on over unsaved changes ends in such a state, with no fault.
  pub serve-Returns :
      (r : Request V) (x : Session V)
      → Ready x
      → turns_on_dirty r x ≡ false
      → Returns Ready (serve r x)
  unfolding serve
  serve-Returns (sets g k v) x h calm =
      let (w, e, hw) = Returns_lem (set_value-Returns g k v x.settings h) in
      Returns-intro _ x (ground arith) (ground arith)
  serve-Returns (removes g k) x h calm =
      let (w, e, hw) = Returns_lem (remove-Returns g k x.settings h) in
      Returns-intro _ x (ground arith) (ground arith)
  serve-Returns (removes_group g) x h calm =
      let (w, e, hw) = Returns_lem (remove_group-Returns g x.settings h) in
      Returns-intro _ x (ground arith) (ground arith)
  serve-Returns clears x h calm =
      let (w, e, hw) = Returns_lem (clear-Returns x.settings h) in
      Returns-intro _ x (ground arith) (ground arith)
  serve-Returns reloads x h calm = unfold reload in returned _ h
  serve-Returns (syncs outcome) x h calm =
      let (w, e, hw) = Returns_lem (sync-Returns outcome x h) in
      Returns-intro _ x (ground arith) (ground arith)
  serve-Returns (sets_auto_sync b outcome) x h calm = set_auto_sync-Returns b outcome x h calm
  serve-Returns (sets_watch_changes b created) x h calm =
      returned (set_watch_changes b created x) (unfold set_watch_changes in ground arith)
  serve-Returns (file_changes path) x h calm = on_file_changed-Returns path x h

  -- The call that turns the automatic sync on over unsaved changes faults exactly if the whole file is
  -- written: `sync` then stops a timer that does not exist yet.
  pub set_auto_sync_faults :
      (outcome : Write) (x : Session V)
      → Ready x
      → x.auto_sync ≡ false
      → x.dirty ≡ true
      → (set_auto_sync true outcome x ≡ none) ↔ (outcome ≡ written (len (to_json x.writable_data)))
  unfolding set_auto_sync sync make_dirty
  set_auto_sync_faults cannot_open x h off unsaved = (λ e. ground arith, λ e. ground arith)
  set_auto_sync_faults (written n) x h off unsaved = (λ e. ground arith, λ e. ground arith)
