-- ===== src/Settings/File.antt =====
-- settings.cpp: the operations that meet the disk, the sync timer and the file watcher.
use Prim.Native.String.{len, slice}
use dde_file_manager_extensi.Prelude.{
  ℕ, String, Bool, true, false, not, ◌==◌, Option, none, some, [], ◌∷◌, Hash, has_key, value_or,
  ◌&&◌, num_eq, bool_eq, if◌then◌else◌,
}
use dde_file_manager_extensi.Settings.{
  Variant, Variants, variant_eq, OnDisk, absent, contents, value_changed, value_edited, Settings,
  group_of, value, make_dirty, emit, empty_data,
}
use dde_file_manager_extensi.Settings.Edit.{◌>>=◌}
use dde_file_manager_extensi.Settings.Json.{to_json, from_json_file}

-- What `QFile` answers to `sync`: the open fails, or so many bytes are written.
pub data Write : Type 0 where
  cannot_open : Write
  written : ℕ → Write

-- The settings object together with the files that it reads and writes.
pub record Session (V : Type 0) : Type 0 where
  pub settings : Settings V
  pub open settings use *
  pub disk : String → OnDisk

-- `QFileInfo::exists()`, negated.
abbrev is_absent : OnDisk → Bool
is_absent absent = true
is_absent _ = false

abbrev pub store_file : String → OnDisk → (String → OnDisk) → String → OnDisk
store_file name file disk other = if name == other then file else disk other

module _ {V : Type 0} ⦃q : Variants V⦄ where
  unfoldable pub sync : Write → Session V → Option (Bool × Session V)
  sync outcome x = if not x.dirty then some (true, x) else (elim outcome [
    | cannot_open ↦ some (false, x)
    | written n ↦
        let json = to_json x.writable_data in
        let disk = store_file x.setting_file (contents (slice json 0 n)) x.disk in
        if num_eq n (len json)
        then (do s ← make_dirty false x.settings; some (true, record { settings = s; disk = disk }))
        else some (false, record x { disk = disk })
  ])

  unfoldable pub reload : Session V → Session V
  reload x = record x {
    settings = record (x.settings) {
      fallback_data = from_json_file (x.disk x.fallback_file) empty_data;
      writable_data = from_json_file (x.disk x.setting_file) empty_data;
    };
  }

  abbrev pub with_timer : Settings V → Settings V
  with_timer s = elim s.sync_timer [ none ↦ record s { sync_timer = some false } | some _ ↦ s ]

  -- The `Write` is the outcome of the call of `sync`, where one is made.
  unfoldable pub set_auto_sync : Bool → Write → Session V → Option (Session V)
  set_auto_sync auto_sync outcome x =
      let y = record x { settings = record (x.settings) { auto_sync = auto_sync } } in
      if bool_eq x.auto_sync auto_sync
      then some x
      else if auto_sync
      then (do
        z ← if x.dirty then (do r ← sync outcome y; some r.1) else some y
        some (record z { settings = with_timer z.settings }))
      else some (record y { settings = record (y.settings) { sync_timer = none } })

  abbrev stopped : Session V → Session V
  stopped x = elim x.sync_timer [
    | none ↦ x
    | some _ ↦ record x { settings = record (x.settings) { sync_timer = some false } }
  ]

  -- The destructor.
  unfoldable pub destroy : Write → Session V → Option (Session V)
  destroy outcome x =
      let y = stopped x in if y.dirty then (do r ← sync outcome y; some r.1) else some y

  -- `created` tells whether a missing settings file could be created.
  unfoldable pub set_watch_changes : Bool → Bool → Session V → Session V
  set_watch_changes watch created x =
      let y = record x {
        settings = record (x.settings) { watch_changes = watch; watcher = watch };
      } in
      if bool_eq x.watch_changes watch
      then x
      else if watch && is_absent (x.disk x.setting_file) && created
      then record y { disk = store_file x.setting_file (contents "") x.disk }
      else y

  -- What `_q_onFileChanged` emits for an entry that the new file changes.
  abbrev edited : String → String → Variant V → Settings V → Settings V
  edited group key v s = emit (value_changed group key v) (emit (value_edited group key v) s)

  unfoldable pub notify_new :
      Hash (Hash (Variant V)) → String → String → Variant V → Settings V → Settings V
  notify_new old group key v s =
      if has_key key (group_of group old)
      then (if variant_eq (value_or key (group_of group old) none) v
          then s
          else edited group key v s)
      else if has_key key (group_of group s.fallback_data.values)
          && variant_eq (value_or key (group_of group s.fallback_data.values) none) v
      then s
      else if variant_eq (value_or key (group_of group s.default_data.values) none) v
      then s
      else edited group key v s

  unfoldable pub notify_lost : Hash (Hash (Variant V)) → String → String → Settings V → Settings V
  unfolding value
  notify_lost old group key s =
      let now = value s group key none in
      if has_key key (group_of group s.writable_data.values)
      then s
      else if not (variant_eq now (value_or key (group_of group old) none))
      then edited group key now s
      else s

  -- The loops of `_q_onFileChanged` over a group and over the groups.
  unfoldable pub notify_new_group :
      Hash (Hash (Variant V)) → String → Hash (Variant V) → Settings V → Settings V
  unfolding notify_new
  notify_new_group old group [] s = s
  notify_new_group old group ((key, v) ∷ rest) s =
      notify_new_group old group rest (notify_new old group key v s)

  unfoldable pub notify_new_groups :
      Hash (Hash (Variant V)) → Hash (Hash (Variant V)) → Settings V → Settings V
  unfolding notify_new_group
  notify_new_groups old [] s = s
  notify_new_groups old ((group, hash) ∷ rest) s =
      notify_new_groups old rest (notify_new_group old group hash s)

  unfoldable pub notify_lost_group :
      Hash (Hash (Variant V)) → String → Hash (Variant V) → Settings V → Settings V
  unfolding notify_lost
  notify_lost_group old group [] s = s
  notify_lost_group old group ((key, v) ∷ rest) s =
      notify_lost_group old group rest (notify_lost old group key s)

  unfoldable pub notify_lost_groups :
      Hash (Hash (Variant V)) → Hash (Hash (Variant V)) → Settings V → Settings V
  unfolding notify_lost_group
  notify_lost_groups old [] s = s
  notify_lost_groups old ((group, hash) ∷ rest) s =
      notify_lost_groups old rest (notify_lost_group old group hash s)

  unfoldable pub on_file_changed : String → Session V → Option (Session V)
  on_file_changed path x = if not (path == x.setting_file) then some x else (do
    let old = x.writable_data.values
    let cleared = record (x.writable_data) { values = [] }
    s ←
        make_dirty false
          (record (x.settings) { writable_data = from_json_file (x.disk x.setting_file) cleared })
    let t = notify_new_groups old s.writable_data.values s
    some (record x { settings = notify_lost_groups old old t }))
