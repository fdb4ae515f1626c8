-- ===== src/Settings/Tests.antt =====
-- settings.cpp: the theorems at concrete settings, with texts for variants.
use Prim.Native.String.{len}
use dde_file_manager_extensi.Prelude.{
  String, true, false, ◌==◌, ◌≡◌, ◌↔◌, refl, none, some, [], ◌∷◌, Hash, eq_refl, eq_iff, arith,
  find, insert, erase, if◌then◌else◌,
}
use dde_file_manager_extensi.Settings.{
  Variant, Variants, variant_eq, object, OnDisk, contents, absent, value_changed, Settings,
  empty_data, data_value, value, contains, is_removable, make_dirty,
}
use dde_file_manager_extensi.Settings.Edit.{
  set_value, write_value, set_data_value, erase_value, notify_removed, remove,
}
use dde_file_manager_extensi.Settings.File.{written, Session, sync, reload, set_auto_sync}
use dde_file_manager_extensi.Settings.Json.{to_json, is_private}
use dde_file_manager_extensi.Settings.Keys.{has, key_list}
use dde_file_manager_extensi.Settings.Requests.{sets, serve}
use dde_file_manager_extensi.Settings.Timer.{Returns}
use dde_file_manager_extensi.Settings.Layers.{value-set_value, signals-set_value}
use dde_file_manager_extensi.Settings.Removal.{value-remove}
use dde_file_manager_extensi.Settings.Faults.{serve-Returns, set_auto_sync_faults, Ready}
use dde_file_manager_extensi.Settings.RoundTrip.{wrap, reload-sync}
use dde_file_manager_extensi.Settings.KeyOrder.{IsUnique, key_list_complete}

abbrev ui : Hash (Hash (Variant String))
ui = ("ui", ("size", some "2") ∷ []) ∷ []

-- One document only is printed and read.
instance abbrev texts : Variants String
texts = record {
  beq = λ a b. a == b;
  beq_refl = eq_refl;
  to_map = λ v. [];
  to_string_list = λ v. v ∷ [];
  from_json = λ json. object (("ui", some (("size", some "2") ∷ [])) ∷ []);
  to_json = λ groups. "{}";
}

abbrev plain : Hash (Hash (Variant String)) → Settings String
plain groups = record {
  auto_sync = false;
  watch_changes = false;
  dirty = false;
  sync_timer = none;
  fallback_file = "fallback.json";
  setting_file = "settings.json";
  watcher = false;
  default_data = record { values = ("ui", ("size", some "1") ∷ []) ∷ []; private_values = [] };
  fallback_data = empty_data;
  writable_data = record { values = groups; private_values = [] };
  signals = [];
}

abbrev changed : Hash (Hash (Variant String)) → Variant String → Settings String
changed groups now = record (plain groups) {
  dirty = true;
  signals = value_changed "ui" "size" now ∷ [];
}

abbrev session : Settings String → Session String
session s = record { settings = s; disk = λ file. absent }

abbrev unsaved : Session String
unsaved = session (record (plain ui) { dirty = true })

abbrev saved : Session String
saved = record {
  settings = plain ui;
  disk = λ file. if "settings.json" == file then contents "{}" else absent;
}

abbrev bigger : Hash (Hash (Variant String))
bigger = ("ui", ("size", some "3") ∷ []) ∷ []

value-set_value_example :
    variant_eq (value (changed bigger (some "3")) "ui" "size" none) (some "3") ≡ true
unfolding set_value write_value set_data_value is_removable find data_value make_dirty insert
value-set_value_example =
    value-set_value "ui" "size" "3" (plain ui) (changed bigger (some "3")) "ui" "size" none refl

signals-set_value_example :
    (changed bigger (some "3")).signals ≡ value_changed "ui" "size" (some "3") ∷ []
unfolding set_value write_value set_data_value is_removable find data_value make_dirty insert value
signals-set_value_example =
    signals-set_value "ui" "size" "3" (plain ui) (changed bigger (some "3")) (ground arith) refl

value-remove_example : value (changed (("ui", []) ∷ []) (some "1")) "ui" "size" none ≡ some "1"
unfolding remove erase_value erase notify_removed value set_value write_value set_data_value
    is_removable find data_value make_dirty insert
value-remove_example =
    value-remove "ui" "size" (plain ui) (changed (("ui", []) ∷ []) (some "1")) "ui" "size" none refl

serve-Returns_example : Returns Ready (serve (sets "ui" "size" (some "3")) (session (plain ui)))
serve-Returns_example = serve-Returns (sets "ui" "size" (some "3")) (session (plain ui)) refl refl

set_auto_sync_faults_example :
    (set_auto_sync true (written 2) unsaved ≡ none)
    ↔ (written 2 ≡ written (len (to_json unsaved.writable_data)))
set_auto_sync_faults_example = set_auto_sync_faults (written 2) unsaved refl refl refl

reload-sync_example :
    (data_value (reload saved).writable_data "ui" "size"
      ≡ data_value unsaved.writable_data "ui" "size")
    × ((reload saved).dirty ≡ false)
unfolding sync make_dirty to_json find is_private wrap
reload-sync_example =
    reload-sync 2 unsaved saved "ui" "size" ((refl, tt), ((refl, tt), tt)) (refl, tt)
      (λ e. ground (arith, (eq_iff "{}" "").1 e)) refl refl refl

key_list_complete_example :
    IsUnique (key_list (plain ui) "ui")
    × (has "size" (key_list (plain ui) "ui") ≡ contains (plain ui) "ui" "size")
key_list_complete_example = key_list_complete (plain ui) "ui" "size" refl

abbrev on_disk : String → OnDisk
on_disk = saved.disk

-- The settings that are made from the disk, after a change and a removal.
abbrev emptied : Session String
emptied = record {
  settings = record (changed (("ui", []) ∷ []) none) {
    default_data = empty_data;
    signals = value_changed "ui" "size" none ∷ value_changed "ui" "size" (some "3") ∷ [];
  };
  disk = on_disk;
}
