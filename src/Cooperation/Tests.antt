-- ===== src/Cooperation/Tests.antt =====
-- dfmplugin-cooperation: the theorems at concrete configurations, menus and dialogs.
use dde_file_manager_extensi.Prelude.{
  ℕ, ℤ, pos, ◌≤◌, String, Bool, true, false, not, ◌==◌, ◌≡◌, refl, none, some, [], ◌∷◌, is_nil,
  Hash, map, find, insert, value_or, num_eq, eq_refl, find-insert, arith,
}
use dde_file_manager_extensi.Menus.Binding.{is_among, settled}
use dde_file_manager_extensi.Settings.{
  Variant, Variants, Settings, value, data_value, is_removable, make_dirty, object, absent,
  empty_data,
}
use dde_file_manager_extensi.Settings.Edit.{
  ◌>>=◌, set_value, set_value_no_notify, write_value, set_data_value,
}
use dde_file_manager_extensi.Settings.File.{written, cannot_open}
use dde_file_manager_extensi.Settings.Timer.{Returns}
use dde_file_manager_extensi.Settings.Faults.{Ready}
use dde_file_manager_extensi.Settings.Paths.{App, Locations}
use dde_file_manager_extensi.Cooperation.Config.{
  DConfig, DConfigManager, Change, adds, removes, new_manager, change_all, destroy,
}
use dde_file_manager_extensi.Cooperation.Config
use dde_file_manager_extensi.Cooperation.ConfigLaws.{IsSound, destroyed_all}
use dde_file_manager_extensi.Cooperation.Menu.{Url, Action, Base, triggered}
use dde_file_manager_extensi.Cooperation.MenuLaws.{opened, triggered-opened}
use dde_file_manager_extensi.Cooperation.AppConfig.{init, act_all, app_attribute, set_app_attribute}
use dde_file_manager_extensi.Cooperation.AppConfig
use dde_file_manager_extensi.Cooperation.AppConfigLaws.{used-Returns}
use dde_file_manager_extensi.Cooperation.Dialog.{
  Dialog, Toolkit, Stores, shows, picks, chooses, mode_key, load_config, stored_mode,
  set_current_index, on_com_box_value_changed, stored_path, set_text, on_file_choosered, new_dialog,
  on_button_clicked, clamp_mode,
}
use dde_file_manager_extensi.Cooperation.Dialog
use dde_file_manager_extensi.Cooperation.DialogLaws.{shown_mode, chosen_path}
use dde_file_manager_extensi.Cooperation.Plugin.{
  plugins_started, scene_added, receive_all, initialize,
}
use dde_file_manager_extensi.Cooperation.PluginLaws.{receive_all-bound}

data Value : Type 0 where
  num : ℕ → Value
  txt : String → Value

abbrev same_value : Value → Value → Bool
same_value (num a) (num b) = num_eq a b
same_value (txt a) (txt b) = a == b
same_value (num a) (txt b) = false
same_value (txt a) (num b) = false

same_value_refl : (v : Value) → same_value v v ≡ true
same_value_refl (num a) = ground arith
same_value_refl (txt a) = eq_refl a

instance abbrev values : Variants Value
values = record {
  beq = same_value;
  beq_refl = same_value_refl;
  to_map = λ v. [];
  to_string_list = λ v. [];
  from_json = λ json. object [];
  to_json = λ groups. "{}";
}

-- A configuration is a table; a new one has a mode that is too large.
abbrev tables : DConfig (Hash (Variant Value)) Value
tables = record {
  create = λ app name sub. some (("cooperation.transfer.mode", some (num 5)) ∷ []);
  is_valid = λ c. true;
  key_list = λ c. map (λ e. e.0) c;
  read = λ c key d. value_or key c d;
  write = λ c key v. insert key v c;
}

abbrev int_of : Variant Value → ℤ
int_of (some (num n)) = pos n
int_of v = pos 0

abbrev text_of : Value → String
text_of (txt t) = t
text_of (num n) = ""

abbrev toolkit : Toolkit Value
toolkit = record {
  to_int = int_of;
  of_int = num;
  to_text = text_of;
  of_text = txt;
  elided = λ t. t;
  downloads = "/home/u/Downloads";
}

tables_write_back :
    (c : Hash (Variant Value)) (v : Value) (d : Variant Value)
    → tables.read
        (tables.write c "cooperation.transfer.mode" (some v))
        "cooperation.transfer.mode"
        d
      ≡ some v
tables_write_back c v d = ground (
  arith,
  find-insert "cooperation.transfer.mode" "cooperation.transfer.mode" (some v) c,
  eq_refl "cooperation.transfer.mode",
)

destroyed_all_example :
    IsSound (change_all tables (adds "a" ∷ removes "a" ∷ []) (new_manager tables))
    × ((destroy tables
          (change_all tables (adds "a" ∷ removes "a" ∷ []) (new_manager tables))).deleted
        ≡ (destroy tables
            (change_all tables (adds "a" ∷ removes "a" ∷ []) (new_manager tables))).created)
destroyed_all_example = destroyed_all tables (adds "a" ∷ removes "a" ∷ [])

abbrev base : Base
base = record {
  initialize = true;
  create = true;
  triggered = false;
  scene = none;
  start_detached = λ program args. program == "dde-cooperation-transfer";
}

abbrev send_to : Action
send_to = record {
  id = 1;
  action_id = "send-to";
  text = "Send to";
  is_separator = false;
  visible = false;
  menu = some (2 ∷ 3 ∷ []);
}

abbrev file : Url
file = record { is_local_file = true; to_local_file = "/home/u/a.txt" }

triggered-opened_example :
    triggered base "file-transfer" (opened base (file ∷ []) false 9 (send_to ∷ [])) ≡ true
triggered-opened_example = triggered-opened base (file ∷ []) false 9 (send_to ∷ [])

abbrev places : Locations
places = record {
  writable_location = λ type. "/home/u/.config";
  standard_locations = λ type. "/home/u/.config" ∷ "/etc/xdg" ∷ [];
  in_home = λ path. path;
}

abbrev cooperation : App
cooperation = record { organization_name = "deepin"; application_name = "dde-cooperation" }

used-Returns_example : Returns (Ready {V = Value}) (
    init places cooperation (λ f. absent) cannot_open true
    >>= act_all (AppConfig.sets "g" "k" (some (num 1)) ∷ AppConfig.times_out (written 2) ∷ []))
used-Returns_example =
    used-Returns places cooperation (λ f. absent) cannot_open true
      (AppConfig.sets "g" "k" (some (num 1)) ∷ AppConfig.times_out (written 2) ∷ [])

receive_all-bound_example :
    (receive_all
      (plugins_started false ∷ scene_added "ExtendMenu" ∷ [])
      (initialize false true)).menus
    ≡ settled "CooperationMenu" "ExtendMenu" true
unfolding is_among
receive_all-bound_example = receive_all-bound false true false [] ("ExtendMenu" ∷ [])

abbrev settings : Hash (Hash (Variant Value)) → Settings Value
settings groups = record {
  auto_sync = true;
  watch_changes = true;
  dirty = not (is_nil groups);
  sync_timer = some (not (is_nil groups));
  fallback_file = "/etc/xdg/cooperation.json";
  setting_file = "/home/u/.config/cooperation.json";
  watcher = true;
  default_data = empty_data;
  fallback_data = empty_data;
  writable_data = record { values = groups; private_values = [] };
  signals = [];
}

abbrev stores : ℕ → Hash (Hash (Variant Value)) → Stores (Hash (Variant Value)) Value
stores mode groups = record {
  manager = record {
    configs =
        ("org.deepin.dde.cooperation", ("cooperation.transfer.mode", some (num mode)) ∷ []) ∷ [];
    created = 1;
    deleted = 0;
  };
  app = record { settings = settings groups; disk = λ f. absent };
}

abbrev dialog : ℕ → String → Dialog
dialog i label = record {
  rows = [];
  index = i;
  chooser = record { label = label; tool_tip = none };
}

-- A mode that is too large shows as the last one and is written back; then another is picked.
shown_mode_example :
    (1 ≤ 2)
    × (1 ≡ stored_mode tables toolkit (stores 1 []))
    × ((load_config tables toolkit (dialog 0 "", stores 1 [])).0.index ≡ 1)
unfolding Dialog.act_all Dialog.act load_config set_current_index on_com_box_value_changed
    stored_mode stored_path clamp_mode set_text app_attribute find insert Config.set_value
    Config.value value data_value
shown_mode_example =
    shown_mode tables toolkit tables_write_back (λ n. refl) (picks 1 refl ∷ [])
      (dialog 0 "", stores 5 []) (dialog 1 "/home/u/Downloads", stores 1 []) (dialog 0 "") refl refl

abbrev chosen : Hash (Hash (Variant Value))
chosen = ("GenericAttribute", ("StoragePath", some (txt "/home/u/x")) ∷ []) ∷ []

chosen_path_example :
    (load_config tables toolkit (dialog 0 "", stores 0 chosen)).0.chooser.label ≡ "/home/u/x"
unfolding on_button_clicked on_file_choosered set_app_attribute set_value set_value_no_notify
    write_value set_data_value is_removable make_dirty value data_value find insert set_text
chosen_path_example =
    chosen_path tables toolkit "/home/u/x" (dialog 0 "", stores 0 [])
      (dialog 0 "/home/u/x", stores 0 chosen) (dialog 0 "") refl refl (λ w held same. absurd (cc))
      refl
