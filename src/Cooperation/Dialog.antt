-- ===== src/Cooperation/Dialog.antt =====
-- dialogs/filetransfersettingsdialog.cpp: `FileTransferSettingsDialog` and `FileChooserEdit`, over the
-- two configurations that they read and write. How a text is elided is a parameter; painting is left
-- out.
use dde_file_manager_extensi.Prelude.{
  ℕ, ℤ, pos, String, true, not, ◌==◌, ◌≡◌, Option, none, some, List, [], ◌∷◌, ◌++◌, num_eq, ltb,
  if◌then◌else◌, is_empty,
}
use dde_file_manager_extensi.Settings.{Variant, Variants}
use dde_file_manager_extensi.Settings.Edit.{◌>>=◌}
use dde_file_manager_extensi.Settings.File.{Session}
use dde_file_manager_extensi.Cooperation.Config.{DConfig, DConfigManager, default_cfg_path}
use dde_file_manager_extensi.Cooperation.Config
use dde_file_manager_extensi.Cooperation.AppConfig.{app_attribute, set_app_attribute}

pub data RoundRole : Type 0 where
  no_role top bottom : RoundRole

-- The switch of `addItem`.
unfoldable pub round_role : ℕ → RoundRole
round_role n = if num_eq n 0 then top else if num_eq n 1 then bottom else no_role

-- `FileChooserEdit`: the text of its label, and its tool tip where one was set.
pub record FileChooser : Type 0 where
  pub label : String
  pub tool_tip : Option String

-- The dialog: its rows with their places, the index of the combo box, and the chooser.
pub record Dialog : Type 0 where
  pub rows : List (String × RoundRole)
  pub index : ℕ
  pub chooser : FileChooser

-- What is read from a variant and written to it, the font, and the directory of downloads.
pub record Toolkit (V : Type 0) : Type 0 where
  pub to_int : Variant V → ℤ
  pub of_int : ℕ → V
  pub to_text : V → String
  pub of_text : String → V
  pub elided : String → String
  pub downloads : String

-- The two configurations.
pub record Stores (C V : Type 0) : Type 0 where
  pub manager : DConfigManager C
  pub app : Session V

abbrev pub mode_key : String
mode_key = "cooperation.transfer.mode"

abbrev pub attribute_group : String
attribute_group = "GenericAttribute"

abbrev pub storage_path : String
storage_path = "StoragePath"

-- `(mode < 0) ? 0 : (mode > 2) ? 2 : mode`
unfoldable pub clamp_mode : ℤ → ℕ
clamp_mode (pos n) = if ltb 2 n then 2 else n
clamp_mode _ = 0

module _ {C V : Type 0} ⦃q : Variants V⦄ (dc : DConfig C V) (qt : Toolkit V) where
  unfoldable pub set_text : String → FileChooser → FileChooser
  set_text text c =
      let name = qt.elided text in
      if not (name == text)
      then record c { label = name; tool_tip = some text }
      else record c { label = name }

  unfoldable pub add_item : String → ℕ → Dialog → Dialog
  add_item text index_pos d = record d { rows = d.rows ++ (text, round_role index_pos) ∷ [] }

  -- The constructor. The first item of the combo box is the current one.
  unfoldable pub new_dialog : Dialog
  unfolding add_item round_role
  new_dialog = add_item "File save location" 1 (
      add_item "Allows the following users to send files to me" 0 (record {
        rows = [];
        index = 0;
        chooser = record { label = qt.downloads; tool_tip = none };
      }))

  unfoldable pub on_com_box_value_changed : ℕ → Stores C V → Stores C V
  on_com_box_value_changed index s = record s {
    manager = Config.set_value dc default_cfg_path mode_key (some (qt.of_int index)) s.manager;
  }

  -- `setCurrentIndex` and a choice of the user, for an index of the list: the slot is called where the
  -- index changes.
  unfoldable pub set_current_index : ℕ → Dialog × Stores C V → Dialog × Stores C V
  set_current_index i (d, s) =
      if num_eq i d.index then (d, s) else (record d { index = i }, on_com_box_value_changed i s)

  unfoldable pub stored_mode : Stores C V → ℕ
  stored_mode s =
      clamp_mode
        (qt.to_int (Config.value dc s.manager default_cfg_path mode_key (some (qt.of_int 0))))

  unfoldable pub stored_path : Stores C V → String
  stored_path s = elim (app_attribute s.app attribute_group storage_path) [
    | none ↦ qt.downloads
    | some v ↦ qt.to_text v
  ]

  -- `loadConfig`, which `showEvent` calls.
  unfoldable pub load_config : Dialog × Stores C V → Dialog × Stores C V
  load_config p =
      let (d, s) = set_current_index (stored_mode p.1) p in
      (record d { chooser = set_text (stored_path s) d.chooser }, s)

  unfoldable pub on_file_choosered : String → Stores C V → Option (Stores C V)
  on_file_choosered file_name s = do
    x ← set_app_attribute attribute_group storage_path (some (qt.of_text file_name)) s.app
    some (record s { app = x })

  -- `FileChooserEdit::onButtonClicked`, with the directory that was chosen.
  unfoldable pub on_button_clicked : String → Dialog × Stores C V → Option (Dialog × Stores C V)
  on_button_clicked dir p = if is_empty dir then some p else (do
    s ← on_file_choosered dir p.1
    some (record (p.0) { chooser = set_text dir (p.0).chooser }, s))

-- What a user does with the dialog.
pub data Use : Type 0 where
  shows : Use
  picks : (i : ℕ) → ltb i 3 ≡ true → Use
  chooses : String → Use

module _ {C V : Type 0} ⦃q : Variants V⦄ (dc : DConfig C V) (qt : Toolkit V) where
  unfoldable pub act : Use → Dialog × Stores C V → Option (Dialog × Stores C V)
  act shows p = some (load_config dc qt p)
  act (picks i h) p = some (set_current_index dc qt i p)
  act (chooses dir) p = on_button_clicked dc qt dir p

  unfoldable pub act_all : List Use → Dialog × Stores C V → Option (Dialog × Stores C V)
  act_all [] p = some p
  act_all (u ∷ us) p = do p' ← act u p; act_all us p'
