-- ===== src/Entry/DialogTests.antt =====
-- The theorems on the dialogs at concrete inputs.
use Prim.Native.Char.{Char, code}
use dde_file_manager_extensi.Prelude.{
  ◌≡◌, refl, Bool, true, false, none, [], num_eq, ◌==◌, pos, text_length, left,
}
use dde_file_manager_extensi.Entry.RecoveryKey.{
  format_recovery_key, cut_key, remove_dashes, insert_dashes, insert_dash, dash_count,
}
use dde_file_manager_extensi.Entry.Sections.{no_dash}
use dde_file_manager_extensi.Entry.Password.{
  password_only, validate_password, check_new, trimmed, trim_start, trim_end, is_weak, factor,
  has_class, validate_passwd,
}
use dde_file_manager_extensi.Entry.PasswordRules.{IsNewKey}
use dde_file_manager_extensi.Entry.Unlock.{accepted}
use dde_file_manager_extensi.Entry.ChgPassphrase.{
  ChgPassphraseDialog, Changing, new_chg_passphrase, get_passphrase, on_button_clicked,
  on_old_key_changed, on_rec_switch_clicked,
}
use dde_file_manager_extensi.Entry.ChgPassphrase
use dde_file_manager_extensi.Entry.DialogKeys.{get_passphrase-IsUsable}
use dde_file_manager_extensi.Entry.Wizard.{
  Machine, DeviceEncryptParam, Wizard, new_wizard, validate_export_path, on_exp_path_changed,
  on_page_changed, encrypt_by_tpm, uses_tpm, on_password_page, on_export_page, on_confirm_page,
  get_inputs, Running,
}
use dde_file_manager_extensi.Entry.Wizard
use dde_file_manager_extensi.Entry.WizardInputs.{get_inputs-IsGood, IsGood}

abbrev blank : Char → Bool
blank c = num_eq (code c) 32

-- The dialog is switched to the recovery key, which is typed with the new key, and confirmed.
abbrev typed : ChgPassphraseDialog
typed =
    record (on_old_key_changed "abcdef123456abcdef123456"
      (on_rec_switch_clicked (new_chg_passphrase true))) {
        new_pass1 = "Abcdefg1";
        new_pass2 = "Abcdefg1";
      }

abbrev changed : ChgPassphraseDialog
changed = on_button_clicked blank 1 typed

changed_run : Changing blank changed
unfolding new_chg_passphrase on_button_clicked on_old_key_changed on_rec_switch_clicked
changed_run = ChgPassphrase.clicks 1 refl (
    ChgPassphrase.types_new "Abcdefg1" "Abcdefg1" refl (
      ChgPassphrase.types_old "abcdef123456abcdef123456" refl
        (ChgPassphrase.switches refl (ChgPassphrase.opened true))))

changed_accepted : changed.result ≡ accepted
unfolding new_chg_passphrase on_button_clicked on_old_key_changed on_rec_switch_clicked
    validate_passwd check_new trimmed trim_start trim_end is_weak factor has_class text_length
    format_recovery_key cut_key remove_dashes left insert_dashes dash_count insert_dash
changed_accepted = refl

get_passphrase-IsUsable_example :
    IsNewKey blank (get_passphrase changed).1 "Abcdefg1"
    × (true ≡ true
        → (text_length (get_passphrase changed).0 ≡ 24)
          × (no_dash (get_passphrase changed).0 ≡ true))
unfolding new_chg_passphrase on_button_clicked on_old_key_changed on_rec_switch_clicked
    validate_passwd check_new trimmed trim_start trim_end is_weak factor has_class text_length
    format_recovery_key cut_key remove_dashes left insert_dashes dash_count insert_dash
get_passphrase-IsUsable_example = get_passphrase-IsUsable blank changed changed_run changed_accepted

-- A machine with a TPM, and a stick at /media/stick.
abbrev machine : Machine
machine = record {
  is_space = blank;
  tpm_code = pos 0;
  has_algorithm = true;
  gen_passphrase = λ dev pin. (pos 0, "00112233445566");
  export_key_enabled = true;
  dir_exists = λ path. path == "/media/stick";
  device_of = λ path. "/dev/sdb1";
  device_nodes = λ dev. [];
  backing_device = λ path. none;
}

abbrev wanted : DeviceEncryptParam
wanted = record {
  dev_desc = "/dev/sda3";
  uuid = "u";
  type = password_only;
  key = "";
  new_key = "";
  export_path = "";
  device_display_name = "data";
  mount_point = "/data";
  init_only = false;
  validate_by_rec_key = false;
  backing_dev_uuid = "u";
  clear_dev_uuid = "";
}

abbrev with_pin : Wizard
with_pin = record (new_wizard machine wanted) { key_edit1 = "Abcdefg1"; key_edit2 = "Abcdefg1" }

abbrev with_path : Wizard
with_path =
    on_exp_path_changed machine "/media/stick" false
      (record (Wizard.on_button_clicked machine 0 with_pin) { key_export_input = "/media/stick" })

abbrev finished : Wizard
finished = Wizard.on_button_clicked machine 0 (Wizard.on_button_clicked machine 1 with_path)

finished_run : Running machine wanted finished
unfolding Wizard.on_button_clicked new_wizard validate_export_path on_exp_path_changed
    on_page_changed encrypt_by_tpm on_password_page on_export_page on_confirm_page validate_password
    check_new trimmed trim_start trim_end is_weak factor has_class text_length
finished_run =
    Wizard.clicks_first
      (Wizard.clicks_next
        (Wizard.types_path "/media/stick"
          (Wizard.clicks_first (Wizard.types_keys "Abcdefg1" "Abcdefg1" Wizard.opened refl refl)
            refl)
          refl refl)
        refl refl refl)
      refl

finished_accepted : finished.result ≡ accepted
unfolding Wizard.on_button_clicked new_wizard validate_export_path on_exp_path_changed
    on_page_changed encrypt_by_tpm on_password_page on_export_page on_confirm_page validate_password
    check_new trimmed trim_start trim_end is_weak factor has_class text_length
finished_accepted = refl

get_inputs-IsGood_example :
    (false ≡ false → IsGood machine wanted finished (get_inputs machine finished).1)
    × ((true ≡ true
          → validate_export_path machine wanted ((get_inputs machine finished).1.export_path)
            ≡ none)
        × (uses_tpm machine ((get_inputs machine finished).1.type) ≡ true → true ≡ true))
get_inputs-IsGood_example = get_inputs-IsGood machine wanted finished finished_run finished_accepted
