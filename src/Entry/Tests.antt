-- ===== src/Entry/Tests.antt =====
-- The theorems of the encryption entry at concrete inputs.
use Prim.Native.Char.{Char, code}
use dde_file_manager_extensi.Prelude.{
  String, ◌≡◌, ◌↔◌, ◌⊎◌, refl, Bool, true, num_eq, text_length, left,
}
use dde_file_manager_extensi.Entry.RecoveryKey.{
  format_recovery_key, cut_key, remove_dashes, insert_dashes, insert_dash, dash_count,
}
use dde_file_manager_extensi.Entry.Password.{
  tpm_and_pin, tpm_only, valid, validate_password, check_new, trimmed, trim_start, trim_end,
  is_weak, factor, has_class,
}
use dde_file_manager_extensi.Entry.PasswordRules.{IsNewKey, validate_password_lem}
use dde_file_manager_extensi.Entry.Unlock.{
  pin, rec, UnlockDialog, new_unlock, types_text, clicks, switches, opened, then_, Unlocking,
  unlock_handle, unlock_allows, text_changed, handle_button, switch_unlock_type, switched_type,
  get_unlock_key, accepted,
}
use dde_file_manager_extensi.Entry.UnlockKeys.{get_unlock_key-Fits, Fits}

abbrev key_text : String
key_text = "abcdef123456abcdef123456"

formatted : format_recovery_key "abcdef-123456-abcdef1234567890" ≡ "abcdef-123456-abcdef-123456"
unfolding format_recovery_key cut_key remove_dashes left insert_dashes dash_count insert_dash
    text_length
formatted = refl

abbrev blank : Char → Bool
blank c = num_eq (code c) 32

validate_password_lem_example :
    (validate_password blank true tpm_and_pin " Abcdefg1" "Abcdefg1 " ≡ valid)
    ↔ ((true ≡ true) × ((tpm_and_pin ≡ tpm_only) ⊎ IsNewKey blank " Abcdefg1" "Abcdefg1 "))
validate_password_lem_example = validate_password_lem blank true tpm_and_pin " Abcdefg1" "Abcdefg1 "

taken_key : validate_password blank true tpm_and_pin " Abcdefg1" "Abcdefg1 " ≡ valid
unfolding validate_password check_new trimmed trim_start trim_end is_weak factor has_class
    text_length
taken_key = refl

-- The dialog for a PIN, switched to the recovery key, with the key typed and the button clicked.
abbrev unlocked : UnlockDialog
unlocked =
    unlock_handle (clicks 1)
      (unlock_handle (types_text key_text) (unlock_handle switches (new_unlock pin)))

unlocked_run : Unlocking pin unlocked
unfolding unlock_handle unlock_allows text_changed handle_button switch_unlock_type switched_type
    new_unlock format_recovery_key cut_key remove_dashes left insert_dashes dash_count insert_dash
    text_length
unlocked_run = then_ (then_ (then_ opened switches refl) (types_text key_text) refl) (clicks 1) refl

unlocked_accepted : unlocked.result ≡ accepted
unfolding unlock_handle unlock_allows text_changed handle_button switch_unlock_type switched_type
    new_unlock format_recovery_key cut_key remove_dashes left insert_dashes dash_count insert_dash
    text_length
unlocked_accepted = refl

get_unlock_key-Fits_example :
    (((get_unlock_key unlocked).0 ≡ pin) ⊎ ((get_unlock_key unlocked).0 ≡ rec))
    × Fits (get_unlock_key unlocked).0 (get_unlock_key unlocked).1
get_unlock_key-Fits_example = get_unlock_key-Fits unlocked unlocked_run unlocked_accepted
