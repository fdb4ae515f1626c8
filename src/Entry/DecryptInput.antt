-- ===== src/Entry/DecryptInput.antt =====
-- `DecryptParamsInputDialog` of gui/decryptparamsinputdialog.cpp.
use dde_file_manager_extensi.Prelude.{
  ℕ, zero, suc, String, ◌≡◌, Bool, true, false, ◌&&◌, not, num_eq, if◌then◌else◌, text_length,
  is_empty, ◌<>◌,
}
use dde_file_manager_extensi.Entry.RecoveryKey.{remove_dashes, format_recovery_key, key_len}
use dde_file_manager_extensi.Entry.Unlock.{DialogResult, shown, accepted, rejected, is_shown}

abbrev pin_or_passphrase : Bool → String
pin_or_passphrase pin = if pin then "PIN" else "passphrase"

pub record DecryptDialog : Type 0 where
  pub request_pin : Bool
  pub use_rec_key : Bool
  pub editor : String
  pub placeholder : String
  pub switch_text : String
  pub hides_input : Bool
  pub alert : String
  pub result : DialogResult

unfoldable pub get_key : DecryptDialog → String
get_key d = if d.use_rec_key then remove_dashes (d.editor) else d.editor

unfoldable pub on_rec_switch_clicked : DecryptDialog → DecryptDialog
on_rec_switch_clicked d =
    let name = pin_or_passphrase (d.request_pin) in
    if not (d.use_rec_key)
    then record d {
      use_rec_key = true;
      editor = "";
      hides_input = false;
      placeholder = "Please input recovery key to decrypt device";
      switch_text = "Validate with " <> name;
    }
    else record d {
      use_rec_key = false;
      editor = "";
      hides_input = true;
      placeholder = "Please input " <> (name <> " to decrypt device");
      switch_text = "Validate with recovery key";
    }

unfoldable pub update_user_hints : DecryptDialog → DecryptDialog
update_user_hints d = on_rec_switch_clicked (record d { use_rec_key = true })

unfoldable pub set_input_pin : Bool → DecryptDialog → DecryptDialog
set_input_pin pin d = update_user_hints (record d { request_pin = pin })

unfoldable pub on_key_changed : String → DecryptDialog → DecryptDialog
on_key_changed key d = record d { editor = if d.use_rec_key then format_recovery_key key else key }

unfoldable pub on_button_clicked : ℕ → DecryptDialog → DecryptDialog
on_button_clicked (suc idx) d = record d { result = rejected }
on_button_clicked zero d =
    let key = get_key d in
    if is_empty key
    then record d {
      alert =
          (if d.use_rec_key then "Recovery key" else if d.request_pin then "PIN" else "Passphrase")
          <> " cannot be empty!";
    }
    else if d.use_rec_key && not (num_eq (text_length key) key_len)
    then record d { alert = "Recovery key is not valid!" }
    else record d { result = accepted }

-- The constructor.
unfoldable pub new_decrypt : DecryptDialog
new_decrypt = update_user_hints (record {
  request_pin = false;
  use_rec_key = false;
  editor = "";
  placeholder = "";
  switch_text = "";
  hides_input = true;
  alert = "";
  result = shown;
})

-- What can be made of the dialog. Its only button has the number 0; other numbers stand for the
-- ways to close it.
pub data Decrypting : DecryptDialog → Type 0 where
  opened : (pin : Bool) → Decrypting (set_input_pin pin new_decrypt)
  types_key :
      {d : DecryptDialog}
      → (s : String) → is_shown (d.result) ≡ true
      → Decrypting d
      → Decrypting (on_key_changed s d)
  clicks :
      {d : DecryptDialog}
      → (n : ℕ) → is_shown (d.result) ≡ true
      → Decrypting d
      → Decrypting (on_button_clicked n d)
  switches :
      {d : DecryptDialog}
      → is_shown (d.result) ≡ true
      → Decrypting d
      → Decrypting (on_rec_switch_clicked d)
