-- ===== src/Entry/Events.antt =====
-- `EventsHandler` of events/eventshandler.cpp, and `EncryptProgressDialog::updateProgress` of
-- gui/encryptprogressdialog.cpp. A progress is a number of hundredths. A message with a place marker
-- is the text put together; titles and messages are those of the source language.
use dde_file_manager_extensi.Prelude.{
  ℕ, zero, suc, ◌/◌, String, Bool, false, ◌&&◌, ◌||◌, not, Option, none, some, List, [], ◌∷◌,
  num_eq, if◌then◌else◌, is_empty, is_nil, or_else, mid, ◌<>◌, ℤ, pos, negsuc, is_zero, Hash, find,
  insert, erase, has_key, value_or,
}
use dde_file_manager_extensi.DiskEncrypt.{
  Status, value_of, user_cancelled, reboot_required, wrong_passphrase, change_passphrase_failed,
}
use dde_file_manager_extensi.Entry.Password.{password_only}
use dde_file_manager_extensi.Entry.Wizard.{DeviceEncryptParam}

pub data DialogType : Type 0 where
  info warning error : DialogType

-- What the handler does besides keeping its dialogs.
pub data Effect : Type 0 where
  restores_cursor : Effect
  shows_dialog : String → String → DialogType → Effect
  asks_reboot : String → String → Effect
  requests_reboot : Effect
  opens_inputs : DeviceEncryptParam → Effect
  starts_reencrypt : DeviceEncryptParam → Effect

pub record ProgressDialog : Type 0 where
  pub title : String
  pub message : String
  pub percent : ℕ
  pub closing : Bool

-- The dialogs by their devices; of a dialog for inputs, the device that it was opened for.
pub record Handler : Type 0 where
  pub encrypt_dialogs : Hash ProgressDialog
  pub decrypt_dialogs : Hash ProgressDialog
  pub encrypt_inputs : Hash String

unfoldable pub new_progress : String → String → ProgressDialog
new_progress title message = record {
  title = title;
  message = message;
  percent = 1;
  closing = false;
}

unfoldable pub update_progress : ℕ → ProgressDialog → ProgressDialog
update_progress progress d = record d {
  percent = progress;
  closing = d.closing || num_eq (progress / 100) 1;
}

unfoldable pub has_en_decrypt_job : Handler → Bool
has_en_decrypt_job h = not (is_nil (h.encrypt_dialogs) && is_nil (h.decrypt_dialogs))

abbrev pub device_title : String → String → String
device_title dev name = name <> ("(" <> (mid 5 dev <> ")"))

-- `-code`
unfoldable pub negated : ℤ → ℤ
negated (pos zero) = pos 0
negated (pos (suc n)) = negsuc n
negated (negsuc n) = pos (suc n)

-- `-code == status`
abbrev pub code_is : Status → ℤ → Bool
code_is st code = elim (negated code) [ pos n ↦ num_eq n (value_of st) | negsuc n ↦ false ]

module _ (print_code : ℤ → String) where
  abbrev see_log : String → ℤ → String
  see_log what code =
      what <> (" failed, please see log for more information.(" <> (print_code code <> ")"))

  unfoldable pub show_pre_encrypt_error : String → String → ℤ → Effect
  show_pre_encrypt_error dev name code =
      let device = device_title dev name in
      if is_zero code
      then shows_dialog "Preencrypt done"
          ("Device " <> (device <> " has been preencrypt, please reboot to finish encryption."))
          info
      else if code_is user_cancelled code
      then shows_dialog "Encrypt disk" "User cancelled operation" info
      else shows_dialog "Preencrypt failed" (see_log ("Device " <> (device <> " preencrypt")) code)
          error

  unfoldable pub show_decrypt_error : String → String → ℤ → Effect
  show_decrypt_error dev name code =
      let device = device_title dev name in
      if is_zero code
      then shows_dialog "Decrypt done" ("Device " <> (device <> " has been decrypted")) info
      else if code_is user_cancelled code
      then shows_dialog "Decrypt disk" "User cancelled operation" info
      else if code_is wrong_passphrase code
      then shows_dialog "Decrypt disk" "Wrong passpharse or PIN" error
      else shows_dialog "Decrypt failed" (see_log ("Device " <> (device <> " Decrypt")) code) error

  -- The type of the device is what `encKeyType` answers.
  unfoldable pub show_chg_pwd_error : ℕ → String → String → ℤ → Effect
  show_chg_pwd_error enc_type dev name code =
      let device = device_title dev name in
      let code_type = if num_eq enc_type 0 then "passphrase" else "PIN" in
      if is_zero code
      then shows_dialog ("Change " <> (code_type <> " done"))
          (device <> ("'s " <> (code_type <> " has been changed"))) info
      else if code_is user_cancelled code
      then shows_dialog ("Change " <> code_type) "User cancelled operation" info
      else if code_is change_passphrase_failed code
      then shows_dialog ("Change " <> (code_type <> " failed")) ("Wrong " <> code_type) error
      else shows_dialog ("Change " <> (code_type <> " failed"))
          (see_log ("Device " <> (device <> (" change " <> code_type))) code) error

  -- The prompt for a reboot, with the button that is clicked.
  unfoldable pub show_reboot : String → String → ℕ → List Effect
  show_reboot title message clicked =
      asks_reboot title message ∷ (if num_eq clicked 1 then requests_reboot ∷ [] else [])

  unfoldable pub on_preencrypt_result : String → String → ℤ → ℕ → List Effect
  on_preencrypt_result dev name code clicked =
      restores_cursor
      ∷ (if not (is_zero code)
          then show_pre_encrypt_error dev name code ∷ []
          else show_reboot "Preencrypt done"
              ("Device "
                <> (device_title dev name
                    <> " has been preencrypt, please reboot to finish encryption."))
              clicked)

  unfoldable pub on_encrypt_result : String → String → ℤ → Handler → Handler × List Effect
  on_encrypt_result dev name code h =
      let device = device_title dev name in
      (
        record h { encrypt_dialogs = erase dev (h.encrypt_dialogs) },
        restores_cursor
            ∷ (if is_zero code
                then shows_dialog "Encrypt done" ("Device " <> (device <> " has been encrypted"))
                    info
                else shows_dialog "Encrypt failed"
                    (see_log ("Device " <> (device <> " encrypt")) code) error)
            ∷ [],
      )

  unfoldable pub on_decrypt_result : String → String → ℤ → ℕ → Handler → Handler × List Effect
  on_decrypt_result dev name code clicked h = (
    record h { decrypt_dialogs = erase dev (h.decrypt_dialogs) },
    restores_cursor
        ∷ (if code_is reboot_required code
            then show_reboot "Decrypt device"
                ("Please reboot to decrypt device " <> (device_title dev name <> ".")) clicked
            else show_decrypt_error dev name code ∷ []),
  )

  unfoldable pub on_chg_passphrase_result : ℕ → String → String → ℤ → List Effect
  on_chg_passphrase_result enc_type dev name code =
      restores_cursor ∷ show_chg_pwd_error enc_type dev name code ∷ []

-- The dialog of a device, made where there is none.
abbrev with_progress : String → ProgressDialog → ℕ → Hash ProgressDialog → Hash ProgressDialog
with_progress dev fresh progress dialogs =
    insert dev (update_progress progress (or_else (find dev dialogs) fresh)) dialogs

unfoldable pub on_encrypt_progress : String → String → ℕ → Handler → Handler × List Effect
on_encrypt_progress dev name progress h =
    let fresh =
      new_progress (device_title dev name <> " is under encrypting...")
        "The encrypting process may have system lag, please minimize the system operation" in
    (
      record h {
        encrypt_dialogs = with_progress dev fresh progress (h.encrypt_dialogs);
        encrypt_inputs = erase dev (h.encrypt_inputs);
      },
      if has_key dev (h.encrypt_dialogs) then [] else restores_cursor ∷ [],
    )

unfoldable pub on_decrypt_progress : String → String → ℕ → Handler → Handler × List Effect
on_decrypt_progress dev name progress h =
    let fresh =
      new_progress (device_title dev name <> " is under decrypting...")
        "The decrypting process may have system lag, please minimize the system operation" in
    (
      record h { decrypt_dialogs = with_progress dev fresh progress (h.decrypt_dialogs) },
      if has_key dev (h.decrypt_dialogs) then [] else restores_cursor ∷ [],
    )

-- The parameters that a request's dialog is opened with. `remove("UUID=")` and the UUID of a device,
-- empty where there is no such device, are arguments. A field that the code leaves unset is empty, and
-- the type the first one.
unfoldable pub requested : (String → String) → (String → String) → Hash String → DeviceEncryptParam
requested without_uuid uuid_of config =
    let dev_path = value_or "device-path" config "" in
    record {
      dev_desc = dev_path;
      uuid = "";
      type = password_only;
      key = "";
      new_key = "";
      export_path = "";
      device_display_name = value_or "device-name" config "";
      mount_point = "";
      init_only = false;
      validate_by_rec_key = false;
      backing_dev_uuid = uuid_of ("/org/freedesktop/UDisks2/block_devices/" <> mid 5 dev_path);
      clear_dev_uuid = without_uuid (value_or "device" config "");
    }

-- The request for the parameters of a device, by its configuration, with what its dialog hands out
-- where it is accepted. The dialog of an accepted request stays until the encryption makes progress.
unfoldable pub on_request_encrypt_params :
    (String → String)
    → (String → String)
    → Hash String
    → Option DeviceEncryptParam
    → Handler
    → Handler × List Effect
on_request_encrypt_params without_uuid uuid_of config answer h =
    let dev_path = value_or "device-path" config "" in
    let param = requested without_uuid uuid_of config in
    let opened = record h { encrypt_inputs = insert dev_path dev_path (h.encrypt_inputs) } in
    if is_empty dev_path
    then (h, [])
    else if has_key dev_path (h.encrypt_inputs)
    then (h, [])
    else elim answer [
      | none ↦ (
        record opened { encrypt_inputs = erase dev_path (opened.encrypt_inputs) },
        opens_inputs param ∷ [],
      )
      | some inputs ↦ (opened, opens_inputs param ∷ starts_reencrypt inputs ∷ [])
    ]
