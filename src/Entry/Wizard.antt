-- ===== src/Entry/Wizard.antt =====
-- `EncryptParamsInputDialog` of gui/encryptparamsinputdialog.cpp: the pages on which the way to
-- unlock is chosen, the recovery key's path is given, and the encryption is confirmed. What the
-- dialog asks of the TPM and of the disks is a parameter.
use Prim.Native.Char.{Char}
use dde_file_manager_extensi.Prelude.{
  ℕ, zero, suc, String, ◌≡◌, Bool, true, false, ◌&&◌, not, Option, none, some, List, [], ◌∷◌,
  if◌then◌else◌, is_empty, ◌==◌, ℤ, is_zero,
}
use dde_file_manager_extensi.Entry.Password.{
  SecKeyType, password_only, tpm_and_pin, tpm_only, is_valid, validate_password,
}
use dde_file_manager_extensi.Entry.Unlock.{DialogResult, shown, accepted, rejected}

pub data StepPage : Type 0 where
  password_input_page export_key_page confirm_page : StepPage

abbrev pub is_password_page : StepPage → Bool
is_password_page password_input_page = true
is_password_page _ = false

abbrev pub is_export_page : StepPage → Bool
is_export_page export_key_page = true
is_export_page _ = false

-- What the dialog asks: `has_algorithm` is `getAlgorithm`, `gen_passphrase` is
-- `genPassphraseFromTPM` with its code, `device_nodes` is `resolveDeviceNode`, and
-- `backing_device` the property of the device object, `none` where there is no object.
pub record Machine : Type 0 where
  pub is_space : Char → Bool
  pub tpm_code : ℤ
  pub has_algorithm : Bool
  pub gen_passphrase : String → String → ℤ × String
  pub export_key_enabled : Bool
  pub dir_exists : String → Bool
  pub device_of : String → String
  pub device_nodes : String → List String
  pub backing_device : String → Option String

pub record DeviceEncryptParam : Type 0 where
  pub dev_desc : String
  pub uuid : String
  pub type : SecKeyType
  pub key : String
  pub new_key : String
  pub export_path : String
  pub device_display_name : String
  pub mount_point : String
  pub init_only : Bool
  pub validate_by_rec_key : Bool
  pub backing_dev_uuid : String
  pub clear_dev_uuid : String

pub data ExportAlert : Type 0 where
  path_empty path_missing same_device encrypted_device : ExportAlert

-- `next_enabled` is the state of the button with the number 1 of the export page.
pub record Wizard : Type 0 where
  pub params : DeviceEncryptParam
  pub page : StepPage
  pub enc_type : SecKeyType
  pub key_edit1 : String
  pub key_edit2 : String
  pub key_export_input : String
  pub next_enabled : Bool
  pub tpm_password : String
  pub alert : Option ExportAlert
  pub result : DialogResult

module _ (m : Machine) where
  -- The pages are made, with the type that the TPM allows.
  unfoldable pub new_wizard : DeviceEncryptParam → Wizard
  new_wizard params = record {
    params = params;
    page = password_input_page;
    enc_type = if not (is_zero (m.tpm_code)) then password_only else tpm_and_pin;
    key_edit1 = "";
    key_edit2 = "";
    key_export_input = "";
    next_enabled = true;
    tpm_password = "";
    alert = none;
    result = shown;
  }

  -- `none` where the path can be used.
  unfoldable pub validate_export_path : DeviceEncryptParam → String → Option ExportAlert
  validate_export_path params path =
      if is_empty path
      then some path_empty
      else if not (m.dir_exists path)
      then some path_missing
      else if m.device_of path == params.dev_desc
      then some same_device
      else elim (m.device_nodes (m.device_of path)) [
        | [] ↦ none
        | obj_path ∷ rest ↦ elim (m.backing_device obj_path) [
          | none ↦ none
          | some backing ↦ if not (backing == "/") then some encrypted_device else none
        ]
      ]

  abbrev pub is_usable : Option ExportAlert → Bool
  is_usable none = true
  is_usable (some a) = false

  -- Only the export page has a button with the number 1.
  unfoldable pub on_exp_path_changed : String → Bool → Wizard → Wizard
  on_exp_path_changed path silent w =
      if is_export_page (w.page)
      then (let answer = validate_export_path (w.params) path in
          record w { next_enabled = is_usable answer; alert = if silent then w.alert else answer })
      else w

  -- `setCurrentIndex`, whose signal calls `onPageChanged`: the buttons are made anew.
  unfoldable pub on_page_changed : StepPage → Wizard → Wizard
  on_page_changed page w = record w { page = page; next_enabled = true }

  abbrev pub pin_of : Wizard → String
  pin_of w = elim (w.enc_type) [ tpm_and_pin ↦ w.key_edit1 | _ ↦ "" ]

  -- The dialog afterwards, and the answer.
  unfoldable pub encrypt_by_tpm : String → Wizard → Wizard × Bool
  encrypt_by_tpm device w =
      let made = m.gen_passphrase device (pin_of w) in
      if not (m.has_algorithm)
      then (w, false)
      else if not (is_zero made.0)
      then (w, false)
      else (record w { tpm_password = made.1 }, true)

  abbrev pub uses_tpm : SecKeyType → Bool
  uses_tpm password_only = false
  uses_tpm tpm_and_pin = true
  uses_tpm tpm_only = true

  unfoldable pub on_password_page : Wizard → Wizard
  on_password_page w =
      let answer =
        validate_password (m.is_space) (is_password_page (w.page)) (w.enc_type) (w.key_edit1)
          (w.key_edit2) in
      if not (is_valid answer) && not (w.params.init_only)
      then w
      else if m.export_key_enabled
      then on_exp_path_changed (w.key_export_input) true (on_page_changed export_key_page w)
      else on_page_changed confirm_page w

  unfoldable pub on_export_page : ℕ → Wizard → Wizard
  on_export_page zero w = on_page_changed password_input_page w
  on_export_page (suc zero) w = on_page_changed confirm_page w
  on_export_page (suc (suc n)) w = w

  unfoldable pub on_confirm_page : Wizard → Wizard
  on_confirm_page w =
      if uses_tpm (w.enc_type) && not (w.params.init_only)
      then (let sealed = encrypt_by_tpm (w.params.dev_desc) w in
          if sealed.1 then record sealed.0 { result = accepted } else sealed.0)
      else record w { result = accepted }

  unfoldable pub on_button_clicked : ℕ → Wizard → Wizard
  on_button_clicked idx w = elim (w.page) [
    | password_input_page ↦ on_password_page w
    | export_key_page ↦ on_export_page idx w
    | confirm_page ↦ on_confirm_page w
  ]

  -- The dialog afterwards, with its parameters filled in and the TPM's passphrase handed over, and
  -- these parameters.
  unfoldable pub get_inputs : Wizard → Wizard × DeviceEncryptParam
  get_inputs w =
      let inputs = record (w.params) {
        type = w.enc_type;
        key = if uses_tpm (w.enc_type) then w.tpm_password else w.key_edit1;
        export_path = w.key_export_input;
      } in
      (
        record w {
          params = inputs;
          tpm_password = if uses_tpm (w.enc_type) then "" else w.tpm_password;
        },
        inputs,
      )

  -- What can be made of the dialog: the inputs of a page are at hand while it is shown, a button
  -- while it is there and enabled, and a type that needs the TPM while the TPM is available.
  pub data Running (params : DeviceEncryptParam) : Wizard → Type 0 where
    opened : Running params (new_wizard params)
    chooses :
        {w : Wizard} (t : SecKeyType)
        → Running params w
        → w.result ≡ shown
        → w.page ≡ password_input_page
        → (uses_tpm t ≡ true → is_zero (m.tpm_code) ≡ true)
        → Running params (record w { enc_type = t })
    types_keys :
        {w : Wizard} (s t : String)
        → Running params w
        → w.result ≡ shown
        → w.page ≡ password_input_page
        → Running params (record w { key_edit1 = s; key_edit2 = t })
    types_path :
        {w : Wizard} (s : String)
        → Running params w
        → w.result ≡ shown
        → w.page ≡ export_key_page
        → Running params (on_exp_path_changed s false (record w { key_export_input = s }))
    clicks_first :
        {w : Wizard} → Running params w → w.result ≡ shown → Running params (on_button_clicked 0 w)
    clicks_next :
        {w : Wizard}
        → Running params w
        → w.result ≡ shown
        → w.page ≡ export_key_page
        → w.next_enabled ≡ true
        → Running params (on_button_clicked 1 w)
    closes :
        {w : Wizard}
        → Running params w
        → w.result ≡ shown
        → Running params (record w { result = rejected })
