-- ===== src/Entry/Requests.antt =====
-- The calls of `DiskEncryptMenuScene` (menu/diskencryptmenuscene.cpp) to the daemon's bus service:
-- `doEncryptDevice`, `doReencryptDevice`, `doDecryptDevice`, `doChangePassphrase` and what leads to
-- them, and `cipherType` of utils/encryptutils.cpp. The dialogs' answers are parameters.
use dde_file_manager_extensi.Prelude.{
  String, Bool, true, false, ◌&&◌, ◌||◌, not, Option, none, some, [], ◌∷◌, if◌then◌else◌, is_empty,
  or_else, ◌==◌, ℤ, pos, is_zero, Hash, find, insert,
}
use dde_file_manager_extensi.Tpm.{TpmLib}
use dde_file_manager_extensi.Workers.{Params}
use dde_file_manager_extensi.Entry.Password.{SecKeyType, password_only, tpm_and_pin, tpm_only}
use dde_file_manager_extensi.Entry.Wizard.{DeviceEncryptParam}
use dde_file_manager_extensi.Entry.Passphrase.{Json, Host, Disk}
use dde_file_manager_extensi.Entry.Token.{
  token_json, gen_passphrase, get_passphrase, generate_tpm_config, generate_tpm_token,
}

pub data Value : Type 0 where
  text : String → Value
  flag : Bool → Value
  num : ℤ → Value

pub data Request : Type 0 where
  prepare_encrypt_disk set_encrypt_params decrypt_disk change_encrypt_passphress :
      Hash Value → Request

-- What becomes of a choice in the menu: a call, a dialog with an error, or nothing.
pub data Outcome : Type 0 where
  requests : Request → Outcome
  shows_error : String → String → Outcome
  shows_tpm_error : ℤ → Outcome
  nothing : Outcome

-- How the daemon reads the map that arrives.
abbrev text_in : Option Value → String
text_in (some (text s)) = s
text_in _ = ""

abbrev flag_in : Option Value → Bool
flag_in (some (flag b)) = b
flag_in _ = false

abbrev num_in : Option Value → ℤ
num_in (some (num n)) = n
num_in _ = pos 0

unfoldable pub params_of : Hash Value → Params
unfolding find
params_of m = record {
  to_text = λ k. text_in (find k m);
  to_flag = λ k. flag_in (find k m);
  to_num = λ k. num_in (find k m);
  is_empty_map = elim m [ [] ↦ true | e ∷ es ↦ false ];
}

-- `static_cast<int>(param.type)`
abbrev pub type_num : SecKeyType → ℤ
type_num password_only = pos 0
type_num tpm_and_pin = pos 1
type_num tpm_only = pos 2

-- The setting `encryptAlgorithm`, where it is supported.
unfoldable pub cipher_type : String → String
cipher_type cipher = if (cipher == "sm4") || (cipher == "aes") then cipher else "sm4"

abbrev pub is_pin : SecKeyType → Bool
is_pin tpm_and_pin = true
is_pin _ = false

abbrev pub is_password : SecKeyType → Bool
is_password password_only = true
is_password _ = false

abbrev pub with_text : String → String → Hash Value → Hash Value
with_text key value params = if is_empty value then params else insert key (text value) params

module _ (host : Host) (lib : TpmLib) (algorithm : String) where
  abbrev pub tpm_config : DeviceEncryptParam → String
  tpm_config p = if is_password (p.type) then "" else host.print (generate_tpm_config lib)

  abbrev pub tpm_token : DeviceEncryptParam → Disk → String
  tpm_token p disk =
      if is_password (p.type)
      then ""
      else generate_tpm_token host lib (p.dev_desc) (is_pin (p.type)) disk

  abbrev pub entries : DeviceEncryptParam → Hash Value → Hash Value
  entries p rest =
      ("device", text (p.dev_desc))
      ∷ ("uuid", text (p.uuid))
      ∷ ("cipher", text (cipher_type algorithm))
      ∷ ("passphrase", text (p.key))
      ∷ ("initParamsOnly", flag (p.init_only))
      ∷ ("exportRecKeyTo", text (p.export_path))
      ∷ ("mode", num (type_num (p.type)))
      ∷ ("deviceName", text (p.device_display_name))
      ∷ ("mountpoint", text (p.mount_point))
      ∷ rest

  unfoldable pub do_encrypt_device : DeviceEncryptParam → Disk → Request
  do_encrypt_device p disk = prepare_encrypt_disk (
      with_text "tpmToken" (tpm_token p disk) (with_text "tpmConfig" (tpm_config p) (entries p [])))

  unfoldable pub do_reencrypt_device : DeviceEncryptParam → Disk → Request
  do_reencrypt_device p disk = set_encrypt_params (
      with_text "tpmToken" (tpm_token p disk) (
        with_text "tpmConfig" (tpm_config p) (
          entries p (
            ("backingDevUUID", text (p.backing_dev_uuid))
            ∷ ("clearDevUUID", text (p.clear_dev_uuid))
            ∷ []))))

unfoldable pub do_decrypt_device : DeviceEncryptParam → Request
do_decrypt_device p = decrypt_disk (
    ("device", text (p.dev_desc))
    ∷ ("passphrase", text (p.key))
    ∷ ("initParamsOnly", flag (p.init_only))
    ∷ ("uuid", text (p.uuid))
    ∷ ("deviceName", text (p.device_display_name))
    ∷ [])

module _ (host : Host) (lib : TpmLib) where
  -- A value that is missing in the new token is stored as none: here, as the empty text.
  abbrev renewed : String → Hash Json → Hash Json → Hash Json
  renewed key new old = insert key (or_else (find key new) (Json.string "")) old

  -- The token that is sent, `none` where the old one cannot be read.
  unfoldable pub new_token : DeviceEncryptParam → Disk → Option String
  new_token p disk =
      if is_password (p.type) then some "" else elim (find (token_json (p.dev_desc)) (disk.files)) [
        | none ↦ none
        | some content ↦
            let new =
              host.parse (generate_tpm_token host lib (p.dev_desc) (is_pin (p.type)) disk) in
            some (
              host.print_compact (
                renewed "iv" new (
                  renewed "kek-pub" new
                    (renewed "kek-priv" new (renewed "enc" new (host.parse content))))))
      ]

  unfoldable pub do_change_passphrase : DeviceEncryptParam → Disk → Outcome
  do_change_passphrase p disk = elim (new_token p disk) [
    | none ↦ nothing
    | some token ↦ requests (
        change_encrypt_passphress (
          ("device", text (p.dev_desc))
          ∷ ("passphrase", text (p.new_key))
          ∷ ("oldPassphrase", text (p.key))
          ∷ ("usingRecKey", flag (p.validate_by_rec_key))
          ∷ ("tpmToken", text token)
          ∷ ("deviceName", text (p.device_display_name))
          ∷ []))
  ]

  -- `answer` is the dialog's, where it was accepted: the key, and whether it is a recovery key.
  unfoldable pub deencrypt_device : DeviceEncryptParam → Option (String × Bool) → Disk → Outcome
  deencrypt_device p answer disk =
      let sealed = get_passphrase host lib (p.dev_desc) "" disk in
      if not (is_password (p.type)) && not (is_pin (p.type))
      then (if is_empty sealed
          then shows_error "Error" "Cannot resolve passphrase from TPM"
          else requests (do_decrypt_device (record p { key = sealed })))
      else elim answer [
        | none ↦ nothing
        | some (key, is_rec) ↦
            let opened = get_passphrase host lib (p.dev_desc) key disk in
            if is_rec || is_password (p.type)
            then requests (do_decrypt_device (record p { key = key }))
            else if is_empty opened
            then shows_error "Error" "PIN error"
            else requests (do_decrypt_device (record p { key = opened }))
      ]

  -- `answer` is the dialog's: the old key, the new one, and whether the old is a recovery key.
  unfoldable pub change_passphrase :
      DeviceEncryptParam → Option (String × (String × Bool)) → Disk → Disk × Outcome
  change_passphrase p none disk = (disk, nothing)
  change_passphrase p (some (old, (new, is_rec))) disk =
      let dev = p.dev_desc in
      let old_key = if is_rec then old else get_passphrase host lib dev old disk in
      let made = gen_passphrase host lib dev new disk in
      let filled : String → String → DeviceEncryptParam =
        λ k n. record p { validate_by_rec_key = is_rec; key = k; new_key = n } in
      if is_pin (p.type)
      then (if not is_rec && is_empty old_key
          then (disk, shows_error "Error" "PIN error")
          else if not (is_zero made.1.0)
          then (made.0, shows_tpm_error made.1.0)
          else (made.0, do_change_passphrase (filled old_key made.1.1) made.0))
      else (disk, do_change_passphrase (filled old new) disk)
