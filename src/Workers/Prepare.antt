-- ===== src/Workers/Prepare.antt =====
-- encrypt/encryptworker.cpp: `PrencryptWorker`.
use dde_file_manager_extensi.Prelude.{
  zero, suc, ℤ, pos, negsuc, is_neg, is_zero, not, String, Bool, false, ◌||◌, Option, none, some,
  or_else, List, [], ◌∷◌, Hash, insert, is_empty, mid, ◌<>◌, squeeze_slashes, if◌then◌else◌,
}
use dde_file_manager_extensi.DiskEncrypt.{
  EncryptParams, fail, value_of, open_fstab_failed, disabled_mount_point, params_invalid,
  create_header, apply_header, disabled_encrypt_path,
}
use dde_file_manager_extensi.DiskEncrypt.Calls.{
  Env, World, Action, Json, text, other, reads_file, opens_file, writes_file, call, call_output,
}
use dde_file_manager_extensi.DiskEncrypt.Device.{validate_params}
use dde_file_manager_extensi.DiskEncrypt.Header.{Header, init_header_file, init_header_device}
use dde_file_manager_extensi.Tables.Fstab.{fstab_with_timeout}
use dde_file_manager_extensi.Workers.{Params, convert_params, write_job}

-- The exit code and the two key slots that the worker offers when it ends.
pub record Prepared : Type 0 where
  pub exit_code : ℤ
  pub keyslot_cipher : ℤ
  pub keyslot_rec_key : ℤ

abbrev pub ends_with_code : ℤ → Prepared
ends_with_code code = record {
  exit_code = code;
  keyslot_cipher = negsuc 0;
  keyslot_rec_key = negsuc 0;
}

abbrev pub ends_with_slots : Header → ℤ → Prepared
ends_with_slots header code = record {
  exit_code = code;
  keyslot_cipher = header.keyslot_cipher;
  keyslot_rec_key = or_else header.keyslot_rec_key (negsuc 0);
}

unfoldable pub enc_mode : ℤ → String
enc_mode (pos zero) = "pin"
enc_mode (pos (suc zero)) = "tpm-pin"
enc_mode (pos (suc (suc zero))) = "tpm"
enc_mode mode = ""

unfoldable pub recovery_file : String → String → String
recovery_file path device =
    if is_empty path
    then ""
    else squeeze_slashes (path <> ("/recovery_key_" <> (mid 5 device <> ".txt")))

module _ (env : Env) where
  -- `kDisabledEncryptPath.contains(mpt, Qt::CaseInsensitive)`
  unfoldable pub listed : String → List String → Bool
  listed mount_point [] = false
  listed mount_point (path ∷ paths) =
      env.same_ignoring_case path mount_point || listed mount_point paths

  -- The object of encrypt.json.
  unfoldable pub encrypt_job : Params → Hash Json
  encrypt_job params =
      let dev = params.to_text "device" in
      insert "tpm-config" (other (env.print_object (env.parse_object (params.to_text "tpmConfig"))))
        (insert "recoverykey-path" (text (recovery_file (params.to_text "exportRecKeyTo") dev)) (
          insert "mode" (text (enc_mode (params.to_num "mode"))) (
            insert "key-size" (text "256") (
              insert "cipher" (text (params.to_text "cipher" <> "-xts-plain64")) (
                insert "device-mountpoint" (text (params.to_text "mountpoint")) (
                  insert "device-name" (text (params.to_text "deviceName")) (
                    insert "device-path" (text dev) (
                      insert "device" (text ("UUID=" <> params.to_text "uuid"))
                        (insert "volume" (text ("dm-" <> mid 5 dev)) [])))))))))

  unfoldable pub write_encrypt_params : Params → Action ℤ
  write_encrypt_params params =
      write_job env "/boot/usec-crypt/encrypt.json" (encrypt_job params) (pos 0)

  unfoldable pub set_fstab_timeout : Params → Action ℤ
  set_fstab_timeout params w =
      let ((opened, contents), w1) = call_output env (reads_file "/etc/fstab") w in
      if is_neg opened
      then (pos (value_of open_fstab_failed), w1)
      else (elim (fstab_with_timeout (params.to_text "device") ("UUID=" <> params.to_text "uuid")
          contents) [
            | none ↦ (pos 0, w1)
            | some written ↦
                (let (reopened, w2) = call env (opens_file "/etc/fstab") w1 in
                  if is_neg reopened
                  then (pos (value_of open_fstab_failed), w2)
                  else (pos 0, (call env (writes_file "/etc/fstab" written) w2).1))
          ])

  -- The token is cached in a file; where that file does not open, the job still ends with success.
  unfoldable pub cache_token : EncryptParams → World → World
  cache_token params w =
      if is_empty params.tpm_token
      then w
      else (let file = "/tmp/" <> (mid 5 params.device <> "_tpm_token.json") in
          let (opened, w1) = call env (opens_file file) w in
          if is_neg opened then w1 else (call env (writes_file file params.tpm_token) w1).1)

  -- From the answer of `bcInitHeaderFile` on.
  unfoldable pub apply_prepared : EncryptParams → ℤ → Option Header → Action Prepared
  apply_prepared params err none w = (ends_with_code (fail create_header), w)
  apply_prepared params err (some header) w =
      if not (is_zero err) || is_empty header.path
      then (ends_with_code (fail create_header), w)
      else (let (o, w1) = init_header_device env params.device header.path w in
          if not (is_zero o.result)
          then (ends_with_slots header (fail apply_header), w1)
          else (ends_with_slots header (pos 0), cache_token params w1))

  -- `PrencryptWorker::run`
  unfoldable pub prencrypt_run : Params → Action Prepared
  prencrypt_run params w =
      if listed (params.to_text "mountpoint") disabled_encrypt_path
      then (ends_with_code (fail disabled_mount_point), w)
      else if params.to_flag "initParamsOnly"
      then (let (code, w1) = write_encrypt_params params w in
          (ends_with_code code, (set_fstab_timeout params w1).1))
      else (let enc_params = convert_params params in
          let (valid, w1) = validate_params env enc_params w in
          if not valid
          then (ends_with_code (fail params_invalid), w1)
          else (let (o, w2) = init_header_file env enc_params w1 in
              apply_prepared enc_params o.result o.out w2))
