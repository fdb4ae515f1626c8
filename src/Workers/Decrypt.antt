-- ===== src/Workers/Decrypt.antt =====
-- encrypt/encryptworker.cpp: `DecryptWorker` and `ReencryptWorker`.
use dde_file_manager_extensi.Prelude.{
  ℤ, pos, is_neg, String, true, [], Hash, insert, ◌<>◌, if◌then◌else◌,
}
use dde_file_manager_extensi.DiskEncrypt.{fail, reboot_required}
use dde_file_manager_extensi.DiskEncrypt.Calls.{Env, Action, Json, text}
use dde_file_manager_extensi.DiskEncrypt.Reencrypt.{decrypt_device, resume_reencrypt}
use dde_file_manager_extensi.Workers.{Params, write_job}

unfoldable pub decrypt_job : Params → Hash Json
decrypt_job params =
    insert "device" (text ("UUID=" <> params.to_text "uuid"))
      (insert "device-path" (text (params.to_text "device")) [])

module _ (env : Env) where
  unfoldable pub write_decrypt_params : Params → Action ℤ
  write_decrypt_params params =
      write_job env "/boot/usec-crypt/decrypt.json" (decrypt_job params) (fail reboot_required)

  -- `DecryptWorker::run`, to its exit code.
  unfoldable pub decrypt_run : Params → Action ℤ
  decrypt_run params w =
      if params.to_flag "initParamsOnly"
      then write_decrypt_params params w
      else (let (o, w1) =
            decrypt_device env (params.to_text "device") (params.to_text "passphrase") w in
          (if is_neg o.result then o.result else pos 0, w1))

  -- `ReencryptWorker::run`, to the result that it emits; the file system is expanded.
  unfoldable pub reencrypt_run : String → String → Action ℤ
  reencrypt_run device passphrase w =
      let (o, w1) = resume_reencrypt env device passphrase "" true w in (o.result, w1)
