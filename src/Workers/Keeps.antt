-- ===== src/Workers/Keeps.antt =====
-- encrypt/encryptworker.cpp: the jobs keep what the functions of encrypt/diskencrypt.cpp keep.
use dde_file_manager_extensi.Prelude.{
  ℤ, pos, String, Bool, true, false, refl, Option, none, some, Option-cases, arith, inl, inr, Hash,
  ◌<>◌, mid,
}
use dde_file_manager_extensi.DiskEncrypt.{EncryptParams, fail, reboot_required}
use dde_file_manager_extensi.DiskEncrypt.Calls.{
  Env, World, Json, makes_path, opens_file, writes_file, reads_file, call, call_output,
}
use dde_file_manager_extensi.DiskEncrypt.Device.{validate_params}
use dde_file_manager_extensi.DiskEncrypt.Header.{Header, init_header_file, init_header_device}
use dde_file_manager_extensi.DiskEncrypt.Keyslots.{set_token, keyslot_after}
use dde_file_manager_extensi.DiskEncrypt.Keeps.{Keeps, Brackets, call-step, output-step}
use dde_file_manager_extensi.DiskEncrypt.Bodies.{validate_params-Keeps}
use dde_file_manager_extensi.DiskEncrypt.Functions.{
  change_passphrase-Keeps, change_passphrase_by_rec_key-Keeps, set_token-Keeps,
  init_header_file-Keeps, init_header_device-Keeps, decrypt_device-Keeps, resume_reencrypt-Keeps,
}
use dde_file_manager_extensi.Tables.Fstab.{fstab_with_timeout}
use dde_file_manager_extensi.Workers.{
  Params, convert_params, create_usec_path_if_not_exist, write_job, update_token_keyslots,
}
use dde_file_manager_extensi.Workers.Prepare.{
  encrypt_job, write_encrypt_params, set_fstab_timeout, cache_token, apply_prepared, prencrypt_run,
}
use dde_file_manager_extensi.Workers.Decrypt.{
  decrypt_job, write_decrypt_params, decrypt_run, reencrypt_run,
}
use dde_file_manager_extensi.Workers.Passphrase.{change_with, update_token, chg_pass_run}

module _ (env : Env) (I J : World → Type 0) (brackets : Brackets I J) where
  write_job-Keeps :
      (path : String) (obj : Hash Json) (done : ℤ) → Keeps I (write_job env path obj done)
  unfolding write_job create_usec_path_if_not_exist
  write_job-Keeps path obj done = record {
    kept = λ w h.
        let w1 = create_usec_path_if_not_exist env w in
        ground (
          arith,
          call-step env I brackets.outside (makes_path "/boot/usec-crypt") refl w h,
          call-step env I brackets.outside (opens_file path) refl w1,
          call-step env I brackets.outside (writes_file path (env.print_object obj)) refl
              (call env (opens_file path) w1).1,
        );
  }

  set_fstab_timeout-Keeps : (params : Params) → Keeps I (set_fstab_timeout env params)
  unfolding set_fstab_timeout
  set_fstab_timeout-Keeps params = record {
    kept = λ w h.
        let ((a, contents), w1) = call_output env (reads_file "/etc/fstab") w in
        let w2 = (call env (opens_file "/etc/fstab") w1).1 in
        let h1 = output-step env I brackets.outside (reads_file "/etc/fstab") refl w h in
        let h2 = call-step env I brackets.outside (opens_file "/etc/fstab") refl w1 h1 in
        elim (Option-cases (
          fstab_with_timeout (params.to_text "device") ("UUID=" <> params.to_text "uuid")
            contents)) [
              | inl e ↦ rw e (ground (arith, h1))
              | inr (t, e) ↦ rw e (
                  ground (
                    arith,
                    h1,
                    h2,
                    call-step env I brackets.outside (writes_file "/etc/fstab" t) refl w2 h2,
                  ))
            ];
  }

  pub cache_token-Keeps : (params : EncryptParams) (w : World) → I w → I (cache_token env params w)
  unfolding cache_token
  cache_token-Keeps params w h =
      let file = "/tmp/" <> (mid 5 params.device <> "_tpm_token.json") in
      ground (
        arith,
        call-step env I brackets.outside (opens_file file) refl w h,
        call-step env I brackets.outside (writes_file file params.tpm_token) refl
            (call env (opens_file file) w).1,
      )

  apply_prepared-Keeps :
      (params : EncryptParams) (err : ℤ) (o : Option Header)
      → Keeps I (apply_prepared env params err o)
  unfolding apply_prepared
  apply_prepared-Keeps params err none = record { kept = λ w h. h }
  apply_prepared-Keeps params err (some header) = record {
    kept = λ w h. ground (
      arith,
      (init_header_device-Keeps env I J brackets params.device header.path).kept w h,
      cache_token-Keeps params (init_header_device env params.device header.path w).1,
    );
  }

  pub prencrypt_run-Keeps : (params : Params) → Keeps I (prencrypt_run env params)
  unfolding prencrypt_run write_encrypt_params
  prencrypt_run-Keeps params = record {
    kept = λ w h.
        let enc = convert_params params in
        let w1 = (validate_params env enc w).1 in
        let (o, w2) = init_header_file env enc w1 in
        ground (
          arith,
          (write_job-Keeps "/boot/usec-crypt/encrypt.json" (encrypt_job env params) (pos 0)).kept w
              h,
          (set_fstab_timeout-Keeps params).kept
              (write_job env "/boot/usec-crypt/encrypt.json" (encrypt_job env params) (pos 0) w).1,
          (validate_params-Keeps env I brackets.outside enc).kept w h,
          (init_header_file-Keeps env I J brackets enc).kept w1,
          (apply_prepared-Keeps enc o.result o.out).kept w2,
        );
  }

  pub decrypt_run-Keeps : (params : Params) → Keeps I (decrypt_run env params)
  unfolding decrypt_run write_decrypt_params
  decrypt_run-Keeps params = record {
    kept = λ w h. ground (
      arith,
      (write_job-Keeps "/boot/usec-crypt/decrypt.json" (decrypt_job params)
            (fail reboot_required)).kept
          w h,
      (decrypt_device-Keeps env I J brackets (params.to_text "device")
            (params.to_text "passphrase")).kept
          w h,
    );
  }

  pub reencrypt_run-Keeps :
      (device passphrase : String) → Keeps I (reencrypt_run env device passphrase)
  unfolding reencrypt_run
  reencrypt_run-Keeps device passphrase = record {
    kept = λ w h. (resume_reencrypt-Keeps env I J brackets device passphrase "" true).kept w h;
  }

  change_with-Keeps : (b : Bool) (dev old new : String) → Keeps I (change_with env b dev old new)
  unfolding change_with
  change_with-Keeps true dev old new =
      change_passphrase_by_rec_key-Keeps env I J brackets dev old new
  change_with-Keeps false dev old new = change_passphrase-Keeps env I J brackets dev old new

  update_token-Keeps :
      (dev old new token : String) (slot : ℤ) → Keeps I (update_token env dev old new token slot)
  unfolding update_token
  update_token-Keeps dev old new token slot = record {
    kept = λ w h.
        let t = update_token_keyslots env token slot in
        ground (
          arith,
          (set_token-Keeps env I J brackets dev t).kept w h,
          (change_passphrase-Keeps env I J brackets dev new old).kept (set_token env dev t w).1,
        );
  }

  pub chg_pass_run-Keeps : (params : Params) → Keeps I (chg_pass_run env params)
  unfolding chg_pass_run
  chg_pass_run-Keeps params = record {
    kept = λ w h.
        let dev = params.to_text "device" in
        let old = params.to_text "oldPassphrase" in
        let new = params.to_text "passphrase" in
        let (o, w1) = change_with env (params.to_flag "usingRecKey") dev old new w in
        ground (
          arith,
          (change_with-Keeps (params.to_flag "usingRecKey") dev old new).kept w h,
          (update_token-Keeps dev old new (params.to_text "tpmToken")
                (keyslot_after (pos 0) o)).kept
              w1,
        );
  }
