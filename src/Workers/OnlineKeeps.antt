-- ===== src/Workers/OnlineKeeps.antt =====
-- encrypt/encryptworker.cpp: `ReencryptWorkerV2` keeps what the functions of encrypt/diskencrypt.cpp
-- keep.
use dde_file_manager_extensi.Prelude.{
  ℕ, ℤ, pos, negsuc, String, false, refl, Option, none, some, arith, List, ◌<>◌,
}
use dde_file_manager_extensi.DiskEncrypt.{EncryptConfig}
use dde_file_manager_extensi.DiskEncrypt.Calls.{
  Env, World, opens_file, writes_file, reads_file, removes_file, call, call_output,
}
use dde_file_manager_extensi.DiskEncrypt.Device.{exp_rec_file}
use dde_file_manager_extensi.DiskEncrypt.Keyslots.{
  change_passphrase, change_passphrase_by_rec_key, keyslot_after,
}
use dde_file_manager_extensi.DiskEncrypt.Reencrypt.{resume_reencrypt}
use dde_file_manager_extensi.DiskEncrypt.Keeps.{Keeps, Brackets, call-step, output-step}
use dde_file_manager_extensi.DiskEncrypt.Bodies.{exp_rec_file-Keeps}
use dde_file_manager_extensi.DiskEncrypt.Functions.{
  change_passphrase-Keeps, change_passphrase_by_rec_key-Keeps, set_token-Keeps, set_label-Keeps,
  dev_encrypt_status-Keeps, resume_reencrypt-Keeps,
}
use dde_file_manager_extensi.Tables.Crypttab.{crypttab_with_tpm}
use dde_file_manager_extensi.Workers.{Params, update_token_keyslots}
use dde_file_manager_extensi.Workers.Online.{
  has_unfinished_online_encryption, set_passphrase, set_recovery_key, set_backing_dev_label,
  write_crypttab, update_crypttab, remove_encrypt_file, settle, latest, resume_with, online_run,
  await_params, rec_token, enc_config_path,
}

module _ (env : Env) (I J : World → Type 0) (brackets : Brackets I J) where
  has_unfinished-Keeps :
      (config : EncryptConfig) → Keeps I (has_unfinished_online_encryption env config)
  unfolding has_unfinished_online_encryption
  has_unfinished-Keeps config = record {
    kept = λ w h.
        ground (arith, h, (dev_encrypt_status-Keeps env I J brackets config.device_path).kept w h);
  }

  set_passphrase-Keeps :
      (config : EncryptConfig) (params : Params) (code : ℤ)
      → Keeps I (set_passphrase env config params code)
  unfolding set_passphrase
  set_passphrase-Keeps config params code = record {
    kept = λ w h.
        let pass = params.to_text "passphrase" in
        let (o, w1) = change_passphrase env config.device_path "" pass w in
        let t =
          update_token_keyslots env (params.to_text "tpmToken") (keyslot_after (negsuc 0) o) in
        ground (
          arith,
          (change_passphrase-Keeps env I J brackets config.device_path "" pass).kept w h,
          (set_token-Keeps env I J brackets config.device_path t).kept w1,
        );
  }

  set_recovery_key-Keeps :
      (config : EncryptConfig) (params : Params) (code : ℤ)
      → Keeps I (set_recovery_key env config params code)
  unfolding set_recovery_key
  set_recovery_key-Keeps config params code = record {
    kept = λ w h.
        let path = params.to_text "exportRecKeyTo" in
        let pass = params.to_text "passphrase" in
        let (key, w1) = exp_rec_file env config.device_path path w in
        let (o, w2) = change_passphrase_by_rec_key env config.device_path pass key w1 in
        let t = rec_token (env.number_text (keyslot_after (negsuc 0) o)) in
        ground (
          arith,
          (exp_rec_file-Keeps env I brackets.outside config.device_path path).kept w h,
          (change_passphrase_by_rec_key-Keeps env I J brackets config.device_path pass key).kept w1,
          (set_token-Keeps env I J brackets config.device_path t).kept w2,
        );
  }

  write_crypttab-Keeps : (o : Option String) (w : World) → I w → I (write_crypttab env o w)
  unfolding write_crypttab
  write_crypttab-Keeps none w h = h
  write_crypttab-Keeps (some t) w h = ground (
    arith,
    call-step env I brackets.outside (opens_file "/etc/crypttab") refl w h,
    call-step env I brackets.outside (writes_file "/etc/crypttab" t) refl
        (call env (opens_file "/etc/crypttab") w).1,
  )

  update_crypttab-Keeps : (params : Params) (w : World) → I w → I (update_crypttab env params w)
  unfolding update_crypttab
  update_crypttab-Keeps params w h =
      let ((a, contents), w1) = call_output env (reads_file "/etc/crypttab") w in
      ground (
        arith,
        output-step env I brackets.outside (reads_file "/etc/crypttab") refl w h,
        write_crypttab-Keeps
            (crypttab_with_tpm ("UUID=" <> params.to_text "backingDevUUID") contents) w1,
      )

  settle-Keeps : (config : EncryptConfig) (params : Params) → Keeps I (settle env config params)
  unfolding settle set_backing_dev_label remove_encrypt_file
  settle-Keeps config params = record {
    kept = λ w h. call-step env I brackets.outside (removes_file enc_config_path) refl _ (
        update_crypttab-Keeps params _ (
          (set_label-Keeps env I J brackets config.device_path config.device_name).kept _ (
            (set_recovery_key-Keeps config params _).kept _
              ((set_passphrase-Keeps config params (pos 0)).kept w h))));
  }

  resume_with-Keeps :
      (config : EncryptConfig) (seen : List Params) (r : Option Params × ℕ)
      → Keeps I (resume_with env config seen r)
  unfolding resume_with
  resume_with-Keeps config seen (none, n) = record { kept = λ w h. h }
  resume_with-Keeps config seen (some params, n) = record {
    kept = λ w h.
        let w1 = (resume_reencrypt env config.device_path "" config.clear_dev false w).1 in
        ground (
          arith,
          (resume_reencrypt-Keeps env I J brackets config.device_path "" config.clear_dev
                false).kept
              w h,
          (settle-Keeps config (latest params seen)).kept w1,
        );
  }

  pub online_run-Keeps :
      (config : EncryptConfig) (seen : List Params) → Keeps I (online_run env config seen)
  unfolding online_run
  online_run-Keeps config seen = record {
    kept = λ w h.
        let w1 = (has_unfinished_online_encryption env config w).1 in
        ground (
          arith,
          (has_unfinished-Keeps config).kept w h,
          (resume_with-Keeps config seen (await_params config seen 0)).kept w1,
        );
  }
