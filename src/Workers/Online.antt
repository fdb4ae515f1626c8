-- ===== src/Workers/Online.antt =====
-- encrypt/encryptworker.cpp: `ReencryptWorkerV2`, which finishes an online encryption after a reboot.
-- The parameters come from another thread while the worker waits: the model is given what the worker
-- sees of them at each round of its wait, and after that those that are set until the device has been
-- converted, when the worker reads the last of them.
use dde_file_manager_extensi.Prelude.{
  ℕ, suc, ℤ, pos, negsuc, is_neg, is_zero, not, String, Bool, true, false, ◌==◌, ◌||◌, Option, none,
  some, List, [], ◌∷◌, is_empty, ◌<>◌, if◌then◌else◌,
}
use dde_file_manager_extensi.DiskEncrypt.{EncryptConfig, EncryptStatus, online_unfinished}
use dde_file_manager_extensi.DiskEncrypt.Calls.{
  Env, World, Action, Outcome, reads_file, opens_file, writes_file, removes_file, call, call_output,
}
use dde_file_manager_extensi.DiskEncrypt.Device.{exp_rec_file}
use dde_file_manager_extensi.DiskEncrypt.Keyslots.{
  keyslot_after, change_passphrase, change_passphrase_by_rec_key, set_token, set_label,
  dev_encrypt_status,
}
use dde_file_manager_extensi.DiskEncrypt.Reencrypt.{resume_reencrypt}
use dde_file_manager_extensi.Tables.Crypttab.{crypttab_with_tpm}
use dde_file_manager_extensi.Workers.{Params, update_token_keyslots}

abbrev pub enc_config_path : String
enc_config_path = "/boot/usec-crypt/encrypt.json"

-- What a run leaves: its exit code, the number of `requestEncryptParams` that it emitted, and the
-- result of its `deviceReencryptResult`, if it came to emit it.
pub record Online : Type 0 where
  pub exit_code : ℤ
  pub requests : ℕ
  pub result : Option ℤ

unfoldable pub params_valid : EncryptConfig → Params → Bool
params_valid config params =
    if params.is_empty_map
    then false
    else if not (params.to_text "device" == config.device_path)
    then false
    else not (is_empty (params.to_text "passphrase"))

-- The wait, from `requests` emitted requests on.
unfoldable pub await_params : EncryptConfig → List Params → ℕ → Option Params × ℕ
await_params config [] requests = (none, requests)
await_params config (params ∷ later) requests =
    let rest = await_params config later (suc requests) in
    if params_valid config params then (some params, requests) else rest

-- The parameters that stand at the end.
unfoldable pub latest : Params → List Params → Params
latest params [] = params
latest params (later ∷ seen) = latest later seen

abbrev is_online_unfinished : Option EncryptStatus → Bool
is_online_unfinished (some online_unfinished) = true
is_online_unfinished _ = false

unfoldable pub rec_token : String → String
rec_token slot = "{ 'type': 'usec-recoverykey', 'keyslots': ['" <> (slot <> "'] }")

module _ (env : Env) where
  unfoldable pub has_unfinished_online_encryption : EncryptConfig → Action Bool
  has_unfinished_online_encryption config w =
      if is_empty config.device_path
      then (false, w)
      else (let (o, w1) = dev_encrypt_status env config.device_path w in
          (if is_zero o.result then is_online_unfinished o.out else false, w1))

  -- A step that sets the exit code where it fails.
  abbrev pub code_after : {R : Type 0} → Outcome R → ℤ → ℤ
  code_after o code = if is_zero o.result then code else o.result

  unfoldable pub set_passphrase : EncryptConfig → Params → ℤ → Action ℤ
  set_passphrase config params code w =
      let token = params.to_text "tpmToken" in
      let (o, w1) = change_passphrase env config.device_path "" (params.to_text "passphrase") w in
      if not (is_zero o.result) || is_empty token
      then (code_after o code, w1)
      else (let (t, w2) =
            set_token env config.device_path
              (update_token_keyslots env token (keyslot_after (negsuc 0) o)) w1 in
          (code_after t code, w2))

  unfoldable pub set_recovery_key : EncryptConfig → Params → ℤ → Action ℤ
  set_recovery_key config params code w =
      let rec_path = params.to_text "exportRecKeyTo" in
      if is_empty rec_path
      then (code, w)
      else (let (rec_pass, w1) = exp_rec_file env config.device_path rec_path w in
          if is_empty rec_pass
          then (code, w1)
          else (let (o, w2) =
                change_passphrase_by_rec_key env config.device_path (params.to_text "passphrase")
                  rec_pass w1 in
              if not (is_zero o.result)
              then (o.result, w2)
              else (let (t, w3) =
                    set_token env config.device_path
                      (rec_token (env.number_text (keyslot_after (negsuc 0) o))) w2 in
                  (code_after t code, w3))))

  unfoldable pub set_backing_dev_label : EncryptConfig → World → World
  set_backing_dev_label config w = (set_label env config.device_path config.device_name w).1

  unfoldable pub write_crypttab : Option String → World → World
  write_crypttab none w = w
  write_crypttab (some written) w =
      let (opened, w1) = call env (opens_file "/etc/crypttab") w in
      if is_neg opened then w1 else (call env (writes_file "/etc/crypttab" written) w1).1

  unfoldable pub update_crypttab : Params → World → World
  update_crypttab params w =
      if is_empty (params.to_text "tpmToken")
      then w
      else (let ((opened, contents), w1) = call_output env (reads_file "/etc/crypttab") w in
          if is_neg opened
          then w1
          else write_crypttab
              (crypttab_with_tpm ("UUID=" <> params.to_text "backingDevUUID") contents) w1)

  unfoldable pub remove_encrypt_file : World → World
  remove_encrypt_file w = (call env (removes_file enc_config_path) w).1

  -- What follows a finished encryption.
  unfoldable pub settle : EncryptConfig → Params → Action ℤ
  settle config params w =
      let (code, w1) = set_passphrase config params (pos 0) w in
      let (code', w2) = set_recovery_key config params code w1 in
      (code', remove_encrypt_file (update_crypttab params (set_backing_dev_label config w2)))

  -- What follows the wait. The parameters are read again once the device has been converted.
  unfoldable pub resume_with : EncryptConfig → List Params → Option Params × ℕ → Action Online
  resume_with config seen (none, requests) w =
      (record { exit_code = pos 0; requests = requests; result = none }, w)
  resume_with config seen (some params, requests) w =
      let (o, w1) = resume_reencrypt env config.device_path "" config.clear_dev false w in
      if is_zero o.result
      then (let (code, w2) = settle config (latest params seen) w1 in
          (record { exit_code = code; requests = requests; result = some o.result }, w2))
      else (record { exit_code = o.result; requests = requests; result = some o.result }, w1)

  -- `ReencryptWorkerV2::run`
  unfoldable pub online_run : EncryptConfig → List Params → Action Online
  online_run config seen w =
      let (unfinished, w1) = has_unfinished_online_encryption config w in
      if unfinished
      then resume_with config seen (await_params config seen 0) w1
      else (record { exit_code = pos 0; requests = 0; result = none }, w1)
