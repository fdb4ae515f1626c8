-- ===== src/Workers/Service.antt =====
-- dbus/diskencryptdbus.cpp: the requests of the bus, each run with the job that it starts up to the
-- end of the job's thread and of the slots connected to it.
use dde_file_manager_extensi.Prelude.{
  ℤ, pos, neg, is_neg, is_zero, not, String, Bool, true, false, ◌||◌, ◌&&◌, none, some, List, [],
  ◌∷◌, is_empty, if◌then◌else◌,
}
use dde_file_manager_extensi.DiskEncrypt.{fail, user_cancelled}
use dde_file_manager_extensi.DiskEncrypt.Calls.{
  Env, World, Action, reads_file, opens_file, writes_file, removes_file, call, call_output,
}
use dde_file_manager_extensi.DiskEncrypt.Keyslots.{set_token, get_token}
use dde_file_manager_extensi.Tables.Crypttab.{checked_crypttab}
use dde_file_manager_extensi.Workers.{Params}
use dde_file_manager_extensi.Workers.Prepare.{Prepared, prencrypt_run}
use dde_file_manager_extensi.Workers.Decrypt.{decrypt_run, reencrypt_run}
use dde_file_manager_extensi.Workers.Passphrase.{chg_pass_run}
use dde_file_manager_extensi.Workers.Online.{enc_config_path, rec_token}

-- The signals of the service: the device, its name, the job where there is one, and the code.
pub data Result : Type 0 where
  prepare_encrypt_disk_result : String → String → String → ℤ → Result
  encrypt_disk_result : String → String → ℤ → Result
  decrypt_disk_result : String → String → String → ℤ → Result
  change_passphrase_result : String → String → String → ℤ → Result

-- What a request leaves: the job it answers with, and the signals, in order.
abbrev pub Reply : Type 0
Reply = String × List Result

module _ (env : Env) where
  -- `DiskEncryptDBus::setToken`
  unfoldable pub set_token_of : String → String → World → World
  set_token_of dev token w = if is_empty token then w else (set_token env dev token w).1

  -- `startReencrypt` with the slots that it connects.
  unfoldable pub start_reencrypt : String → String → String → String → ℤ → Action (List Result)
  start_reencrypt dev name passphrase token rec_pos w =
      let (result, w1) = reencrypt_run env dev passphrase w in
      let w2 = set_token_of dev token w1 in
      (
        encrypt_disk_result dev name result ∷ [],
        if is_neg rec_pos then w2 else set_token_of dev (rec_token (env.number_text rec_pos)) w2,
      )

  -- The slot of `PrepareEncryptDisk` that the end of the worker calls.
  unfoldable pub prepared : Params → String → Prepared → Action (List Result)
  prepared params job worker w =
      let device = params.to_text "device" in
      if params.to_flag "initParamsOnly" || not (is_zero worker.exit_code)
      then (
        prepare_encrypt_disk_result device (params.to_text "deviceName") job worker.exit_code ∷ [],
        w,
      )
      else start_reencrypt device (params.to_text "deviceName") (params.to_text "passphrase")
          (params.to_text "tpmToken") worker.keyslot_rec_key w

  -- The first argument says whether polkit allows the action, and the job is named by the time.
  unfoldable pub prepare_encrypt_disk : Bool → String → Params → Action Reply
  prepare_encrypt_disk allowed job params w =
      if not allowed
      then (
        (
          "",
          prepare_encrypt_disk_result (params.to_text "device") (params.to_text "deviceName") ""
                (fail user_cancelled)
              ∷ [],
        ),
        w,
      )
      else (let (worker, w1) = prencrypt_run env params w in
          let (signals, w2) = prepared params job worker w1 in ((job, signals), w2))

  unfoldable pub decrypt_disk : Bool → String → Params → Action Reply
  decrypt_disk allowed job params w =
      let dev = params.to_text "device" in
      let name = params.to_text "deviceName" in
      if not allowed
      then (("", decrypt_disk_result dev name "" (fail user_cancelled) ∷ []), w)
      else if is_empty dev
          || (is_empty (params.to_text "passphrase") && not (params.to_flag "initParamsOnly"))
      then (("", []), w)
      else (let (code, w1) = decrypt_run env params w in
          ((job, decrypt_disk_result dev name job code ∷ []), w1))

  unfoldable pub change_encrypt_passphrase : Bool → String → Params → Action Reply
  change_encrypt_passphrase allowed job params w =
      let dev = params.to_text "device" in
      let name = params.to_text "deviceName" in
      if not allowed
      then (("", change_passphrase_result dev name "" (fail user_cancelled) ∷ []), w)
      else (let (code, w1) = chg_pass_run env params w in
          ((job, change_passphrase_result dev name job code ∷ []), w1))

  -- The token that `bcGetToken` wrote, or the empty text.
  unfoldable pub query_tpm_token : String → Action String
  query_tpm_token device w =
      let (o, w1) = get_token env device w in (elim o.out [ none ↦ "" | some token ↦ token ], w1)

  -- `onFstabDiskEncFinished`
  unfoldable pub on_fstab_disk_enc_finished : String → String → ℤ → Action (List Result)
  on_fstab_disk_enc_finished dev name result w =
      if is_zero result
      then (
        encrypt_disk_result dev name (pos 0) ∷ [],
        (call env (removes_file enc_config_path) w).1,
      )
      else (encrypt_disk_result dev name (neg 1000) ∷ [], w)

  -- `DiskEncryptDBus::updateCrypttab`, over the devices and the UUIDs that the monitor lists.
  unfoldable pub check_crypttab : List (String × String) → Action Bool
  check_crypttab devices w =
      let ((opened, contents), w1) = call_output env (reads_file "/etc/crypttab") w in
      if is_neg opened
      then (false, w1)
      else (elim (checked_crypttab devices (env.block_device w1.events) contents) [
        | none ↦ (false, w1)
        | some written ↦
            (let (reopened, w2) = call env (opens_file "/etc/crypttab") w1 in
              if is_neg reopened
              then (false, w2)
              else (true, (call env (writes_file "/etc/crypttab" written) w2).1))
      ])
