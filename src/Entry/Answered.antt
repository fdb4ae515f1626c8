-- ===== src/Entry/Answered.antt =====
-- From the answer that a user gives in the file manager, through the bus, to the key slots of the device:
-- `doReencryptDevice` of menu/diskencryptmenuscene.cpp and `ReencryptWorkerV2::run` of the daemon.
use dde_file_manager_extensi.Prelude.{
  suc, ◌<◌, pos, is_zero, is_empty, String, true, false, ◌≡◌, some, List, [], ◌∷◌, ◌++◌, subst, sym,
}
use dde_file_manager_extensi.DiskEncrypt.{EncryptConfig}
use dde_file_manager_extensi.DiskEncrypt.Calls.{Env, World, Key}
use dde_file_manager_extensi.Tpm.{TpmLib}
use dde_file_manager_extensi.Workers.{Params}
use dde_file_manager_extensi.Workers.Online.{online_run}
use dde_file_manager_extensi.Workers.Waiting.{AllInvalid}
use dde_file_manager_extensi.Workers.KeySlots.{Whole, Honest, keys_after, count}
use dde_file_manager_extensi.Workers.OnlineKeys.{ReadsSome, online_run-keys}
use dde_file_manager_extensi.Entry.Wizard.{DeviceEncryptParam}
use dde_file_manager_extensi.Entry.Passphrase.{Host, Disk}
use dde_file_manager_extensi.Entry.Requests.{do_reencrypt_device}
use dde_file_manager_extensi.Entry.Daemon.{
  received, do_reencrypt_device-params_valid, do_reencrypt_device-passphrase,
}

module _ (host : Host) (lib : TpmLib) (algorithm : String) where
  -- What the worker has seen when the answer has come.
  abbrev pub seen_with : DeviceEncryptParam → Disk → List Params → List Params
  seen_with p disk earlier =
      earlier ++ (received (do_reencrypt_device host lib algorithm p disk) ∷ [])

  -- The key that a user gives for a device under conversion ends up in its key slots: if the online
  -- worker saw only invalid parameters before and none come after, the answer is for its device and the key is not empty,
  -- then where the worker reports success and ends with the code of success, the key opens the device,
  -- and one key slot of the device fewer is opened by the empty passphrase. The empty passphrase is
  -- changed with success only where it opens a slot. The key has as many bytes as UTF-16 units, as an
  -- ASCII text has, and of a text that is not empty libcryptsetup reads something.
  pub answered :
      (p : DeviceEncryptParam) (disk : Disk) (read : Key → String) (ks : List String) (env : Env)
      (config : EncryptConfig) (earlier : List Params) (w : World)
      → AllInvalid config earlier
      → p.dev_desc ≡ config.device_path
      → is_empty (p.key) ≡ false
      → ReadsSome read env
      → Whole read env (p.key)
      → Honest read ks env (p.dev_desc) "" (p.key)
      → let (o, w') = online_run env config (seen_with p disk earlier) w in
        o.result ≡ some (pos 0)
        → is_zero o.exit_code ≡ true
        → (0 < count (p.key) (keys_after read (p.dev_desc) ks w'.events))
          × (suc (count "" (keys_after read (p.dev_desc) ks w'.events))
              ≡ count "" (keys_after read (p.dev_desc) ks w.events))
  answered p disk read ks env config earlier w invalid device given reads whole honest done good =
      let sent = received (do_reencrypt_device host lib algorithm p disk) in
      let same = do_reencrypt_device-passphrase host lib algorithm p disk in
      let valid =
        (do_reencrypt_device-params_valid host lib algorithm p disk config).1 (device, given) in
      let w' = (online_run env config (seen_with p disk earlier) w).1 in
      let opened =
        online_run-keys read ks env reads config earlier sent w invalid valid
          (subst (λ d. Honest read ks env d "" (sent.to_text "passphrase")) device
            (subst (λ x. Honest read ks env (p.dev_desc) "" x) (sym same) honest))
          (subst (λ x. Whole read env x) (sym same) whole) done good in
      subst
        (λ d.
          (0 < count (p.key) (keys_after read d ks w'.events))
          × (suc (count "" (keys_after read d ks w'.events))
              ≡ count "" (keys_after read d ks w.events)))
        (sym device)
        (
          subst (λ x. 0 < count x (keys_after read config.device_path ks w'.events)) same opened.0,
          opened.1,
        )
