-- ===== src/Workers/Startup.antt =====
-- dbus/diskencryptdbus.cpp: the start of the service with its online worker, the parameters that the
-- worker is given, and the progress that is passed on.
use dde_file_manager_extensi.Prelude.{
  ℕ, String, Bool, true, false, Option, none, some, List, [], ◌∷◌,
}
use dde_file_manager_extensi.DiskEncrypt.{EncryptConfig, fail, user_cancelled}
use dde_file_manager_extensi.DiskEncrypt.Calls.{Env, Action}
use dde_file_manager_extensi.DiskEncrypt.Device.{read_encrypt_config}
use dde_file_manager_extensi.Workers.{Params}
use dde_file_manager_extensi.Workers.Online.{Online, online_run}
use dde_file_manager_extensi.Workers.Service.{
  Result, prepare_encrypt_disk_result, encrypt_disk_result,
}

-- `DiskEncryptDBus::SetEncryptParams`: the parameters of the worker, `none` where there is no worker,
-- and the signals. The name is that of the last device.
unfoldable pub set_encrypt_params :
    Bool → String → Params → Option Params → Option Params × List Result
set_encrypt_params false name params worker = (
  worker,
  prepare_encrypt_disk_result (params.to_text "device") name "" (fail user_cancelled) ∷ [],
)
set_encrypt_params true name params none = (none, [])
set_encrypt_params true name params (some old) = (some params, [])

-- What the service keeps of the device that is encrypted.
pub record Current : Type 0 where
  pub device : String
  pub name : String

-- A progress of a device, as the offset and the total whose quotient is sent.
pub record Progress : Type 0 where
  pub device : String
  pub name : String
  pub offset : ℕ
  pub total : ℕ

unfoldable pub on_fstab_disk_enc_progress_updated : Current → ℕ → ℕ → Progress
on_fstab_disk_enc_progress_updated current offset total = record {
  device = current.device;
  name = current.name;
  offset = offset;
  total = total;
}

module _ (env : Env) where
  -- The signal of the worker's end, if it came to emit it.
  unfoldable pub finished_signal : EncryptConfig → Online → List Result
  finished_signal config o = elim (o.result) [
    | none ↦ []
    | some code ↦ encrypt_disk_result (config.device_path) (config.device_name) code ∷ []
  ]

  -- `DiskEncryptDBus::triggerReencrypt` with the worker up to its end: the configuration file, none
  -- where it cannot be read, and the parameters that the worker sees while it waits.
  unfoldable pub trigger_reencrypt :
      Option String → EncryptConfig → List Params → Action (Current × List Result)
  trigger_reencrypt contents empty seen w =
      let config = read_encrypt_config env contents empty in
      let (o, w1) = online_run env config seen w in
      (
        (
          record { device = config.device_path; name = config.device_name },
          finished_signal config o,
        ),
        w1,
      )
