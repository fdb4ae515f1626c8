-- ===== src/Workers/JobFile.antt =====
-- encrypt/encryptworker.cpp and diskencrypt.cpp: the job that `writeEncryptParams` writes is the one
-- that `bcReadEncryptConfig` reads after the reboot.
use dde_file_manager_extensi.Prelude.{◌≡◌, refl, some, ◌<>◌, mid, find, insert}
use dde_file_manager_extensi.DiskEncrypt.{EncryptConfig}
use dde_file_manager_extensi.DiskEncrypt.Calls.{Env}
use dde_file_manager_extensi.DiskEncrypt.Device.{read_encrypt_config}
use dde_file_manager_extensi.Workers.{Params}
use dde_file_manager_extensi.Workers.Prepare.{encrypt_job, enc_mode, recovery_file}

-- The configuration of a job: the cipher with its mode, the device by its UUID and by its path, and
-- `dm-…` for the opened device.
abbrev pub config_of : Params → EncryptConfig
config_of params = record {
  cipher = params.to_text "cipher" <> "-xts-plain64";
  device = "UUID=" <> params.to_text "uuid";
  mount_point = params.to_text "mountpoint";
  device_name = params.to_text "deviceName";
  device_path = params.to_text "device";
  key_size = "256";
  mode = enc_mode (params.to_num "mode");
  recovery_path = recovery_file (params.to_text "exportRecKeyTo") (params.to_text "device");
  clear_dev = "dm-" <> mid 5 (params.to_text "device");
}

-- Where JSON reads back the object that it printed, the configuration that is read from the job file is
-- the one that the parameters of the job describe, whatever was in the configuration before.
pub read_encrypt_config-encrypt_job :
    (env : Env) (params : Params) (before : EncryptConfig)
    → env.parse_object (env.print_object (encrypt_job env params)) ≡ encrypt_job env params
    → read_encrypt_config env (some (env.print_object (encrypt_job env params))) before
      ≡ config_of params
unfolding read_encrypt_config encrypt_job find insert
read_encrypt_config-encrypt_job env params before h = rw h refl
