-- ===== src/Entry/Daemon.antt =====
-- What the daemon reads of the requests of the menu.
use dde_file_manager_extensi.Prelude.{
  String, ◌≡◌, ◌↔◌, refl, ap, sym, ◌∙◌, true, false, none, some, if◌then◌else◌, [], ◌∷◌, inl, inr,
  arith, Bool-cases, is_empty, ◌==◌, eq_iff, eq_refl, find-insert, ◌<>◌, mid, Hash, find, insert,
}
use dde_file_manager_extensi.DiskEncrypt.{EncryptConfig}
use dde_file_manager_extensi.DiskEncrypt.Calls.{Env}
use dde_file_manager_extensi.DiskEncrypt.Device.{read_encrypt_config}
use dde_file_manager_extensi.Tpm.{TpmLib}
use dde_file_manager_extensi.Workers.{Params, convert_params}
use dde_file_manager_extensi.Workers.Prepare.{encrypt_job, enc_mode, recovery_file}
use dde_file_manager_extensi.Workers.JobFile.{config_of, read_encrypt_config-encrypt_job}
use dde_file_manager_extensi.Workers.Online.{params_valid}
use dde_file_manager_extensi.Entry.Password.{SecKeyType, password_only, tpm_and_pin, tpm_only}
use dde_file_manager_extensi.Entry.Wizard.{DeviceEncryptParam}
use dde_file_manager_extensi.Entry.Passphrase.{Host, Disk}
use dde_file_manager_extensi.Entry.Requests.{
  Value, Request, prepare_encrypt_disk, set_encrypt_params, decrypt_disk, change_encrypt_passphress,
  params_of, cipher_type, tpm_config, tpm_token, with_text, do_encrypt_device, do_reencrypt_device,
  entries, type_num,
}

-- The map of a request.
abbrev pub map_of : Request → Hash Value
map_of (prepare_encrypt_disk m) = m
map_of (set_encrypt_params m) = m
map_of (decrypt_disk m) = m
map_of (change_encrypt_passphress m) = m

abbrev pub received : Request → Params
received r = params_of (map_of r)

-- The name of a type in the configuration file.
abbrev pub mode_name : SecKeyType → String
mode_name password_only = "pin"
mode_name tpm_and_pin = "tpm-pin"
mode_name tpm_only = "tpm"

find-with_text :
    (j k v : String) (m : Hash Value) → (j == k) ≡ false → find k (with_text j v m) ≡ find k m
find-with_text j k v m h = elim (Bool-cases (is_empty v)) [
  | inl e ↦ rw e refl
  | inr e ↦ rw e (ground (arith, find-insert j k (Value.text v) m, h))
]

text-with_text :
    (j v : String) (m : Hash Value) → find j m ≡ none → (params_of (with_text j v m)).to_text j ≡ v
unfolding params_of
text-with_text j v m h = elim (Bool-cases (is_empty v)) [
  | inl e ↦ rw (e, h) (sym ((eq_iff v "").0 e))
  | inr e ↦ rw (e, find-insert j j (Value.text v) m, eq_refl j) refl
]

-- The map with the TPM's entries, if it has them.
abbrev tpm_map : String → String → Hash Value → Hash Value
tpm_map token config m = with_text "tpmToken" token (with_text "tpmConfig" config m)

find-tpm_map :
    (k token config : String) (m : Hash Value)
    → ("tpmToken" == k) ≡ false
    → ("tpmConfig" == k) ≡ false
    → find k (tpm_map token config m) ≡ find k m
find-tpm_map k token config m h i =
    find-with_text "tpmToken" k token (with_text "tpmConfig" config m) h
    ∙ find-with_text "tpmConfig" k config m i

-- A key that is not the TPM's is read as if the TPM's were not there.
module _ (token config : String) (m : Hash Value) (k : String) (h : ("tpmToken" == k) ≡ false)
    (i : ("tpmConfig" == k) ≡ false) where
  kept_text : (params_of (tpm_map token config m)).to_text k ≡ (params_of m).to_text k
  unfolding params_of
  kept_text = rw (find-tpm_map k token config m h i) refl

  kept_num : (params_of (tpm_map token config m)).to_num k ≡ (params_of m).to_num k
  unfolding params_of
  kept_num = rw (find-tpm_map k token config m h i) refl

with_text-nonempty :
    (j v : String) (m : Hash Value)
    → (params_of m).is_empty_map ≡ false
    → (params_of (with_text j v m)).is_empty_map ≡ false
unfolding params_of insert
with_text-nonempty j v [] h = ground arith
with_text-nonempty j v ((k, w) ∷ m) h = elim (Bool-cases (is_empty v)) [
  | inl e ↦ rw e refl
  | inr e ↦ rw e (elim (Bool-cases (k == j)) [ inl f ↦ rw f refl | inr f ↦ rw f refl ])
]

params_valid-texts :
    (config : EncryptConfig) (params : Params) (device key : String)
    → params.is_empty_map ≡ false
    → params.to_text "device" ≡ device
    → params.to_text "passphrase" ≡ key
    → (params_valid config params ≡ true) ↔ ((device ≡ config.device_path) × (is_empty key ≡ false))
unfolding params_valid
params_valid-texts config params device key n d k =
    rw (n, d, k) (ground (arith, eq_iff device (config.device_path)))

mode_names : (t : SecKeyType) → enc_mode (type_num t) ≡ mode_name t
unfolding enc_mode
mode_names password_only = refl
mode_names tpm_and_pin = refl
mode_names tpm_only = refl

-- The supported ciphers are AES and SM4.
abbrev pub chosen_cipher : String → String
chosen_cipher algorithm = if algorithm == "aes" then "aes" else "sm4"

chosen : (algorithm : String) → cipher_type algorithm ≡ chosen_cipher algorithm
unfolding cipher_type
chosen algorithm = ground (arith, eq_iff algorithm "aes", eq_iff algorithm "sm4")

-- The configuration that the job of an encryption is to have.
abbrev pub job_config : DeviceEncryptParam → String → EncryptConfig
job_config p cipher = record {
  cipher = cipher <> "-xts-plain64";
  device = "UUID=" <> p.uuid;
  mount_point = p.mount_point;
  device_name = p.device_display_name;
  device_path = p.dev_desc;
  key_size = "256";
  mode = mode_name (p.type);
  recovery_path = recovery_file (p.export_path) (p.dev_desc);
  clear_dev = "dm-" <> mid 5 (p.dev_desc);
}

module _ (host : Host) (lib : TpmLib) (algorithm : String) where
  -- The configuration that the parameters of an encryption describe.
  do_encrypt_device-config :
      (p : DeviceEncryptParam) (disk : Disk)
      → config_of (received (do_encrypt_device host lib algorithm p disk))
        ≡ job_config p (chosen_cipher algorithm)
  unfolding do_encrypt_device params_of find
  do_encrypt_device-config p disk =
      let t = tpm_token host lib algorithm p disk in
      let c = tpm_config host lib algorithm p in
      let m = entries host lib algorithm p [] in
      λ i. record {
        cipher = (kept_text t c m "cipher" refl refl ∙ chosen algorithm) i <> "-xts-plain64";
        device = "UUID=" <> kept_text t c m "uuid" refl refl i;
        mount_point = kept_text t c m "mountpoint" refl refl i;
        device_name = kept_text t c m "deviceName" refl refl i;
        device_path = kept_text t c m "device" refl refl i;
        key_size = "256";
        mode = (ap enc_mode (kept_num t c m "mode" refl refl) ∙ mode_names (p.type)) i;
        recovery_path =
            recovery_file (kept_text t c m "exportRecKeyTo" refl refl i)
              (kept_text t c m "device" refl refl i);
        clear_dev = "dm-" <> mid 5 (kept_text t c m "device" refl refl i);
      }

  -- The daemon reads the parameters of an encryption as the menu means them: device, passphrase, path
  -- of the recovery key, token, and for the cipher AES where that is the configured algorithm and SM4
  -- for any other. The job file that it then writes for the next boot, where JSON reads back the object
  -- that it printed, is read as a configuration with that cipher, the device by its UUID and its path,
  -- and the type that was chosen.
  pub do_encrypt_device-received :
      (p : DeviceEncryptParam) (disk : Disk) (env : Env) (before : EncryptConfig)
      → env.parse_object (
          env.print_object
            (encrypt_job env (received (do_encrypt_device host lib algorithm p disk))))
        ≡ encrypt_job env (received (do_encrypt_device host lib algorithm p disk))
      → (convert_params (received (do_encrypt_device host lib algorithm p disk)) ≡ record {
        device = p.dev_desc;
        passphrase = p.key;
        cipher = chosen_cipher algorithm;
        recovery_path = p.export_path;
        tpm_token = tpm_token host lib algorithm p disk;
      })
        × (read_encrypt_config env
              (some (
                env.print_object
                  (encrypt_job env (received (do_encrypt_device host lib algorithm p disk)))))
              before
            ≡ job_config p (chosen_cipher algorithm))
  unfolding do_encrypt_device params_of convert_params find
  do_encrypt_device-received p disk env before reads =
      let t = tpm_token host lib algorithm p disk in
      let c = tpm_config host lib algorithm p in
      let m = entries host lib algorithm p [] in
      (
        λ i. record {
          device = kept_text t c m "device" refl refl i;
          passphrase = kept_text t c m "passphrase" refl refl i;
          cipher = (kept_text t c m "cipher" refl refl ∙ chosen algorithm) i;
          recovery_path = kept_text t c m "exportRecKeyTo" refl refl i;
          tpm_token =
              text-with_text "tpmToken" t (with_text "tpmConfig" c m)
                (find-with_text "tpmConfig" "tpmToken" c m refl) i;
        },
        read_encrypt_config-encrypt_job env _ before reads ∙ do_encrypt_device-config p disk,
      )

  -- The parameters that are sent for a device under conversion are taken by the daemon exactly where
  -- they are for the device of its configuration and the key is not empty.
  pub do_reencrypt_device-params_valid :
      (p : DeviceEncryptParam) (disk : Disk) (config : EncryptConfig)
      → (params_valid config (received (do_reencrypt_device host lib algorithm p disk)) ≡ true)
        ↔ ((p.dev_desc ≡ config.device_path) × (is_empty (p.key) ≡ false))
  unfolding do_reencrypt_device params_of find
  do_reencrypt_device-params_valid p disk config =
      let t = tpm_token host lib algorithm p disk in
      let c = tpm_config host lib algorithm p in
      let m = entries host lib algorithm p (
        ("backingDevUUID", Value.text (p.backing_dev_uuid))
        ∷ ("clearDevUUID", Value.text (p.clear_dev_uuid))
        ∷ []) in
      params_valid-texts config (params_of (tpm_map t c m)) (p.dev_desc) (p.key)
        (with_text-nonempty "tpmToken" t (with_text "tpmConfig" c m)
          (with_text-nonempty "tpmConfig" c m refl))
        (kept_text t c m "device" refl refl) (kept_text t c m "passphrase" refl refl)

  -- The key that the user typed is the passphrase that the daemon reads.
  pub do_reencrypt_device-passphrase :
      (p : DeviceEncryptParam) (disk : Disk)
      → (received (do_reencrypt_device host lib algorithm p disk)).to_text "passphrase" ≡ p.key
  unfolding do_reencrypt_device params_of find
  do_reencrypt_device-passphrase p disk =
      let t = tpm_token host lib algorithm p disk in
      let c = tpm_config host lib algorithm p in
      let m = entries host lib algorithm p (
        ("backingDevUUID", Value.text (p.backing_dev_uuid))
        ∷ ("clearDevUUID", Value.text (p.clear_dev_uuid))
        ∷ []) in
      kept_text t c m "passphrase" refl refl
