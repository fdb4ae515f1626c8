-- ===== src/Workers/Tests.antt =====
-- encrypt/encryptworker.cpp and dbus/diskencryptdbus.cpp: the theorems at concrete jobs.
use Prim.Native.String.{len}
use dde_file_manager_extensi.Prelude.{
  ℤ, List, Bool, arith, negsuc, num_eq, pos, String, true, false, ◌==◌, ◌≡◌, refl, some, [], ◌∷◌,
  Hash, if◌then◌else◌, insert, mid, find,
}
use dde_file_manager_extensi.DiskEncrypt.{EncryptConfig, is_valid, fail, value_of}
use dde_file_manager_extensi.DiskEncrypt.Calls.{
  Env, World, Event, Call, Key, opened_on, changes_keyslot, sets_token, Json, text, other, call,
  checked, with_handle,
}
use dde_file_manager_extensi.DiskEncrypt.Header.{
  fill_header, header_file, init_header_file, init_header_device, do_setup_header, setup_with,
  prepare_header_file, setup_body, add_recovery_key, restore_body,
}
use dde_file_manager_extensi.DiskEncrypt.Restore.{Restored}
use dde_file_manager_extensi.Workers.Prepared.{prencrypt_run-Restored}
use dde_file_manager_extensi.DiskEncrypt.Handles.{opened, freed}
use dde_file_manager_extensi.DiskEncrypt.Device.{
  read_encrypt_config, validate_params, version_of, mounted, exp_rec_file,
}
use dde_file_manager_extensi.DiskEncrypt.Keyslots.{
  dev_encrypt_status, dev_encrypt_status_body, status_of, set_token, set_token_body, token_index,
  change_passphrase, change_passphrase_body, change_passphrase_by_rec_key,
  change_passphrase_by_rec_key_body,
}
use dde_file_manager_extensi.DiskEncrypt.Reencrypt.{resume_reencrypt, resume_body}
use dde_file_manager_extensi.Workers.{Params, convert_params, update_token_keyslots}
use dde_file_manager_extensi.Workers.Prepare.{
  prencrypt_run, listed, apply_prepared, encrypt_job, enc_mode, recovery_file,
}
use dde_file_manager_extensi.Workers.Passphrase.{chg_pass_run, change_with, update_token}
use dde_file_manager_extensi.Workers.Online.{
  await_params, latest, online_run, params_valid, has_unfinished_online_encryption, resume_with,
}
use dde_file_manager_extensi.Workers.Service.{encrypt_disk_result}
use dde_file_manager_extensi.Workers.KeySlots.{Honest, keys_step, replace, keys_after, count}
use dde_file_manager_extensi.Workers.Rollback.{CanGoBack, chg_pass_run-keys, chg_pass_run-rec_key}
use dde_file_manager_extensi.Workers.Startup.{finished_signal, trigger_reencrypt}
use dde_file_manager_extensi.Workers.ServiceKeeps.{prepares, served, served-handles}
use dde_file_manager_extensi.Workers.JobFile.{config_of, read_encrypt_config-encrypt_job}

abbrev pub job_file : Hash Json
job_file =
    ("volume", text "dm-sda2")
    ∷ ("device", text "UUID=2")
    ∷ ("device-path", text "/dev/sda2")
    ∷ ("device-name", text "data")
    ∷ ("device-mountpoint", text "/data")
    ∷ ("cipher", text "aes-xts-plain64")
    ∷ ("key-size", text "256")
    ∷ ("mode", text "pin")
    ∷ ("recoverykey-path", text "")
    ∷ ("tpm-config", other "{}")
    ∷ []

-- Every call succeeds, and the device is not done with its online encryption.
abbrev pub calm : Env
calm = record {
  code = λ es c. pos 0;
  output = λ es c. "1";
  flags = λ es. record { offline_reencrypt = false; online_reencrypt = true; unknown = false };
  is_block = λ es path. true;
  dir_exists = λ es path. true;
  same_ignoring_case = λ a b. a == b;
  block_device = λ es device.
      some
        (record { id_type = "ext4"; id_version = "1.0"; is_encrypted = false; mount_points = [] });
  parse_object = λ t. job_file;
  print_object = λ o. "{}";
  print_compact = λ o. "{}";
  number_text = λ n. "1";
  utf16_length = len;
}

abbrev pub start : World
start = record { events = []; reencrypting_device = ""; decrypting_device = "" }

abbrev values : String → String
values key =
    if key == "device"
    then "/dev/sda2"
    else if key == "passphrase"
    then "secret"
    else if key == "uuid"
    then "2"
    else if key == "cipher"
    then "aes"
    else if key == "mountpoint"
    then "/data"
    else if key == "deviceName"
    then "data"
    else ""

abbrev params : Params
params = record {
  to_text = values;
  to_flag = λ key. false;
  to_num = λ key. pos 0;
  is_empty_map = false;
}

abbrev no_params : Params
no_params = record {
  to_text = λ key. "";
  to_flag = λ key. false;
  to_num = λ key. pos 0;
  is_empty_map = true;
}

abbrev config : EncryptConfig
config = config_of params

served-handles_example :
    opened (served calm (prepares true "job" params) start).events
    ≡ freed (served calm (prepares true "job" params) start).events
unfolding opened freed
served-handles_example = served-handles calm (prepares true "job" params) start refl

read_encrypt_config-encrypt_job_example :
    read_encrypt_config calm (some "{}") config ≡ config_of params
unfolding encrypt_job enc_mode recovery_file insert mid
read_encrypt_config-encrypt_job_example = read_encrypt_config-encrypt_job calm params config refl

prencrypt_run-Restored_example :
    Restored "/dev/sda2" (header_file "/dev/sda2") (prencrypt_run calm params start).1
unfolding prencrypt_run listed convert_params apply_prepared init_header_device restore_body
    init_header_file validate_params is_valid call version_of mounted do_setup_header setup_with
    prepare_header_file with_handle setup_body fill_header checked header_file mid exp_rec_file
    add_recovery_key
prencrypt_run-Restored_example = prencrypt_run-Restored calm params start refl refl

-- The service starts from the job file that a preparation left, waits past parameters that are not
-- valid, and reports the end of the encryption.
trigger_reencrypt_test :
    (trigger_reencrypt calm (some "{}") config (no_params ∷ params ∷ []) start).0 ≡ (
      record { device = "/dev/sda2"; name = "data" },
      encrypt_disk_result "/dev/sda2" "data" (pos 0) ∷ [],
    )
unfolding trigger_reencrypt finished_signal read_encrypt_config mid online_run
    has_unfinished_online_encryption dev_encrypt_status with_handle call dev_encrypt_status_body
    checked status_of resume_with latest await_params params_valid resume_reencrypt resume_body find
trigger_reencrypt_test = refl

-- Every text has as many bytes as UTF-16 units.
abbrev whole_text : Key → String
whole_text k = k.chars

-- A device that "old" opens, whose tokens cannot be set: a change works where the old passphrase opens.
abbrev answer : List Event → Call → ℤ
answer es (changes_keyslot a b) =
    if num_eq (count a.chars (keys_after whole_text "/dev/sda2" ("old" ∷ []) es)) 0
    then negsuc 0
    else pos 0
answer es (sets_token i t) = negsuc 0
answer es c = pos 0

abbrev no_tokens : Env
no_tokens = record calm { code = answer }

abbrev new_pass : Bool → Params
new_pass by_rec = record params {
  to_text = λ key.
      if key == "oldPassphrase" then "old" else if key == "tpmToken" then "{}" else values key;
  to_flag = λ key. by_rec;
}

no_tokens-Honest : Honest whole_text ("old" ∷ []) no_tokens "/dev/sda2" "old" "secret"
no_tokens-Honest es on h = ground arith

no_tokens_back : CanGoBack whole_text ("old" ∷ []) no_tokens "/dev/sda2" "old" "secret"
no_tokens_back es h = (refl, refl, ground arith)

chg_pass_run-keys_example :
    count "old" (
      keys_after whole_text "/dev/sda2"
        ("old" ∷ [])
        (chg_pass_run no_tokens (new_pass false) start).1.events)
    ≡ 1
unfolding chg_pass_run change_with update_token set_token set_token_body token_index
    change_passphrase change_passphrase_body update_token_keyslots with_handle checked call
    keys_after keys_step opened_on count replace fail value_of
chg_pass_run-keys_example =
    chg_pass_run-keys whole_text ("old" ∷ []) no_tokens (new_pass false) start "old" refl refl refl
      no_tokens-Honest no_tokens_back

chg_pass_run-rec_key_example :
    keys_after whole_text "/dev/sda2"
      ("old" ∷ [])
      (chg_pass_run no_tokens (new_pass true) start).1.events
    ≡ "old" ∷ "old" ∷ []
unfolding chg_pass_run change_with update_token set_token set_token_body token_index
    change_passphrase change_passphrase_body change_passphrase_by_rec_key
    change_passphrase_by_rec_key_body with_handle checked call update_token_keyslots keys_after
    keys_step opened_on count replace fail value_of
chg_pass_run-rec_key_example =
    chg_pass_run-rec_key whole_text ("old" ∷ []) no_tokens (new_pass true) start refl refl refl
      no_tokens_back
