-- ===== src/Entry/RequestTests.antt =====
-- The theorems on the menu, its requests and the daemon's signals at concrete inputs.
use dde_file_manager_extensi.Prelude.{
  find, insert, ap, is_zero, Hash, String, ◌≡◌, ◌⊎◌, refl, true, false, none, some, List, [], ◌∷◌,
  arith, is_empty, ◌<>◌, pos, has_key, mid, ℤ, negsuc, num_eq, if◌then◌else◌, suc, ◌<◌, false,
}
use dde_file_manager_extensi.Workers.{Params, convert_params}
use dde_file_manager_extensi.DiskEncrypt.Device.{read_encrypt_config}
use dde_file_manager_extensi.Workers.Prepare.{encrypt_job, recovery_file}
use dde_file_manager_extensi.Workers.Online.{
  params_valid, online_run, has_unfinished_online_encryption, resume_with, latest, await_params,
  settle, set_passphrase, set_recovery_key,
}
use dde_file_manager_extensi.Workers.KeySlots.{Honest, keys_step, keys_after, count}
use dde_file_manager_extensi.Workers.Tests.{calm, start}
use dde_file_manager_extensi.DiskEncrypt.Calls.{
  Env, Event, Call, Key, opened_on, changes_keyslot, call, checked, with_handle,
}
use dde_file_manager_extensi.DiskEncrypt.Keyslots.{
  dev_encrypt_status, dev_encrypt_status_body, status_of, change_passphrase, change_passphrase_body,
}
use dde_file_manager_extensi.DiskEncrypt.Reencrypt.{resume_reencrypt, resume_body, end_resume}
use dde_file_manager_extensi.Entry.Answered.{answered}
use dde_file_manager_extensi.DiskEncrypt.{EncryptConfig}
use dde_file_manager_extensi.Entry.Password.{password_only}
use dde_file_manager_extensi.Entry.Wizard.{DeviceEncryptParam}
use dde_file_manager_extensi.Entry.Requests.{
  params_of, tpm_token, do_encrypt_device, do_reencrypt_device,
}
use dde_file_manager_extensi.Entry.Daemon.{
  do_reencrypt_device-passphrase, received, do_encrypt_device-received,
  do_reencrypt_device-params_valid,
}
use dde_file_manager_extensi.Entry.Menu.{MenuAction}
use dde_file_manager_extensi.Entry.Events.{Handler}
use dde_file_manager_extensi.Entry.EventTraces.{
  Signal, encrypt_result, request_params, handle_all, waiting, handle_all-waiting,
}
use dde_file_manager_extensi.Entry.Unlock.{UnlockType}
use dde_file_manager_extensi.Entry.Acquire.{
  Answers, on_acquire_device_pwd, by_type, reported, acquire_passphrase, tests_tpm,
  on_acquire_device_pwd_cancelled,
}
use dde_file_manager_extensi.Entry.TokenTests.{host, lib, empty}

abbrev wanted : DeviceEncryptParam
wanted = record {
  dev_desc = "/dev/sda3";
  uuid = "u";
  type = password_only;
  key = "Abcdefg1";
  new_key = "";
  export_path = "/media/stick";
  device_display_name = "data";
  mount_point = "/data";
  init_only = false;
  validate_by_rec_key = false;
  backing_dev_uuid = "u";
  clear_dev_uuid = "";
}

abbrev config : EncryptConfig
config = record {
  cipher = "aes-xts-plain64";
  device = "UUID=u";
  mount_point = "/data";
  device_name = "data";
  device_path = "/dev/sda3";
  key_size = "256";
  mode = "pin";
  recovery_path = "";
  clear_dev = "dm-sda3";
}

abbrev asked : Params
asked = received (do_encrypt_device host lib "aes" wanted empty)

-- JSON reads the job file.
abbrev reading : Env
reading = record calm { parse_object = λ t. encrypt_job calm asked }

reads_job :
    reading.parse_object (reading.print_object (encrypt_job reading asked))
    ≡ encrypt_job reading asked
unfolding encrypt_job
reads_job = refl

do_encrypt_device-received_example :
    (convert_params asked ≡ record {
      device = "/dev/sda3";
      passphrase = "Abcdefg1";
      cipher = "aes";
      recovery_path = "/media/stick";
      tpm_token = tpm_token host lib "aes" wanted empty;
    })
    × (read_encrypt_config reading (some (reading.print_object (encrypt_job reading asked))) config
        ≡ record {
          cipher = "aes-xts-plain64";
          device = "UUID=u";
          mount_point = "/data";
          device_name = "data";
          device_path = "/dev/sda3";
          key_size = "256";
          mode = "pin";
          recovery_path = recovery_file "/media/stick" "/dev/sda3";
          clear_dev = "dm-" <> mid 5 "/dev/sda3";
        })
do_encrypt_device-received_example =
    do_encrypt_device-received host lib "aes" wanted empty reading config reads_job

abbrev named : String → MenuAction
named id = record { id = id; text = ""; enabled = true; visible = true }

abbrev idle : Handler
idle = record { encrypt_dialogs = []; decrypt_dialogs = []; encrypt_inputs = [] }

abbrev request : Hash String
request = ("device-path", "/dev/sda3") ∷ ("device-name", "data") ∷ []

-- A request is accepted, its encryption fails at once, and a second request comes.
abbrev signals : List Signal
signals =
    request_params request (some wanted)
    ∷ encrypt_result "/dev/sda3" "data" (pos 3)
    ∷ request_params request (some wanted)
    ∷ []

handle_all-waiting_example :
    has_key "/dev/sda3" ((handle_all (λ n. "") (λ s. s) (λ s. "") signals idle).encrypt_inputs)
    ≡ waiting "/dev/sda3" signals (has_key "/dev/sda3" (idle.encrypt_inputs))
handle_all-waiting_example =
    handle_all-waiting (λ n. "") (λ s. s) (λ s. "") "/dev/sda3" signals idle

abbrev answers : Answers
answers = record {
  enc_key_type = 0;
  check_tpm = pos 0;
  confirmed = true;
  unlock = λ t. none;
  get_passphrase = λ pin. "";
}

answers-GivesKeys :
    (t u : UnlockType) (key : String) → answers.unlock t ≡ some (u, key) → is_empty key ≡ false
answers-GivesKeys t u key e = ground arith

nothing_acquired : is_empty ((on_acquire_device_pwd answers "" false).passphrase) ≡ true
unfolding on_acquire_device_pwd tests_tpm by_type reported acquire_passphrase
nothing_acquired = refl

on_acquire_device_pwd_cancelled_example :
    ((on_acquire_device_pwd answers "" false).cancelled ≡ true)
    ⊎ (((on_acquire_device_pwd answers "" false).handled ≡ false)
        ⊎ ((tests_tpm answers ≡ true) × ((true ≡ false) × (true ≡ false))))
on_acquire_device_pwd_cancelled_example =
    on_acquire_device_pwd_cancelled answers "" false answers-GivesKeys nothing_acquired

-- Every text has as many bytes as UTF-16 units.
abbrev whole_text : Key → String
whole_text k = k.chars

-- A device that the empty passphrase opens: a change works where the old passphrase opens a slot.
abbrev answer : List Event → Call → ℤ
answer es (changes_keyslot a b) =
    if num_eq (count a.chars (keys_after whole_text "/dev/sda3" ("" ∷ []) es)) 0
    then negsuc 0
    else pos 0
answer es c = pos 0

abbrev fresh : Env
fresh = record calm { code = answer }

fresh-Honest : Honest whole_text ("" ∷ []) fresh "/dev/sda3" "" "Abcdefg1"
fresh-Honest es on h = ground arith

abbrev bare : DeviceEncryptParam
bare = record wanted { export_path = "" }

abbrev sent : Params
sent = received (do_reencrypt_device host lib "sm4" bare empty)

sent_passphrase : sent.to_text "passphrase" ≡ "Abcdefg1"
sent_passphrase = do_reencrypt_device-passphrase host lib "sm4" bare empty

sent_no_token : sent.to_text "tpmToken" ≡ ""
unfolding do_reencrypt_device params_of find insert
sent_no_token = refl

sent_no_path : sent.to_text "exportRecKeyTo" ≡ ""
unfolding do_reencrypt_device params_of find insert
sent_no_path = refl

sent_valid : params_valid config sent ≡ true
sent_valid = (do_reencrypt_device-params_valid host lib "sm4" bare empty config).1 (refl, refl)

ran :
    (online_run fresh config (sent ∷ []) start).0
    ≡ record { exit_code = pos 0; requests = 0; result = some (pos 0) }
unfolding online_run has_unfinished_online_encryption dev_encrypt_status with_handle call
    dev_encrypt_status_body checked status_of resume_with latest await_params resume_reencrypt
    resume_body end_resume settle set_passphrase set_recovery_key change_passphrase
    change_passphrase_body keys_after count keys_step opened_on
ran = rw (sent_valid, sent_passphrase, sent_no_token, sent_no_path) refl

answered_example :
    (0
      < count "Abcdefg1" (
          keys_after whole_text "/dev/sda3"
            ("" ∷ [])
            (online_run fresh config (sent ∷ []) start).1.events))
    × (suc (
          count "" (
            keys_after whole_text "/dev/sda3"
              ("" ∷ [])
              (online_run fresh config (sent ∷ []) start).1.events))
        ≡ 1)
unfolding keys_after count opened_on
answered_example =
    answered host lib "sm4" bare empty whole_text ("" ∷ []) fresh config [] start tt refl refl
      (λ s. refl) refl fresh-Honest (ap (λ o. o.result) ran) (ap (λ o. is_zero o.exit_code) ran)
