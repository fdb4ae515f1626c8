-- ===== src/DiskEncrypt/Tests.antt =====
-- encrypt/diskencrypt.cpp: the theorems at a concrete device, where every call succeeds or where the
-- calls on files fail.
use Prim.Native.String.{len}
use dde_file_manager_extensi.Prelude.{
  ℤ, pos, true, false, ◌==◌, ◌≡◌, ◌⊎◌, refl, none, some, List, [], ◌∷◌, mid,
}
use dde_file_manager_extensi.DiskEncrypt.{EncryptParams, is_valid}
use dde_file_manager_extensi.DiskEncrypt.Calls.{
  Env, World, Event, Call, allocates_file, creates_file, call, checked, with_handle,
}
use dde_file_manager_extensi.DiskEncrypt.Restore.{init_header_file_lem}
use dde_file_manager_extensi.DiskEncrypt.Device.{validate_params, version_of, mounted, exp_rec_file}
use dde_file_manager_extensi.DiskEncrypt.Header.{
  fill_header, setup_with, setup_body, add_recovery_key, is_not_encrypted, init_header_file,
  header_file, prepare_header_file, do_setup_header,
}
use dde_file_manager_extensi.DiskEncrypt.Reencrypt.{
  backup_file, decrypt_device, resume_reencrypt, encrypt_progress, decrypt_progress,
}
use dde_file_manager_extensi.DiskEncrypt.Backup.{is_safe, decrypt_device-is_safe}
use dde_file_manager_extensi.DiskEncrypt.Cleanup.{Made, Failure, removed, do_setup_header_lem}
use dde_file_manager_extensi.DiskEncrypt.Globals.{resume_reencrypt-progress}

abbrev answers : (List Event → Call → ℤ) → Env
answers code = record {
  code = code;
  output = λ es c. "1";
  flags = λ es. record { offline_reencrypt = false; online_reencrypt = false; unknown = false };
  is_block = λ es path. true;
  dir_exists = λ es path. true;
  same_ignoring_case = λ a b. a == b;
  block_device = λ es device.
      some
        (record { id_type = "ext4"; id_version = "1.0"; is_encrypted = false; mount_points = [] });
  parse_object = λ t. [];
  print_object = λ o. "{}";
  print_compact = λ o. "{}";
  number_text = λ n. "1";
  utf16_length = len;
}

abbrev calm : Env
calm = answers (λ es c. pos 0)

-- The header file cannot be allocated.
abbrev no_room : Call → ℤ
no_room (allocates_file path) = pos 28
no_room c = pos 0

abbrev full_disk : Env
full_disk = answers (λ es c. no_room c)

abbrev start : World
start = record { events = []; reencrypting_device = ""; decrypting_device = "" }

abbrev params : EncryptParams
params = record {
  device = "/dev/sda2";
  passphrase = "secret";
  cipher = "aes";
  recovery_path = "";
  tpm_token = "";
}

decrypt_device-is_safe_example :
    is_safe (backup_file "/dev/sda2") (decrypt_device calm "/dev/sda2" "secret" start).1.events
    ≡ true
unfolding is_safe
decrypt_device-is_safe_example = decrypt_device-is_safe calm "/dev/sda2" "secret" start refl

do_setup_header_lem_example :
    Made (header_file "/dev/sda2") (do_setup_header calm params start)
    ⊎ (Failure (do_setup_header calm params start).0
        × (((prepare_header_file calm "/dev/sda2" start).0.1 ≡ none)
            ⊎ (removed (header_file "/dev/sda2") (do_setup_header calm params start).1.events
                ≡ true)))
do_setup_header_lem_example = do_setup_header_lem calm params start

-- A file that cannot be allocated was created, and stays.
no_room_test :
    (prepare_header_file full_disk "/dev/sda2" start).1.events
    ≡ (allocates_file "/tmp/sda2_luks2_pre_enc", pos 28)
      ∷ (creates_file "/tmp/sda2_luks2_pre_enc", pos 0)
      ∷ []
unfolding prepare_header_file call header_file mid
no_room_test = refl

resume_reencrypt-progress_example :
    (encrypt_progress 100 7 (resume_reencrypt calm "/dev/sda2" "secret" "" false start).1
      ≡ ("/dev/sda2", 7, 100))
    × (decrypt_progress 100 7 (resume_reencrypt calm "/dev/sda2" "secret" "" false start).1
        ≡ ("", 7, 100))
resume_reencrypt-progress_example =
    resume_reencrypt-progress calm "/dev/sda2" "secret" "" false start 100 7

init_header_file_lem_example :
    ((validate_params calm params start).0 ≡ true)
    × (is_not_encrypted (version_of (calm.block_device [] "/dev/sda2")) ≡ true)
    × (mounted (calm.block_device [] "/dev/sda2") ≡ false)
    × Made (header_file "/dev/sda2") (init_header_file calm params start)
unfolding init_header_file validate_params is_valid call version_of mounted do_setup_header
    setup_with prepare_header_file with_handle setup_body fill_header checked header_file mid
    exp_rec_file add_recovery_key
init_header_file_lem_example = init_header_file_lem calm params start refl
