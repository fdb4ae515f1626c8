-- ===== src/DiskEncrypt/Reencrypt.antt =====
-- encrypt/diskencrypt.cpp: decryption of a device, and the resumption of an encryption.
use dde_file_manager_extensi.Prelude.{
  ℕ, ℤ, pos, is_neg, not, String, Bool, ◌||◌, none, mid, ◌<>◌, if◌then◌else◌,
}
use dde_file_manager_extensi.DiskEncrypt.{
  fail, backup_header, load_crypt, get_reencrypt_flag, wrong_flags, wrong_passphrase,
  reencrypt_failed, resize_fs, init_reencrypt, active, deactive,
}
use dde_file_manager_extensi.DiskEncrypt.Calls.{
  Env, World, Action, Body, Outcome, Flags, decrypt_params, resume_params, inits, inits_data, loads,
  gets_flags, backs_up_header, inits_reencrypt, reencrypts, activates, deactivates, checked,
  require, return, with_handle, no_more, lift, ◌>>=◌, ◌>>◌,
}
use dde_file_manager_extensi.DiskEncrypt.Resize.{expand_file_system, recovery_superblock}
use dde_file_manager_extensi.DiskEncrypt.Header.{active_name, drop_file}

unfoldable pub backup_file : String → String
backup_file device = "/tmp/dm_header_" <> mid 5 device

abbrev pub under_encrypting : Flags → Bool
under_encrypting flags = flags.offline_reencrypt || flags.online_reencrypt

module _ (env : Env) where
  unfoldable pub backup_body : String → Body (Unit {0}) (Outcome (Unit {0}))
  backup_body device = do
    ret ← checked env (backs_up_header (backup_file device)) backup_header
    return (pos 0) ret none

  unfoldable pub backup_crypt_header : String → Action (Outcome (Unit {0}))
  backup_crypt_header device = with_handle env (inits device) (backup_body device) no_more

  unfoldable pub decrypt_body : String → String → Body (Unit {0}) (Outcome (Unit {0}))
  decrypt_body device passphrase = do
    checked env loads load_crypt
    ret ← checked env gets_flags get_reencrypt_flag
    flags ← lift (λ w. (env.flags w.events, w))
    require (not (under_encrypting flags)) wrong_flags ret
    checked env (inits_reencrypt decrypt_params "" passphrase) wrong_passphrase
    ret ← checked env reencrypts reencrypt_failed
    recovered ← lift (recovery_superblock env device (backup_file device))
    require recovered resize_fs ret
    return (pos 0) ret none

  -- The clean-up of `bcDecryptDevice`.
  unfoldable pub end_decrypt : String → ℤ → Action (Unit {0})
  end_decrypt device ret w =
      (tt, record ((drop_file env (backup_file device) ret w).1) { decrypting_device = "" })

  unfoldable pub decrypt_device : String → String → Action (Outcome (Unit {0}))
  decrypt_device device passphrase w =
      let (backup, w1) = backup_crypt_header device (record w { decrypting_device = device }) in
      if is_neg backup.result
      then (
        record { result = fail backup_header; ret = backup.result; out = none },
        (end_decrypt device backup.result w1).1,
      )
      else with_handle env (inits_data (backup_file device) device) (decrypt_body device passphrase)
          (end_decrypt device) w1

  unfoldable pub expand_body : String → String → ℤ → Body (Unit {0}) (Outcome (Unit {0}))
  expand_body device passphrase ret = do
    checked env (activates (active_name device) passphrase) active
    lift (expand_file_system env ("/dev/mapper/" <> active_name device))
    ret ← checked env (deactivates (active_name device)) deactive
    return (pos 0) ret none

  unfoldable pub resume_body :
      String → String → String → Bool → Body (Unit {0}) (Outcome (Unit {0}))
  resume_body device passphrase clear_dev expand_fs = do
    checked env loads load_crypt
    ret ← checked env gets_flags get_reencrypt_flag
    flags ← lift (λ w. (env.flags w.events, w))
    require flags.online_reencrypt wrong_flags ret
    checked env (inits_reencrypt resume_params clear_dev passphrase) init_reencrypt
    ret ← checked env reencrypts reencrypt_failed
    if expand_fs then expand_body device passphrase ret else return (pos 0) ret none

  -- The clean-up of `bcResumeReencrypt`: it clears the name of the device under decryption.
  unfoldable pub end_resume : ℤ → Action (Unit {0})
  end_resume ret w = (tt, record w { decrypting_device = "" })

  unfoldable pub resume_reencrypt : String → String → String → Bool → Action (Outcome (Unit {0}))
  resume_reencrypt device passphrase clear_dev expand_fs w =
      with_handle env (inits_data device device) (resume_body device passphrase clear_dev expand_fs)
        end_resume (record w { reencrypting_device = device })

-- `bcEncryptProgress` and `bcDecryptProgress`: the device, offset and size of the emitted progress.
unfoldable pub encrypt_progress : ℕ → ℕ → World → String × ℕ × ℕ
encrypt_progress size offset w = (w.reencrypting_device, offset, size)

unfoldable pub decrypt_progress : ℕ → ℕ → World → String × ℕ × ℕ
decrypt_progress size offset w = (w.decrypting_device, offset, size)
