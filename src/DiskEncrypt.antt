-- ===== src/DiskEncrypt.antt =====
-- The types of daemonplugin-file-encrypt: globaltypesdefine.h, daemonplugin_file_encrypt_global.h and
-- the enumerations of encrypt/diskencrypt.h.
pub mod Calls
pub mod Resize
pub mod Device
pub mod Keyslots
pub mod Header
pub mod Reencrypt
pub mod Keeps
pub mod Bodies
pub mod Functions
pub mod Handles
pub mod Backup
pub mod Outcomes
pub mod Cleanup
pub mod Globals
pub mod Restore
pub mod Tests
use dde_file_manager_extensi.Prelude.{
  ℕ, ℤ, neg, String, Bool, not, ◌&&◌, is_empty, List, [], ◌∷◌, Hash,
}

-- `EncryptOperationStatus`, in the order of its values.
pub data Status : Type 0 where
  success user_cancelled reboot_required params_invalid device_mounted device_encrypted : Status
  wrong_passphrase encrypt_busy cannot_start_encrypt_job create_header backup_header : Status
  apply_header init_crypt init_reencrypt restore_from_file active deactive load_crypt : Status
  get_reencrypt_flag wrong_flags set_offset format_luks add_keyslot reencrypt_failed : Status
  decrypt_failed open_fstab_failed change_passphrase_failed open_file_failed : Status
  set_token_failed resize_fs disabled_mount_point set_label_failed unknown : Status

unfoldable pub value_of : Status → ℕ
value_of success = 0
value_of user_cancelled = 1
value_of reboot_required = 2
value_of params_invalid = 3
value_of device_mounted = 4
value_of device_encrypted = 5
value_of wrong_passphrase = 6
value_of encrypt_busy = 7
value_of cannot_start_encrypt_job = 8
value_of create_header = 9
value_of backup_header = 10
value_of apply_header = 11
value_of init_crypt = 12
value_of init_reencrypt = 13
value_of restore_from_file = 14
value_of active = 15
value_of deactive = 16
value_of load_crypt = 17
value_of get_reencrypt_flag = 18
value_of wrong_flags = 19
value_of set_offset = 20
value_of format_luks = 21
value_of add_keyslot = 22
value_of reencrypt_failed = 23
value_of decrypt_failed = 24
value_of open_fstab_failed = 25
value_of change_passphrase_failed = 26
value_of open_file_failed = 27
value_of set_token_failed = 28
value_of resize_fs = 29
value_of disabled_mount_point = 30
value_of set_label_failed = 31
value_of unknown = 32

-- `-kErrorX`, as the functions return it.
unfoldable pub fail : Status → ℤ
unfolding value_of
fail s = neg (value_of s)

-- `EncryptVersion` and `EncryptStatus`
pub data EncryptVersion : Type 0 where
  not_encrypted luks1 luks2 luks_unknown version_unknown : EncryptVersion

pub data EncryptStatus : Type 0 where
  finished offline_unfinished online_unfinished status_unknown : EncryptStatus

pub record EncryptParams : Type 0 where
  pub device : String
  pub passphrase : String
  pub cipher : String
  pub recovery_path : String
  pub tpm_token : String

-- `EncryptParams::isValid`
unfoldable pub is_valid : EncryptParams → Bool
is_valid p = not (is_empty p.device && is_empty p.passphrase && is_empty p.cipher)

pub record EncryptConfig : Type 0 where
  pub cipher : String
  pub device : String
  pub mount_point : String
  pub device_name : String
  pub device_path : String
  pub key_size : String
  pub mode : String
  pub recovery_path : String
  pub clear_dev : String

-- `kDisabledEncryptPath`
abbrev pub disabled_encrypt_path : List String
disabled_encrypt_path = "/" ∷ "/boot" ∷ "/boot/efi" ∷ "/recovery" ∷ []
