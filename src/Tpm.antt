-- ===== src/Tpm.antt =====
-- The TPM manager, dde-file-manager/dfmplugin-encrypt-manager/: the parameters of
-- encrypt_manager_global.h and the functions that tpm/tpmwork.cpp resolves in libutpm2.so. The
-- library is not in the repository; a function of it that is not found is `none`. Bytes are numbers.
pub mod Work
pub mod Receiver
pub mod Random
pub mod Vault
pub mod Tests
use dde_file_manager_extensi.Prelude.{ℕ, String, Bool, Option, List, ℤ, Hash}

pub data TpmType : Type 0 where
  unknown tpm_and_pcr tpm_and_pin tpm_and_pcr_and_pin : TpmType

pub record EncryptParams : Type 0 where
  pub type : TpmType
  pub session_hash_algo : String
  pub session_key_algo : String
  pub primary_hash_algo : String
  pub primary_key_algo : String
  pub minor_hash_algo : String
  pub minor_key_algo : String
  pub dir_path : String
  pub plain : String
  pub pin_code : String
  pub pcr : String
  pub pcr_bank : String

pub record DecryptParams : Type 0 where
  pub type : TpmType
  pub session_hash_algo : String
  pub session_key_algo : String
  pub primary_hash_algo : String
  pub primary_key_algo : String
  pub dir_path : String
  pub pin_code : String
  pub pcr : String
  pub pcr_bank : String

-- `TpmProType`, the type as the library has it.
pub data TpmProType : Type 0 where
  c_tpm_and_pcr c_tpm_and_pin c_tpm_and_pcr_and_pin : TpmProType

-- The files of the disk by their paths. The library writes the encrypted passphrase and its keys to
-- the directory of the parameters, and reads them there.
abbrev pub Files : Type 0
Files = Hash String

-- A library function that fills a buffer gives the bytes that it leaves in it; `none` where it
-- answers false.
pub record TpmLib : Type 0 where
  pub is_loaded : Bool
  pub utpm2_get_random : Option (ℕ → Option (List ℕ))
  pub utpm2_check_alg : Option (String → Bool)
  pub utpm2_init : Option (String → String → String → String → Bool)
  pub utpm2_encrypt_decrypt : Option (String → Bool → String → List ℕ → ℕ → Option (List ℕ))
  pub utpm2_check_tpm_by_tools : Option ℤ
  pub utpm2_get_random_by_tools : Option (ℤ → ℤ × String)
  pub utpm2_check_alg_by_tools : Option (String → ℤ × Option Bool)
  -- the C structure: its type, and the fields of the parameters
  pub utpm2_encrypt_by_tools : Option (TpmProType → EncryptParams → Files → ℤ × Files)
  pub utpm2_decrypt_by_tools : Option (TpmProType → DecryptParams → Files → ℤ × String)
