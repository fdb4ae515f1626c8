-- ===== src/Workers.antt =====
-- encrypt/encryptworker.h and .cpp: what the jobs of the daemon share. A job is run from its thread's
-- start to its end.
pub mod Prepare
pub mod Decrypt
pub mod Passphrase
pub mod Online
pub mod Service
pub mod Startup
pub mod Keeps
pub mod OnlineKeeps
pub mod ServiceKeeps
pub mod KeySlots
pub mod Rollback
pub mod OnlineKeys
pub mod Waiting
pub mod JobFile
pub mod Denied
pub mod Prepared
pub mod Tests
use dde_file_manager_extensi.Prelude.{
  ℤ, pos, is_neg, String, Bool, true, false, ◌||◌, Hash, List, [], ◌∷◌, insert, if◌then◌else◌,
}
use dde_file_manager_extensi.DiskEncrypt.{EncryptParams, fail, open_file_failed}
use dde_file_manager_extensi.DiskEncrypt.Calls.{
  Env, World, Action, Json, texts, makes_path, opens_file, writes_file, call,
}

-- A `QVariantMap`, as its readers see it: `value(key).toString()`, `.toBool()`, `.toInt()`.
pub record Params : Type 0 where
  pub to_text : String → String
  pub to_flag : String → Bool
  pub to_num : String → ℤ
  pub is_empty_map : Bool

-- `bcConvertParams`
unfoldable pub convert_params : Params → EncryptParams
convert_params params = record {
  device = params.to_text "device";
  passphrase = params.to_text "passphrase";
  cipher = params.to_text "cipher";
  recovery_path = params.to_text "exportRecKeyTo";
  tpm_token = params.to_text "tpmToken";
}

module _ (env : Env) where
  unfoldable pub create_usec_path_if_not_exist : World → World
  create_usec_path_if_not_exist w =
      if env.dir_exists w.events "/boot/usec-crypt"
      then w
      else (call env (makes_path "/boot/usec-crypt") w).1

  -- A job description is written over an older one; `done` is the code where that succeeds.
  unfoldable pub write_job : String → Hash Json → ℤ → Action ℤ
  write_job path obj done w =
      let (opened, w1) = call env (opens_file path) (create_usec_path_if_not_exist w) in
      if is_neg opened
      then (fail open_file_failed, w1)
      else (done, (call env (writes_file path (env.print_object obj)) w1).1)

  -- `updateTokenKeyslots`, which `ChgPassWorker::run` repeats.
  unfoldable pub update_token_keyslots : String → ℤ → String
  update_token_keyslots token keyslot =
      env.print_compact
        (insert "keyslots" (texts (env.number_text keyslot ∷ [])) (env.parse_object token))
