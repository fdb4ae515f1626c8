-- ===== src/Workers/Passphrase.antt =====
-- encrypt/encryptworker.cpp: `ChgPassWorker`.
use dde_file_manager_extensi.Prelude.{
  ℤ, pos, is_zero, not, String, Bool, true, false, ◌||◌, is_empty, if◌then◌else◌,
}
use dde_file_manager_extensi.DiskEncrypt.Calls.{Env, Action, Outcome}
use dde_file_manager_extensi.DiskEncrypt.Keyslots.{
  keyslot_after, change_passphrase, change_passphrase_by_rec_key, set_token,
}
use dde_file_manager_extensi.Workers.{Params, update_token_keyslots}

module _ (env : Env) where
  unfoldable pub change_with : Bool → String → String → String → Action (Outcome ℤ)
  change_with true = change_passphrase_by_rec_key env
  change_with false = change_passphrase env

  -- The second half of the run: the token follows the passphrase to its key slot, and where that fails
  -- the passphrase is changed back.
  unfoldable pub update_token : String → String → String → String → ℤ → Action ℤ
  update_token dev old_pass new_pass token new_slot w =
      let (o, w1) = set_token env dev (update_token_keyslots env token new_slot) w in
      if is_zero o.result
      then (o.result, w1)
      else (o.result, (change_passphrase env dev new_pass old_pass w1).1)

  -- `ChgPassWorker::run`, to its exit code.
  unfoldable pub chg_pass_run : Params → Action ℤ
  chg_pass_run params w =
      let dev = params.to_text "device" in
      let old_pass = params.to_text "oldPassphrase" in
      let new_pass = params.to_text "passphrase" in
      let token = params.to_text "tpmToken" in
      let (o, w1) = change_with (params.to_flag "usingRecKey") dev old_pass new_pass w in
      if is_empty token || not (is_zero o.result)
      then (o.result, w1)
      else update_token dev old_pass new_pass token (keyslot_after (pos 0) o) w1
