-- ===== src/DiskEncrypt/Header.antt =====
-- encrypt/diskencrypt.cpp: the preparation of a device for encryption: a detached LUKS2 header is made
-- in a file, and then restored onto the device.
use dde_file_manager_extensi.Prelude.{
  ◌*◌, ◌/◌, ℤ, pos, is_neg, is_zero, not, String, Bool, true, false, Option, none, some, is_empty,
  mid, ◌<>◌, if◌then◌else◌,
}
use dde_file_manager_extensi.DiskEncrypt.{
  Status, fail, params_invalid, device_encrypted, device_mounted, create_header, set_offset,
  format_luks, add_keyslot, init_reencrypt, active, deactive, restore_from_file, open_file_failed,
  EncryptVersion, not_encrypted, EncryptParams,
}
use dde_file_manager_extensi.DiskEncrypt.Calls.{
  Env, World, Action, Body, Outcome, encrypt_params, inits, sets_rng_type, sets_data_offset,
  formats, adds_keyslot_by_volume_key, inits_reencrypt, activates, deactivates, restores_header,
  creates_file, allocates_file, removes_file, call, checked, return, with_handle, lift, ◌>>=◌, ◌>>◌,
}
use dde_file_manager_extensi.DiskEncrypt.Resize.{shrink_file_system, expand_file_system}
use dde_file_manager_extensi.DiskEncrypt.Device.{version_of, mounted, validate_params, exp_rec_file}

-- The out-parameters of `bcDoSetupHeader`. A failure may have written the key slots; no caller reads
-- them then.
pub record Header : Type 0 where
  pub path : String
  pub keyslot_cipher : ℤ
  pub keyslot_rec_key : Option ℤ

unfoldable pub header_file : String → String
header_file device = "/tmp/" <> mid 5 device <> "_luks2_pre_enc"

unfoldable pub active_name : String → String
active_name device = "dm-" <> mid 5 device

abbrev pub is_not_encrypted : EncryptVersion → Bool
is_not_encrypted not_encrypted = true
is_not_encrypted _ = false

abbrev refused : Status → Outcome Header
refused error = record { result = fail error; ret = pos 0; out = none }

module _ (env : Env) where
  -- `bcPrepareHeaderFile` with its out-parameter, the path.
  unfoldable pub prepare_header_file : String → Action (ℤ × Option String)
  prepare_header_file device w =
      let path = header_file device in
      let (fd, w1) = call env (creates_file path) w in
      if is_neg fd
      then ((fail open_file_failed, none), w1)
      else (let (ret, w2) = call env (allocates_file path) w1 in
          if is_zero ret then ((pos 0, some path), w2) else ((fail create_header, none), w2))

  -- The recovery key gets a slot of its own; a failure there is only reported.
  unfoldable pub add_recovery_key : String → Action (Option ℤ)
  add_recovery_key rec_key w =
      if is_empty rec_key
      then (none, w)
      else (let (ret, w1) = call env (adds_keyslot_by_volume_key rec_key) w in (some ret, w1))

  -- What follows the formatting of the header.
  unfoldable pub fill_header : EncryptParams → String → Body Header (Outcome Header)
  fill_header params path = do
    slot ← checked env (adds_keyslot_by_volume_key params.passphrase) add_keyslot
    rec_key ← lift (exp_rec_file env params.device params.recovery_path)
    rec_slot ← lift (add_recovery_key rec_key)
    checked env (inits_reencrypt encrypt_params "" params.passphrase) init_reencrypt
    checked env (activates (active_name params.device) params.passphrase) active
    lift (expand_file_system env ("/dev/mapper/" <> active_name params.device))
    ret ← checked env (deactivates (active_name params.device)) deactive
    return (pos 0) ret
        (some (record { path = path; keyslot_cipher = slot; keyslot_rec_key = rec_slot }))

  unfoldable pub setup_body : EncryptParams → String → Body Header (Outcome Header)
  setup_body params path = do
    lift (call env sets_rng_type)
    checked env (sets_data_offset (32 * 1024)) set_offset
    checked env (formats params.cipher "xts-plain64" (256 / 8) params.device) format_luks
    fill_header params path

  -- The clean-up of `bcDoSetupHeader`.
  unfoldable pub undo_setup : String → String → ℤ → Action (Unit {0})
  undo_setup device path ret w =
      if is_neg ret
      then (let (_, w1) = call env (removes_file path) w in
          (tt, (expand_file_system env device w1).1))
      else (tt, w)

  -- `bcDoSetupHeader` from the answer of `bcPrepareHeaderFile` on.
  unfoldable pub setup_with : EncryptParams → (ℤ × Option String) × World → Outcome Header × World
  setup_with params ((ret, none), w) =
      (record { result = fail create_header; ret = ret; out = none }, w)
  setup_with params ((ret, some path), w) =
      with_handle env (inits path) (setup_body params path) (undo_setup params.device path)
        (shrink_file_system env params.device w).1

  unfoldable pub do_setup_header : EncryptParams → Action (Outcome Header)
  do_setup_header params w = setup_with params (prepare_header_file params.device w)

  unfoldable pub init_header_file : EncryptParams → Action (Outcome Header)
  init_header_file params w =
      let (valid, w1) = validate_params env params w in
      if not valid
      then (refused params_invalid, w1)
      else if not (is_not_encrypted (version_of (env.block_device w1.events params.device)))
      then (refused device_encrypted, w1)
      else if mounted (env.block_device w1.events params.device)
      then (refused device_mounted, w1)
      else do_setup_header params w1

  unfoldable pub restore_body : String → Body (Unit {0}) (Outcome (Unit {0}))
  restore_body header_path = do
    ret ← checked env (restores_header header_path) restore_from_file
    return (pos 0) ret none

  -- The header file is removed whatever happens.
  unfoldable pub drop_file : String → ℤ → Action (Unit {0})
  drop_file path ret w = if is_empty path then (tt, w) else (tt, (call env (removes_file path) w).1)

  unfoldable pub init_header_device : String → String → Action (Outcome (Unit {0}))
  init_header_device device header_path =
      with_handle env (inits device) (restore_body header_path) (drop_file header_path)
