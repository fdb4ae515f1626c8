-- ===== src/DiskEncrypt/Device.antt =====
-- encrypt/diskencrypt.cpp: `block_device_utils` and `disk_encrypt_utils`.
use dde_file_manager_extensi.Prelude.{
  is_neg, is_zero, not, String, Bool, true, false, ◌==◌, ◌||◌, Option, none, some, Hash, find,
  is_empty, is_nil, mid, ◌<>◌, if◌then◌else◌,
}
use dde_file_manager_extensi.DiskEncrypt.{
  EncryptVersion, not_encrypted, luks1, luks2, luks_unknown, version_unknown, EncryptParams,
  is_valid, EncryptConfig,
}
use dde_file_manager_extensi.DiskEncrypt.Calls.{
  Env, Action, BlockDevice, Json, text, stats_path, accesses_path, opens_file, writes_file,
  loads_library, resolves_symbol, generates_key, unloads_library, call, call_output,
}

-- `bcDevEncryptVersion` over what `bcCreateBlkDev` finds.
unfoldable pub version_of : Option BlockDevice → EncryptVersion
version_of none = version_unknown
version_of (some dev) =
    if dev.id_type == "crypto_LUKS"
    then (if dev.id_version == "1"
        then luks1
        else if dev.id_version == "2"
        then luks2
        else luks_unknown)
    else if dev.is_encrypted
    then version_unknown
    else not_encrypted

-- `bcIsMounted` over what `bcCreateBlkDev` finds.
unfoldable pub mounted : Option BlockDevice → Bool
mounted none = false
mounted (some dev) = not (is_nil dev.mount_points)

unfoldable pub rec_file_name : String → String → String
rec_file_name recovery_path device = recovery_path <> "/" <> mid 5 device <> "_recovery_key.txt"

-- `obj.value(key).toString()`
abbrev text_at : String → Hash Json → String
text_at key obj = elim (find key obj) [ some (text s) ↦ s | _ ↦ "" ]

module _ (env : Env) where
  unfoldable pub validate_params : EncryptParams → Action Bool
  validate_params params w =
      if not (is_valid params)
      then (false, w)
      else (let (found, w1) = call env (stats_path params.device) w in
          if not (is_zero found)
          then (false, w1)
          else if not (env.is_block w1.events params.device)
          then (false, w1)
          else if is_empty params.recovery_path
          then (true, w1)
          else (let (there, w2) = call env (accesses_path params.recovery_path) w1 in
              (is_zero there, w2)))

  -- `bcGenRecKey`: the library, if it was loaded, is unloaded at the end.
  unfoldable pub gen_rec_key : Action String
  gen_rec_key w =
      let (loaded, w1) = call env loads_library w in
      if not (is_zero loaded)
      then ("", w1)
      else (let (resolved, w2) = call env resolves_symbol w1 in
          if not (is_zero resolved)
          then ("", (call env unloads_library w2).1)
          else (let ((ret, key), w3) = call_output env generates_key w2 in
              (if is_zero ret then key else "", (call env unloads_library w3).1)))

  -- `bcExpRecFile`: the key that was written to the recovery file, or the empty text.
  unfoldable pub exp_rec_file : String → String → Action String
  exp_rec_file device recovery_path w =
      if is_empty recovery_path || not (env.dir_exists w.events recovery_path)
      then ("", w)
      else (let (key, w1) = gen_rec_key w in
          if is_empty key
          then ("", w1)
          else (let file = rec_file_name recovery_path device in
              let (opened, w2) = call env (opens_file file) w1 in
              if is_neg opened then ("", w2) else (key, (call env (writes_file file key) w2).1)))

  -- `bcReadEncryptConfig`, over the contents of the configuration file, if it exists and opens.
  unfoldable pub read_encrypt_config : Option String → EncryptConfig → EncryptConfig
  read_encrypt_config none config = config
  read_encrypt_config (some contents) config =
      let obj = env.parse_object contents in
      record {
        cipher = text_at "cipher" obj;
        device = text_at "device" obj;
        mount_point = text_at "device-mountpoint" obj;
        device_name = text_at "device-name" obj;
        device_path = text_at "device-path" obj;
        key_size = text_at "key-size" obj;
        mode = text_at "mode" obj;
        recovery_path = text_at "recoverykey-path" obj;
        clear_dev = text_at "volume" obj;
      }
