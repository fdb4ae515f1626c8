-- ===== src/Entry/Token.antt =====
-- `genPassphraseFromTPM`, `getPassphraseFromTPM`, `cacheToken` and `encKeyType` of
-- utils/encryptutils.cpp, and the token of menu/diskencryptmenuscene.cpp.
use dde_file_manager_extensi.Prelude.{
  ℕ, String, Bool, true, false, ◌&&◌, ◌||◌, not, Option, none, some, [], ◌∷◌, if◌then◌else◌,
  is_empty, is_nil, or_else, ◌==◌, ◌<>◌, ℤ, pos, is_zero, Hash, find, insert, erase, has_key,
}
use dde_file_manager_extensi.Tpm.{TpmLib}
use dde_file_manager_extensi.Tpm.Receiver.{
  Variant, text, get_random_by_tpm_process, encrypt_by_tpm_process, decrypt_by_tpm_process,
}
use dde_file_manager_extensi.Entry.Passphrase.{
  Json, string, strings, json_text, Host, Disk, ini_value, set_ini, make_path, dir_of, Algorithms,
  get_algorithm, encrypt_map, type_number, password_size,
}

abbrev pub algo_ini : String → String
algo_ini dev = dir_of dev <> "/algo.ini"

abbrev pub token_json : String → String
token_json dev = dir_of dev <> "/token.json"

-- The codes of `TPMError` that the program gives itself; another code is the library's.
abbrev pub no_random_number : ℤ
no_random_number = pos 3

abbrev pub missing_algo : ℤ
missing_algo = pos 4

-- The session key's algorithm is stored under the primary key's name, and then overwritten.
unfoldable pub store_algorithms : String → Algorithms → Disk → Disk
store_algorithms dev a disk = set_ini (algo_ini dev) "primary_key_algo" (a.primary_key) (
    set_ini (algo_ini dev) "primary_hash_algo" (a.primary_hash) (
      set_ini (algo_ini dev) "primary_key_algo" (a.session_key)
        (set_ini (algo_ini dev) "session_hash_algo" (a.session_hash) disk)))

abbrev or_default : String → String → String
or_default d s = if is_empty s then d else s

module _ (host : Host) (lib : TpmLib) where
  -- The steps of `genPassphraseFromTPM` once the random passphrase is there.
  unfoldable pub save_passphrase : String → String → String → Disk → Disk × ℤ
  save_passphrase dev pin passphrase disk =
      let made = make_path (dir_of dev) disk in
      elim (get_algorithm lib) [
        | none ↦ (made, missing_algo)
        | some a ↦
            let sent =
              encrypt_by_tpm_process (host.convert) lib (encrypt_map a (dir_of dev) passphrase pin)
                (made.files) in
            let after = record made { files = sent.1 } in
            if is_zero sent.0 then (store_algorithms dev a after, pos 0) else (after, sent.0)
      ]

  -- The disk afterwards, the code, and the passphrase.
  unfoldable pub gen_passphrase : String → String → Disk → Disk × (ℤ × String)
  gen_passphrase dev pin disk =
      let drawn = get_random_by_tpm_process lib password_size in
      let passphrase = or_else drawn.1 "" in
      if not (is_zero drawn.0) || is_empty passphrase
      then (disk, (no_random_number, passphrase))
      else (let saved = save_passphrase dev pin passphrase disk in (saved.0, (saved.1, passphrase)))

  -- The map that the passphrase is decrypted with.
  unfoldable pub decrypt_map : String → String → Hash Json → Disk → Hash Variant
  unfolding insert
  decrypt_map dev pin token disk =
      let map =
        ("PropertyKey_EncryptType", type_number pin)
        ∷ (
          "PropertyKey_SessionHashAlgo",
          text (or_default "sha256" (ini_value (algo_ini dev) "session_hash_algo" disk)),
        )
        ∷ (
          "PropertyKey_SessionKeyAlgo",
          text (or_default "aes" (ini_value (algo_ini dev) "session_key_algo" disk)),
        )
        ∷ ("PropertyKey_PrimaryHashAlgo", text (ini_value (algo_ini dev) "primary_hash_algo" disk))
        ∷ ("PropertyKey_PrimaryKeyAlgo", text (ini_value (algo_ini dev) "primary_key_algo" disk))
        ∷ ("PropertyKey_DirPath", text (dir_of dev))
        ∷ [] in
      insert "PropertyKey_PcrBank" (text (json_text (find "pcr-bank" token))) (
        insert "PropertyKey_Pcr" (text (json_text (find "pcr" token)))
          (if is_empty pin then map else insert "PropertyKey_PinCode" (text pin) map))

  -- The passphrase is what the TPM manager set it to, also where it failed.
  unfoldable pub get_passphrase : String → String → Disk → String
  get_passphrase dev pin disk = elim (find (token_json dev) (disk.files)) [
    | none ↦ ""
    | some content ↦
        let token = host.parse content in
        if not (has_key "pcr" token) || not (has_key "pcr-bank" token)
        then ""
        else or_else
            (decrypt_by_tpm_process (host.convert) lib (decrypt_map dev pin token disk)
              (disk.files)).1
            ""
  ]

module _ (lib : TpmLib) where
  -- `DiskEncryptMenuScene::generateTPMConfig`, before it is printed
  unfoldable pub generate_tpm_config : Hash Json
  generate_tpm_config =
      let a = or_else (get_algorithm lib) (record {
        session_hash = "";
        session_key = "";
        primary_hash = "sha256";
        primary_key = "ecc";
        minor_hash = "";
        minor_key = "";
      }) in
      ("keyslot", string "1")
      ∷ ("session-key-alg", string (a.session_key))
      ∷ ("session-hash-alg", string (a.session_hash))
      ∷ ("primary-key-alg", string (a.primary_key))
      ∷ ("primary-hash-alg", string (a.primary_hash))
      ∷ ("pcr", string "7")
      ∷ ("pcr-bank", string (a.primary_hash))
      ∷ []

module _ (host : Host) where
  -- `getBase64Of`
  unfoldable pub get_base64_of : String → Disk → String
  get_base64_of path disk = elim (find path (disk.files)) [
    | none ↦ ""
    | some content ↦ host.to_base64 content
  ]

  -- `makeFile` of `cacheToken`: the disk, and whether the file was opened.
  unfoldable pub make_file : String → String → Disk → Disk × Bool
  make_file path content disk =
      if host.can_write path
      then (record disk { files = insert path content (disk.files) }, true)
      else (disk, false)

  abbrev decoded : String → Hash Json → String
  decoded key token = host.from_base64 (json_text (find key token))

  -- The five files of a token, and whether all of them were written.
  unfoldable pub make_files : String → Hash Json → Disk → Disk × Bool
  make_files dev token disk =
      let one = make_file (token_json dev) (host.print token) disk in
      let two = make_file (dir_of dev <> "/iv.bin") (decoded "iv" token) one.0 in
      let three = make_file (dir_of dev <> "/key.priv") (decoded "kek-priv" token) two.0 in
      let four = make_file (dir_of dev <> "/key.pub") (decoded "kek-pub" token) three.0 in
      let five = make_file (dir_of dev <> "/cipher.out") (decoded "enc" token) four.0 in
      (five.0, one.1 && (two.1 && (three.1 && (four.1 && five.1))))

  unfoldable pub cache_algorithms : String → Hash Json → Disk → Disk
  cache_algorithms dev token disk =
      set_ini (algo_ini dev) "primary_key_algo" (json_text (find "primary-key-alg" token)) (
        set_ini (algo_ini dev) "primary_hash_algo" (json_text (find "primary-hash-alg" token)) (
          set_ini (algo_ini dev) "session_key_algo" (json_text (find "session-key-alg" token)) (
            set_ini (algo_ini dev) "session_hash_algo" (json_text (find "session-hash-alg" token))
              disk)))

  unfoldable pub cache_token : String → Hash Json → Disk → Disk
  cache_token dev token disk =
      if is_nil token
      then record disk { dirs = host.rm_path (dir_of dev) (disk.dirs) }
      else (let made = make_files dev token (make_path (dir_of dev) disk) in
          let cached = cache_algorithms dev token made.0 in
          if made.1
          then cached
          else record cached { dirs = host.rm_path (dir_of dev) (cached.dirs) })

  -- The answer of `QueryTPMToken` is `none` where the bus or the call fails.
  unfoldable pub enc_key_type : String → Option String → Disk → Disk × ℕ
  enc_key_type dev none disk = (disk, 0)
  enc_key_type dev (some reply) disk =
      if is_empty reply
      then (disk, 0)
      else (let token = host.parse reply in
          let pin = json_text (find "pin" token) in
          (cache_token dev token disk, if pin == "1" then 1 else if pin == "0" then 2 else 0))

module _ (host : Host) (lib : TpmLib) where
  unfoldable pub generate_tpm_token : String → Bool → Disk → String
  generate_tpm_token dev pin disk =
      let token = host.parse (host.print (generate_tpm_config lib)) in
      host.print_compact (
        insert "pin" (string (if pin then "1" else "0")) (
          insert "enc" (string (get_base64_of host (dir_of dev <> "/cipher.out") disk)) (
            insert "iv" (string (get_base64_of host (dir_of dev <> "/iv.bin") disk)) (
              insert "kek-pub" (string (get_base64_of host (dir_of dev <> "/key.pub") disk)) (
                insert "kek-priv" (string (get_base64_of host (dir_of dev <> "/key.priv") disk)) (
                  insert "keyslots" (strings ("0" ∷ []))
                    (insert "type" (string "usec-tpm2") (erase "keyslot" token))))))))
