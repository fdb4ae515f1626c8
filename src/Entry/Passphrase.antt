-- ===== src/Entry/Passphrase.antt =====
-- `tpm_passphrase_utils`, `device_utils::cacheToken` and `device_utils::encKeyType` of
-- utils/encryptutils.cpp, over the slots of the TPM manager. Base64, JSON and the answers of the
-- file system are parameters.
use dde_file_manager_extensi.Prelude.{
  String, Bool, false, ◌&&◌, ◌||◌, Option, none, some, List, [], ◌∷◌, if◌then◌else◌, is_empty,
  or_else, ◌==◌, ◌<>◌, ℤ, pos, Hash, insert, value_or,
}
use dde_file_manager_extensi.Tpm.{TpmLib, Files}
use dde_file_manager_extensi.Tpm.Receiver.{
  Variant, number, text, Convert, is_tpm_support_algo_process,
}

abbrev pub password_size : ℤ
password_size = pos 14

-- A value of the token. One that is neither a text nor a list of texts stands as an empty list: the
-- program does not look at it.
pub data Json : Type 0 where
  string : String → Json
  strings : List String → Json

-- `toString()` of a value that is missing or no text is empty.
abbrev pub json_text : Option Json → String
json_text none = ""
json_text (some (string s)) = s
json_text (some (strings l)) = ""

-- What the program asks of Qt and of the file system. `rm_path` removes a directory and those above
-- it that are empty.
pub record Host : Type 0 where
  pub convert : Convert
  pub print : Hash Json → String
  pub print_compact : Hash Json → String
  pub parse : String → Hash Json
  pub to_base64 : String → String
  pub from_base64 : String → String
  pub can_write : String → Bool
  pub rm_path : String → List String → List String

-- The files, the directories, and the settings files with their values.
pub record Disk : Type 0 where
  pub files : Files
  pub dirs : List String
  pub ini : Hash (Hash String)

abbrev pub ini_of : String → Disk → Hash String
ini_of path disk = value_or path (disk.ini) []

abbrev pub ini_value : String → String → Disk → String
ini_value path key disk = value_or key (ini_of path disk) ""

abbrev pub set_ini : String → String → String → Disk → Disk
set_ini path key value disk = record disk {
  ini = insert path (insert key value (ini_of path disk)) (disk.ini);
}

unfoldable pub has_dir : String → List String → Bool
has_dir d [] = false
has_dir d (e ∷ es) = d == e || has_dir d es

-- `if (!dir.exists()) dir.mkpath(dirPath)`
unfoldable pub make_path : String → Disk → Disk
make_path dir disk =
    if has_dir dir (disk.dirs) then disk else record disk { dirs = dir ∷ disk.dirs }

abbrev pub dir_of : String → String
dir_of dev = "/tmp/dfm-encrypt" <> dev

pub record Algorithms : Type 0 where
  pub session_hash : String
  pub session_key : String
  pub primary_hash : String
  pub primary_key : String
  pub minor_hash : String
  pub minor_key : String

abbrev pub tpm_algorithms : Algorithms
tpm_algorithms = record {
  session_hash = "sha256";
  session_key = "aes";
  primary_hash = "sha256";
  primary_key = "rsa";
  minor_hash = "sha256";
  minor_key = "aes";
}

abbrev pub tcm_algorithms : Algorithms
tcm_algorithms = record {
  session_hash = "sm3_256";
  session_key = "sm4";
  primary_hash = "sm3_256";
  primary_key = "sm4";
  minor_hash = "sm3_256";
  minor_key = "sm4";
}

module _ (lib : TpmLib) where
  -- A flag that the library does not set stays false.
  abbrev supports : String → Bool
  supports algo = or_else (is_tpm_support_algo_process lib algo).1 false

  abbrev supports_all : Algorithms → Bool
  supports_all a =
      supports (a.session_hash)
      && (supports (a.session_key)
          && (supports (a.primary_hash)
              && (supports (a.primary_key) && (supports (a.minor_hash) && supports (a.minor_key)))))

  unfoldable pub get_algorithm : Option Algorithms
  get_algorithm =
      if supports_all tpm_algorithms
      then some tpm_algorithms
      else if supports_all tcm_algorithms
      then some tcm_algorithms
      else none

abbrev pub algorithm_entries : Algorithms → Hash Variant → Hash Variant
algorithm_entries a rest =
    ("PropertyKey_SessionHashAlgo", text (a.session_hash))
    ∷ ("PropertyKey_SessionKeyAlgo", text (a.session_key))
    ∷ ("PropertyKey_PrimaryHashAlgo", text (a.primary_hash))
    ∷ ("PropertyKey_PrimaryKeyAlgo", text (a.primary_key))
    ∷ rest

abbrev pub type_number : String → Variant
type_number pin = if is_empty pin then number (pos 1) else number (pos 3)

-- The map that the passphrase is encrypted with.
unfoldable pub encrypt_map : Algorithms → String → String → String → Hash Variant
unfolding insert
encrypt_map a dir passphrase pin =
    let map = algorithm_entries a (
      ("PropertyKey_MinorHashAlgo", text (a.minor_hash))
      ∷ ("PropertyKey_MinorKeyAlgo", text (a.minor_key))
      ∷ ("PropertyKey_DirPath", text dir)
      ∷ ("PropertyKey_Plain", text passphrase)
      ∷ []) in
    if is_empty pin
    then insert "PropertyKey_PcrBank" (text (a.primary_hash)) (
        insert "PropertyKey_Pcr" (text "7") (insert "PropertyKey_EncryptType" (number (pos 1)) map))
    else insert "PropertyKey_PinCode" (text pin) (
        insert "PropertyKey_PcrBank" (text (a.primary_hash)) (
          insert "PropertyKey_Pcr" (text "7")
            (insert "PropertyKey_EncryptType" (number (pos 3)) map)))
