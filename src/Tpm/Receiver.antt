-- ===== src/Tpm/Receiver.antt =====
-- `EventReceiver` of dfmplugin-encrypt-manager/events/eventreceiver.cpp: the slots that the other
-- plugins call. A `QVariant` in a parameter map is a number or a text.
use Prim.Native.Char.{Char, code}
use dde_file_manager_extensi.Prelude.{
  ℕ, String, Bool, true, false, ◌&&◌, ◌||◌, not, Option, none, some, leb, num_eq, if◌then◌else◌,
  is_empty, text_length, ℤ, pos, negsuc, Hash, find, has_key,
}
use dde_file_manager_extensi.Tpm.{
  TpmType, unknown, tpm_and_pcr, tpm_and_pin, tpm_and_pcr_and_pin, EncryptParams, DecryptParams,
  TpmLib, Files,
}
use dde_file_manager_extensi.Tpm.Work.{
  get_random, check_tpm_available, is_support_algo, encrypt, decrypt, check_tpm_by_tools,
  get_random_by_tools, is_support_algo_by_tools, encrypt_by_tools, decrypt_by_tools, CipherFiles,
  Utf8,
}

pub data Variant : Type 0 where
  number : ℤ → Variant
  text : String → Variant

-- `toInt()` of a text and `toString()` of a number
pub record Convert : Type 0 where
  pub parse : String → ℤ
  pub print : ℤ → String

abbrev pub is_hex_digit : Char → Bool
is_hex_digit c = (leb 48 (code c) && leb (code c) 57) || (leb 97 (code c) && leb (code c) 102)

unfoldable pub all_hex : String → Bool
all_hex String.[] = true
all_hex (String.◌∷◌ c s) = is_hex_digit c && all_hex s

abbrev pub is_size : ℕ → ℤ → Bool
is_size n (pos size) = num_eq n size
is_size n (negsuc k) = false

unfoldable pub to_int : Convert → Option Variant → ℤ
to_int cv none = pos 0
to_int cv (some (number n)) = n
to_int cv (some (text s)) = cv.parse s

unfoldable pub to_string : Convert → Option Variant → String
to_string cv none = ""
to_string cv (some (number n)) = cv.print n
to_string cv (some (text s)) = s

-- The type that the number of the map names.
unfoldable pub type_of : ℤ → TpmType
type_of n =
    if is_size 1 n
    then tpm_and_pcr
    else if is_size 2 n
    then tpm_and_pin
    else if is_size 3 n
    then tpm_and_pcr_and_pin
    else unknown

abbrev pub is_unknown : TpmType → Bool
is_unknown unknown = true
is_unknown _ = false

abbrev pub uses_pcr : TpmType → Bool
uses_pcr tpm_and_pcr = true
uses_pcr tpm_and_pcr_and_pin = true
uses_pcr _ = false

abbrev pub uses_pin : TpmType → Bool
uses_pin tpm_and_pin = true
uses_pin tpm_and_pcr_and_pin = true
uses_pin _ = false

abbrev pub encrypt_type : String
encrypt_type = "PropertyKey_EncryptType"

abbrev pub pin_code : String
pin_code = "PropertyKey_PinCode"

abbrev pub pcr : String
pcr = "PropertyKey_Pcr"

abbrev pub pcr_bank : String
pcr_bank = "PropertyKey_PcrBank"

-- The keys that a map for decryption needs whatever its type is.
abbrev pub has_decrypt_keys : Hash Variant → Bool
has_decrypt_keys m =
    has_key "PropertyKey_SessionHashAlgo" m
    && (has_key "PropertyKey_SessionKeyAlgo" m
        && (has_key "PropertyKey_PrimaryHashAlgo" m
            && (has_key "PropertyKey_PrimaryKeyAlgo" m && has_key "PropertyKey_DirPath" m)))

-- The keys that a map for encryption needs whatever its type is.
abbrev pub has_encrypt_keys : Hash Variant → Bool
has_encrypt_keys m =
    has_decrypt_keys m
    && (has_key "PropertyKey_MinorHashAlgo" m
        && (has_key "PropertyKey_MinorKeyAlgo" m && has_key "PropertyKey_Plain" m))

-- The keys that its type asks for.
unfoldable pub has_type_keys : TpmType → Hash Variant → Bool
has_type_keys tpm_and_pcr m = has_key pcr m && has_key pcr_bank m
has_type_keys tpm_and_pin m = has_key pin_code m
has_type_keys tpm_and_pcr_and_pin m = has_key pcr m && (has_key pcr_bank m && has_key pin_code m)
has_type_keys unknown m = true

module _ (cv : Convert) where
  abbrev pub type_in : Hash Variant → TpmType
  type_in m = type_of (to_int cv (find encrypt_type m))

  abbrev field : String → Hash Variant → String
  field k m = to_string cv (find k m)

  unfoldable pub encrypt_params : TpmType → Hash Variant → EncryptParams
  encrypt_params type m = record {
    type = type;
    session_hash_algo = field "PropertyKey_SessionHashAlgo" m;
    session_key_algo = field "PropertyKey_SessionKeyAlgo" m;
    primary_hash_algo = field "PropertyKey_PrimaryHashAlgo" m;
    primary_key_algo = field "PropertyKey_PrimaryKeyAlgo" m;
    minor_hash_algo = field "PropertyKey_MinorHashAlgo" m;
    minor_key_algo = field "PropertyKey_MinorKeyAlgo" m;
    dir_path = field "PropertyKey_DirPath" m;
    plain = field "PropertyKey_Plain" m;
    pin_code = if uses_pin type then field pin_code m else "";
    pcr = if uses_pcr type then field pcr m else "";
    pcr_bank = if uses_pcr type then field pcr_bank m else "";
  }

  unfoldable pub decrypt_params : TpmType → Hash Variant → DecryptParams
  decrypt_params type m = record {
    type = type;
    session_hash_algo = field "PropertyKey_SessionHashAlgo" m;
    session_key_algo = field "PropertyKey_SessionKeyAlgo" m;
    primary_hash_algo = field "PropertyKey_PrimaryHashAlgo" m;
    primary_key_algo = field "PropertyKey_PrimaryKeyAlgo" m;
    dir_path = field "PropertyKey_DirPath" m;
    pin_code = if uses_pin type then field pin_code m else "";
    pcr = if uses_pcr type then field pcr m else "";
    pcr_bank = if uses_pcr type then field pcr_bank m else "";
  }

  module _ (lib : TpmLib) where
    unfoldable pub encrypt_by_tpm_process : Hash Variant → Files → ℤ × Files
    encrypt_by_tpm_process m files =
        if not (has_key encrypt_type m)
        then (negsuc 0, files)
        else if is_unknown (type_in m)
        then (negsuc 0, files)
        else if not (has_encrypt_keys m)
        then (negsuc 0, files)
        else if not (has_type_keys (type_in m) m)
        then (negsuc 0, files)
        else encrypt_by_tools lib (encrypt_params (type_in m) m) files

    -- The code, and what `pwd` is set to. A key that is missing gives `false`, which is the code 0.
    unfoldable pub decrypt_by_tpm_process : Hash Variant → Files → ℤ × Option String
    decrypt_by_tpm_process m files =
        if not (has_key encrypt_type m)
        then (negsuc 0, none)
        else if is_unknown (type_in m)
        then (negsuc 0, none)
        else if not (has_decrypt_keys m)
        then (pos 0, none)
        else if not (has_type_keys (type_in m) m)
        then (pos 0, none)
        else decrypt_by_tools lib (decrypt_params (type_in m) m) files

module _ (lib : TpmLib) where
  unfoldable pub tpm_is_available : Bool
  tpm_is_available = check_tpm_available lib

  -- The answer, and what the output is set to.
  unfoldable pub get_random_by_tpm : ℤ → Bool × Option String
  get_random_by_tpm size = elim (get_random lib size) [
    | none ↦ (false, none)
    | some out ↦ (if not (is_size (text_length out) size) then false else all_hex out, some out)
  ]

  unfoldable pub is_tpm_support_algo : String → Option Bool
  is_tpm_support_algo algo = if is_empty algo then none else is_support_algo lib algo

  module _ (utf8 : Utf8) where
    unfoldable pub encrypt_by_tpm :
        String → String → String → String → String → CipherFiles → Option (CipherFiles × Bool)
    encrypt_by_tpm hash_algo key_algo key_pin password dir_path =
        encrypt lib utf8 hash_algo key_algo key_pin password dir_path

    unfoldable pub decrypt_by_tpm : String → String → CipherFiles → Option (Option String)
    decrypt_by_tpm key_pin dir_path files = decrypt lib utf8 key_pin dir_path files

  unfoldable pub tpm_is_available_process : ℤ
  tpm_is_available_process = check_tpm_by_tools lib

  unfoldable pub get_random_by_tpm_process : ℤ → ℤ × Option String
  get_random_by_tpm_process size = get_random_by_tools lib size

  unfoldable pub is_tpm_support_algo_process : String → ℤ × Option Bool
  is_tpm_support_algo_process algo = is_support_algo_by_tools lib algo
