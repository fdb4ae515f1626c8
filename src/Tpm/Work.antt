-- ===== src/Tpm/Work.antt =====
-- `TPMWork` of dfmplugin-encrypt-manager/tpm/tpmwork.cpp. A function that answers whether it filled
-- its output gives the output; where it can answer false the output is left as it was.
use Prim.Native.Char.{Char}
use dde_file_manager_extensi.Prelude.{
  ℕ, ◌/◌, ◌%◌, String, Bool, true, false, ◌&&◌, ◌||◌, not, Option, none, some, List, [], ◌∷◌, ltb,
  num_eq, if◌then◌else◌, is_some, length, ℤ, pos, negsuc, mid, ◌==◌,
}
use dde_file_manager_extensi.Tpm.{
  TpmType, unknown, tpm_and_pcr, tpm_and_pin, tpm_and_pcr_and_pin, TpmProType, c_tpm_and_pcr,
  c_tpm_and_pin, c_tpm_and_pcr_and_pin, EncryptParams, DecryptParams, TpmLib, Files,
}

abbrev first_char : String → Char
first_char String.[] = "0"
first_char (String.◌∷◌ c s) = c

unfoldable pub hex_digit : ℕ → Char
unfolding mid
hex_digit n = first_char (mid n "0123456789abcdef")

-- The loop over `sprintf(out + i * 2, "%02x", random[i])`.
unfoldable pub to_hex : List ℕ → String
to_hex [] = ""
to_hex (b ∷ bs) = String.◌∷◌ (hex_digit (b / 16)) (String.◌∷◌ (hex_digit (b % 16)) (to_hex bs))

-- The file tpm_encrypt.txt of a directory: whether it can be written, what it holds, and what
-- reading it as text (`QIODevice::Text`) makes of its bytes.
pub record CipherFiles : Type 0 where
  pub writable : String → Bool
  pub content : String → Option (List ℕ)
  pub as_text : List ℕ → List ℕ

-- `toUtf8()` and `fromUtf8()`
pub record Utf8 : Type 0 where
  pub encode : String → List ℕ
  pub decode : List ℕ → String

-- `static_cast<uint16_t>`
abbrev pub u16 : ℕ → ℕ
u16 n = n % 65536

-- The size of the buffer `out_text`.
abbrev pub tpm_out_text_max_size : ℕ
tpm_out_text_max_size = 3000

abbrev pub overruns : List ℕ → Bool
overruns out = ltb tpm_out_text_max_size (length out)

-- The library's name of a type; an unknown one has none.
unfoldable pub pro_type : TpmType → Option TpmProType
pro_type tpm_and_pcr = some c_tpm_and_pcr
pro_type tpm_and_pin = some c_tpm_and_pin
pro_type tpm_and_pcr_and_pin = some c_tpm_and_pcr_and_pin
pro_type unknown = none

abbrev resolved {ℓ} : {F : Type ℓ} → TpmLib → Option F → Option F
resolved lib f = if lib.is_loaded then f else none

module _ (lib : TpmLib) where
  unfoldable pub get_random : ℤ → Option String
  get_random (negsuc n) = none
  get_random (pos size) =
      if not (lib.is_loaded) || (not (num_eq (size % 2) 0) || (ltb size 2 || ltb 64 size))
      then none
      else elim (lib.utpm2_get_random) [
        | none ↦ none
        | some f ↦ elim (f (u16 (size / 2))) [ none ↦ none | some random ↦ some (to_hex random) ]
      ]

  unfoldable pub check_tpm_available : Bool
  check_tpm_available = lib.is_loaded && is_some (get_random (pos 2))

  unfoldable pub is_support_algo : String → Option Bool
  is_support_algo algo = elim (resolved lib (lib.utpm2_check_alg)) [
    | none ↦ none
    | some f ↦ some (f algo)
  ]

  unfoldable pub init_tpm2 : String → String → String → String → Bool
  init_tpm2 hash_algo key_algo key_pin dir_path = elim (resolved lib (lib.utpm2_init)) [
    | none ↦ false
    | some f ↦ f key_algo hash_algo key_pin dir_path
  ]

  unfoldable pub check_tpm_by_tools : ℤ
  check_tpm_by_tools = elim (resolved lib (lib.utpm2_check_tpm_by_tools)) [
    | none ↦ negsuc 0
    | some code ↦ code
  ]

  unfoldable pub get_random_by_tools : ℤ → ℤ × Option String
  get_random_by_tools size = elim (resolved lib (lib.utpm2_get_random_by_tools)) [
    | none ↦ (negsuc 0, none)
    | some f ↦ ((f size).0, some (f size).1)
  ]

  unfoldable pub is_support_algo_by_tools : String → ℤ × Option Bool
  is_support_algo_by_tools algo = elim (resolved lib (lib.utpm2_check_alg_by_tools)) [
    | none ↦ (negsuc 0, none)
    | some f ↦ f algo
  ]

  -- The code, and the files after the call.
  unfoldable pub encrypt_by_tools : EncryptParams → Files → ℤ × Files
  encrypt_by_tools params files = elim (resolved lib (lib.utpm2_encrypt_by_tools)) [
    | none ↦ (negsuc 0, files)
    | some f ↦ elim (pro_type (params.type)) [
      | none ↦ (negsuc 0, files)
      | some type ↦ f type params files
    ]
  ]

  -- The code, and what the passphrase is set to.
  unfoldable pub decrypt_by_tools : DecryptParams → Files → ℤ × Option String
  decrypt_by_tools params files = elim (resolved lib (lib.utpm2_decrypt_by_tools)) [
    | none ↦ (negsuc 0, none)
    | some f ↦ elim (pro_type (params.type)) [
      | none ↦ (negsuc 0, none)
      | some type ↦ ((f type params files).0, some (f type params files).1)
    ]
  ]

  module _ (utf8 : Utf8) where
    -- The files after the call, and the answer; `none` where the library writes past the buffer.
    unfoldable pub encrypt :
        String → String → String → String → String → CipherFiles → Option (CipherFiles × Bool)
    encrypt hash_algo key_algo key_pin password dir_path files =
        if not (init_tpm2 hash_algo key_algo key_pin dir_path)
        then some (files, false)
        else elim (lib.utpm2_encrypt_decrypt) [
          | none ↦ some (files, false)
          | some f ↦
              let bytes = utf8.encode password in
              elim (f dir_path false key_pin bytes (u16 (length bytes))) [
                | none ↦ some (files, false)
                | some out ↦
                    if overruns out
                    then none
                    else if files.writable dir_path
                    then some (
                      record files {
                        content = λ d. if d == dir_path then some out else files.content d;
                      },
                      true,
                    )
                    else some (files, false)
              ]
        ]

    -- The password, where the answer is true; `none` where the library writes past the buffer.
    unfoldable pub decrypt : String → String → CipherFiles → Option (Option String)
    decrypt key_pin dir_path files = elim (resolved lib (lib.utpm2_encrypt_decrypt)) [
      | none ↦ some none
      | some f ↦ elim (files.content dir_path) [
        | none ↦ some none
        | some stored ↦
            let bytes = files.as_text stored in
            elim (f dir_path true key_pin bytes (u16 (length bytes))) [
              | none ↦ some none
              | some out ↦ if overruns out then none else some (some (utf8.decode out))
            ]
      ]
    ]
