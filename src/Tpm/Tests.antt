-- ===== src/Tpm/Tests.antt =====
-- The theorems of the TPM manager at concrete inputs.
use dde_file_manager_extensi.Prelude.{
  ℕ, String, ◌≡◌, refl, Bool, true, Option, none, some, List, [], ◌∷◌, arith, ◌==◌, pos, Hash,
  if◌then◌else◌, text_length, sym,
}
use dde_file_manager_extensi.Tpm.{TpmLib}
use dde_file_manager_extensi.Tpm.Work.{CipherFiles, Utf8, init_tpm2, to_hex, hex_digit, get_random}
use dde_file_manager_extensi.Tpm.Receiver.{
  Variant, number, Convert, get_random_by_tpm, all_hex, encrypt_by_tpm, decrypt_by_tpm,
  encrypt_type,
}
use dde_file_manager_extensi.Tpm.Random.{IsPassword, get_random_by_tpm-IsPassword}
use dde_file_manager_extensi.Tpm.Vault.{Inverts, decrypt_by_tpm-encrypt_by_tpm}

-- The cipher is the text itself.
abbrev copy : String → Bool → String → List ℕ → ℕ → Option (List ℕ)
copy dir decrypts auth bytes n = some bytes

abbrev lib : TpmLib
lib = record {
  is_loaded = true;
  utpm2_get_random = some (λ n. some (18 ∷ 171 ∷ []));
  utpm2_check_alg = none;
  utpm2_init = some (λ a b c d. true);
  utpm2_encrypt_decrypt = some copy;
  utpm2_check_tpm_by_tools = some (pos 0);
  utpm2_get_random_by_tools = none;
  utpm2_check_alg_by_tools = none;
  utpm2_encrypt_by_tools = some (λ t p files. (pos 0, files));
  utpm2_decrypt_by_tools = some (λ t p files. (pos 0, "secret"));
}

four_digits : get_random_by_tpm lib (pos 4) ≡ (true, some "12ab")
unfolding get_random_by_tpm get_random text_length to_hex all_hex hex_digit
four_digits = refl

get_random_by_tpm-IsPassword_example : IsPassword (pos 4) "12ab"
get_random_by_tpm-IsPassword_example = get_random_by_tpm-IsPassword lib (pos 4) "12ab" four_digits

abbrev utf8 : Utf8
utf8 = record { encode = λ s. if s == "ab" then 97 ∷ 98 ∷ [] else []; decode = λ bytes. "ab" }

abbrev no_files : CipherFiles
no_files = record { writable = λ dir. true; content = λ dir. none; as_text = λ bytes. bytes }

copy-Inverts : Inverts copy
copy-Inverts dir pin plain cipher h = sym h

inited : init_tpm2 lib "sha256" "aes" "1234" "/vault" ≡ true
unfolding init_tpm2
inited = refl

decrypt_by_tpm-encrypt_by_tpm_example :
    (after : CipherFiles) × (encrypt_by_tpm lib utf8 "sha256" "aes" "1234" "ab" "/vault" no_files
      ≡ some (after, true))
    × (decrypt_by_tpm lib utf8 "1234" "/vault" after ≡ some (some "ab"))
decrypt_by_tpm-encrypt_by_tpm_example =
    decrypt_by_tpm-encrypt_by_tpm lib utf8 copy "sha256" "aes" "1234" "ab" "/vault" (97 ∷ 98 ∷ [])
      no_files copy-Inverts refl refl inited refl (omega arith) (omega arith) refl refl refl

abbrev cv : Convert
cv = record { parse = λ s. pos 0; print = λ n. "" }

-- A map of a known type that lacks all its other keys.
abbrev bare : Hash Variant
bare = (encrypt_type, number (pos 1)) ∷ []
