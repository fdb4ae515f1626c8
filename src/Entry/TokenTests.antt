-- ===== src/Entry/TokenTests.antt =====
-- The theorems on the token at concrete inputs.
use dde_file_manager_extensi.Prelude.{
  String, true, none, some, [], ◌∷◌, ◌<>◌, ℤ, pos, Hash, find, insert, or_else,
}
use dde_file_manager_extensi.Tpm.{TpmProType, EncryptParams, DecryptParams, TpmLib, Files}
use dde_file_manager_extensi.Entry.Passphrase.{Json, strings, Host, Disk}
use dde_file_manager_extensi.Entry.Token.{gen_passphrase, generate_tpm_token}
use dde_file_manager_extensi.Entry.TokenFiles.{Carried}
use dde_file_manager_extensi.Entry.TokenCache.{with_four}
use dde_file_manager_extensi.Entry.TestJson.{print_rows, parse_rows}

abbrev pub host : Host
host = record {
  convert = record { parse = λ s. pos 0; print = λ n. "" };
  print = print_rows;
  print_compact = print_rows;
  parse = parse_rows;
  to_base64 = λ s. s;
  from_base64 = λ s. s;
  can_write = λ path. true;
  rm_path = λ path dirs. dirs;
}

abbrev kept : String → Carried
kept plain = record {
  keyslots = strings ("0" ∷ []);
  added = [];
  iv = "iv";
  key_priv = "priv";
  key_pub = "pub";
  cipher = plain;
}

-- A library that keeps the text as it is in the file of the cipher.
abbrev seal : TpmProType → EncryptParams → Files → ℤ × Files
seal type p files = (pos 0, with_four (p.dir_path) (kept (p.plain)) files)

abbrev unseal : TpmProType → DecryptParams → Files → ℤ × String
unseal type p files = (pos 0, or_else (find (p.dir_path <> "/cipher.out") files) "")

abbrev pub lib : TpmLib
lib = record {
  is_loaded = true;
  utpm2_get_random = none;
  utpm2_check_alg = none;
  utpm2_init = none;
  utpm2_encrypt_decrypt = none;
  utpm2_check_tpm_by_tools = some (pos 0);
  utpm2_get_random_by_tools = some (λ size. (pos 0, "00112233445566"));
  utpm2_check_alg_by_tools = some (λ algo. (pos 0, some true));
  utpm2_encrypt_by_tools = some seal;
  utpm2_decrypt_by_tools = some unseal;
}

abbrev pub empty : Disk
empty = record { files = []; dirs = []; ini = [] }

abbrev made : Disk
made = (gen_passphrase host lib "/dev/sda3" "1234" empty).0

-- The token with the second key slot and an index.
abbrev replied : Hash Json
replied = insert "token_index" (strings []) (
    insert "keyslots" (strings ("1" ∷ []))
      (parse_rows (generate_tpm_token host lib "/dev/sda3" true made)))
