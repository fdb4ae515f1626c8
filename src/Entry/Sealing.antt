-- ===== src/Entry/Sealing.antt =====
-- The parameters that a passphrase is encrypted and decrypted with.
use dde_file_manager_extensi.Prelude.{
  String, ◌≡◌, refl, sym, Bool, false, inl, inr, Bool-cases, if◌then◌else◌, is_empty, eq_iff, subst,
  find, insert,
}
use dde_file_manager_extensi.Tpm.{
  TpmType, tpm_and_pcr, tpm_and_pcr_and_pin, EncryptParams, DecryptParams, TpmLib, Files,
}
use dde_file_manager_extensi.Tpm.Work.{encrypt_by_tools, decrypt_by_tools}
use dde_file_manager_extensi.Tpm.Receiver.{
  Convert, to_int, to_string, type_of, has_type_keys, encrypt_params, decrypt_params,
  encrypt_by_tpm_process, decrypt_by_tpm_process,
}
use dde_file_manager_extensi.Entry.Passphrase.{Host, Disk, dir_of, Algorithms, encrypt_map}
use dde_file_manager_extensi.Entry.Token.{decrypt_map}
use dde_file_manager_extensi.Entry.TokenFiles.{Carried, token_of}
use dde_file_manager_extensi.Entry.TokenCache.{Names}

abbrev pub type_for : String → TpmType
type_for pin = if is_empty pin then tpm_and_pcr else tpm_and_pcr_and_pin

-- The parameters that the TPM encrypts a passphrase with.
abbrev pub sealing : Algorithms → String → String → String → EncryptParams
sealing a dir passphrase pin = record {
  type = type_for pin;
  session_hash_algo = a.session_hash;
  session_key_algo = a.session_key;
  primary_hash_algo = a.primary_hash;
  primary_key_algo = a.primary_key;
  minor_hash_algo = a.minor_hash;
  minor_key_algo = a.minor_key;
  dir_path = dir;
  plain = passphrase;
  pin_code = pin;
  pcr = "7";
  pcr_bank = a.primary_hash;
}

-- The parameters that undo an encryption.
abbrev pub unsealing : EncryptParams → DecryptParams
unsealing p = record {
  type = p.type;
  session_hash_algo = p.session_hash_algo;
  session_key_algo = p.session_key_algo;
  primary_hash_algo = p.primary_hash_algo;
  primary_key_algo = p.primary_key_algo;
  dir_path = p.dir_path;
  pin_code = p.pin_code;
  pcr = p.pcr;
  pcr_bank = p.pcr_bank;
}

module _ (cv : Convert) (lib : TpmLib) where
  no_pin_accepted :
      (a : Algorithms) (dir passphrase : String) (files : Files)
      → encrypt_by_tpm_process cv lib (encrypt_map a dir passphrase "") files
        ≡ encrypt_by_tools lib (sealing a dir passphrase "") files
  unfolding encrypt_by_tpm_process encrypt_map encrypt_params find insert to_int to_string type_of
      has_type_keys
  no_pin_accepted a dir passphrase files = refl

  pin_accepted :
      (a : Algorithms) (dir passphrase pin : String) (files : Files)
      → is_empty pin ≡ false
      → encrypt_by_tpm_process cv lib (encrypt_map a dir passphrase pin) files
        ≡ encrypt_by_tools lib (sealing a dir passphrase pin) files
  unfolding encrypt_by_tpm_process encrypt_map encrypt_params find insert to_int to_string type_of
      has_type_keys
  pin_accepted a dir passphrase pin files h = rw (encrypt_map, h) refl

  -- Whatever the algorithms, the directory, the passphrase and the PIN are, the map for the TPM
  -- manager passes all its checks, and the library is called with exactly these values.
  pub encrypt_map_accepted :
      (a : Algorithms) (dir passphrase pin : String) (files : Files)
      → encrypt_by_tpm_process cv lib (encrypt_map a dir passphrase pin) files
        ≡ encrypt_by_tools lib (sealing a dir passphrase pin) files
  encrypt_map_accepted a dir passphrase pin files = elim (Bool-cases (is_empty pin)) [
    | inl h ↦
        subst
          (λ t.
            encrypt_by_tpm_process cv lib (encrypt_map a dir passphrase t) files
            ≡ encrypt_by_tools lib (sealing a dir passphrase t) files)
          (sym ((eq_iff pin "").0 h)) (no_pin_accepted a dir passphrase files)
    | inr h ↦ pin_accepted a dir passphrase pin files h
  ]

module _ (host : Host) (lib : TpmLib) where
  no_pin_unsealed :
      (a : Algorithms) (dev : String) (pin : Bool) (c : Carried) (disk : Disk) (passphrase : String)
      → is_empty (a.session_hash) ≡ false
      → is_empty (a.session_key) ≡ false
      → Names dev a disk
      → decrypt_by_tpm_process
          (host.convert)
          lib
          (decrypt_map host lib dev "" (token_of host a pin c) disk)
          (disk.files)
        ≡ decrypt_by_tools lib (unsealing (sealing a (dir_of dev) passphrase "")) (disk.files)
  unfolding decrypt_by_tpm_process decrypt_map decrypt_params find insert to_int to_string type_of
      has_type_keys
  no_pin_unsealed a dev pin c disk passphrase s k n =
      rw (decrypt_map, n.0, n.1.0, n.1.1.0, n.1.1.1, s, k) refl

  pin_unsealed :
      (a : Algorithms) (dev : String) (pin : Bool) (c : Carried) (disk : Disk)
      (passphrase code : String)
      → is_empty code ≡ false
      → is_empty (a.session_hash) ≡ false
      → is_empty (a.session_key) ≡ false
      → Names dev a disk
      → decrypt_by_tpm_process
          (host.convert)
          lib
          (decrypt_map host lib dev code (token_of host a pin c) disk)
          (disk.files)
        ≡ decrypt_by_tools lib (unsealing (sealing a (dir_of dev) passphrase code)) (disk.files)
  unfolding decrypt_by_tpm_process decrypt_map decrypt_params find insert to_int to_string type_of
      has_type_keys
  pin_unsealed a dev pin c disk passphrase code e s k n =
      rw (decrypt_map, e, n.0, n.1.0, n.1.1.0, n.1.1.1, s, k) refl

  pub unsealed :
      (a : Algorithms) (dev : String) (pin : Bool) (c : Carried) (disk : Disk)
      (passphrase code : String)
      → is_empty (a.session_hash) ≡ false
      → is_empty (a.session_key) ≡ false
      → Names dev a disk
      → decrypt_by_tpm_process
          (host.convert)
          lib
          (decrypt_map host lib dev code (token_of host a pin c) disk)
          (disk.files)
        ≡ decrypt_by_tools lib (unsealing (sealing a (dir_of dev) passphrase code)) (disk.files)
  unsealed a dev pin c disk passphrase code s k n = elim (Bool-cases (is_empty code)) [
    | inl h ↦
        subst
          (λ t.
            decrypt_by_tpm_process (host.convert) lib
              (decrypt_map host lib dev t (token_of host a pin c) disk) (disk.files)
            ≡ decrypt_by_tools lib (unsealing (sealing a (dir_of dev) passphrase t)) (disk.files))
          (sym ((eq_iff code "").0 h)) (no_pin_unsealed a dev pin c disk passphrase s k n)
    | inr h ↦ pin_unsealed a dev pin c disk passphrase code h s k n
  ]
