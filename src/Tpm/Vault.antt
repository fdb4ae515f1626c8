-- ===== src/Tpm/Vault.antt =====
-- What is encrypted by `encrypyByTpm` comes back from `decryptByTpm`.
use dde_file_manager_extensi.Prelude.{
  ℕ, ◌≤◌, if◌then◌else◌, ◌==◌, String, ◌≡◌, refl, ap, ◌∙◌, Bool, true, false, Option, some, List,
  arith, length, eq_refl,
}
use dde_file_manager_extensi.Tpm.{TpmLib}
use dde_file_manager_extensi.Tpm.Work.{
  init_tpm2, encrypt, decrypt, u16, overruns, CipherFiles, Utf8,
}
use dde_file_manager_extensi.Tpm.Receiver.{encrypt_by_tpm, decrypt_by_tpm}

-- What the library promises: it decrypts, with the same PIN and in the same directory, what it has
-- encrypted.
abbrev pub Inverts : (String → Bool → String → List ℕ → ℕ → Option (List ℕ)) → Type 0
Inverts f =
    (dir pin : String) (plain cipher : List ℕ)
    → f dir false pin plain (length plain) ≡ some cipher
    → f dir true pin cipher (length cipher) ≡ some plain

module _ (lib : TpmLib) (utf8 : Utf8) where
  -- The files once the cipher is written.
  abbrev pub stored : String → List ℕ → CipherFiles → CipherFiles
  stored dir cipher files = record files {
    content = λ d. if d == dir then some cipher else files.content d;
  }

  encrypt-file :
      (f : String → Bool → String → List ℕ → ℕ → Option (List ℕ))
      (hash_algo key_algo pin password dir : String) (cipher : List ℕ) (files : CipherFiles)
      → lib.utpm2_encrypt_decrypt ≡ some f
      → init_tpm2 lib hash_algo key_algo pin dir ≡ true
      → f dir false pin (utf8.encode password) (u16 (length (utf8.encode password))) ≡ some cipher
      → overruns cipher ≡ false
      → files.writable dir ≡ true
      → encrypt lib utf8 hash_algo key_algo pin password dir files
        ≡ some (stored dir cipher files, true)
  unfolding encrypt
  encrypt-file f hash_algo key_algo pin password dir cipher files r i c o w =
      rw (i, r, c, o, w) refl

  decrypt-file :
      (f : String → Bool → String → List ℕ → ℕ → Option (List ℕ)) (pin dir : String)
      (plain cipher : List ℕ) (files : CipherFiles)
      → lib.is_loaded ≡ true
      → lib.utpm2_encrypt_decrypt ≡ some f
      → files.content dir ≡ some cipher
      → f dir true pin (files.as_text cipher) (u16 (length (files.as_text cipher))) ≡ some plain
      → overruns plain ≡ false
      → decrypt lib utf8 pin dir files ≡ some (some (utf8.decode plain))
  unfolding decrypt
  decrypt-file f pin dir plain cipher files l r c d o = rw (l, r, c, d, o) refl

  -- A password is encrypted with success and decrypted again, with the same PIN and directory, and no
  -- buffer is overrun: where the library is set up, inverts itself and encrypts the password, the
  -- password and the cipher have at most the 3000 bytes of the buffer, the file can be written, and
  -- reading the cipher as text leaves its bytes as they are.
  pub decrypt_by_tpm-encrypt_by_tpm :
      (f : String → Bool → String → List ℕ → ℕ → Option (List ℕ))
      (hash_algo key_algo pin password dir : String) (cipher : List ℕ) (files : CipherFiles)
      → Inverts f
      → lib.is_loaded ≡ true
      → lib.utpm2_encrypt_decrypt ≡ some f
      → init_tpm2 lib hash_algo key_algo pin dir ≡ true
      → f dir false pin (utf8.encode password) (length (utf8.encode password)) ≡ some cipher
      → length (utf8.encode password) ≤ 3000
      → length cipher ≤ 3000
      → files.writable dir ≡ true
      → files.as_text cipher ≡ cipher
      → utf8.decode (utf8.encode password) ≡ password
      → (after : CipherFiles) × (encrypt_by_tpm lib utf8 hash_algo key_algo pin password dir files
          ≡ some (after, true))
        × (decrypt_by_tpm lib utf8 pin dir after ≡ some (some password))
  unfolding decrypt_by_tpm encrypt_by_tpm
  decrypt_by_tpm-encrypt_by_tpm f hash_algo key_algo pin password dir cipher files v l r i c s t w a
        u =
      let bytes = utf8.encode password in
      let short : u16 (length bytes) ≡ length bytes = omega arith in
      let long : u16 (length cipher) ≡ length cipher = omega arith in
      let fits : overruns cipher ≡ false = ground arith in
      let fits' : overruns bytes ≡ false = ground arith in
      (
        stored dir cipher files,
        encrypt-file f hash_algo key_algo pin password dir cipher files r i
            (ap (f dir false pin bytes) short ∙ c) fits w,
        decrypt-file f pin dir bytes cipher (stored dir cipher files) l r (rw (eq_refl dir) refl)
              (ap (λ t. f dir true pin t (u16 (length t))) a
                ∙ (ap (f dir true pin cipher) long ∙ v dir pin bytes cipher c))
              fits'
            ∙ ap (λ p. some (some p)) u,
      )
