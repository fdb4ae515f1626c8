-- ===== src/Entry/RoundTrip.antt =====
-- The passphrase that `genPassphraseFromTPM` encrypts is the one that `getPassphraseFromTPM` gets
-- back, by way of the token in the header of the device.
use dde_file_manager_extensi.Prelude.{
  String, ◌≡◌, true, some, if◌then◌else◌, is_empty, ℤ, pos, is_zero,
}
use dde_file_manager_extensi.Tpm.{
  TpmProType, c_tpm_and_pcr, c_tpm_and_pcr_and_pin, EncryptParams, DecryptParams, TpmLib, Files,
}
use dde_file_manager_extensi.Entry.Passphrase.{Host, Disk, Algorithms}
use dde_file_manager_extensi.Entry.Token.{store_algorithms}
use dde_file_manager_extensi.Entry.TokenFiles.{Carried, Holds}
use dde_file_manager_extensi.Entry.Sealing.{unsealing}

module _ (host : Host) (lib : TpmLib) where
  -- What follows the call of the TPM.
  abbrev finish : String → Algorithms → Disk → ℤ × Files → Disk × ℤ
  finish dev a made sent =
      if is_zero sent.0
      then (store_algorithms dev a (record made { files = sent.1 }), pos 0)
      else (record made { files = sent.1 }, sent.0)

-- What the library promises: encrypting with success leaves four files, and with them, in the same
-- directory and with the same parameters, the text is decrypted again.
abbrev pub Restores :
    (TpmProType → EncryptParams → Files → ℤ × Files)
    → (TpmProType → DecryptParams → Files → ℤ × String)
    → Type 0
Restores f g =
    (type : TpmProType) (p : EncryptParams) (before after : Files)
    → f type p before ≡ (pos 0, after)
    → (c : Carried) × (Holds (p.dir_path) c after
        × ((other : Files)
            → Holds (p.dir_path) c other
            → g type (unsealing p) other ≡ (pos 0, p.plain)))

module _ (host : Host) (lib : TpmLib) (f : TpmProType → EncryptParams → Files → ℤ × Files)
    (g : TpmProType → DecryptParams → Files → ℤ × String) (loaded : lib.is_loaded ≡ true)
    (has_f : lib.utpm2_encrypt_by_tools ≡ some f)
    (has_g : lib.utpm2_decrypt_by_tools ≡ some g) where
  abbrev pro_for : String → TpmProType
  pro_for pin = if is_empty pin then c_tpm_and_pcr else c_tpm_and_pcr_and_pin
