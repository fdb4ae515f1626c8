-- ===== src/Entry/TokenFiles.antt =====
-- The token of a device, and the files that it carries.
use text.Mathlib.TextLemmas.{append_cancel_left}
use dde_file_manager_extensi.Prelude.{
  String, ◌≡◌, refl, ◌∙◌, Bool, false, some, [], ◌∷◌, inl, inr, arith, Bool-cases, if◌then◌else◌,
  is_empty, ◌==◌, eq_iff, eq_refl, ◌<>◌, Hash, find, insert, erase, find-insert,
}
use dde_file_manager_extensi.Tpm.{TpmLib, Files}
use dde_file_manager_extensi.Entry.Passphrase.{
  Json, string, strings, Host, Disk, dir_of, Algorithms, get_algorithm,
}
use dde_file_manager_extensi.Entry.Token.{generate_tpm_config, get_base64_of, generate_tpm_token}

-- What is printed is parsed again, and is not empty.
pub record Prints (host : Host) : Type 0 where
  pub parse-print : (o : Hash Json) → host.parse (host.print o) ≡ o
  pub parse-compact : (o : Hash Json) → host.parse (host.print_compact o) ≡ o
  pub compact_nonempty : (o : Hash Json) → is_empty (host.print_compact o) ≡ false
  pub base64 : (s : String) → host.from_base64 (host.to_base64 s) ≡ s

module _ {ℓ} {V : Type ℓ} where
  pub find_same : (k : String) (v : V) (m : Hash V) → find k (insert k v m) ≡ some v
  find_same k v m = find-insert k k v m ∙ ground (arith, eq_refl k)

  pub find_other :
      (k j : String) (v : V) (m : Hash V) → (k == j) ≡ false → find j (insert k v m) ≡ find j m
  find_other k j v m h = find-insert k j v m ∙ ground (arith, h)

pub paths_differ : (d a b : String) → (a == b) ≡ false → ((d <> a) == (d <> b)) ≡ false
paths_differ d a b h = elim (Bool-cases ((d <> a) == (d <> b))) [
  | inl e ↦
      ground (arith, h, (eq_iff a b).1 (append_cancel_left d a b ((eq_iff (d <> a) (d <> b)).0 e)))
  | inr n ↦ n
]

-- The four files that the token carries, and what the daemon changes in it: the key slots, and an index
-- that it adds.
pub record Carried : Type 0 where
  pub keyslots : Json
  pub added : Hash Json
  pub iv : String
  pub key_priv : String
  pub key_pub : String
  pub cipher : String

abbrev pub Holds : String → Carried → Files → Type 0
Holds dir c files =
    (find (dir <> "/iv.bin") files ≡ some (c.iv))
    × ((find (dir <> "/key.priv") files ≡ some (c.key_priv))
        × ((find (dir <> "/key.pub") files ≡ some (c.key_pub))
            × (find (dir <> "/cipher.out") files ≡ some (c.cipher))))

abbrev pub pin_text : Bool → String
pin_text pin = if pin then "1" else "0"

-- The token of a device, once it is parsed.
abbrev pub token_of : Host → Algorithms → Bool → Carried → Hash Json
token_of host a pin c =
    ("session-key-alg", string (a.session_key))
    ∷ ("session-hash-alg", string (a.session_hash))
    ∷ ("primary-key-alg", string (a.primary_key))
    ∷ ("primary-hash-alg", string (a.primary_hash))
    ∷ ("pcr", string "7")
    ∷ ("pcr-bank", string (a.primary_hash))
    ∷ ("type", string "usec-tpm2")
    ∷ ("keyslots", c.keyslots)
    ∷ ("kek-priv", string (host.to_base64 (c.key_priv)))
    ∷ ("kek-pub", string (host.to_base64 (c.key_pub)))
    ∷ ("iv", string (host.to_base64 (c.iv)))
    ∷ ("enc", string (host.to_base64 (c.cipher)))
    ∷ ("pin", string (pin_text pin))
    ∷ c.added

-- As the program puts the token together.
abbrev pub made_of : Carried → Carried
made_of c = record c { keyslots = strings ("0" ∷ []); added = [] }

-- As the token stands on the device: `updateTokenKeyslots` has put in the key slots, and `bcGetToken`
-- adds the index of the token.
abbrev pub on_device : Json → Json → Carried → Carried
on_device slots index c = record c { keyslots = slots; added = ("token_index", index) ∷ [] }

module _ (host : Host) (lib : TpmLib) where
  base64-file :
      (path content : String) (disk : Disk)
      → find path (disk.files) ≡ some content
      → get_base64_of host path disk ≡ host.to_base64 content
  unfolding get_base64_of
  base64-file path content disk h = rw (get_base64_of, h) refl

  -- The token of a device holds the algorithms and its four files.
  pub generate_tpm_token-token_of :
      (a : Algorithms) (dev : String) (pin : Bool) (c : Carried) (disk : Disk)
      → Prints host
      → get_algorithm lib ≡ some a
      → Holds (dir_of dev) c (disk.files)
      → generate_tpm_token host lib dev pin disk
        ≡ host.print_compact (token_of host a pin (made_of c))
  unfolding generate_tpm_token generate_tpm_config insert erase
  generate_tpm_token-token_of a dev pin c disk p g h =
      rw (generate_tpm_token, p.parse-print (generate_tpm_config lib))
        (rw
          (
            base64-file (dir_of dev <> "/iv.bin") (c.iv) disk h.0,
            base64-file (dir_of dev <> "/key.priv") (c.key_priv) disk h.1.0,
            base64-file (dir_of dev <> "/key.pub") (c.key_pub) disk h.1.1.0,
            base64-file (dir_of dev <> "/cipher.out") (c.cipher) disk h.1.1.1,
          )
          (rw (generate_tpm_config, g) refl))
