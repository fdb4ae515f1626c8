-- ===== src/Entry/TokenCache.antt =====
-- What `cacheToken` leaves on the disk.
use dde_file_manager_extensi.Prelude.{
  ℕ, String, ◌≡◌, refl, ap, ◌∙◌, Bool, true, false, some, arith, if◌then◌else◌, ◌==◌, ◌<>◌,
  is_empty, Hash, find, insert, value_or, find-insert,
}
use dde_file_manager_extensi.Tpm.{TpmLib, Files}
use dde_file_manager_extensi.Entry.Passphrase.{
  Json, Host, Disk, ini_of, ini_value, set_ini, make_path, dir_of, Algorithms, get_algorithm,
}
use dde_file_manager_extensi.Entry.Token.{
  algo_ini, token_json, generate_tpm_token, make_file, make_files, cache_algorithms, cache_token,
  enc_key_type,
}
use dde_file_manager_extensi.Entry.TokenFiles.{
  Prints, Carried, Holds, made_of, on_device, pin_text, token_of, generate_tpm_token-token_of,
  find_same, find_other, paths_differ,
}

value_or-insert :
    (k j v d : String) (m : Hash String)
    → value_or j (insert k v m) d ≡ (if k == j then v else value_or j m d)
value_or-insert k j v d m = ground (arith, find-insert k j v m)

ini_of-set :
    (path key value : String) (disk : Disk)
    → ini_of path (set_ini path key value disk) ≡ insert key value (ini_of path disk)
ini_of-set path key value disk =
    ground (arith, find_same path (insert key value (ini_of path disk)) (disk.ini))

ini_value-set :
    (path key other value : String) (disk : Disk)
    → ini_value path other (set_ini path key value disk)
      ≡ (if key == other then value else ini_value path other disk)
ini_value-set path key other value disk =
    ap (λ m. value_or other m "") (ini_of-set path key value disk)
    ∙ value_or-insert key other value "" (ini_of path disk)

-- The settings file names the algorithms.
abbrev pub Names : String → Algorithms → Disk → Type 0
Names dev a disk =
    (ini_value (algo_ini dev) "session_hash_algo" disk ≡ a.session_hash)
    × ((ini_value (algo_ini dev) "session_key_algo" disk ≡ a.session_key)
        × ((ini_value (algo_ini dev) "primary_hash_algo" disk ≡ a.primary_hash)
            × (ini_value (algo_ini dev) "primary_key_algo" disk ≡ a.primary_key)))

-- The paths that a token is written to can be written.
abbrev pub Writable : Host → String → Type 0
Writable host dev =
    (host.can_write (token_json dev) ≡ true)
    × ((host.can_write (dir_of dev <> "/iv.bin") ≡ true)
        × ((host.can_write (dir_of dev <> "/key.priv") ≡ true)
            × ((host.can_write (dir_of dev <> "/key.pub") ≡ true)
                × (host.can_write (dir_of dev <> "/cipher.out") ≡ true))))

-- The token of a device is on the disk: its object, its files and its algorithms.
pub record Cached (host : Host) (dev : String) (a : Algorithms) (pin : Bool) (c : Carried)
    (disk : Disk) : Type 0 where
  pub object : find (token_json dev) (disk.files) ≡ some (host.print (token_of host a pin c))
  pub files : Holds (dir_of dev) c (disk.files)
  pub names : Names dev a disk

-- The four files, written to a directory.
abbrev pub with_four : String → Carried → Files → Files
with_four dir c files = insert (dir <> "/cipher.out") (c.cipher) (
    insert (dir <> "/key.pub") (c.key_pub)
      (insert (dir <> "/key.priv") (c.key_priv) (insert (dir <> "/iv.bin") (c.iv) files)))

pub four-Holds : (dir : String) (c : Carried) (m : Files) → Holds dir c (with_four dir c m)
four-Holds dir c m = (
  find_other _ _ _ _ (paths_differ dir "/cipher.out" "/iv.bin" refl)
      ∙ (find_other _ _ _ _ (paths_differ dir "/key.pub" "/iv.bin" refl)
          ∙ (find_other _ _ _ _ (paths_differ dir "/key.priv" "/iv.bin" refl) ∙ find_same _ _ _)),
  (
    find_other _ _ _ _ (paths_differ dir "/cipher.out" "/key.priv" refl)
        ∙ (find_other _ _ _ _ (paths_differ dir "/key.pub" "/key.priv" refl) ∙ find_same _ _ _),
    (
      find_other _ _ _ _ (paths_differ dir "/cipher.out" "/key.pub" refl) ∙ find_same _ _ _,
      find_same _ _ _,
    ),
  ),
)

-- The files that are written for a token, the last one first.
abbrev written : Host → String → Algorithms → Bool → Carried → Files → Files
written host dev a pin c files =
    with_four (dir_of dev) c (insert (token_json dev) (host.print (token_of host a pin c)) files)

module _ (host : Host) where
  make_file-writes :
      (path content : String) (disk : Disk)
      → host.can_write path ≡ true
      → make_file host path content disk
        ≡ (record disk { files = insert path content (disk.files) }, true)
  unfolding make_file
  make_file-writes path content disk w = rw w refl

  make_files-written :
      (a : Algorithms) (dev : String) (pin : Bool) (c : Carried) (disk : Disk)
      → Prints host
      → Writable host dev
      → make_files host dev (token_of host a pin c) disk
        ≡ (record disk { files = written host dev a pin c (disk.files) }, true)
  unfolding make_files find
  make_files-written a dev pin c disk p w =
      rw
        (
          make_file-writes (token_json dev) (host.print (token_of host a pin c)) disk w.0,
          p.base64 (c.iv),
          p.base64 (c.key_priv),
          p.base64 (c.key_pub),
          p.base64 (c.cipher),
        )
        (let one = record disk {
          files = insert (token_json dev) (host.print (token_of host a pin c)) (disk.files);
        } in
          let two = record one { files = insert (dir_of dev <> "/iv.bin") (c.iv) (one.files) } in
          let three = record two {
            files = insert (dir_of dev <> "/key.priv") (c.key_priv) (two.files);
          } in
          let four = record three {
            files = insert (dir_of dev <> "/key.pub") (c.key_pub) (three.files);
          } in
          rw
            (
              make_file-writes (dir_of dev <> "/iv.bin") (c.iv) one w.1.0,
              make_file-writes (dir_of dev <> "/key.priv") (c.key_priv) two w.1.1.0,
              make_file-writes (dir_of dev <> "/key.pub") (c.key_pub) three w.1.1.1.0,
              make_file-writes (dir_of dev <> "/cipher.out") (c.cipher) four w.1.1.1.1,
            )
            refl)

  written-object :
      (a : Algorithms) (dev : String) (pin : Bool) (c : Carried) (m : Files)
      → find (token_json dev) (written host dev a pin c m)
        ≡ some (host.print (token_of host a pin c))
  written-object a dev pin c m =
      find_other _ _ _ _ (paths_differ (dir_of dev) "/cipher.out" "/token.json" refl)
      ∙ (find_other _ _ _ _ (paths_differ (dir_of dev) "/key.pub" "/token.json" refl)
          ∙ (find_other _ _ _ _ (paths_differ (dir_of dev) "/key.priv" "/token.json" refl)
              ∙ (find_other _ _ _ _ (paths_differ (dir_of dev) "/iv.bin" "/token.json" refl)
                  ∙ find_same _ _ _)))

  cache_algorithms-Names :
      (a : Algorithms) (dev : String) (pin : Bool) (c : Carried) (disk : Disk)
      → Names dev a (cache_algorithms host dev (token_of host a pin c) disk)
  unfolding cache_algorithms find
  cache_algorithms-Names a dev pin c disk =
      let p = algo_ini dev in
      let one = set_ini p "session_hash_algo" (a.session_hash) disk in
      let two = set_ini p "session_key_algo" (a.session_key) one in
      let three = set_ini p "primary_hash_algo" (a.primary_hash) two in
      (
        (ini_value-set p "primary_key_algo" "session_hash_algo" (a.primary_key) three
            ∙ ini_value-set p "primary_hash_algo" "session_hash_algo" (a.primary_hash) two
            ∙ ini_value-set p "session_key_algo" "session_hash_algo" (a.session_key) one
            ∙ ini_value-set p "session_hash_algo" "session_hash_algo" (a.session_hash) disk),
        (
          (ini_value-set p "primary_key_algo" "session_key_algo" (a.primary_key) three
              ∙ ini_value-set p "primary_hash_algo" "session_key_algo" (a.primary_hash) two
              ∙ ini_value-set p "session_key_algo" "session_key_algo" (a.session_key) one),
          (
            (ini_value-set p "primary_key_algo" "primary_hash_algo" (a.primary_key) three
                ∙ ini_value-set p "primary_hash_algo" "primary_hash_algo" (a.primary_hash) two),
            (ini_value-set p "primary_key_algo" "primary_key_algo" (a.primary_key) three),
          ),
        ),
      )

  -- A token whose files can be written is on the disk once it is cached.
  pub cache_token-Cached :
      (a : Algorithms) (dev : String) (pin : Bool) (c : Carried) (disk : Disk)
      → Prints host
      → Writable host dev
      → Cached host dev a pin c (cache_token host dev (token_of host a pin c) disk)
  unfolding cache_token cache_algorithms
  cache_token-Cached a dev pin c disk p w =
      let made = make_path (dir_of dev) disk in
      let full = record made { files = written host dev a pin c (made.files) } in
      rw (make_files-written a dev pin c made p w) (record {
        object = written-object a dev pin c (made.files);
        files = four-Holds (dir_of dev) c _;
        names = cache_algorithms-Names a dev pin c full;
      })

  pin_kinds :
      {A : Type 0} {x : A} (pin : Bool)
      → Path
          (A × ℕ)
          (x, if pin_text pin == "1" then 1 else if pin_text pin == "0" then 2 else 0)
          (x, if pin then 1 else 2)
  pin_kinds true = refl
  pin_kinds false = refl

  -- A token that the program has made and that comes back from the device is told by its type: 1 with a
  -- PIN, 2 without.
  pub enc_key_type-token :
      (lib : TpmLib) (a : Algorithms) (dev : String) (pin : Bool) (c : Carried) (disk other : Disk)
      (reply : String) (slots index : Json)
      → Prints host
      → get_algorithm lib ≡ some a
      → Holds (dir_of dev) c (disk.files)
      → is_empty reply ≡ false
      → host.parse reply
        ≡ insert "token_index" index
            (insert "keyslots" slots (host.parse (generate_tpm_token host lib dev pin disk)))
      → enc_key_type host dev (some reply) other ≡ (
        cache_token host dev (token_of host a pin (on_device slots index c)) other,
        if pin then 1 else 2,
      )
  unfolding enc_key_type find insert
  enc_key_type-token lib a dev pin c disk other reply slots index p g h given back =
      let parsed : host.parse reply ≡ token_of host a pin (on_device slots index c) =
        back
        ∙ ap (λ t. insert "token_index" index (insert "keyslots" slots t))
            (ap (host.parse) (generate_tpm_token-token_of host lib a dev pin c disk p g h)
              ∙ p.parse-compact (token_of host a pin (made_of c))) in
      rw (given, parsed) (pin_kinds pin)
