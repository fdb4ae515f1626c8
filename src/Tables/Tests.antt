-- ===== src/Tables/Tests.antt =====
-- The updates of /etc/fstab and /etc/crypttab at concrete files.
use dde_file_manager_extensi.Prelude.{
  All, String, true, ◌==◌, ◌≡◌, refl, Option, none, some, List, [], ◌∷◌, if◌then◌else◌, fields,
  split, join, has_text, false, ◌⊎◌,
}
use dde_file_manager_extensi.DiskEncrypt.Calls.{BlockDevice}
use dde_file_manager_extensi.Tables.Fstab.{
  set_timeouts, fstab_with_timeout, set_timeout, new_contents,
}
use dde_file_manager_extensi.Tables.FstabChange.{IsOther, IsChange, set_timeouts_lem}

abbrev fstab : List (List String)
fstab =
    ("UUID=1" ∷ "/" ∷ "ext4" ∷ "defaults" ∷ "0" ∷ "1" ∷ [])
    ∷ ("#" ∷ "data" ∷ [])
    ∷ ("/dev/sda2" ∷ "/data" ∷ "ext4" ∷ "rw" ∷ "0" ∷ "2" ∷ [])
    ∷ []

fstab_test :
    fstab_with_timeout "/dev/sda2" "UUID=2" "/dev/sda2 /data\text4 rw 0 2\n# x"
    ≡ some "/dev/sda2\t/data\text4\trw,x-systemd.device-timeout=0\t0\t2\n#\tx\n"
unfolding fstab_with_timeout set_timeouts set_timeout new_contents join split fields has_text
fstab_test = refl

-- /dev/sda2 is encrypted, and the device with the UUID 3 is not there any more.
abbrev devices : List (String × String)
devices = ("/dev/sda1", "") ∷ ("/dev/sda2", "2") ∷ []

abbrev block_device : String → Option BlockDevice
block_device dev =
    if dev == "/dev/sda2"
    then some (record {
      id_type = "crypto_LUKS";
      id_version = "2";
      is_encrypted = true;
      mount_points = [];
    })
    else none

abbrev lines : List String
lines = "# disks" ∷ "dm-sda2 UUID=2 none luks" ∷ "dm-sdb1 UUID=3" ∷ "" ∷ []

set_timeouts_lem_example :
    ((set_timeouts "/dev/sda2" "UUID=2" false fstab ≡ (fstab, false))
      × All (IsOther "/dev/sda2" "UUID=2") fstab)
    ⊎ ((table' : List (List String)) × (set_timeouts "/dev/sda2" "UUID=2" false fstab
          ≡ (table', true))
        × IsChange "/dev/sda2" "UUID=2" fstab table')
set_timeouts_lem_example = set_timeouts_lem "/dev/sda2" "UUID=2" fstab
