-- ===== src/Tables/Crypttab.antt =====
-- The two updates of /etc/crypttab: `ReencryptWorkerV2::updateCrypttab` of encrypt/encryptworker.cpp
-- and `DiskEncryptDBus::updateCrypttab` of dbus/diskencryptdbus.cpp, on the contents of the file.
use dde_file_manager_extensi.Prelude.{
  ℤ, pos, negsuc, is_zero, String, Bool, true, false, Option, none, some, List, [], ◌∷◌, Hash,
  insert, value_or, ◌<>◌, is_empty, starts_with, has_text, split, join, fields, is_newline,
  if◌then◌else◌,
}
use dde_file_manager_extensi.DiskEncrypt.Calls.{BlockDevice}

-- The loop of the worker: it looks at the first line that names the device only.
unfoldable pub add_option : String → List String → List String × Bool
add_option source [] = ([], false)
add_option source (line ∷ lines) =
    let (rest, updated) = add_option source lines in
    if has_text line source
    then (if has_text line "tpm2-device=auto"
        then (line ∷ lines, false)
        else ((line <> ",tpm2-device=auto") ∷ lines, true))
    else (line ∷ rest, updated)

-- The contents to write, if a line was changed.
unfoldable pub crypttab_with_tpm : String → String → Option String
crypttab_with_tpm source contents =
    let (lines, updated) = add_option source (split is_newline contents) in
    if updated then some (join "\n" lines) else none

-- The part of `getDeviceMapper` that is used: from "UUID=…" to the device, over the devices and the
-- UUIDs that the monitor lists.
unfoldable pub uuid_to_dev : List (String × String) → Hash String → Hash String
uuid_to_dev [] mapper = mapper
uuid_to_dev ((dev, uuid) ∷ devices) mapper =
    uuid_to_dev devices (if is_empty uuid then mapper else insert ("UUID=" <> uuid) dev mapper)

module _ (devices : List (String × String)) (block_device : String → Option BlockDevice) where
  encrypted_at : Option BlockDevice → ℤ
  encrypted_at none = negsuc 1
  encrypted_at (some dev) = if dev.is_encrypted then pos 1 else pos 0

  -- `isEncrypted`, at the source of an item; the target is only logged.
  unfoldable pub is_encrypted : String → ℤ
  unfolding encrypted_at
  is_encrypted source =
      if starts_with source "UUID"
      then (let dev = value_or source (uuid_to_dev devices []) "" in
          if is_empty dev then pos 0 else encrypted_at (block_device dev))
      else if is_empty source
      then negsuc 0
      else encrypted_at (block_device source)

  -- What becomes of one line.
  pub data Fate : Type 0 where
    comment invalid not_encrypted encrypted : Fate

  unfoldable pub fate_of_items : List String → Fate
  fate_of_items (target ∷ source ∷ items) =
      if is_zero (is_encrypted source) then not_encrypted else encrypted
  fate_of_items items = invalid

  unfoldable pub fate : String → Fate
  unfolding fate_of_items
  fate line = if starts_with line "#" then comment else fate_of_items (fields line)

  abbrev after_fate : Fate → String → List String × Bool → List String × Bool
  after_fate comment line (lines, updated) = (line ∷ lines, updated)
  after_fate invalid line (lines, updated) = (lines, updated)
  after_fate not_encrypted line (lines, updated) = (lines, true)
  after_fate encrypted line (lines, updated) = (line ∷ lines, updated)

  -- The loop, which goes from the last line to the first.
  unfoldable pub check_lines : List String → List String × Bool
  check_lines [] = ([], false)
  check_lines (line ∷ lines) = after_fate (fate line) line (check_lines lines)

  -- The contents to write, if an item was removed.
  unfoldable pub checked_crypttab : String → Option String
  checked_crypttab contents =
      let (lines, updated) = check_lines (split is_newline contents) in
      if updated then some (join "\n" lines <> "\n") else none
