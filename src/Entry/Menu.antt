-- ===== src/Entry/Menu.antt =====
-- `DiskEncryptMenuScene` of menu/diskencryptmenuscene.cpp: which devices have the menu, its actions,
-- and where they stand. The properties of a device, the mount table and what the other parts answer
-- are parameters.
use dde_file_manager_extensi.Prelude.{
  ℕ, zero, suc, String, Bool, true, false, ◌&&◌, ◌||◌, not, Option, none, some, List, [], ◌∷◌, ◌++◌,
  if◌then◌else◌, is_empty, or_else, ◌==◌, ends_with, starts_with, Hash, value_or,
}
use dde_file_manager_extensi.DiskEncrypt.{disabled_encrypt_path}
use dde_file_manager_extensi.Entry.Password.{SecKeyType, password_only, tpm_and_pin, tpm_only}
use dde_file_manager_extensi.Entry.Wizard.{DeviceEncryptParam}

-- `extraProperties()`, the properties of the clear device of an unlocked one, and the name shown.
pub record BlockInfo : Type 0 where
  pub props : Hash String
  pub clear_props : Option (Hash String)
  pub display_name : String

pub record Scene : Type 0 where
  pub item_encrypted : Bool
  pub selection_mounted : Bool
  pub param : DeviceEncryptParam

unfoldable pub contains : (String → Bool) → List String → Bool
contains test [] = false
contains test (x ∷ xs) = test x || contains test xs

-- The loop over `getfsent`: the mount points of the table.
unfoldable pub is_fstab_item : List String → String → Bool
is_fstab_item files mpt = if is_empty mpt then false else contains (λ f. mpt == f) files

abbrev pub prop : String → BlockInfo → String
prop key info = value_or key (info.props) ""

abbrev clear_prop : String → BlockInfo → String
clear_prop key info = value_or key (or_else (info.clear_props) []) ""

unfoldable pub mount_point_of : BlockInfo → String
mount_point_of info =
    if is_empty (prop "MountPoint" info)
    then clear_prop "MountPoint" info
    else prop "MountPoint" info

-- `static_cast<SecKeyType>` of what `encKeyType` answers
unfoldable pub key_type : ℕ → SecKeyType
key_type zero = password_only
key_type (suc zero) = tpm_and_pin
key_type (suc (suc n)) = tpm_only

unfoldable pub is_mapped : BlockInfo → Bool
is_mapped info =
    starts_with (prop "PreferredDevice" info) "/dev/mapper/"
    || starts_with (prop "Device" info) "/dev/dm-"

unfoldable pub is_luks : BlockInfo → Bool
is_luks info = prop "IdType" info == "crypto_LUKS"

unfoldable pub is_supported : BlockInfo → Bool
is_supported info =
    if is_luks info
    then not (prop "IdVersion" info == "1")
    else contains (λ f. f == prop "IdType" info) ("ext4" ∷ "ext3" ∷ "ext2" ∷ [])

module _ (same_ignoring_case : String → String → Bool) (fstab : List String)
    (enc_key_type : String → ℕ) where
  unfoldable pub param_of : BlockInfo → DeviceEncryptParam
  param_of info = record {
    dev_desc = prop "Device" info;
    uuid = prop "IdUUID" info;
    type = if is_luks info then key_type (enc_key_type (prop "Device" info)) else password_only;
    key = "";
    new_key = "";
    export_path = "";
    device_display_name = info.display_name;
    mount_point = mount_point_of info;
    init_only = is_fstab_item fstab (mount_point_of info);
    validate_by_rec_key = false;
    backing_dev_uuid = prop "IdUUID" info;
    clear_dev_uuid = clear_prop "IdUUID" info;
  }

  -- The paths of the selection, and the information on its first item; `none` is the answer false.
  unfoldable pub initialize : List String → Option BlockInfo → Option Scene
  initialize [] found = none
  initialize (path ∷ rest) none = none
  initialize (path ∷ rest) (some info) =
      if not (ends_with path "blockdev")
      then none
      else if is_empty (prop "Device" info)
      then none
      else if is_mapped info
      then none
      else if not (is_supported info)
      then none
      else if contains (same_ignoring_case (mount_point_of info)) disabled_encrypt_path
      then none
      else some (record {
        item_encrypted = is_luks info;
        selection_mounted = not (is_empty (mount_point_of info));
        param = param_of info;
      })

pub record MenuAction : Type 0 where
  pub id : String
  pub text : String
  pub enabled : Bool
  pub visible : Bool

abbrev action : String → String → Bool → MenuAction
action id text enabled = record { id = id; text = text; enabled = enabled; visible = true }

-- The actions in the order of their identifiers.
unfoldable pub create : Bool → Scene → List MenuAction
create has_job s =
    if s.item_encrypted
    then action "de_0_unlock" "Unlock encrypted partition" true
      ∷ action "de_1_decrypt" "Cancel partition encryption" (not has_job)
      ∷ elim (s.param.type) [
        | tpm_only ↦ []
        | tpm_and_pin ↦ action "de_2_changePwd" "Changing the encryption PIN" true ∷ []
        | password_only ↦ action "de_2_changePwd" "Changing the encryption passphrase" true ∷ []
      ]
    else action "de_0_encrypt" "Enable partition encryption" (not has_job) ∷ []

-- The new actions stand below computer-rename, or else before the last of the others.
unfoldable pub place : List MenuAction → List MenuAction → List MenuAction
place new [] = new
place new (a ∷ []) = new ++ (a ∷ [])
place new (a ∷ b ∷ rest) =
    let below = place new (b ∷ rest) in
    if a.id == "computer-rename" then a ∷ (new ++ (b ∷ rest)) else a ∷ below

unfoldable pub hide_unlock : Bool → List MenuAction → List MenuAction
hide_unlock mounted [] = []
hide_unlock mounted (a ∷ acts) =
    (if (a.id == "de_0_unlock") && mounted then record a { visible = false } else a)
    ∷ hide_unlock mounted acts

unfoldable pub update_state : List MenuAction → Scene → List MenuAction → List MenuAction
update_state actions s parent = place (hide_unlock (s.selection_mounted) actions) parent

-- What an action sets off.
pub data Task : Type 0 where
  encrypts_now encrypts_unmounted decrypts_now decrypts_unmounted changes_passphrase unlocks : Task

unfoldable pub triggered : String → Scene → Option Task
triggered id s =
    if id == "de_0_encrypt"
    then some (if s.param.init_only then encrypts_now else encrypts_unmounted)
    else if id == "de_1_decrypt"
    then some (if s.param.init_only then decrypts_now else decrypts_unmounted)
    else if id == "de_2_changePwd"
    then some changes_passphrase
    else if id == "de_0_unlock"
    then some unlocks
    else none
