-- ===== src/Entry/Mount.antt =====
-- What `DiskEncryptMenuScene` (menu/diskencryptmenuscene.cpp) does with the mount library: the
-- unmounting before a task, unlocking and mounting. The answers of its asynchronous calls are
-- arguments; a device object is `none` where there is none.
use dde_file_manager_extensi.Prelude.{
  String, Bool, true, false, ◌&&◌, not, Option, none, some, ltb, if◌then◌else◌, is_empty,
  text_length, ◌<>◌,
}
use dde_file_manager_extensi.Entry.Acquire.{Acquired}

-- A device object: whether it is encrypted, the path of its clear device, and whether its unmounting
-- and its locking succeed.
pub record Block : Type 0 where
  pub is_encrypted : Bool
  pub clear_path : String
  pub unmounts : Bool
  pub locks : Bool

-- `OpType`
pub data OpType : Type 0 where
  unmount lock : OpType

-- `faulty` is a call on a device object that is not there.
pub data Unmounted : Type 0 where
  proceeds no_device faulty : Unmounted
  failed : OpType → Unmounted

unfoldable pub lock_after : Block → Unmounted
lock_after blk = if blk.locks then proceeds else failed lock

-- The device of the scene, and its clear device.
unfoldable pub unmount_before : Option Block → (String → Option Block) → Unmounted
unmount_before none clear_device = no_device
unmount_before (some blk) clear_device =
    if not (blk.is_encrypted)
    then (if blk.unmounts then proceeds else failed unmount)
    else if ltb 1 (text_length (blk.clear_path))
    then elim (clear_device (blk.clear_path)) [
      | none ↦ faulty
      | some clear ↦ if clear.unmounts then lock_after blk else failed unmount
    ]
    else proceeds

-- The message of a failure.
unfoldable pub on_unmount_error : OpType → String → String × String
on_unmount_error unmount dev = ("Encrypt failed", "Cannot unmount device " <> dev)
on_unmount_error lock dev = ("Encrypt failed", "Cannot lock device " <> dev)

pub data Unlocking : Type 0 where
  gives_up : Unlocking
  unlocks_with : String → Unlocking

-- Where the hook does not answer, the device is tried with the empty passphrase.
unfoldable pub unlock_device : Bool → Acquired → Unlocking
unlock_device false a = gives_up
unlock_device true a =
    if is_empty (a.passphrase) && a.handled then gives_up else unlocks_with (a.passphrase)

-- What follows an answer of the mount library, of which it is known whether it is a success and
-- whether the user dismissed the question for his password.
pub data Followed : Type 0 where
  shows_error : String → String → Followed
  mounts : Followed
  ends : Followed

unfoldable pub on_unlocked : Bool → Bool → Bool → Followed
on_unlocked ok dismissed has_clear_device =
    if not ok && not dismissed
    then shows_error "Unlock device failed" "Wrong passphrase"
    else if has_clear_device
    then mounts
    else ends

unfoldable pub on_mounted : Bool → Bool → Followed
on_mounted ok dismissed =
    if not ok && not dismissed then shows_error "Mount device failed" "" else ends
