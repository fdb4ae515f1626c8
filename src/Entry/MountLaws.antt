-- ===== src/Entry/MountLaws.antt =====
-- When a task of the menu is carried out.
use dde_file_manager_extensi.Prelude.{
  ◌≤◌, String, ◌≡◌, ◌↔◌, ◌⊎◌, Bool, true, false, Option, none, some, inl, inr, arith, Option-cases,
  text_length,
}
use dde_file_manager_extensi.Entry.Mount.{Block, proceeds, lock_after, unmount_before}

-- A device object that is there and is unmounted.
abbrev pub is_unmounted : Option Block → Bool
is_unmounted none = false
is_unmounted (some blk) = blk.unmounts

-- A task is carried out exactly where the device is out of use: one that is not encrypted is
-- unmounted, an unlocked one has its clear device unmounted and is then locked, and a locked one is
-- left as it is.
pub unmount_before-proceeds :
    (blk : Block) (clear_device : String → Option Block)
    → (unmount_before (some blk) clear_device ≡ proceeds) ↔ (
        ((blk.is_encrypted ≡ false) × (blk.unmounts ≡ true))
        ⊎ ((blk.is_encrypted ≡ true)
            × ((text_length (blk.clear_path) ≤ 1)
                ⊎ ((is_unmounted (clear_device (blk.clear_path)) ≡ true) × (blk.locks ≡ true)))))
unfolding unmount_before lock_after
unmount_before-proceeds blk clear_device = elim (Option-cases (clear_device (blk.clear_path))) [
  | inl n ↦ ground (arith, n)
  | inr (clear, e) ↦ ground (arith, e)
]
