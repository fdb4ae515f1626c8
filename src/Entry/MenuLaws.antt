-- ===== src/Entry/MenuLaws.antt =====
-- Which devices have the menu, and where its actions stand.
use dde_file_manager_extensi.Prelude.{
  ℕ, ◌≤◌, String, ◌≡◌, ◌⊎◌, refl, ap, Bool, true, false, not, none, some, List, [], ◌∷◌, ◌++◌, inl,
  inr, arith, Bool-cases, is_empty, ◌==◌, eq_iff, ends_with, length,
}
use dde_file_manager_extensi.DiskEncrypt.{disabled_encrypt_path}
use dde_file_manager_extensi.Entry.Menu.{
  BlockInfo, prop, contains, mount_point_of, is_mapped, is_luks, is_supported, initialize, param_of,
  MenuAction, place,
}

module _ (same : String → String → Bool) (fstab : List String) (enc_key_type : String → ℕ) where
  -- The menu is there for the first item of a selection exactly where it is a block device with a
  -- device node that is no mapped device, holds LUKS (but not of version 1) or ext2 to ext4, and is
  -- not mounted on a path that may not be encrypted; the parameters are then those of the device.
  pub initialize_lem :
      (path : String) (rest : List String) (info : BlockInfo)
      → let accepts =
          (ends_with path "blockdev" ≡ true)
          × ((is_empty (prop "Device" info) ≡ false)
              × ((is_mapped info ≡ false)
                  × ((is_supported info ≡ true)
                      × (contains (same (mount_point_of info)) disabled_encrypt_path ≡ false)))) in
        (accepts
          × (initialize same fstab enc_key_type (path ∷ rest) (some info)
              ≡ some (record {
                item_encrypted = is_luks info;
                selection_mounted = not (is_empty (mount_point_of info));
                param = param_of same fstab enc_key_type info;
              })))
        ⊎ (¬ accepts × (initialize same fstab enc_key_type (path ∷ rest) (some info) ≡ none))
  unfolding initialize
  initialize_lem path rest info = ground arith

-- The last of the actions is computer-rename.
abbrev pub EndsAtRename : List MenuAction → Type 0
EndsAtRename [] = ⊥
EndsAtRename (a ∷ []) = a.id ≡ "computer-rename"
EndsAtRename (a ∷ b ∷ acts) = EndsAtRename (b ∷ acts)

-- What the place of the new actions is.
abbrev pub Placed : List MenuAction → List MenuAction → Type 0
Placed new acts =
    (front : List MenuAction) × ((back : List MenuAction) × ((front ++ back ≡ acts)
        × ((place new acts ≡ front ++ (new ++ back)) × (EndsAtRename front ⊎ (length back ≤ 1)))))

EndsAtRename-cons :
    (a : MenuAction) (acts : List MenuAction) → EndsAtRename acts → EndsAtRename (a ∷ acts)
EndsAtRename-cons a [] h = absurd h
EndsAtRename-cons a (b ∷ acts) h = h

still_placed :
    (a : MenuAction) (front back : List MenuAction)
    → EndsAtRename front ⊎ (length back ≤ 1)
    → EndsAtRename (a ∷ front) ⊎ (length back ≤ 1)
still_placed a front back (inl e) = inl (EndsAtRename-cons a front e)
still_placed a front back (inr e) = inr e

append_none : (new : List MenuAction) → new ≡ new ++ []
append_none [] = refl
append_none (a ∷ new) = ap (λ t. a ∷ t) (append_none new)

place_later :
    (new : List MenuAction) (a b : MenuAction) (rest : List MenuAction)
    → (a.id == "computer-rename") ≡ false
    → Placed new (b ∷ rest)
    → Placed new (a ∷ b ∷ rest)
unfolding place
place_later new a b rest h (front, (back, (e, (p, c)))) = (
  a ∷ front,
  (back, (ap (λ t. a ∷ t) e, (rw h (ap (λ t. a ∷ t) p), still_placed a front back c))),
)

-- The new actions are put as they stand between the others, whose order is kept: the actions before
-- them end at computer-rename, or at most one comes after them.
pub place-Placed : (new acts : List MenuAction) → Placed new acts
unfolding place
place-Placed new [] = ([], ([], (refl, (append_none new, inr (ground arith)))))
place-Placed new (a ∷ []) = ([], (a ∷ [], (refl, (refl, inr (ground arith)))))
place-Placed new (a ∷ b ∷ rest) = elim (Bool-cases (a.id == "computer-rename")) [
  | inl h ↦ (a ∷ [], (b ∷ rest, (refl, (rw h refl, inl ((eq_iff (a.id) "computer-rename").0 h)))))
  | inr h ↦ place_later new a b rest h (place-Placed new (b ∷ rest))
]
