-- ===== src/Entry/DialogKeys.antt =====
-- What the dialogs for decrypting and for changing the passphrase hand out.
use Prim.Native.Char.{Char}
use dde_file_manager_extensi.Prelude.{
  zero, suc, ◌≤◌, String, ◌≡◌, ap, Bool, true, false, inl, inr, arith, Bool-cases, text_length,
  is_empty,
}
use dde_file_manager_extensi.Entry.RecoveryKey.{remove_dashes, format_recovery_key}
use dde_file_manager_extensi.Entry.Sections.{
  no_dash, no_dash-remove_dashes, cut_key-count, remove_dashes-format_recovery_key,
}
use dde_file_manager_extensi.Entry.Password.{valid, validate_passwd, trimmed, trim_start, trim_end}
use dde_file_manager_extensi.Entry.PasswordRules.{IsNewKey, validate_passwd_lem}
use dde_file_manager_extensi.Entry.Unlock.{accepted, is_shown}
use dde_file_manager_extensi.Entry.DecryptInput.{
  DecryptDialog, Decrypting, new_decrypt, update_user_hints, set_input_pin, get_key,
}
use dde_file_manager_extensi.Entry.DecryptInput
use dde_file_manager_extensi.Entry.ChgPassphrase.{
  ChgPassphraseDialog, Changing, new_chg_passphrase, get_passphrase,
}
use dde_file_manager_extensi.Entry.ChgPassphrase

-- The key that the dialog holds can be handed out.
abbrev pub IsUsable : Bool → String → Type 0
IsUsable using_rec_key key =
    (is_empty key ≡ false) × (using_rec_key ≡ true → (text_length key ≡ 24) × (no_dash key ≡ true))

-- However the dialog was used, once it is accepted the key that it hands out is not empty, and a
-- recovery key has 24 characters and no dash.
pub get_key-IsUsable :
    (d : DecryptDialog) → Decrypting d → d.result ≡ accepted → IsUsable (d.use_rec_key) (get_key d)
unfolding new_decrypt update_user_hints set_input_pin get_key DecryptInput.on_key_changed
    DecryptInput.on_button_clicked DecryptInput.on_rec_switch_clicked
get_key-IsUsable _ (DecryptInput.opened pin) h = ground arith
get_key-IsUsable _ (DecryptInput.types_key {d} s a r) h = ground arith
get_key-IsUsable _ (DecryptInput.clicks {d} zero a r) h =
    ground (arith, no_dash-remove_dashes (d.editor))
get_key-IsUsable _ (DecryptInput.clicks {d} (suc n) a r) h = ground arith
get_key-IsUsable _ (DecryptInput.switches {d} a r) h = ground arith

module _ (is_space : Char → Bool) where
  trim_end-undashed :
      (s : String)
      → text_length (remove_dashes (trim_end is_space s)) ≤ text_length (remove_dashes s)
  unfolding trim_end remove_dashes text_length
  trim_end-undashed String.[] = omega arith
  trim_end-undashed (String.◌∷◌ c s) = ground (arith, trim_end-undashed s)

  trim_start-undashed :
      (s : String)
      → text_length (remove_dashes (trim_start is_space s)) ≤ text_length (remove_dashes s)
  unfolding trim_start remove_dashes text_length
  trim_start-undashed String.[] = omega arith
  trim_start-undashed (String.◌∷◌ c s) = ground (arith, trim_start-undashed s)

  trimmed-undashed :
      (s : String)
      → text_length (remove_dashes (trimmed is_space s)) ≤ text_length (remove_dashes s)
  unfolding trimmed
  trimmed-undashed s =
      omega (arith, trim_end-undashed (trim_start is_space s), trim_start-undashed s)

  record Checked (d : ChgPassphraseDialog) : Type 0 where
    pub short : d.using_rec_key ≡ true → text_length (remove_dashes (d.old_pass)) ≤ 24
    pub taken :
        d.result ≡ accepted
        → validate_passwd is_space (d.using_rec_key) (d.old_pass) (d.new_pass1) (d.new_pass2)
          ≡ valid

  formatted_short : (s : String) → text_length (remove_dashes (format_recovery_key s)) ≤ 24
  formatted_short s =
      omega (arith, ap text_length (remove_dashes-format_recovery_key s), cut_key-count s)

  switches-Checked :
      (d : ChgPassphraseDialog)
      → is_shown (d.result) ≡ true
      → Checked (ChgPassphrase.on_rec_switch_clicked d)
  unfolding ChgPassphrase.on_rec_switch_clicked remove_dashes text_length
  switches-Checked d a = elim (Bool-cases (d.using_rec_key)) [
    | inl h ↦ rw h (ground arith)
    | inr h ↦ rw h (ground arith)
  ]

  Changing-Checked : (d : ChgPassphraseDialog) → Changing is_space d → Checked d
  unfolding new_chg_passphrase ChgPassphrase.on_button_clicked ChgPassphrase.on_rec_switch_clicked
      ChgPassphrase.on_old_key_changed remove_dashes text_length
  Changing-Checked _ (ChgPassphrase.opened pin) = ground arith
  Changing-Checked _ (ChgPassphrase.types_old {d} s a r) = ground (arith, formatted_short s)
  Changing-Checked _ (ChgPassphrase.types_new {d} s t a r) = ground (arith, Changing-Checked d r)
  Changing-Checked _ (ChgPassphrase.clicks {d} n a r) = ground (arith, Changing-Checked d r)
  Changing-Checked _ (ChgPassphrase.switches {d} a r) = switches-Checked d a

  -- However the dialog was used, once it is accepted the new key that it hands out is strong and was
  -- typed twice, but for the blanks around it, and a recovery key that it hands out as the old key
  -- has 24 characters, none of them a dash.
  pub get_passphrase-IsUsable :
      (d : ChgPassphraseDialog)
      → Changing is_space d
      → d.result ≡ accepted
      → IsNewKey is_space (get_passphrase d).1 (d.new_pass2)
        × (d.using_rec_key ≡ true
            → (text_length (get_passphrase d).0 ≡ 24) × (no_dash (get_passphrase d).0 ≡ true))
  unfolding get_passphrase
  get_passphrase-IsUsable d r h =
      let c = Changing-Checked d r in
      let v =
        (validate_passwd_lem is_space (d.using_rec_key) (d.old_pass) (d.new_pass1) (d.new_pass2)).0
          (c.taken h) in
      (
        v.1.1,
        λ u. rw u (
          omega (arith, c.short u, v.1.0 u, trimmed-undashed (d.old_pass)),
          no_dash-remove_dashes (d.old_pass),
        ),
      )
