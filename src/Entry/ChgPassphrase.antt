-- ===== src/Entry/ChgPassphrase.antt =====
-- `ChgPassphraseDialog` of gui/chgpassphrasedialog.cpp. The texts of the two edits of the new key
-- are set as they are typed.
use Prim.Native.Char.{Char}
use dde_file_manager_extensi.Prelude.{
  ℕ, String, ◌≡◌, Bool, true, false, not, num_eq, if◌then◌else◌, ◌<>◌,
}
use dde_file_manager_extensi.Entry.RecoveryKey.{remove_dashes, format_recovery_key}
use dde_file_manager_extensi.Entry.Password.{Verdict, valid, is_valid, validate_passwd}
use dde_file_manager_extensi.Entry.Unlock.{DialogResult, shown, accepted, rejected, is_shown}

pub record ChgPassphraseDialog : Type 0 where
  pub using_rec_key : Bool
  pub enc_type : String
  pub old_pass : String
  pub new_pass1 : String
  pub new_pass2 : String
  pub old_key_hint : String
  pub switch_text : String
  pub placeholder : String
  pub hides_input : Bool
  pub verdict : Verdict
  pub result : DialogResult

-- What is handed out: the old key and the new one.
unfoldable pub get_passphrase : ChgPassphraseDialog → String × String
get_passphrase d = (if d.using_rec_key then remove_dashes (d.old_pass) else d.old_pass, d.new_pass1)

unfoldable pub on_rec_switch_clicked : ChgPassphraseDialog → ChgPassphraseDialog
on_rec_switch_clicked d =
    if not (d.using_rec_key)
    then record d {
      using_rec_key = true;
      old_pass = "";
      old_key_hint = "Recovery key";
      hides_input = false;
      switch_text = "Validate with " <> d.enc_type;
      placeholder = "Please input recovery key";
    }
    else record d {
      using_rec_key = false;
      old_pass = "";
      old_key_hint = "Old " <> d.enc_type;
      hides_input = true;
      switch_text = "Validate with recovery key";
      placeholder = "At least 8 bits, contains 3 types of A-Z, a-z, 0-9 and symbols";
    }

unfoldable pub on_old_key_changed : String → ChgPassphraseDialog → ChgPassphraseDialog
on_old_key_changed inputs d = record d {
  old_pass = if d.using_rec_key then format_recovery_key inputs else inputs;
}

module _ (is_space : Char → Bool) where
  unfoldable pub on_button_clicked : ℕ → ChgPassphraseDialog → ChgPassphraseDialog
  on_button_clicked idx d =
      if num_eq idx 1
      then (let answer =
            validate_passwd is_space (d.using_rec_key) (d.old_pass) (d.new_pass1) (d.new_pass2) in
          if is_valid answer
          then record d { verdict = answer; result = accepted }
          else record d { verdict = answer })
      else record d { result = rejected }

-- The constructor, for a device that is unlocked with a PIN or with a passphrase.
unfoldable pub new_chg_passphrase : Bool → ChgPassphraseDialog
new_chg_passphrase pin = on_rec_switch_clicked (record {
  using_rec_key = true;
  enc_type = if pin then "PIN" else "passphrase";
  old_pass = "";
  new_pass1 = "";
  new_pass2 = "";
  old_key_hint = "";
  switch_text = "";
  placeholder = "";
  hides_input = true;
  verdict = valid;
  result = shown;
})

-- What can be made of the dialog.
pub data Changing (is_space : Char → Bool) : ChgPassphraseDialog → Type 0 where
  opened : (pin : Bool) → Changing is_space (new_chg_passphrase pin)
  types_old :
      {d : ChgPassphraseDialog}
      → (s : String) → is_shown (d.result) ≡ true
      → Changing is_space d
      → Changing is_space (on_old_key_changed s d)
  types_new :
      {d : ChgPassphraseDialog}
      → (s t : String) → is_shown (d.result) ≡ true
      → Changing is_space d
      → Changing is_space (record d { new_pass1 = s; new_pass2 = t })
  clicks :
      {d : ChgPassphraseDialog}
      → (n : ℕ) → is_shown (d.result) ≡ true
      → Changing is_space d
      → Changing is_space (on_button_clicked is_space n d)
  switches :
      {d : ChgPassphraseDialog}
      → is_shown (d.result) ≡ true
      → Changing is_space d
      → Changing is_space (on_rec_switch_clicked d)
