-- ===== src/Entry/Password.antt =====
-- What the dialogs ask of a new passphrase or PIN: `EncryptParamsInputDialog::validatePassword` of
-- gui/encryptparamsinputdialog.cpp and `ChgPassphraseDialog::validatePasswd` of
-- gui/chgpassphrasedialog.cpp. `QChar::isSpace` is a parameter.
use Prim.Native.Char.{Char, code}
use dde_file_manager_extensi.Prelude.{
  ℕ, ◌+◌, String, Bool, true, false, ◌&&◌, ◌||◌, not, ltb, leb, num_eq, if◌then◌else◌, is_empty,
  text_length, ◌==◌,
}
use dde_file_manager_extensi.Entry.RecoveryKey.{remove_dashes, key_len}

module _ (is_space : Char → Bool) where
  unfoldable pub trim_start : String → String
  trim_start String.[] = String.[]
  trim_start (String.◌∷◌ c s) =
      let rest = trim_start s in if is_space c then rest else String.◌∷◌ c s

  unfoldable pub trim_end : String → String
  trim_end String.[] = String.[]
  trim_end (String.◌∷◌ c s) =
      let rest = trim_end s in if is_space c && is_empty rest then rest else String.◌∷◌ c rest

  -- `trimmed()`
  unfoldable pub trimmed : String → String
  trimmed s = trim_end (trim_start s)

-- The four character classes.
pub data CharClass : Type 0 where
  upper lower digit symbol : CharClass

abbrev between : ℕ → ℕ → ℕ → Bool
between a b n = leb a n && leb n b

abbrev pub is_in : CharClass → Char → Bool
is_in upper c = between 65 90 (code c)
is_in lower c = between 97 122 (code c)
is_in digit c = between 48 57 (code c)
is_in symbol c = not (between 65 90 (code c) || between 97 122 (code c) || between 48 57 (code c))

-- `contains(reg)`
unfoldable pub has_class : CharClass → String → Bool
has_class k String.[] = false
has_class k (String.◌∷◌ c s) = is_in k c || has_class k s

abbrev one_if : Bool → ℕ
one_if true = 1
one_if false = 0

unfoldable pub factor : String → ℕ
factor s =
    one_if (has_class upper s)
    + one_if (has_class lower s)
    + one_if (has_class digit s)
    + one_if (has_class symbol s)

unfoldable pub is_weak : String → Bool
is_weak s = ltb (factor s) 3 || ltb (text_length s) 8

pub data SecKeyType : Type 0 where
  password_only tpm_and_pin tpm_only : SecKeyType

-- The answer of a validation: what is alerted, and where.
pub data Verdict : Type 0 where
  valid wrong_page old_empty bad_recovery_key first_empty second_empty weak inconsistent : Verdict

abbrev pub is_valid : Verdict → Bool
is_valid valid = true
is_valid _ = false

module _ (is_space : Char → Bool) where
  -- The checks of a new key that both dialogs make.
  unfoldable pub check_new : String → String → Verdict
  check_new text1 text2 =
      let pwd1 = trimmed is_space text1 in
      let pwd2 = trimmed is_space text2 in
      if is_empty pwd1
      then first_empty
      else if is_empty pwd2
      then second_empty
      else if is_weak pwd1
      then weak
      else if pwd1 == pwd2
      then valid
      else inconsistent

  -- `EncryptParamsInputDialog::validatePassword`, whether the password page is shown being its
  -- first argument
  unfoldable pub validate_password : Bool → SecKeyType → String → String → Verdict
  validate_password false type text1 text2 = wrong_page
  validate_password true tpm_only text1 text2 = valid
  validate_password true password_only text1 text2 = check_new text1 text2
  validate_password true tpm_and_pin text1 text2 = check_new text1 text2

  -- `ChgPassphraseDialog::validatePasswd`, with the flag `usingRecKey` and the text of `oldPass`
  unfoldable pub validate_passwd : Bool → String → String → String → Verdict
  validate_passwd using_rec_key old_pass text1 text2 =
      let old_key = trimmed is_space old_pass in
      if is_empty old_key
      then old_empty
      else if using_rec_key && not (num_eq (text_length (remove_dashes old_key)) key_len)
      then bad_recovery_key
      else check_new text1 text2
