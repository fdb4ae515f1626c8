-- ===== src/Entry/PasswordRules.antt =====
-- When a new key is taken.
use Prim.Native.Char.{Char}
use dde_file_manager_extensi.Prelude.{
  ◌≤◌, String, ◌≡◌, ◌≢◌, ◌↔◌, ◌⊎◌, refl, ap, Bool, true, false, inl, inr, arith, Bool-cases,
  text_length, is_empty, eq_iff, eq_refl,
}
use dde_file_manager_extensi.Entry.RecoveryKey.{remove_dashes}
use dde_file_manager_extensi.Entry.Password.{
  CharClass, upper, lower, digit, symbol, is_in, has_class, factor, is_weak, trimmed, valid,
  check_new, validate_password, validate_passwd, SecKeyType, tpm_only,
}

-- A character of the class stands in the text.
abbrev pub Occurs : CharClass → String → Type 0
Occurs k String.[] = ⊥
Occurs k (String.◌∷◌ c s) = (is_in k c ≡ true) ⊎ Occurs k s

has_class-Occurs : (k : CharClass) (s : String) → (has_class k s ≡ true) ↔ Occurs k s
unfolding has_class
has_class-Occurs k String.[] = ground arith
has_class-Occurs k (String.◌∷◌ c s) = ground (arith, has_class-Occurs k s)

-- At least eight characters, and of any two classes at least one occurs.
abbrev pub IsStrong : String → Type 0
IsStrong s = (8 ≤ text_length s) × ((j k : CharClass) → j ≢ k → Occurs j s ⊎ Occurs k s)

abbrev Either : CharClass → CharClass → String → Type 0
Either j k s = (has_class j s ≡ true) ⊎ (has_class k s ≡ true)

is_weak-Either : (s : String) (j k : CharClass) → is_weak s ≡ false → j ≢ k → Either j k s
unfolding is_weak factor
is_weak-Either s j k h n = ground arith

is_weak-count : (s : String) → is_weak s ≡ false → 8 ≤ text_length s
unfolding is_weak factor
is_weak-count s h = ground arith

is_weak-IsStrong : (s : String) → is_weak s ≡ false → IsStrong s
is_weak-IsStrong s h = (
  is_weak-count s h,
  λ j k n. ground (arith, is_weak-Either s j k h n, has_class-Occurs j s, has_class-Occurs k s),
)

IsStrong-is_weak : (s : String) → IsStrong s → is_weak s ≡ false
unfolding is_weak factor
IsStrong-is_weak s h = ground (
  arith,
  h.0,
  h.1 upper lower (ground arith),
  h.1 upper digit (ground arith),
  h.1 upper symbol (ground arith),
  h.1 lower digit (ground arith),
  h.1 lower symbol (ground arith),
  h.1 digit symbol (ground arith),
  has_class-Occurs upper s,
  has_class-Occurs lower s,
  has_class-Occurs digit s,
  has_class-Occurs symbol s,
)

long_nonempty : (s : String) → 8 ≤ text_length s → is_empty s ≡ false
unfolding text_length
long_nonempty s h = elim (Bool-cases (is_empty s)) [
  | inl e ↦ absurd (omega (arith, h, ap text_length ((eq_iff s "").0 e)))
  | inr n ↦ n
]

check_new-same :
    (is_space : Char → Bool) (text1 text2 : String)
    → trimmed is_space text1 ≡ trimmed is_space text2
    → is_empty (trimmed is_space text1) ≡ false
    → is_weak (trimmed is_space text1) ≡ false
    → check_new is_space text1 text2 ≡ valid
unfolding check_new
check_new-same is_space text1 text2 e n w = rw (n, w, ← e, n, eq_refl (trimmed is_space text1)) refl

module _ (is_space : Char → Bool) where
  -- The two texts agree but for the blanks around them, and make a strong key.
  abbrev pub IsNewKey : String → String → Type 0
  IsNewKey text1 text2 =
      IsStrong (trimmed is_space text1) × (trimmed is_space text1 ≡ trimmed is_space text2)

  check_new-IsNewKey :
      (text1 text2 : String) → (check_new is_space text1 text2 ≡ valid) ↔ IsNewKey text1 text2
  unfolding check_new
  check_new-IsNewKey text1 text2 = (
    λ h. ground (
      arith,
      eq_iff (trimmed is_space text1) (trimmed is_space text2),
      is_weak-IsStrong (trimmed is_space text1),
    ),
    λ h.
        check_new-same is_space text1 text2 h.1 (long_nonempty (trimmed is_space text1) h.0.0)
          (IsStrong-is_weak (trimmed is_space text1) h.0),
  )

  -- The wizard takes a key on its password page, and nowhere else: a strong one that was typed twice
  -- alike but for blanks around it, or none where the TPM alone unlocks. Strong is a key of at least
  -- eight characters in which, of any two of the four character classes, one occurs.
  pub validate_password_lem :
      (shown : Bool) (type : SecKeyType) (text1 text2 : String)
      → (validate_password is_space shown type text1 text2 ≡ valid)
        ↔ ((shown ≡ true) × ((type ≡ tpm_only) ⊎ IsNewKey text1 text2))
  unfolding validate_password
  validate_password_lem shown type text1 text2 = ground (arith, check_new-IsNewKey text1 text2)

  -- The dialog that changes the passphrase takes the input exactly where the old key is not blank, a
  -- recovery key as the old key has 24 characters besides dashes and the blanks around it, and the
  -- new key is one that the wizard would take.
  pub validate_passwd_lem :
      (using_rec_key : Bool) (old_pass text1 text2 : String)
      → (validate_passwd is_space using_rec_key old_pass text1 text2 ≡ valid) ↔ (
          (is_empty (trimmed is_space old_pass) ≡ false)
          × ((using_rec_key ≡ true → text_length (remove_dashes (trimmed is_space old_pass)) ≡ 24)
              × IsNewKey text1 text2))
  unfolding validate_passwd
  validate_passwd_lem using_rec_key old_pass text1 text2 =
      ground (arith, check_new-IsNewKey text1 text2)
