-- ===== src/Entry/RecoveryKey.antt =====
-- `recovery_key_utils::formatRecoveryKey` of utils/encryptutils.cpp, and `QString::remove("-")`
-- and `QString::insert`, as it calls them.
use Prim.Native.Char.{Char, code}
use dde_file_manager_extensi.Prelude.{
  ℕ, zero, suc, String, Bool, ◌-◌, ◌*◌, ◌/◌, ◌%◌, num_eq, ltb, if◌then◌else◌, text_length, left,
}

abbrev pub section_len : ℕ
section_len = 6

abbrev pub key_len : ℕ
key_len = 24

abbrev pub is_dash : Char → Bool
is_dash c = num_eq (code c) 45

-- `remove("-")`
unfoldable pub remove_dashes : String → String
remove_dashes String.[] = String.[]
remove_dashes (String.◌∷◌ c s) =
    let rest = remove_dashes s in if is_dash c then rest else String.◌∷◌ c rest

-- `insert(n, '-')`, for a position in the text
unfoldable pub insert_dash : ℕ → String → String
insert_dash zero s = String.◌∷◌ "-" s
insert_dash (suc n) String.[] = String.[]
insert_dash (suc n) (String.◌∷◌ c s) = String.◌∷◌ c (insert_dash n s)

-- The dashes of a text of n characters. The source has -1 for 0 characters, and its loop then does
-- nothing, as it does for 0.
unfoldable pub dash_count : ℕ → ℕ
dash_count n = if num_eq (n % section_len) 0 then n / section_len - 1 else n / section_len

-- The loop, from the last dash to the first.
unfoldable pub insert_dashes : ℕ → String → String
insert_dashes zero s = s
insert_dashes (suc n) s = insert_dashes n (insert_dash (suc n * section_len) s)

unfoldable pub cut_key : String → String
cut_key raw =
    let key = remove_dashes raw in if ltb key_len (text_length key) then left key_len key else key

unfoldable pub format_recovery_key : String → String
format_recovery_key raw = let key = cut_key raw in insert_dashes (dash_count (text_length key)) key
