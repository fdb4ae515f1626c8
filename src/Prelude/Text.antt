-- ===== src/Prelude/Text.antt =====
-- `QString` and `QByteArray` as native texts: the members that the program calls.
use Prim.Native.Nat.{ℕ, zero, suc, ◌-◌}
use Prim.Native.String.{String, len, slice}
use Prim.Native.String
use mathlib.Core.Bool.{Bool, ◌&&◌, ◌||◌}
use text.Mathlib.Text.{◌==◌, starts_with}
use dde_file_manager_extensi.Prelude.Tests.{leb}

-- `isEmpty()`
abbrev pub is_empty : String → Bool
is_empty s = s == ""

-- `mid(n)`: the text from its n-th character on.
unfoldable pub mid : ℕ → String → String
mid zero s = s
mid (suc n) String.[] = String.[]
mid (suc n) (String.◌∷◌ c s) = mid n s

-- `mid(0, n)`
unfoldable pub left : ℕ → String → String
left zero s = String.[]
left (suc n) String.[] = String.[]
left (suc n) (String.◌∷◌ c s) = String.◌∷◌ c (left n s)

-- `length()` and `size()`, in characters
unfoldable pub text_length : String → ℕ
text_length String.[] = 0
text_length (String.◌∷◌ c s) = suc (text_length s)

-- `endsWith(t)`
unfoldable pub ends_with : String → String → Bool
ends_with s t = leb (len t) (len s) && (slice s (len s - len t) (len s) == t)

-- `contains(t)`: `t` begins at some position of the text.
unfoldable pub has_text : String → String → Bool
has_text String.[] t = t == ""
has_text (String.◌∷◌ c s) t = starts_with (String.◌∷◌ c s) t || has_text s t

-- `s + t`
infixl 65 ◌<>◌
abbrev pub ◌<>◌ : String → String → String
s <> t = String.◌++◌ s t
