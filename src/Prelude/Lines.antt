-- ===== src/Prelude/Lines.antt =====
-- Text files as the program takes them apart: `split`, `join` and the texts between blanks.
use Prim.Native.Char.{Char, code}
use Prim.Native.String.{String}
use mathlib.Core.Path.{◌≡◌, refl, sym, ap, ◌∙◌}
use mathlib.Core.Logic.{inl, inr}
use mathlib.Core.Bool.{Bool, true, false, ◌&&◌, ◌||◌, not}
use mathlib.Core.List.{List, [], ◌∷◌, ◌++◌}
use native.Mathlib.Omega.{arith}
use text.Mathlib.TextLemmas.{nil-append, cons-append, append_assoc, append-nil}
use dde_file_manager_extensi.Prelude.Tests.{Bool-cases, is_nil, num_eq, if◌then◌else◌, All}
use dde_file_manager_extensi.Prelude.Text.{is_empty, ◌<>◌}

abbrev pub is_newline : Char → Bool
is_newline c = num_eq (code c) 10

abbrev pub is_blank : Char → Bool
is_blank c = num_eq (code c) 32 || num_eq (code c) 9

abbrev push : Char → List String → List String
push c [] = String.◌∷◌ c "" ∷ []
push c (l ∷ ls) = String.◌∷◌ c l ∷ ls

-- `split`: the text is cut at each character that the test holds of.
unfoldable pub split : (Char → Bool) → String → List String
split cuts String.[] = "" ∷ []
split cuts (String.◌∷◌ c s) = let rest = split cuts s in if cuts c then "" ∷ rest else push c rest

-- `lines.join(sep)`
unfoldable pub join : String → List String → String
join sep [] = ""
join sep (l ∷ []) = l
join sep (l ∷ m ∷ ls) = l <> (sep <> join sep (m ∷ ls))

unfoldable drop_empty : List String → List String
drop_empty [] = []
drop_empty (l ∷ ls) = let rest = drop_empty ls in if is_empty l then rest else l ∷ rest

-- `split(QRegularExpression("\t| "), QString::SkipEmptyParts)`
unfoldable pub fields : String → List String
unfolding split drop_empty
fields s = drop_empty (split is_blank s)

-- `replace("//", "/")`
unfoldable pub squeeze_slashes : String → String
squeeze_slashes String.[] = ""
squeeze_slashes (String.◌∷◌ c String.[]) = String.◌∷◌ c ""
squeeze_slashes (String.◌∷◌ c (String.◌∷◌ d s)) =
    let after = squeeze_slashes s in
    let next = squeeze_slashes (String.◌∷◌ d s) in
    if num_eq (code c) 47 && num_eq (code d) 47 then String.◌∷◌ c after else String.◌∷◌ c next

-- The text has no line end.
unfoldable pub is_line : String → Bool
is_line String.[] = true
is_line (String.◌∷◌ c s) = not (is_newline c) && is_line s

abbrev pub IsLine : String → Type 0
IsLine l = is_line l ≡ true

push-IsLine :
    (c : Char) (ls : List String) → is_newline c ≡ false → All IsLine ls → All IsLine (push c ls)
unfolding is_line
push-IsLine c [] h hs = ground arith
push-IsLine c (l ∷ ls) h hs = ground arith

pub split-IsLine : (s : String) → All IsLine (split is_newline s)
unfolding split is_line
split-IsLine String.[] = (refl, tt)
split-IsLine (String.◌∷◌ c s) = elim (Bool-cases (is_newline c)) [
  | inl h ↦ ground (arith, split-IsLine s)
  | inr h ↦ ground (arith, push-IsLine c (split is_newline s) h (split-IsLine s))
]

split-line_end : (s : String) → split is_newline ("\n" <> s) ≡ "" ∷ split is_newline s
unfolding split
split-line_end s =
    ap (split is_newline) (cons-append "\n" "" s ∙ ap (String.◌∷◌ "\n") (nil-append s))

pub split-cons :
    (l s : String) → IsLine l → split is_newline (l <> ("\n" <> s)) ≡ l ∷ split is_newline s
unfolding split is_line
split-cons String.[] s h = ap (split is_newline) (nil-append ("\n" <> s)) ∙ split-line_end s
split-cons (String.◌∷◌ c l) s h =
    ap (split is_newline) (cons-append c l ("\n" <> s)) ∙ ground (arith, split-cons l s)

pub split-line : (l : String) → IsLine l → split is_newline l ≡ l ∷ []
unfolding split is_line
split-line String.[] h = refl
split-line (String.◌∷◌ c l) h = ground (arith, split-line l)

-- A text file of lines is taken apart into the lines it was put together from.
pub split-join :
    (l : String) (ls : List String)
    → All IsLine (l ∷ ls)
    → split is_newline (join "\n" (l ∷ ls)) ≡ l ∷ ls
unfolding join
split-join l [] h = split-line l h.0
split-join l (m ∷ ls) h = split-cons l _ h.0 ∙ ap (λ t. l ∷ t) (split-join m ls h.1)

-- The lines of `join "\n" ls <> "\n"`.
abbrev pub closed_lines : List String → List String
closed_lines [] = "" ∷ "" ∷ []
closed_lines (l ∷ ls) = l ∷ (ls ++ ("" ∷ []))

pub split-closed :
    (ls : List String) → All IsLine ls → split is_newline (join "\n" ls <> "\n") ≡ closed_lines ls
unfolding join split
split-closed [] h = refl
split-closed (l ∷ []) h =
    ap (λ t. split is_newline (l <> t)) (sym (append-nil "\n")) ∙ split-cons l "" h.0
split-closed (l ∷ m ∷ ls) h =
    ap (split is_newline) (
      append_assoc l ("\n" <> join "\n" (m ∷ ls)) "\n"
      ∙ ap (λ t. l <> t) (append_assoc "\n" (join "\n" (m ∷ ls)) "\n"))
    ∙ split-cons l _ h.0
    ∙ ap (λ t. l ∷ t) (split-closed (m ∷ ls) h.1)

pub split-is_nil : (s : String) → is_nil (split is_newline s) ≡ false
unfolding split
split-is_nil String.[] = refl
split-is_nil (String.◌∷◌ c s) = ground arith

pub split-join_of :
    (ls : List String) → is_nil ls ≡ false → All IsLine ls → split is_newline (join "\n" ls) ≡ ls
split-join_of [] h hs = ground arith
split-join_of (l ∷ ls) h hs = split-join l ls hs
