-- ===== src/Entry/TestJson.antt =====
-- A printer and a parser of objects for the tests of the token: an object is a row of texts, three for
-- each value, and each character of a text stands behind a mark.
use Prim.Native.Char.{Char, code}
use dde_file_manager_extensi.Prelude.{
  String, ◌≡◌, refl, ap, ◌∙◌, false, List, [], ◌∷◌, inl, inr, arith, Bool-cases, num_eq,
  if◌then◌else◌, is_empty, ◌==◌, eq_iff, text_length, Hash,
}
use dde_file_manager_extensi.Entry.Passphrase.{Json, string, strings}

unfoldable put : String → String → String
put String.[] rest = String.◌∷◌ "." rest
put (String.◌∷◌ c s) rest = String.◌∷◌ "'" (String.◌∷◌ c (put s rest))

unfoldable put_all : List String → String
put_all [] = ""
put_all (s ∷ ss) = put s (put_all ss)

add : Char → List String → List String
add c [] = []
add c (s ∷ ss) = String.◌∷◌ c s ∷ ss

unfoldable take_all : String → List String
take_all String.[] = []
take_all (String.◌∷◌ m String.[]) = "" ∷ []
take_all (String.◌∷◌ m (String.◌∷◌ c t)) =
    let after = take_all t in
    let next = take_all (String.◌∷◌ c t) in if num_eq (code m) 46 then "" ∷ next else add c after

take_all-end : (t : String) → take_all (String.◌∷◌ "." t) ≡ "" ∷ take_all t
unfolding take_all
take_all-end String.[] = refl
take_all-end (String.◌∷◌ c t) = refl

take_all-put : (s t : String) → take_all (put s t) ≡ s ∷ take_all t
unfolding take_all put add
take_all-put String.[] t = take_all-end t
take_all-put (String.◌∷◌ c s) t = ap (add c) (take_all-put s t)

take_all-put_all : (ss : List String) → take_all (put_all ss) ≡ ss
unfolding put_all take_all
take_all-put_all [] = refl
take_all-put_all (s ∷ ss) = take_all-put s (put_all ss) ∙ ap (λ t. s ∷ t) (take_all-put_all ss)

unfoldable rows : Hash Json → List String
rows [] = []
rows ((k, string s) ∷ o) = "s" ∷ k ∷ s ∷ rows o
rows ((k, strings l) ∷ o) = "l" ∷ k ∷ put_all l ∷ rows o

unfoldable read_rows : List String → Hash Json
read_rows [] = []
read_rows (tag ∷ []) = []
read_rows (tag ∷ k ∷ []) = []
read_rows (tag ∷ k ∷ s ∷ rest) =
    (k, if tag == "s" then string s else strings (take_all s)) ∷ read_rows rest

read_rows-rows : (o : Hash Json) → read_rows (rows o) ≡ o
unfolding read_rows rows
read_rows-rows [] = refl
read_rows-rows ((k, string s) ∷ o) = ap (λ t. (k, string s) ∷ t) (read_rows-rows o)
read_rows-rows ((k, strings l) ∷ o) =
    ap (λ m. (k, strings m) ∷ read_rows (rows o)) (take_all-put_all l)
    ∙ ap (λ t. (k, strings l) ∷ t) (read_rows-rows o)

unfoldable pub print_rows : Hash Json → String
unfolding put_all rows put
print_rows o = String.◌∷◌ "." (put_all (rows o))

drop_mark : String → String
drop_mark String.[] = ""
drop_mark (String.◌∷◌ c s) = s

unfoldable pub parse_rows : String → Hash Json
unfolding read_rows take_all add drop_mark
parse_rows s = read_rows (take_all (drop_mark s))

pub parse_rows-print_rows : (o : Hash Json) → parse_rows (print_rows o) ≡ o
unfolding parse_rows print_rows drop_mark
parse_rows-print_rows o = ap read_rows (take_all-put_all (rows o)) ∙ read_rows-rows o

pub print_rows_nonempty : (o : Hash Json) → is_empty (print_rows o) ≡ false
unfolding print_rows text_length
print_rows_nonempty o = elim (Bool-cases (is_empty (print_rows o))) [
  | inl e ↦ absurd (ground (arith, ap text_length ((eq_iff (print_rows o) "").0 e)))
  | inr n ↦ n
]
