-- ===== src/Tables/CrypttabOption.antt =====
-- encrypt/encryptworker.cpp: `ReencryptWorkerV2::updateCrypttab` adds the option once.
use text.Mathlib.TextEquality.{starts_with_iff}
use text.Mathlib.TextLemmas.{cons-append, nil-append, append_assoc}
use text.Mathlib.TextEquality.{eq_iff}
use Prim.Native.String
use dde_file_manager_extensi.Prelude.{
  String, Bool, true, false, ◌||◌, ◌≡◌, refl, sym, ap, ◌∙◌, none, some, List, [], ◌∷◌, All, IsLine,
  has_text, starts_with, ◌<>◌, split, join, split-IsLine, split-join_of, split-is_nil, is_nil,
  is_newline, is_line, arith,
}
use dde_file_manager_extensi.Tables.Crypttab.{add_option, crypttab_with_tpm}

has_text_empty : (s : String) → has_text s "" ≡ true
unfolding has_text
has_text_empty String.[] = refl
has_text_empty (String.◌∷◌ c s) = rw (has_text_empty s) (ground arith)

starts_with_left : (l s t : String) → starts_with l t ≡ true → starts_with (l <> s) t ≡ true
starts_with_left l s t h =
    let (r, e) = (starts_with_iff l t).0 h in
    (starts_with_iff (l <> s) t).1 (r <> s, sym (append_assoc t r s) ∙ ap (λ x. x <> s) e)

or_mono :
    (a b c d : Bool)
    → (a ≡ true → c ≡ true)
    → (b ≡ true → d ≡ true)
    → (a || b) ≡ true
    → (c || d) ≡ true
or_mono true b c d f g h = rw (f refl) refl
or_mono false b true d f g h = refl
or_mono false b false d f g h = g h

has_text_left : (l s t : String) → has_text l t ≡ true → has_text (l <> s) t ≡ true
unfolding has_text
has_text_left String.[] s t h =
    ap (has_text (String.◌++◌ "" s)) ((eq_iff t "").0 h) ∙ has_text_empty (String.◌++◌ "" s)
has_text_left (String.◌∷◌ c l) s t h = rw (cons-append c l s) (
    or_mono _ _ (starts_with (String.◌∷◌ c (l <> s)) t) (has_text (l <> s) t)
      (λ start.
        ap (λ x. starts_with x t) (sym (cons-append c l s))
        ∙ starts_with_left (String.◌∷◌ c l) s t start)
      (has_text_left l s t) h)

has_text_right : (l s t : String) → has_text s t ≡ true → has_text (l <> s) t ≡ true
unfolding has_text
has_text_right String.[] s t h = ap (λ x. has_text x t) (nil-append s) ∙ h
has_text_right (String.◌∷◌ c l) s t h =
    rw (cons-append c l s) (ground (arith, has_text_right l s t))

append-IsLine : (l s : String) → IsLine l → IsLine s → IsLine (l <> s)
unfolding is_line
append-IsLine String.[] s h k = ap is_line (nil-append s) ∙ k
append-IsLine (String.◌∷◌ c l) s h k = rw (cons-append c l s) (ground (arith, append-IsLine l s))

add_option-IsLine :
    (source : String) (lines : List String)
    → All IsLine lines
    → All IsLine (add_option source lines).0
unfolding add_option is_line
add_option-IsLine source [] h = tt
add_option-IsLine source (line ∷ lines) h =
    ground (arith, append-IsLine line ",tpm2-device=auto" h.0 refl, add_option-IsLine source lines)

add_option_idem :
    (source : String) (lines : List String)
    → (add_option source (add_option source lines).0).1 ≡ false
unfolding add_option has_text
add_option_idem source [] = refl
add_option_idem source (line ∷ lines) = ground (
  arith,
  has_text_left line ",tpm2-device=auto" source,
  has_text_right line ",tpm2-device=auto" "tpm2-device=auto" refl,
  add_option_idem source lines,
)

add_option-is_nil :
    (source : String) (lines : List String) → is_nil (add_option source lines).0 ≡ is_nil lines
unfolding add_option
add_option-is_nil source [] = refl
add_option-is_nil source (line ∷ lines) = ground arith

-- What the worker writes to /etc/crypttab already holds the option for the device: a second update
-- finds nothing to change.
pub crypttab_with_tpm_idem :
    (source contents written : String)
    → crypttab_with_tpm source contents ≡ some written
    → crypttab_with_tpm source written ≡ none
unfolding crypttab_with_tpm
crypttab_with_tpm_idem source contents written h =
    let lines = split is_newline contents in
    let same =
      split-join_of (add_option source lines).0
        (add_option-is_nil source lines ∙ split-is_nil contents)
        (add_option-IsLine source lines (split-IsLine contents)) in
    let e : written ≡ join "\n" (add_option source lines).0 = ground arith in
    rw (e, same, add_option_idem source lines)
