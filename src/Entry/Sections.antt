-- ===== src/Entry/Sections.antt =====
-- What the recovery key looks like once it is formatted: sections of six characters.
use Prim.Native.Char.{Char}
use dde_file_manager_extensi.Prelude.{
  ℕ, zero, suc, ◌+◌, ◌*◌, ◌≤◌, ◌<◌, String, ◌≡◌, refl, sym, ap, ◌∙◌, Bool, true, ◌&&◌, not, arith,
  text_length, left,
}
use dde_file_manager_extensi.Entry.RecoveryKey.{
  is_dash, remove_dashes, insert_dash, dash_count, insert_dashes, cut_key, format_recovery_key,
  section_len,
}

-- The text in sections of six, the first of which has room for n more characters.
unfoldable pub sections : ℕ → String → String
sections n String.[] = String.[]
sections zero (String.◌∷◌ c s) = String.◌∷◌ "-" (String.◌∷◌ c (sections 5 s))
sections (suc n) (String.◌∷◌ c s) = String.◌∷◌ c (sections n s)

-- Six characters before a text.
abbrev section_on : Char → Char → Char → Char → Char → Char → String → String
section_on a b c d e f s =
    String.◌∷◌ a (String.◌∷◌ b (String.◌∷◌ c (String.◌∷◌ d (String.◌∷◌ e (String.◌∷◌ f s)))))

section_step : (n : ℕ) → suc (suc n) * 6 ≡ suc (suc (suc (suc (suc (suc (suc n * 6))))))
section_step n = omega arith

insert_dashes-section :
    (n : ℕ) (a b c d e f : Char) (s : String)
    → insert_dashes (suc n) (section_on a b c d e f s)
      ≡ section_on a b c d e f (String.◌∷◌ "-" (insert_dashes n s))
unfolding insert_dashes insert_dash
insert_dashes-section zero a b c d e f s = refl
insert_dashes-section (suc n) a b c d e f s =
    ap (λ m. insert_dashes (suc n) (insert_dash m (section_on a b c d e f s))) (section_step n)
    ∙ insert_dashes-section n a b c d e f (insert_dash (suc n * section_len) s)

sections-short : (n : ℕ) (s : String) → text_length s ≤ n → sections n s ≡ s
unfolding sections text_length
sections-short n String.[] h = refl
sections-short zero (String.◌∷◌ c s) h = ground arith
sections-short (suc n) (String.◌∷◌ c s) h = ap (String.◌∷◌ c) (sections-short n s (omega arith))

insert_dashes-sections :
    (n : ℕ) (s : String)
    → n * 6 < text_length s
    → text_length s ≤ suc n * 6
    → insert_dashes n s ≡ sections 6 s
unfolding insert_dashes sections text_length
insert_dashes-sections zero s h k = sym (sections-short 6 s k)
insert_dashes-sections (suc n) String.[] h k = ground arith
insert_dashes-sections (suc n) (String.◌∷◌ a String.[]) h k = ground arith
insert_dashes-sections (suc n) (String.◌∷◌ a (String.◌∷◌ b String.[])) h k = ground arith
insert_dashes-sections (suc n) (String.◌∷◌ a (String.◌∷◌ b (String.◌∷◌ c String.[]))) h k =
    ground arith
insert_dashes-sections (suc n) (String.◌∷◌ a (String.◌∷◌ b (String.◌∷◌ c (String.◌∷◌ d String.[]))))
      h k =
    ground arith
insert_dashes-sections (suc n)
      (String.◌∷◌ a (String.◌∷◌ b (String.◌∷◌ c (String.◌∷◌ d (String.◌∷◌ e String.[]))))) h k =
    ground arith
insert_dashes-sections (suc n)
      (String.◌∷◌ a
        (String.◌∷◌ b (String.◌∷◌ c (String.◌∷◌ d (String.◌∷◌ e (String.◌∷◌ f String.[]))))))
      h k =
    ground arith
insert_dashes-sections (suc n)
      (String.◌∷◌ a
        (String.◌∷◌ b (String.◌∷◌ c (String.◌∷◌ d (String.◌∷◌ e (String.◌∷◌ f (String.◌∷◌ g s)))))))
      h k =
    insert_dashes-section n a b c d e f (String.◌∷◌ g s)
    ∙ ap (λ t. section_on a b c d e f (String.◌∷◌ "-" t))
        (insert_dashes-sections n (String.◌∷◌ g s) (omega arith) (omega arith))

left-count : (n : ℕ) (s : String) → text_length (left n s) ≤ n
unfolding left text_length
left-count zero s = omega arith
left-count (suc n) String.[] = omega arith
left-count (suc n) (String.◌∷◌ c s) = omega (arith, left-count n s)

-- A key keeps at most 24 characters.
pub cut_key-count : (raw : String) → text_length (cut_key raw) ≤ 24
unfolding cut_key
cut_key-count raw = ground (arith, left-count 24 (remove_dashes raw))

dash_count-bounds : (n : ℕ) → 0 < n → (dash_count n * 6 < n) × (n ≤ suc (dash_count n) * 6)
unfolding dash_count
dash_count-bounds n h = ground arith

dash_count-sections : (s : String) → insert_dashes (dash_count (text_length s)) s ≡ sections 6 s
unfolding dash_count sections insert_dashes text_length
dash_count-sections String.[] = refl
dash_count-sections (String.◌∷◌ c s) =
    let b = dash_count-bounds (suc (text_length s)) (omega arith) in
    insert_dashes-sections _ (String.◌∷◌ c s) b.0 b.1

-- The loop that counts the dashes and inserts them from the last to the first gives the key in
-- sections of six characters, a dash between each two.
pub format_recovery_key-sections :
    (raw : String) → format_recovery_key raw ≡ sections section_len (cut_key raw)
unfolding format_recovery_key
format_recovery_key-sections raw = dash_count-sections (cut_key raw)

sections-count :
    (n : ℕ) (s : String) → n ≤ 5 → text_length (sections n s) * 6 + n ≤ text_length s * 7 + 5
unfolding sections text_length
sections-count n String.[] h = omega arith
sections-count zero (String.◌∷◌ c s) h = omega (arith, sections-count 5 s (omega arith))
sections-count (suc n) (String.◌∷◌ c s) h = omega (arith, sections-count n s (omega arith))

sections-bound : (s : String) → text_length s ≤ 24 → text_length (sections 6 s) ≤ 27
unfolding sections text_length
sections-bound String.[] h = omega arith
sections-bound (String.◌∷◌ c s) h = omega (arith, sections-count 5 s (omega arith))

remove_dashes-sections : (n : ℕ) (s : String) → remove_dashes (sections n s) ≡ remove_dashes s
unfolding sections remove_dashes
remove_dashes-sections n String.[] = refl
remove_dashes-sections zero (String.◌∷◌ c s) = rw (remove_dashes-sections 5 s) refl
remove_dashes-sections (suc n) (String.◌∷◌ c s) = rw (remove_dashes-sections n s) refl

-- No character of the text is a dash.
unfoldable pub no_dash : String → Bool
no_dash String.[] = true
no_dash (String.◌∷◌ c s) = not (is_dash c) && no_dash s

pub no_dash-remove_dashes : (s : String) → no_dash (remove_dashes s) ≡ true
unfolding no_dash remove_dashes
no_dash-remove_dashes String.[] = refl
no_dash-remove_dashes (String.◌∷◌ c s) = ground (arith, no_dash-remove_dashes s)

remove_dashes-kept : (s : String) → no_dash s ≡ true → remove_dashes s ≡ s
unfolding no_dash remove_dashes
remove_dashes-kept String.[] h = refl
remove_dashes-kept (String.◌∷◌ c s) h = ground (arith, remove_dashes-kept s)

no_dash-left : (n : ℕ) (s : String) → no_dash s ≡ true → no_dash (left n s) ≡ true
unfolding left no_dash
no_dash-left zero s h = refl
no_dash-left (suc n) String.[] h = refl
no_dash-left (suc n) (String.◌∷◌ c s) h = ground (arith, no_dash-left n s)

no_dash-cut_key : (raw : String) → no_dash (cut_key raw) ≡ true
unfolding cut_key
no_dash-cut_key raw = ground (arith, no_dash-remove_dashes raw, no_dash-left 24 (remove_dashes raw))

-- Without its dashes the formatted key is the key itself: the first 24 characters that were typed
-- and are no dash.
pub remove_dashes-format_recovery_key :
    (raw : String) → remove_dashes (format_recovery_key raw) ≡ cut_key raw
remove_dashes-format_recovery_key raw =
    ap remove_dashes (format_recovery_key-sections raw)
    ∙ remove_dashes-sections 6 (cut_key raw)
    ∙ remove_dashes-kept (cut_key raw) (no_dash-cut_key raw)

cut_key-format : (raw : String) → cut_key (format_recovery_key raw) ≡ cut_key raw
unfolding cut_key
cut_key-format raw = ground (arith, remove_dashes-format_recovery_key raw, cut_key-count raw)

-- A formatted key is formatted to itself.
pub format_recovery_key_idempotent :
    (raw : String) → format_recovery_key (format_recovery_key raw) ≡ format_recovery_key raw
format_recovery_key_idempotent raw =
    format_recovery_key-sections (format_recovery_key raw)
    ∙ ap (sections 6) (cut_key-format raw)
    ∙ sym (format_recovery_key-sections raw)

-- A formatted key has at most 27 characters.
pub format_recovery_key-count : (raw : String) → text_length (format_recovery_key raw) ≤ 27
format_recovery_key-count raw = omega (
  arith,
  ap text_length (format_recovery_key-sections raw),
  sections-bound (cut_key raw) (cut_key-count raw),
)
