-- ===== src/Tpm/Random.antt =====
-- The random passwords of `getRandomByTpm`.
use dde_file_manager_extensi.Prelude.{
  ℕ, zero, suc, ◌*◌, ◌/◌, ◌%◌, ◌≤◌, ◌<◌, String, ◌≡◌, refl, ap, ◌∙◌, Bool, true, ◌&&◌, Option, none,
  some, List, [], ◌∷◌, inl, inr, arith, Bool-cases, Option-cases, All, num_eq, length, text_length,
  mid, ℤ, pos, negsuc,
}
use dde_file_manager_extensi.Tpm.{TpmLib}
use dde_file_manager_extensi.Tpm.Work.{hex_digit, to_hex, get_random, u16}
use dde_file_manager_extensi.Tpm.Receiver.{is_hex_digit, all_hex, get_random_by_tpm}

unfoldable all_below : ℕ → (ℕ → Bool) → Bool
all_below zero p = true
all_below (suc n) p = p n && all_below n p

all_below_lem : (n : ℕ) (p : ℕ → Bool) (m : ℕ) → all_below n p ≡ true → m < n → p m ≡ true
unfolding all_below
all_below_lem zero p m h k = ground arith
all_below_lem (suc n) p m h k = elim (Bool-cases (num_eq m n)) [
  | inl e ↦ let q : m ≡ n = ground arith in rw q (ground arith)
  | inr e ↦ all_below_lem n p m (ground arith) (ground arith)
]

hex_digits_hex : all_below 16 (λ n. is_hex_digit (hex_digit n)) ≡ true
unfolding all_below hex_digit mid
hex_digits_hex = refl

hex_digit_hex : (n : ℕ) → n < 16 → is_hex_digit (hex_digit n) ≡ true
hex_digit_hex n = all_below_lem 16 (λ n. is_hex_digit (hex_digit n)) n hex_digits_hex

abbrev pub IsByte : ℕ → Type 0
IsByte b = b < 256

to_hex-count : (bs : List ℕ) → text_length (to_hex bs) ≡ length bs * 2
unfolding to_hex text_length
to_hex-count [] = refl
to_hex-count (b ∷ bs) = omega (arith, to_hex-count bs)

to_hex-all_hex : (bs : List ℕ) → All IsByte bs → all_hex (to_hex bs) ≡ true
unfolding to_hex all_hex
to_hex-all_hex [] h = refl
to_hex-all_hex (b ∷ bs) h = ground (
  arith,
  hex_digit_hex (b / 16) (omega arith),
  hex_digit_hex (b % 16) (omega arith),
  to_hex-all_hex bs h.1,
)

-- What a random password is: hexadecimal digits, as many as asked for, and that is an even number
-- from 2 to 64.
abbrev pub IsPassword : ℤ → String → Type 0
IsPassword (negsuc k) out = ⊥
IsPassword (pos size) out =
    (text_length out ≡ size)
    × ((all_hex out ≡ true) × ((size % 2 ≡ 0) × ((2 ≤ size) × (size ≤ 64))))

abbrev pub IsAskable : ℕ → Type 0
IsAskable size = (size % 2 ≡ 0) × ((2 ≤ size) × (size ≤ 64))

get_random-some :
    (lib : TpmLib) (f : ℕ → Option (List ℕ)) (size : ℕ) (bs : List ℕ)
    → lib.is_loaded ≡ true
    → lib.utpm2_get_random ≡ some f
    → IsAskable size
    → f (size / 2) ≡ some bs
    → get_random lib (pos size) ≡ some (to_hex bs)
unfolding get_random
get_random-some lib f size bs l r a h =
    let u : u16 (size / 2) ≡ size / 2 = omega arith in
    let g : f (u16 (size / 2)) ≡ some bs = ap f u ∙ h in rw (l, r) (ground (arith, g))

get_random-IsAskable :
    (lib : TpmLib) (size : ℕ) (out : String) → get_random lib (pos size) ≡ some out → IsAskable size
unfolding get_random
get_random-IsAskable lib size out h = ground arith

get_random-negsuc : (lib : TpmLib) (k : ℕ) → get_random lib (negsuc k) ≡ none
unfolding get_random
get_random-negsuc lib k = refl

-- A random password that is answered as good is one, whatever the library does: it has as many
-- characters as asked for, an even number from 2 to 64, and each is a hexadecimal digit.
pub get_random_by_tpm-IsPassword :
    (lib : TpmLib) (size : ℤ) (out : String)
    → get_random_by_tpm lib size ≡ (true, some out)
    → IsPassword size out
unfolding get_random_by_tpm
get_random_by_tpm-IsPassword lib (pos size) out h =
    elim (Option-cases (get_random lib (pos size))) [
      | inl n ↦ ground (arith, n)
      | inr (o, e) ↦ ground (arith, e, get_random-IsAskable lib size o e)
    ]
get_random_by_tpm-IsPassword lib (negsuc k) out h = ground (arith, get_random-negsuc lib k)

-- A loaded library that fills its buffer with bytes gives a good password of each even size from 2
-- to 64.
pub get_random_by_tpm_answers :
    (lib : TpmLib) (f : ℕ → Option (List ℕ)) (size : ℕ) (bs : List ℕ)
    → lib.is_loaded ≡ true
    → lib.utpm2_get_random ≡ some f
    → IsAskable size
    → f (size / 2) ≡ some bs
    → length bs ≡ size / 2
    → All IsByte bs
    → get_random_by_tpm lib (pos size) ≡ (true, some (to_hex bs))
unfolding get_random_by_tpm
get_random_by_tpm_answers lib f size bs l r a h n b =
    rw (get_random-some lib f size bs l r a h, get_random_by_tpm)
      (ground (arith, to_hex-count bs, to_hex-all_hex bs b))
