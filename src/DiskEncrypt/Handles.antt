-- ===== src/DiskEncrypt/Handles.antt =====
-- encrypt/diskencrypt.cpp: the handles of libcryptsetup that a run opens and frees.
use dde_file_manager_extensi.Prelude.{
  ℕ, suc, ◌+◌, ℤ, is_neg, Bool, true, false, not, ◌&&◌, ◌≡◌, refl, List, [], ◌∷◌, arith,
  if◌then◌else◌,
}
use dde_file_manager_extensi.DiskEncrypt.Calls.{World, Event, Call, inits, inits_data, frees}
use dde_file_manager_extensi.DiskEncrypt.Keeps.{Brackets, is_opening, after, Allows}

abbrev is_freeing : Call → Bool
is_freeing frees = true
is_freeing _ = false

-- How many handles a run has opened, and how many it has freed.
unfoldable pub opened : List Event → ℕ
opened [] = 0
opened ((c, a) ∷ es) = let n = opened es in if is_opening c && not (is_neg a) then suc n else n

unfoldable pub freed : List Event → ℕ
freed [] = 0
freed ((c, a) ∷ es) = let n = freed es in if is_freeing c then suc n else n

-- So many handles are open.
abbrev pub Held : ℕ → World → Type 0
Held n w = opened w.events ≡ n + freed w.events

quiet-Held : (n : ℕ) → Allows (Held n)
unfolding opened freed
quiet-Held n c q a w h = ground arith

opening_not_freeing : (c : Call) → is_opening c ≡ true → is_freeing c ≡ false
opening_not_freeing (inits a) q = refl
opening_not_freeing (inits_data a b) q = refl
opening_not_freeing c q = ground arith

opening-Held :
    (n : ℕ) (c : Call)
    → is_opening c ≡ true
    → (a : ℤ) → is_neg a ≡ false
    → (w : World) → Held n w
    → Held (suc n) (after c a w)
unfolding opened freed
opening-Held n c q a k w h = rw (q, k, opening_not_freeing c q) (ground arith)

failing-Held :
    (n : ℕ) (c : Call)
    → is_opening c ≡ true
    → (a : ℤ) → is_neg a ≡ true
    → (w : World) → Held n w
    → Held n (after c a w)
unfolding opened freed
failing-Held n c q a k w h = rw (q, k, opening_not_freeing c q) (ground arith)

pub Held-Brackets : (n : ℕ) → Brackets (Held n) (Held (suc n))
unfolding opened freed
Held-Brackets n = record {
  outside = quiet-Held n;
  inside = quiet-Held (suc n);
  opening = opening-Held n;
  failing = failing-Held n;
  closing = λ a w h. ground arith;
  globals = λ r d w h. h;
}
