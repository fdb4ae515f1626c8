-- ===== src/Settings/Tidy.antt =====
-- settings.cpp: the values of every layer hold no group twice, and no group holds a key twice.
use dde_file_manager_extensi.Prelude.{
  String, ◌==◌, ◌≡◌, refl, subst, none, some, [], ◌∷◌, Hash, find, insert, erase, find-insert,
  find-erase, IsDistinct, All, eq_iff, arith, Bool-cases, inl, inr,
}

module _ {ℓ} {V : Type ℓ} where
  pub insert-IsDistinct :
      (k : String) (v : V) (m : Hash V) → IsDistinct m → IsDistinct (insert k v m)
  unfolding insert find
  insert-IsDistinct k v [] h = (refl, tt)
  insert-IsDistinct k v ((j, w) ∷ m) (fresh, h) = elim (Bool-cases (j == k)) [
    | inl same ↦ rw same (rw (← (eq_iff j k).0 same) fresh, h)
    | inr other ↦
        rw other
          (rw find-insert (ground (arith, eq_iff j k, eq_iff k j)), insert-IsDistinct k v m h)
  ]

  find-erase-none : (k j : String) (m : Hash V) → find j m ≡ none → find j (erase k m) ≡ none
  find-erase-none k j m h = ground (arith, find-erase k j m)

  pub erase-IsDistinct : (k : String) (m : Hash V) → IsDistinct m → IsDistinct (erase k m)
  unfolding erase
  erase-IsDistinct k [] h = tt
  erase-IsDistinct k ((j, w) ∷ m) (fresh, h) = elim (Bool-cases (j == k)) [
    | inl same ↦ rw same (erase-IsDistinct k m h)
    | inr other ↦ rw other (find-erase-none k j m fresh, erase-IsDistinct k m h)
  ]

  pub All-insert {κ} :
      (P : String × V → Type κ) (k : String) (v : V) (m : Hash V)
      → P (k, v)
      → All P m
      → All P (insert k v m)
  unfolding insert
  All-insert P k v [] p h = (p, tt)
  All-insert P k v ((j, w) ∷ m) p (pj, h) = elim (Bool-cases (j == k)) [
    | inl same ↦ rw same (p, h)
    | inr other ↦ rw other (pj, All-insert P k v m p h)
  ]

  pub All-erase {κ} :
      (P : String × V → Type κ) (k : String) (m : Hash V) → All P m → All P (erase k m)
  unfolding erase
  All-erase P k [] h = tt
  All-erase P k ((j, w) ∷ m) (pj, h) = elim (Bool-cases (j == k)) [
    | inl same ↦ rw same (All-erase P k m h)
    | inr other ↦ rw other (pj, All-erase P k m h)
  ]

  pub All-find {κ} :
      (P : V → Type κ) (k : String) (v : V) (m : Hash V)
      → find k m ≡ some v
      → All (λ e. P e.1) m
      → P v
  unfolding find
  All-find P k v [] e h = absurd (cc)
  All-find P k v ((j, w) ∷ m) e (pj, h) = elim (Bool-cases (j == k)) [
    | inl same ↦ subst P (ground arith) pj
    | inr other ↦ All-find P k v m (ground arith) h
  ]

-- The values of a layer.
abbrev pub IsTidy : {V : Type 0} → Hash (Hash V) → Type 0
IsTidy m = IsDistinct m × All (λ e. IsDistinct e.1) m
