-- ===== src/Tables/FstabChange.antt =====
-- encrypt/encryptworker.cpp: what `setFstabTimeout` changes in /etc/fstab.
use dde_file_manager_extensi.Prelude.{
  String, true, false, ◌||◌, ◌==◌, ◌≡◌, refl, ap, ◌⊎◌, All, inl, inr, List, [], ◌∷◌, ◌++◌, ◌<>◌,
  has_text, arith, Bool-cases,
}
use dde_file_manager_extensi.Tables.Fstab.{set_timeout, set_timeouts, timeout_param}

module _ (desc uuid : String) where
  set_timeout_found : (items : List String) → set_timeout desc uuid true items ≡ (items, true)
  unfolding set_timeout
  set_timeout_found [] = refl
  set_timeout_found (a ∷ []) = refl
  set_timeout_found (a ∷ b ∷ []) = refl
  set_timeout_found (a ∷ b ∷ c ∷ []) = refl
  set_timeout_found (a ∷ b ∷ c ∷ d ∷ []) = refl
  set_timeout_found (a ∷ b ∷ c ∷ d ∷ e ∷ []) = refl
  set_timeout_found (a ∷ b ∷ c ∷ d ∷ e ∷ f ∷ []) = ground arith
  set_timeout_found (a ∷ b ∷ c ∷ d ∷ e ∷ f ∷ g ∷ rest) = refl

  set_timeouts_found :
      (table : List (List String)) → set_timeouts desc uuid true table ≡ (table, true)
  unfolding set_timeouts
  set_timeouts_found [] = refl
  set_timeouts_found (items ∷ table) = rw (set_timeout_found items, set_timeouts_found table) refl

  -- The line of the device, without the option; and that line with the option appended to its options.
  abbrev pub IsTarget : List String → List String → Type 0
  IsTarget items items' =
      (a b c d e f : String) × (items ≡ a ∷ b ∷ c ∷ d ∷ e ∷ f ∷ [])
      × ((a == desc || a == uuid) ≡ true)
      × (has_text d timeout_param ≡ false)
      × (items' ≡ a ∷ b ∷ c ∷ (d <> ("," <> timeout_param)) ∷ e ∷ f ∷ [])

  -- A line that is to stay as it is.
  abbrev pub IsOther : List String → Type 0
  IsOther items = (items' : List String) → ¬ IsTarget items items'

  abbrev pub IsChange : List (List String) → List (List String) → Type 0
  IsChange table table' =
      (before after : List (List String)) × (items items' : List String) × IsTarget items items'
      × (table ≡ before ++ (items ∷ after))
      × (table' ≡ before ++ (items' ∷ after))

  set_timeout-cases :
      (items : List String)
      → ((set_timeout desc uuid false items ≡ (items, false)) × IsOther items)
        ⊎ ((items' : List String) × (set_timeout desc uuid false items ≡ (items', true))
            × IsTarget items items')
  unfolding set_timeout
  set_timeout-cases [] = inl (refl, λ i (_, _, _, _, _, _, eq, _, _, _). cc)
  set_timeout-cases (a ∷ []) = inl (refl, λ i (_, _, _, _, _, _, eq, _, _, _). cc)
  set_timeout-cases (a ∷ b ∷ []) = inl (refl, λ i (_, _, _, _, _, _, eq, _, _, _). cc)
  set_timeout-cases (a ∷ b ∷ c ∷ []) = inl (refl, λ i (_, _, _, _, _, _, eq, _, _, _). cc)
  set_timeout-cases (a ∷ b ∷ c ∷ d ∷ []) = inl (refl, λ i (_, _, _, _, _, _, eq, _, _, _). cc)
  set_timeout-cases (a ∷ b ∷ c ∷ d ∷ e ∷ []) = inl (refl, λ i (_, _, _, _, _, _, eq, _, _, _). cc)
  set_timeout-cases (a ∷ b ∷ c ∷ d ∷ e ∷ f ∷ []) = elim (Bool-cases (a == desc || a == uuid)) [
    | inl h ↦ elim (Bool-cases (has_text d timeout_param)) [
      | inl k ↦ inl (rw (h, k) refl, λ i (_, _, _, _, _, _, eq, _, lacks, _). cc)
      | inr k ↦ inr (_, rw (h, k) refl, (a, b, c, d, e, f, refl, h, k, refl))
    ]
    | inr h ↦ inl (rw h refl, λ i (_, _, _, _, _, _, eq, named, _, _). cc)
  ]
  set_timeout-cases (a ∷ b ∷ c ∷ d ∷ e ∷ f ∷ g ∷ rest) =
      inl (refl, λ i (_, _, _, _, _, _, eq, _, _, _). cc)

  -- The rewriting of /etc/fstab, seen as rows of items: a target is a line of six items that names the
  -- device by its path or its UUID and whose options lack the timeout. Either no line is a target, and
  -- every row stays; or one target gets the timeout as one more option, and every other row stays.
  pub set_timeouts_lem :
      (table : List (List String))
      → ((set_timeouts desc uuid false table ≡ (table, false)) × All IsOther table)
        ⊎ ((table' : List (List String)) × (set_timeouts desc uuid false table ≡ (table', true))
            × IsChange table table')
  unfolding set_timeouts
  set_timeouts_lem [] = inl (refl, tt)
  set_timeouts_lem (items ∷ table) = elim (set_timeout-cases items) [
    | inl (e, other) ↦ elim (set_timeouts_lem table) [
      | inl (e', others) ↦ inl (rw (e, e') refl, (other, others))
      | inr (table', e', (before, after, i, i', target, old, new)) ↦ inr (
        items ∷ table',
        rw (e, e') refl,
        (items ∷ before, after, i, i', target, ap (λ t. items ∷ t) old, ap (λ t. items ∷ t) new),
      )
    ]
    | inr (items', e, target) ↦ inr (
      items' ∷ table,
      rw (e, set_timeouts_found table) refl,
      ([], table, items, items', target, refl, refl),
    )
  ]
