-- ===== src/Settings/Layers.antt =====
-- settings.cpp: what `value` answers after `setValue`, `remove`, `removeGroup` and `clear`.
use dde_file_manager_extensi.Prelude.{
  String, Bool, true, false, not, ◌==◌, ◌≡◌, refl, ◌≢◌, ◌∙◌, ap, ◌⊎◌, none, some, [], ◌∷◌, find,
  insert, erase, find-insert, find-erase, eq_refl, eq_iff, arith, if◌then◌else◌, ◌&&◌, Option-cases,
  inl, inr,
}
use dde_file_manager_extensi.Settings.{
  Variant, Variants, variant_eq, value_changed, Data, Settings, Signal, group_of, data_value, value,
  is_removable, make_dirty, emit,
}
use dde_file_manager_extensi.Settings.Edit.{
  set_data_value, write_value, set_value_no_notify, set_value, erase_value,
}

pub same_entry :
    (group key g k : String) → (group == g && key == k) ≡ true → (group ≡ g) × (key ≡ k)
same_entry group key g k h = ground (arith, eq_iff group g, eq_iff key k)

module _ {V : Type 0} where
  data_value-set_data_value :
      (group key g k : String) (v : Variant V) (d : Data V)
      → data_value (set_data_value group key v d) g k
        ≡ (if group == g && key == k then v else data_value d g k)
  unfolding data_value set_data_value find
  data_value-set_data_value group key g k v d = ground (
    arith,
    find-insert group g ((key, v) ∷ []) d.values,
    find-insert group g (insert key v (group_of group d.values)) d.values,
    find-insert key k v (group_of group d.values),
    eq_iff group g,
    eq_iff key k,
  )

  pub data_value-erase_value :
      (group key g k : String) (d : Data V)
      → data_value (erase_value group key d) g k
        ≡ (if group == g && key == k then none else data_value d g k)
  unfolding data_value erase_value find
  data_value-erase_value group key g k d = ground (
    arith,
    find-insert group g (erase key (group_of group d.values)) d.values,
    find-erase key k (group_of group d.values),
    eq_iff group g,
    eq_iff key k,
  )

  -- Marking the file as dirty changes no layer and emits nothing.
  pub record SameData (s t : Settings V) : Type 0 where
    pub default_data : t.default_data ≡ s.default_data
    pub fallback_data : t.fallback_data ≡ s.fallback_data
    pub writable_data : t.writable_data ≡ s.writable_data
    pub signals : t.signals ≡ s.signals

  pub make_dirty-SameData : (b : Bool) (s t : Settings V) → make_dirty b s ≡ some t → SameData s t
  unfolding make_dirty
  make_dirty-SameData b s t h = ground arith

module _ {V : Type 0} ⦃q : Variants V⦄ where
  pub variant_eq_refl : (v : Variant V) → variant_eq v v ≡ true
  variant_eq_refl none = refl
  variant_eq_refl (some v) = q.beq_refl v

  -- `value` depends on the three layers only.
  pub value-of_SameData :
      (s t : Settings V) (g k : String) (d : Variant V)
      → SameData s t
      → value t g k d ≡ value s g k d
  unfolding value
  value-of_SameData s t g k d same = rw (same.default_data, same.fallback_data, same.writable_data)

  write_value-SameData :
      (group key : String) (v : Variant V) (s t : Settings V)
      → write_value group key v s ≡ some t
      → SameData
          (record s { writable_data = set_data_value group key v s.writable_data; dirty = true })
          t
  unfolding write_value make_dirty
  write_value-SameData group key v s t h = ground arith

  value-write_value :
      (group key : String) (v : V) (s t : Settings V) (g k : String) (d : Variant V)
      → write_value group key (some v) s ≡ some t
      → value t g k d ≡ (if group == g && key == k then some v else value s g k d)
  value-write_value group key v s t g k d h =
      value-of_SameData _ t g k d (write_value-SameData group key (some v) s t h)
      ∙ unfold value in
        ground (arith, data_value-set_data_value group key g k (some v) s.writable_data)

  -- `setValue` either leaves the settings, or writes the value and perhaps emits.
  set_value_cases :
      (group key : String) (v : Variant V) (s t : Settings V)
      → set_value group key v s ≡ some t
      → ((t ≡ s) × (variant_eq (data_value s.writable_data group key) v ≡ true))
        ⊎ ((w : Settings V) × (write_value group key v s ≡ some w)
            × (t ≡ (
                if (if is_removable s group key
                  then true
                  else not (variant_eq (value s group key v) v))
                then emit (value_changed group key v) w
                else w)))
  unfolding set_value set_value_no_notify
  set_value_cases group key v s t h = elim (Option-cases (write_value group key v s)) [
    | inl e ↦ ground arith
    | inr (w, e) ↦ ground arith
  ]

  value-emit_if :
      (b : Bool) (s : Settings V) (e : Signal V) (g k : String) (d : Variant V)
      → value (if b then emit e s else s) g k d ≡ value s g k d
  unfolding value
  value-emit_if true s e g k d = refl
  value-emit_if false s e g k d = refl

  value_of_writable :
      (s : Settings V) (g k : String) (d : Variant V) (v : V)
      → data_value s.writable_data g k ≡ some v
      → value s g k d ≡ some v
  unfolding value
  value_of_writable s g k d v h = rw (h, value)

  equal_to_some : (x : Variant V) (v : V) → variant_eq x (some v) ≡ true → (w : V) × (x ≡ some w)
  equal_to_some none v h = cc
  equal_to_some (some w) v h = (w, refl)

  kept_entry :
      (b : Bool) (s : Settings V) (group key g k : String) (d : Variant V) (v : V)
      → variant_eq (data_value s.writable_data group key) (some v) ≡ true
      → (b ≡ true → (group ≡ g) × (key ≡ k))
      → (if b then variant_eq (value s g k d) (some v) ≡ true else value s g k d ≡ value s g k d)
  kept_entry false s group key g k d v equal same = refl
  kept_entry true s group key g k d v equal same =
      let (w, e) = equal_to_some _ v equal in
      let (eg, ek) = same refl in
      rw (← eg, ← ek, value_of_writable s group key d w e) (rw e at equal)

  written_entry :
      (b : Bool) (x y : Variant V) (v : V)
      → x ≡ (if b then some v else y)
      → (if b then variant_eq x (some v) ≡ true else x ≡ y)
  written_entry false x y v h = h
  written_entry true x y v h = rw h (q.beq_refl v)

  -- After `setValue` the entry reads as a variant that compares equal to the one that was set, and
  -- every other entry, for every default, reads as before. The variant set is a valid one.
  pub value-set_value :
      (group key : String) (v : V) (s t : Settings V) (g k : String) (d : Variant V)
      → set_value group key (some v) s ≡ some t
      → (if group == g && key == k
          then variant_eq (value t g k d) (some v) ≡ true
          else value t g k d ≡ value s g k d)
  value-set_value group key v s t g k d h = elim (set_value_cases group key (some v) s t h) [
    | inl (same, equal) ↦
        rw same (kept_entry _ s group key g k d v equal (same_entry group key g k))
    | inr (w, wrote, e) ↦ written_entry _ _ _ v (
        ap (λ x. value x g k d) e
        ∙ value-emit_if _ w _ g k d
        ∙ value-write_value group key v s w g k d wrote)
  ]

  -- What the entry reads as after `setValue`: the variant set, or an equal one that stood there.
  pub value-set_value_self :
      (group key : String) (v : V) (s t : Settings V) (d : Variant V)
      → set_value group key (some v) s ≡ some t
      → (w : V) × (value t group key d ≡ some w)
        × ((w ≡ v)
            ⊎ ((data_value s.writable_data group key ≡ some w)
                × (variant_eq (some w) (some v) ≡ true)))
  value-set_value_self group key v s t d h = elim (set_value_cases group key (some v) s t h) [
    | inl (same, equal) ↦
        let (w, e) = equal_to_some _ v equal in
        (w, rw same (value_of_writable s group key d w e), inr (e, rw e at equal))
    | inr (w, wrote, e) ↦ (
      v,
      ap (λ x. value x group key d) e
          ∙ value-emit_if _ w _ group key d
          ∙ value-write_value group key v s w group key d wrote
          ∙ rw (eq_refl group, eq_refl key) refl,
      inl refl,
    )
  ]

  signals_when_removable :
      (s : Settings V) (group key : String) (v : V)
      → find key (group_of group s.writable_data.values) ≢ some none
      → is_removable s group key ≡ true
      → variant_eq (value s group key (some v)) (some v)
        ≡ variant_eq (data_value s.writable_data group key) (some v)
  unfolding value data_value is_removable
  signals_when_removable s group key v valid h = ground arith

  -- `setValue` emits one `valueChanged`, with the entry and the variant, exactly if the entry did not
  -- read as an equal variant before (with the variant itself for the default, so that an entry that
  -- no layer has counts as equal). The writable layer holds no invalid variant for the entry.
  pub signals-set_value :
      (group key : String) (v : V) (s t : Settings V)
      → find key (group_of group s.writable_data.values) ≢ some none
      → set_value group key (some v) s ≡ some t
      → t.signals ≡ (
          if variant_eq (value s group key (some v)) (some v)
          then s.signals
          else value_changed group key (some v) ∷ s.signals)
  unfolding set_value set_value_no_notify
  signals-set_value group key v s t valid h =
      elim (Option-cases (write_value group key (some v) s)) [
        | inl e ↦ ground (arith, signals_when_removable s group key v valid)
        | inr (w, e) ↦ ground (
          arith,
          signals_when_removable s group key v valid,
          (write_value-SameData group key (some v) s w e).signals,
        )
      ]
