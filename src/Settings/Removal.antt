-- ===== src/Settings/Removal.antt =====
-- settings.cpp: `remove`, `removeGroup` and `clear` uncover the lower layers.
use dde_file_manager_extensi.Prelude.{
  String, Bool, true, false, ◌==◌, ◌≡◌, refl, ◌∙◌, ◌⊎◌, none, some, [], ◌∷◌, Hash, find, erase,
  find-erase, eq_iff, arith, if◌then◌else◌, ◌&&◌, Option-cases, inl, inr, Bool-cases, is_nil,
}
use dde_file_manager_extensi.Settings.{
  Variant, Variants, Data, Settings, data_value, value, is_removable, make_dirty,
}
use dde_file_manager_extensi.Settings.Edit.{
  notify_removed, notify_group, notify_groups, remove_group, erase_value, remove, clear,
}
use dde_file_manager_extensi.Settings.Layers.{
  make_dirty-SameData, data_value-erase_value, same_entry,
}

module _ {V : Type 0} where
  -- The three layers are the same.
  pub record SameLayers (s t : Settings V) : Type 0 where
    pub default_data : t.default_data ≡ s.default_data
    pub fallback_data : t.fallback_data ≡ s.fallback_data
    pub writable_data : t.writable_data ≡ s.writable_data

  SameLayers-trans : {s t u : Settings V} → SameLayers s t → SameLayers t u → SameLayers s u
  SameLayers-trans a b = record {
    default_data = b.default_data ∙ a.default_data;
    fallback_data = b.fallback_data ∙ a.fallback_data;
    writable_data = b.writable_data ∙ a.writable_data;
  }

  make_dirty-SameLayers : (b : Bool) (s t : Settings V) → make_dirty b s ≡ some t → SameLayers s t
  make_dirty-SameLayers b s t h =
      let same = make_dirty-SameData b s t h in
      record {
        default_data = same.default_data;
        fallback_data = same.fallback_data;
        writable_data = same.writable_data;
      }

  value-of_SameLayers :
      {s t : Settings V} (g k : String) (d : Variant V)
      → SameLayers s t
      → value t g k d ≡ value s g k d
  unfolding value
  value-of_SameLayers g k d same = rw (same.default_data, same.fallback_data, same.writable_data)

  data_value_of_nil : (d : Data V) (g k : String) → is_nil d.values ≡ true → data_value d g k ≡ none
  unfolding data_value find
  data_value_of_nil d g k h = ground arith

  data_value_of_gone :
      (d : Data V) (group g k : String)
      → find group d.values ≡ none
      → (group == g) ≡ true
      → data_value d g k ≡ none
  unfolding data_value find
  data_value_of_gone d group g k h e = ground (arith, eq_iff group g)

  data_value_of_erased :
      (d : Data V) (group g k : String)
      → data_value (record d { values = erase group d.values }) g k
        ≡ (if group == g then none else data_value d g k)
  unfolding data_value find
  data_value_of_erased d group g k = ground (arith, find-erase group g d.values)

  -- What the fallback and default layers say, with the writable layer out of the way.
  abbrev pub uncovered : Settings V → Settings V
  uncovered s = record s { writable_data = record (s.writable_data) { values = [] } }

module _ {V : Type 0} ⦃q : Variants V⦄ where
  notify_removed-SameLayers :
      (g k : String) (v : Variant V) (s : Settings V) → SameLayers s (notify_removed g k v s)
  unfolding notify_removed
  notify_removed-SameLayers g k v s = ground arith

  notify_group-SameLayers :
      (g : String) (m : Hash (Variant V)) (s : Settings V) → SameLayers s (notify_group g m s)
  unfolding notify_group
  notify_group-SameLayers g [] s = ground arith
  notify_group-SameLayers g ((k, v) ∷ m) s =
      SameLayers-trans (notify_removed-SameLayers g k v s) (notify_group-SameLayers g m _)

  notify_groups-SameLayers :
      (m : Hash (Hash (Variant V))) (s : Settings V) → SameLayers s (notify_groups m s)
  unfolding notify_groups
  notify_groups-SameLayers [] s = ground arith
  notify_groups-SameLayers ((g, h) ∷ m) s =
      SameLayers-trans (notify_group-SameLayers g h s) (notify_groups-SameLayers m _)

  -- `value` where the writable layer answers by `w`.
  abbrev layered : Variant V → Settings V → String → String → Variant V → Variant V
  layered w s g k d = elim w [ some v ↦ some v | none ↦ value (uncovered s) g k d ]

  value-layered :
      (s : Settings V) (g k : String) (d : Variant V)
      → value s g k d ≡ layered (data_value s.writable_data g k) s g k d
  unfolding value find
  value-layered s g k d = ground arith

  layered_if :
      (b : Bool) (w : Variant V) (s : Settings V) (g k : String) (d : Variant V)
      → layered (if b then none else w) s g k d
        ≡ (if b then value (uncovered s) g k d else layered w s g k d)
  layered_if true w s g k d = refl
  layered_if false w s g k d = refl

  remove_cases :
      (group key : String) (s t : Settings V)
      → remove group key s ≡ some t
      → ((is_removable s group key ≡ false) × (t ≡ s))
        ⊎ SameLayers (record s { writable_data = erase_value group key s.writable_data }) t
  unfolding remove
  remove_cases group key s t h = elim (Bool-cases (is_removable s group key)) [
    | inl held ↦
        elim (Option-cases
          (make_dirty true (record s { writable_data = erase_value group key s.writable_data }))) [
            | inl e ↦ absurd (ground arith)
            | inr (w, e) ↦ inr (
                rw (emitted w held e) (
                  SameLayers-trans (make_dirty-SameLayers true _ w e)
                    (notify_removed-SameLayers group key _ w)))
          ]
    | inr gone ↦ inl (gone, ground arith)
  ]
    where
      emitted :
          (w : Settings V)
          → is_removable s group key ≡ true
          → make_dirty true (record s { writable_data = erase_value group key s.writable_data })
            ≡ some w
          → t ≡ notify_removed group key (data_value s.writable_data group key) w
      emitted w held e = ground arith

  value-erased :
      (s : Settings V) (group key g k : String) (d : Variant V)
      → value (record s { writable_data = erase_value group key s.writable_data }) g k d
        ≡ (if group == g && key == k then value (uncovered s) g k d else value s g k d)
  unfolding erase_value
  value-erased s group key g k d =
      value-layered _ g k d
      ∙ rw (data_value-erase_value group key g k s.writable_data, value-layered s g k d)
          (layered_if (group == g && key == k) _ s g k d)

  value_of_none :
      (s : Settings V) (g k : String) (d : Variant V)
      → data_value s.writable_data g k ≡ none
      → value s g k d ≡ value (uncovered s) g k d
  value_of_none s g k d h = value-layered s g k d ∙ rw h

  value_of_missing :
      (s : Settings V) (group key g k : String) (d : Variant V)
      → is_removable s group key ≡ false
      → value s g k d
        ≡ (if group == g && key == k then value (uncovered s) g k d else value s g k d)
  unfolding is_removable data_value
  value_of_missing s group key g k d h = elim (Bool-cases (group == g && key == k)) [
    | inl hit ↦
        let (eg, ek) = same_entry group key g k hit in
        rw hit (value_of_none s g k d (rw (← eg, ← ek) (ground arith)))
    | inr miss ↦ rw miss
  ]

  -- After `remove` the entry reads as the fallback and default layers have it, and every other entry
  -- reads as before.
  pub value-remove :
      (group key : String) (s t : Settings V) (g k : String) (d : Variant V)
      → remove group key s ≡ some t
      → value t g k d
        ≡ (if group == g && key == k then value (uncovered s) g k d else value s g k d)
  value-remove group key s t g k d h = elim (remove_cases group key s t h) [
    | inl (gone, same) ↦ rw same (value_of_missing s group key g k d gone)
    | inr layers ↦ value-of_SameLayers g k d layers ∙ value-erased s group key g k d
  ]

  -- After `clear` every entry reads as the fallback and default layers have it.
  pub value-clear :
      (s t : Settings V) (g k : String) (d : Variant V)
      → clear s ≡ some t
      → value t g k d ≡ value (uncovered s) g k d
  unfolding clear
  value-clear s t g k d h = elim (Bool-cases (is_nil s.writable_data.values)) [
    | inl empty ↦
        rw (stays empty) (value_of_none s g k d (data_value_of_nil s.writable_data g k empty))
    | inr full ↦ elim (Option-cases (make_dirty true (uncovered s))) [
      | inl e ↦ absurd (ground arith)
      | inr (w, e) ↦ rw (emitted w full e) (
          value-of_SameLayers g k d
            (SameLayers-trans (make_dirty-SameLayers true _ w e) (notify_groups-SameLayers _ w)))
    ]
  ]
    where
      stays : is_nil s.writable_data.values ≡ true → t ≡ s
      stays e = ground arith

      emitted :
          (w : Settings V)
          → is_nil s.writable_data.values ≡ false
          → make_dirty true (uncovered s) ≡ some w
          → t ≡ notify_groups s.writable_data.values w
      emitted w full e = ground arith

  remove_group_cases :
      (group : String) (s t : Settings V)
      → remove_group group s ≡ some t
      → ((find group s.writable_data.values ≡ none) × (t ≡ s))
        ⊎ SameLayers
            (record s {
              writable_data = record (s.writable_data) {
                values = erase group s.writable_data.values;
              };
            })
            t
  unfolding remove_group
  remove_group_cases group s t h = elim (Option-cases (find group s.writable_data.values)) [
    | inl gone ↦ inl (gone, ground arith)
    | inr (hash, held) ↦ elim (Option-cases (make_dirty true without)) [
      | inl e ↦ absurd (ground arith)
      | inr (w, e) ↦ inr (
          rw (emitted w hash held e) (
            SameLayers-trans (make_dirty-SameLayers true _ w e)
              (notify_group-SameLayers group hash w)))
    ]
  ]
    where
      without : Settings V
      without = record s {
        writable_data = record (s.writable_data) { values = erase group s.writable_data.values };
      }

      emitted :
          (w : Settings V) (hash : Hash (Variant V))
          → find group s.writable_data.values ≡ some hash
          → make_dirty true without ≡ some w
          → t ≡ notify_group group hash w
      emitted w hash held e = ground arith

  -- After `removeGroup` the entries of the group read as the fallback and default layers have them,
  -- and every other entry reads as before.
  pub value-remove_group :
      (group : String) (s t : Settings V) (g k : String) (d : Variant V)
      → remove_group group s ≡ some t
      → value t g k d ≡ (if group == g then value (uncovered s) g k d else value s g k d)
  value-remove_group group s t g k d h = elim (remove_group_cases group s t h) [
    | inl (gone, same) ↦ rw same (missing_group gone)
    | inr layers ↦
        value-of_SameLayers g k d layers
        ∙ value-layered _ g k d
        ∙ rw (data_value_of_erased s.writable_data group g k, value-layered s g k d)
            (layered_if (group == g) _ s g k d)
  ]
    where
      missing_group :
          find group s.writable_data.values ≡ none
          → value s g k d ≡ (if group == g then value (uncovered s) g k d else value s g k d)
      missing_group gone = elim (Bool-cases (group == g)) [
        | inl hit ↦
            rw hit (value_of_none s g k d (data_value_of_gone s.writable_data group g k gone hit))
        | inr miss ↦ rw miss
      ]
