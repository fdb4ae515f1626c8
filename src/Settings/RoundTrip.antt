-- ===== src/Settings/RoundTrip.antt =====
-- settings.cpp: `reload` after `sync` gives back the values that were written.
use Prim.Native.String.{len}
use text.Mathlib.TextPositions.{slice_all}
use dde_file_manager_extensi.Prelude.{
  ℕ, String, true, false, ◌==◌, ◌≡◌, ◌≢◌, refl, ◌∙◌, ap, Option, none, some, [], ◌∷◌, Hash, find,
  insert, value_or, find-insert, IsDistinct, All, eq_iff, arith, if◌then◌else◌, Option-cases,
  Bool-cases, inl, inr, is_empty, num_eq, eq_refl,
}
use dde_file_manager_extensi.Settings.{
  Variant, Variants, object, contents, Data, group_of, data_value, empty_data, make_dirty,
}
use dde_file_manager_extensi.Settings.Json.{
  is_private, load_hash, store_group, load_groups, load_document, to_json, from_json_file,
}
use dde_file_manager_extensi.Settings.File.{written, Session, sync, reload}
use dde_file_manager_extensi.Settings.Tidy.{IsTidy, All-find}

-- The groups as the entries of a parsed root object.
unfoldable pub wrap {ℓ} : {A : Type ℓ} → Hash A → Hash (Option A)
wrap [] = []
wrap ((k, a) ∷ m) = (k, some a) ∷ wrap m

module _ {V : Type 0} where
  find-load_hash :
      (k : String) (acc m : Hash (Variant V))
      → IsDistinct m
      → find k (load_hash acc m) ≡ (elim (find k m) [ some v ↦ some v | none ↦ find k acc ])
  unfolding load_hash find
  find-load_hash k acc [] h = refl
  find-load_hash k acc ((j, v) ∷ m) (fresh, h) =
      find-load_hash k (insert j v acc) m h ∙ ground (arith, find-insert j k v acc, eq_iff j k)

  find-store_group :
      (group g : String) (hash : Hash (Variant V)) (d : Data V)
      → is_private group ≡ false
      → find g (store_group group hash d).values
        ≡ (if group == g then some hash else find g d.values)
  unfolding store_group
  find-store_group group g hash d h = rw h (find-insert group g hash d.values)

  find-load_groups :
      (g : String) (m : Hash (Hash (Variant V))) (d : Data V)
      → IsDistinct m
      → All (λ e. is_private e.0 ≡ false) m
      → find g (load_groups (wrap m) d).values
        ≡ (elim (find g m) [ some h ↦ some (load_hash [] h) | none ↦ find g d.values ])
  unfolding load_groups wrap find
  find-load_groups g [] d h shown = refl
  find-load_groups g ((j, hash) ∷ m) d (fresh, h) (here, more) =
      find-load_groups g m (store_group j (load_hash [] hash) d) h more
      ∙ ground (arith, find-store_group j g (load_hash [] hash) d here, eq_iff j g)

  -- A tidy layer without private groups comes back from its own document.
  data_value-load_groups :
      (g k : String) (m : Hash (Hash (Variant V))) (d : Data V)
      → IsTidy m
      → All (λ e. is_private e.0 ≡ false) m
      → d.values ≡ []
      → data_value (load_groups (wrap m) d) g k ≡ value_or k (group_of g m) none
  unfolding data_value find
  data_value-load_groups g k m d (distinct, tidy) shown empty = elim (Option-cases (find g m)) [
    | inl gone ↦ ground (arith, find-load_groups g m d distinct shown)
    | inr (hash, held) ↦ ground (
      arith,
      find-load_groups g m d distinct shown,
      find-load_hash k [] hash (All-find IsDistinct g hash m held tidy),
    )
  ]

module _ {V : Type 0} ⦃q : Variants V⦄ where
  -- What `sync` leaves on the disk when it succeeds over unsaved changes.
  disk-sync :
      (n : ℕ) (x y : Session V)
      → x.dirty ≡ true
      → sync (written n) x ≡ some (true, y)
      → (y.setting_file ≡ x.setting_file)
        × (y.disk y.setting_file ≡ contents (to_json x.writable_data))
        × (y.writable_data ≡ x.writable_data)
        × (y.dirty ≡ false)
  unfolding sync make_dirty
  disk-sync n x y unsaved h = elim (Bool-cases (num_eq n (len (to_json x.writable_data)))) [
    | inl full ↦ (
      ground arith,
      ground (arith, eq_refl x.setting_file, slice_all (to_json x.writable_data)),
      ground arith,
      ground arith,
    )
    | inr short ↦ absurd (ground arith)
  ]

  -- A successful `sync` over unsaved changes followed by `reload` gives back every entry of the
  -- writable layer, and leaves nothing unsaved. The layer holds no group or key twice and no private
  -- group, and Qt parses its JSON document, which is not empty, as the object that was written.
  pub reload-sync :
      (n : ℕ) (x y : Session V) (g k : String)
      → IsTidy x.writable_data.values
      → All (λ e. is_private e.0 ≡ false) x.writable_data.values
      → to_json x.writable_data ≢ ""
      → q.from_json (to_json x.writable_data) ≡ object (wrap x.writable_data.values)
      → x.dirty ≡ true
      → sync (written n) x ≡ some (true, y)
      → (data_value (reload y).writable_data g k ≡ data_value x.writable_data g k)
        × ((reload y).dirty ≡ false)
  reload-sync n x y g k tidy shown nonempty parsed unsaved h =
      let (file, disk, same, clean) = disk-sync n x y unsaved h in
      (reloaded disk, unfold reload in clean)
    where
      some_text : is_empty (to_json x.writable_data) ≡ false
      some_text = ground (arith, eq_iff (to_json x.writable_data) "")

      loaded :
          y.disk y.setting_file ≡ contents (to_json x.writable_data)
          → (reload y).writable_data ≡ load_groups (wrap x.writable_data.values) empty_data
      loaded disk = unfold reload from_json_file load_document in rw disk (rw (some_text, parsed))

      reloaded :
          y.disk y.setting_file ≡ contents (to_json x.writable_data)
          → data_value (reload y).writable_data g k ≡ data_value x.writable_data g k
      reloaded disk =
          ap (λ d. data_value d g k) (loaded disk)
          ∙ data_value-load_groups g k x.writable_data.values empty_data tidy shown refl
          ∙ unfold data_value in refl
