-- ===== src/Settings/Edit.antt =====
-- settings.cpp: the operations that change the writable layer.
use dde_file_manager_extensi.Prelude.{
  String, Bool, true, false, not, Option, none, some, [], ◌∷◌, Hash, find, insert, erase, is_nil,
  if◌then◌else◌,
}
use dde_file_manager_extensi.Settings.{
  Variant, Variants, variant_eq, value_changed, Data, Settings, group_of, data_value, value,
  is_removable, make_dirty, emit,
}

infixl 5 ◌>>=◌
abbrev pub ◌>>=◌ {ℓ κ} : {A : Type ℓ} {B : Type κ} → Option A → (A → Option B) → Option B
none >>= f = none
some a >>= f = f a

module _ {V : Type 0} where
  -- `Data::setValue`
  unfoldable pub set_data_value : String → String → Variant V → Data V → Data V
  set_data_value group key v d = elim (find group d.values) [
    | none ↦ record d { values = insert group ((key, v) ∷ []) d.values }
    | some hash ↦ record d { values = insert group (insert key v hash) d.values }
  ]

  -- The key is taken from its group; the group stays, if need be empty.
  unfoldable pub erase_value : String → String → Data V → Data V
  erase_value group key d = record d {
    values = insert group (erase key (group_of group d.values)) d.values;
  }

module _ {V : Type 0} ⦃q : Variants V⦄ where
  unfoldable pub write_value : String → String → Variant V → Settings V → Option (Settings V)
  write_value group key v s =
      make_dirty true (record s { writable_data = set_data_value group key v s.writable_data })

  unfoldable pub set_value_no_notify :
      String → String → Variant V → Settings V → Option (Bool × Settings V)
  set_value_no_notify group key v s =
      if is_removable s group key
      then (if variant_eq (data_value s.writable_data group key) v
          then some (false, s)
          else (do s' ← write_value group key v s; some (true, s')))
      else (do s' ← write_value group key v s; some (not (variant_eq (value s group key v) v), s'))

  unfoldable pub set_value : String → String → Variant V → Settings V → Option (Settings V)
  unfolding set_value_no_notify
  set_value group key v s = do
    r ← set_value_no_notify group key v s
    some (if r.0 then emit (value_changed group key v) r.1 else r.1)

  -- One round of the loops of `removeGroup` and `clear`.
  unfoldable pub notify_removed : String → String → Variant V → Settings V → Settings V
  notify_removed group key old s =
      let now = value s group key none in
      if not (variant_eq now old) then emit (value_changed group key now) s else s

  unfoldable pub notify_group : String → Hash (Variant V) → Settings V → Settings V
  unfolding notify_removed
  notify_group group [] s = s
  notify_group group ((key, old) ∷ rest) s =
      notify_group group rest (notify_removed group key old s)

  unfoldable pub notify_groups : Hash (Hash (Variant V)) → Settings V → Settings V
  unfolding notify_group
  notify_groups [] s = s
  notify_groups ((group, hash) ∷ rest) s = notify_groups rest (notify_group group hash s)

  unfoldable pub remove_group : String → Settings V → Option (Settings V)
  remove_group group s = elim (find group s.writable_data.values) [
    | none ↦ some s
    | some hash ↦ do
      s' ← make_dirty true (record s {
        writable_data = record (s.writable_data) { values = erase group s.writable_data.values };
      })
      some (notify_group group hash s')
  ]

  unfoldable pub remove : String → String → Settings V → Option (Settings V)
  remove group key s = if not (is_removable s group key) then some s else (do
    s' ← make_dirty true (record s { writable_data = erase_value group key s.writable_data })
    some (notify_removed group key (data_value s.writable_data group key) s'))

  unfoldable pub clear : Settings V → Option (Settings V)
  clear s = if is_nil s.writable_data.values then some s else (do
    s' ← make_dirty true (record s { writable_data = record (s.writable_data) { values = [] } })
    some (notify_groups s.writable_data.values s'))
