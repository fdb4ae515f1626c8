-- ===== src/Settings/Timer.antt =====
-- settings.cpp: the sync timer is there when it is used, but for one call.
use dde_file_manager_extensi.Prelude.{
  String, Bool, true, false, ◌≡◌, refl, sym, Option, none, some, [], ◌∷◌, Hash, arith, is_some,
  or_else, bool_eq, if◌then◌else◌, Option-cases, inl, inr, find, erase,
}
use dde_file_manager_extensi.Settings.{Variant, Variants, Settings, make_dirty, data_value}
use dde_file_manager_extensi.Settings.Edit.{
  set_value, set_value_no_notify, write_value, remove, remove_group, clear, notify_removed,
  notify_group, notify_groups, erase_value,
}

module _ {V : Type 0} where
  -- The timer exists exactly while the automatic sync is on.
  abbrev pub HasTimer : Settings V → Type 0
  HasTimer s = is_some s.sync_timer ≡ s.auto_sync

-- The step does not fault, and its result satisfies the predicate.
pub data Returns {ℓ} {A : Type ℓ} (P : A → Type 0) : Option A → Type ℓ where
  returned : (a : A) → P a → Returns P (some a)

pub Returns_lem {ℓ} :
    {A : Type ℓ} {P : A → Type 0} {m : Option A} → Returns P m → (a : A) × (m ≡ some a) × P a
Returns_lem (returned a h) = (a, refl, h)

pub Returns-intro {ℓ} :
    {A : Type ℓ} {P : A → Type 0} (m : Option A) (d : A)
    → is_some m ≡ true
    → P (or_else m d)
    → Returns P m
Returns-intro none d e h = absurd (cc)
Returns-intro (some a) d e h = returned a h

Returns-if {ℓ} :
    {A : Type ℓ} (P : A → Type 0) (b : Bool) (m n : Option A)
    → (b ≡ true → Returns P m)
    → (b ≡ false → Returns P n)
    → Returns P (if b then m else n)
Returns-if P true m n hm hn = hm refl
Returns-if P false m n hm hn = hn refl

module _ {V : Type 0} where
  pub make_dirty-Returns :
      (b : Bool) (s : Settings V) → HasTimer s → Returns HasTimer (make_dirty b s)
  unfolding make_dirty
  make_dirty-Returns b s h =
      Returns-if HasTimer (bool_eq s.dirty b) (some s) rest (λ same. returned s h)
        λ other. Returns-if HasTimer s.auto_sync started plain timer (λ off. returned _ h)
    where
      plain : Option (Settings V)
      plain = some (record s { dirty = b })

      started : Option (Settings V)
      started = elim s.sync_timer [
        | none ↦ none
        | some _ ↦ some (record s { dirty = b; sync_timer = some b })
      ]

      rest : Option (Settings V)
      rest = if s.auto_sync then started else plain

      timer : s.auto_sync ≡ true → Returns HasTimer started
      timer on = elim (Option-cases s.sync_timer) [
        | inl e ↦ cc
        | inr (t, e) ↦ rw e (returned _ (sym on))
      ]

module _ {V : Type 0} ⦃q : Variants V⦄ where
  write_value-Returns :
      (g k : String) (v : Variant V) (s : Settings V)
      → HasTimer s
      → Returns HasTimer (write_value g k v s)
  unfolding write_value
  write_value-Returns g k v s h = make_dirty-Returns true _ h

  notify_removed-HasTimer :
      (g k : String) (v : Variant V) (s : Settings V)
      → HasTimer s
      → HasTimer (notify_removed g k v s)
  unfolding notify_removed
  notify_removed-HasTimer g k v s h = ground arith

  notify_group-HasTimer :
      (g : String) (m : Hash (Variant V)) (s : Settings V)
      → HasTimer s
      → HasTimer (notify_group g m s)
  unfolding notify_group
  notify_group-HasTimer g [] s h = h
  notify_group-HasTimer g ((k, v) ∷ m) s h =
      notify_group-HasTimer g m _ (notify_removed-HasTimer g k v s h)

  notify_groups-HasTimer :
      (m : Hash (Hash (Variant V))) (s : Settings V) → HasTimer s → HasTimer (notify_groups m s)
  unfolding notify_groups
  notify_groups-HasTimer [] s h = h
  notify_groups-HasTimer ((g, hash) ∷ m) s h =
      notify_groups-HasTimer m _ (notify_group-HasTimer g hash s h)

  pub set_value-Returns :
      (g k : String) (v : Variant V) (s : Settings V)
      → HasTimer s
      → Returns HasTimer (set_value g k v s)
  unfolding set_value set_value_no_notify
  set_value-Returns g k v s h =
      let (w, e, hw) = Returns_lem (write_value-Returns g k v s h) in
      Returns-intro _ s (ground arith) (ground arith)

  pub remove-Returns :
      (g k : String) (s : Settings V) → HasTimer s → Returns HasTimer (remove g k s)
  unfolding remove
  remove-Returns g k s h =
      let (w, e, hw) = Returns_lem (
        make_dirty-Returns true (record s { writable_data = erase_value g k s.writable_data }) h) in
      let kept = notify_removed-HasTimer g k (data_value s.writable_data g k) w hw in
      Returns-intro _ s (ground arith) (ground arith)

  pub clear-Returns : (s : Settings V) → HasTimer s → Returns HasTimer (clear s)
  unfolding clear
  clear-Returns s h =
      let (w, e, hw) = Returns_lem (
        make_dirty-Returns true
          (record s { writable_data = record (s.writable_data) { values = [] } }) h) in
      let kept = notify_groups-HasTimer s.writable_data.values w hw in
      Returns-intro _ s (ground arith) (ground arith)

  pub remove_group-Returns :
      (g : String) (s : Settings V) → HasTimer s → Returns HasTimer (remove_group g s)
  unfolding remove_group
  remove_group-Returns g s h =
      let (w, e, hw) = Returns_lem (
        make_dirty-Returns true
          (record s {
            writable_data = record (s.writable_data) { values = erase g s.writable_data.values };
          })
          h) in
      let kept = λ (hash : Hash (Variant V)). notify_group-HasTimer g hash w hw in
      elim (Option-cases (find g s.writable_data.values)) [
        | inl gone ↦ Returns-intro _ s (ground arith) (ground arith)
        | inr (hash, held) ↦ Returns-intro _ s (ground arith) (ground (arith, kept hash))
      ]
