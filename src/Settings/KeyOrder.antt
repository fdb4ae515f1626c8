-- ===== src/Settings/KeyOrder.antt =====
-- settings.cpp: `keyList` lists the keys of the three layers, each once.
use dde_file_manager_extensi.Prelude.{
  String, true, false, ◌==◌, ◌≡◌, refl, ◌∙◌, List, [], ◌∷◌, ◌++◌, ◌||◌, Hash, find, has_key,
  keys_of, is_empty, eq_iff, eq_refl, arith, if◌then◌else◌, Bool-cases, inl, inr,
}
use dde_file_manager_extensi.Settings.{Variants, Settings, group_of, contains}
use dde_file_manager_extensi.Settings.Keys.{
  has, add, drop_key, add_all, keys, take_key, take_ordered, key_list,
}

-- No text twice.
abbrev pub IsUnique : List String → Type 0
IsUnique [] = Unit
IsUnique (k ∷ ks) = (has k ks ≡ false) × IsUnique ks

has-append : (k : String) (xs ys : List String) → has k (xs ++ ys) ≡ (has k xs || has k ys)
unfolding has
has-append k [] ys = refl
has-append k (x ∷ xs) ys = ground (arith, has-append k xs ys)

has-add_all : (k : String) (ms ks : List String) → has k (add_all ms ks) ≡ (has k ms || has k ks)
unfolding has add_all add
has-add_all k [] ks = refl
has-add_all k (m ∷ ms) ks = has-add_all k ms (add m ks) ∙ ground (arith, eq_iff m k)

has-drop_key :
    (j k : String) (ks : List String) → has k (drop_key j ks) ≡ (if j == k then false else has k ks)
unfolding has drop_key
has-drop_key j k [] = ground arith
has-drop_key j k (x ∷ xs) = ground (arith, has-drop_key j k xs, eq_iff x j, eq_iff x k, eq_iff j k)

has-keys_of {ℓ} : {A : Type ℓ} (k : String) (m : Hash A) → has k (keys_of m) ≡ has_key k m
unfolding has find
has-keys_of k [] = refl
has-keys_of k ((j, a) ∷ m) = ground (arith, has-keys_of k m)

add_all-IsUnique : (ms ks : List String) → IsUnique ks → IsUnique (add_all ms ks)
unfolding add_all add
add_all-IsUnique [] ks h = h
add_all-IsUnique (m ∷ ms) ks h = add_all-IsUnique ms _ (ground arith)

drop_key-IsUnique : (j : String) (ks : List String) → IsUnique ks → IsUnique (drop_key j ks)
unfolding drop_key
drop_key-IsUnique j [] h = tt
drop_key-IsUnique j (x ∷ xs) (fresh, h) = elim (Bool-cases (x == j)) [
  | inl same ↦ rw same (drop_key-IsUnique j xs h)
  | inr other ↦ rw other (still_fresh, drop_key-IsUnique j xs h)
]
  where
    still_fresh : has x (drop_key j xs) ≡ false
    still_fresh = has-drop_key j x xs ∙ ground (arith, eq_iff j x)

-- Moving a key from the second list to the end of the first keeps the two together without repetition.
move-IsUnique :
    (k : String) (xs ys : List String)
    → IsUnique (xs ++ ys)
    → has k ys ≡ true
    → IsUnique ((xs ++ k ∷ []) ++ drop_key k ys)
move-IsUnique k [] ys h held = (has-drop_key k k ys ∙ rw (eq_refl k), drop_key-IsUnique k ys h)
move-IsUnique k (x ∷ xs) ys (fresh, h) held =
    (fresh_after k x xs ys fresh held, move-IsUnique k xs ys h held)
  where
    fresh_after :
        (k x : String) (xs ys : List String)
        → has x (xs ++ ys) ≡ false
        → has k ys ≡ true
        → has x ((xs ++ k ∷ []) ++ drop_key k ys) ≡ false
    fresh_after k x xs ys fresh held =
        unfold has in
        ground (
          arith,
          has-append x xs ys,
          has-append x xs (k ∷ []),
          has-append x (xs ++ k ∷ []) (drop_key k ys),
          has-drop_key k x ys,
          eq_iff k x,
        )

abbrev joined : List String × List String → List String
joined p = p.0 ++ p.1

take_key-IsUnique :
    (k : String) (p : List String × List String)
    → IsUnique (joined p)
    → IsUnique (joined (take_key k p))
unfolding take_key
take_key-IsUnique k (xs, ys) h = elim (Bool-cases (has k ys)) [
  | inl held ↦ rw (held, IsUnique) (move-IsUnique k xs ys h held)
  | inr missing ↦ rw (missing, IsUnique) h
]

take_ordered-IsUnique :
    (order : List String) (p : List String × List String)
    → IsUnique (joined p)
    → IsUnique (joined (take_ordered order p))
unfolding take_ordered
take_ordered-IsUnique [] p h = h
take_ordered-IsUnique (k ∷ more) p h =
    take_ordered-IsUnique more (take_key k p) (take_key-IsUnique k p h)

has-move :
    (k j : String) (xs ys : List String)
    → has j ys ≡ true
    → has k ((xs ++ j ∷ []) ++ drop_key j ys) ≡ has k (xs ++ ys)
unfolding has
has-move k j xs ys held = ground (
  arith,
  has-append k xs ys,
  has-append k xs (j ∷ []),
  has-append k (xs ++ j ∷ []) (drop_key j ys),
  has-drop_key j k ys,
  eq_iff j k,
)

has-take_key :
    (k j : String) (p : List String × List String)
    → has k (joined (take_key j p)) ≡ has k (joined p)
unfolding take_key
has-take_key k j (xs, ys) = elim (Bool-cases (has j ys)) [
  | inl held ↦ rw (held, has) (has-move k j xs ys held)
  | inr missing ↦ rw (missing, has)
]

has-take_ordered :
    (k : String) (order : List String) (p : List String × List String)
    → has k (joined (take_ordered order p)) ≡ has k (joined p)
unfolding take_ordered
has-take_ordered k [] p = refl
has-take_ordered k (j ∷ more) p = has-take_ordered k more (take_key j p) ∙ has-take_key k j p

module _ {V : Type 0} where
  keys-IsUnique : (s : Settings V) (g : String) → IsUnique (keys s g)
  unfolding keys
  keys-IsUnique s g = add_all-IsUnique _ _ (add_all-IsUnique _ _ (add_all-IsUnique _ [] tt))

  has-keys :
      (s : Settings V) (g k : String) → is_empty k ≡ false → has k (keys s g) ≡ contains s g k
  unfolding keys contains has
  has-keys s g k named = ground (
    arith,
    has-add_all k (keys_of (group_of g s.default_data.values)) (
        add_all (keys_of (group_of g s.fallback_data.values))
          (add_all (keys_of (group_of g s.writable_data.values)) [])),
    has-add_all k (keys_of (group_of g s.fallback_data.values))
        (add_all (keys_of (group_of g s.writable_data.values)) []),
    has-add_all k (keys_of (group_of g s.writable_data.values)) [],
    has-keys_of k (group_of g s.default_data.values),
    has-keys_of k (group_of g s.fallback_data.values),
    has-keys_of k (group_of g s.writable_data.values),
  )

module _ {V : Type 0} ⦃q : Variants V⦄ where
  -- The ordered key list of a group has no key twice, and a key that is not empty is on it exactly if
  -- `contains` finds the key in one of the three layers. So the recorded orders change the order only.
  pub key_list_complete :
      (s : Settings V) (g k : String)
      → is_empty k ≡ false
      → IsUnique (key_list s g) × (has k (key_list s g) ≡ contains s g k)
  unfolding key_list
  key_list_complete s g k named = (
    take_ordered-IsUnique _ _
        (take_ordered-IsUnique _ _ (take_ordered-IsUnique _ ([], keys s g) (keys-IsUnique s g))),
    has-take_ordered k _ _
        ∙ has-take_ordered k _ _
        ∙ has-take_ordered k _ ([], keys s g)
        ∙ has-keys s g k named,
  )
