-- ===== src/Settings/Keys.antt =====
-- settings.cpp: `groups`, `keys`, and the ordered key list of a group.
use dde_file_manager_extensi.Prelude.{
  String, Bool, true, false, ◌==◌, none, some, List, [], ◌∷◌, ◌++◌, Hash, value_or, keys_of,
  if◌then◌else◌,
}
use dde_file_manager_extensi.Settings.{Variant, Variants, Data, Settings, group_of}

-- `QSet<QString>` as a list without repetition.
unfoldable pub has : String → List String → Bool
has k [] = false
has k (j ∷ ks) = if j == k then true else has k ks

unfoldable pub add : String → List String → List String
add k ks = if has k ks then ks else k ∷ ks

unfoldable pub drop_key : String → List String → List String
drop_key k [] = []
drop_key k (j ∷ ks) = let rest = drop_key k ks in if j == k then rest else j ∷ rest

-- The loops that insert the keys of a hash.
unfoldable pub add_all : List String → List String → List String
add_all [] ks = ks
add_all (k ∷ more) ks = add_all more (add k ks)

-- One round of a loop of `keyList`: a listed key that is there moves to the end of the list.
unfoldable pub take_key : String → List String × List String → List String × List String
take_key k (listed, ks) = if has k ks then (listed ++ k ∷ [], drop_key k ks) else (listed, ks)

-- One of the three loops of `keyList`.
unfoldable pub take_ordered : List String → List String × List String → List String × List String
take_ordered [] p = p
take_ordered (k ∷ more) p = take_ordered more (take_key k p)

module _ {V : Type 0} where
  unfoldable pub groups : Settings V → List String
  groups s =
      add_all (keys_of s.default_data.values)
        (add_all (keys_of s.fallback_data.values) (add_all (keys_of s.writable_data.values) []))

  unfoldable pub keys : Settings V → String → List String
  keys s group = add_all (keys_of (group_of group s.default_data.values)) (
      add_all (keys_of (group_of group s.fallback_data.values))
        (add_all (keys_of (group_of group s.writable_data.values)) []))

module _ {V : Type 0} ⦃q : Variants V⦄ where
  abbrev map_of : Variant V → Hash (Variant V)
  map_of none = []
  map_of (some v) = q.to_map v

  abbrev string_list_of : Variant V → List String
  string_list_of none = []
  string_list_of (some v) = q.to_string_list v

  unfoldable pub group_meta_data : Data V → String → Hash (Variant V)
  group_meta_data d group = map_of (value_or group (group_of "__metadata__" d.private_values) none)

  unfoldable pub group_key_ordered_list : Data V → String → List String
  group_key_ordered_list d group =
      string_list_of (value_or "keyOrdered" (group_meta_data d group) none)

  unfoldable pub key_list : Settings V → String → List String
  key_list s group =
      let p = take_ordered (group_key_ordered_list s.default_data group) ([], keys s group) in
      let p' = take_ordered (group_key_ordered_list s.fallback_data group) p in
      let p'' = take_ordered (group_key_ordered_list s.writable_data group) p' in p''.0 ++ p''.1
