-- ===== src/Menus/Binding.antt =====
-- cooperationplugin.cpp and plugin_diskencryptentry.cpp: a scene that is bound at once or when its
-- parent is added is bound once.
use dde_file_manager_extensi.Prelude.{
  String, Bool, true, false, not, ◌||◌, ◌==◌, ◌≡◌, refl, List, [], ◌∷◌, if◌then◌else◌, ap, ◌∙◌,
  Bool-cases, inl, inr,
}
use dde_file_manager_extensi.Menus.{Menus, bind_scene, deliver, deliver_all}

-- The parent is among the scenes.
unfoldable pub is_among : String → List String → Bool
is_among parent [] = false
is_among parent (scene ∷ more) = scene == parent || is_among parent more

-- What is left where the parent was there, or not: bound once, and no longer or still subscribed.
unfoldable pub settled : String → String → Bool → Menus
settled name parent found = record {
  registered = name ∷ [];
  bound = if found then (name, parent) ∷ [] else [];
  subscribed = not found;
}

module _ (name parent : String) (slot : String → Menus → Menus)
    (slot_lem : (scene : String) (m : Menus)
      → slot scene m ≡ (
          if scene == parent
          then record (bind_scene name parent m) { subscribed = false }
          else m)) where
  deliver_all-bound :
      (scenes : List String)
      → deliver_all slot scenes (settled name parent true) ≡ settled name parent true
  unfolding deliver_all deliver settled
  deliver_all-bound [] = refl
  deliver_all-bound (scene ∷ more) = deliver_all-bound more

  pub deliver_all-settled :
      (found : Bool) (scenes : List String)
      → deliver_all slot scenes (settled name parent found)
        ≡ settled name parent (found || is_among parent scenes)
  unfolding deliver_all deliver settled is_among
  deliver_all-settled true scenes = deliver_all-bound scenes
  deliver_all-settled false [] = refl
  deliver_all-settled false (scene ∷ more) = elim (Bool-cases (scene == parent)) [
    | inl same ↦
        ap (deliver_all slot more) (slot_lem scene (settled name parent false) ∙ rw same refl)
        ∙ deliver_all-settled true more
        ∙ rw same refl
    | inr other ↦
        ap (deliver_all slot more) (slot_lem scene (settled name parent false) ∙ rw other refl)
        ∙ deliver_all-settled false more
        ∙ rw other refl
  ]
