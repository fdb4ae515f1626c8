-- ===== src/Cooperation/MenuLaws.antt =====
-- menu/cooperationmenuscene.cpp: what the menu entry does, and how often it is put into a menu.
use dde_file_manager_extensi.Prelude.{
  ℕ, String, Bool, true, false, not, ◌||◌, ◌==◌, eq_refl, ◌≡◌, refl, ap, ◌∙◌, Option, none, some,
  List, [], ◌∷◌, Hash, find, insert, if◌then◌else◌, map, arith, find-insert, Bool-cases,
  Option-cases, inl, inr,
}
use dde_file_manager_extensi.Cooperation.Menu.{
  Url, Action, Scene, Base, file_transfer, new_scene, initialize, create, transfer_action, without,
  put_first, is_own, extend_send_to, update_state, arguments, triggered,
}

-- The scene from its making to the moment where one of its actions is triggered.
abbrev pub opened : Base → List Url → Bool → ℕ → List Action → Scene
opened base files area fresh actions =
    let s = (initialize base files area new_scene).1 in
    let s' = (create base fresh (some actions) s).2 in (update_state actions s').1

initialize_scene :
    (base : Base) (files : List Url) (area : Bool) (s : Scene)
    → (initialize base files area s).1 ≡ record s { select_files = files; is_empty_area = area }
unfolding initialize
initialize_scene base files area s = ground arith

triggered-created :
    (base : Base) (files : List Url) (area : Bool) (fresh : ℕ) (actions : List Action)
    → triggered base "file-transfer"
        (update_state actions
          (create base fresh
            (some actions)
            (record new_scene { select_files = files; is_empty_area = area })).2).1
      ≡ (if area
          then base.triggered
          else base.start_detached "dde-cooperation-transfer" (arguments files))
unfolding triggered create update_state new_scene transfer_action insert find
triggered-created base files true fresh actions = refl
triggered-created base files false fresh actions = refl

-- The menu entry starts the transfer program with the local paths of all selected files, in their
-- order; in the menu of an empty area there is no such entry, and the base class answers.
pub triggered-opened :
    (base : Base) (files : List Url) (area : Bool) (fresh : ℕ) (actions : List Action)
    → triggered base "file-transfer" (opened base files area fresh actions) ≡ (
        if area
        then base.triggered
        else base.start_detached "dde-cooperation-transfer"
            ("-s" ∷ map (λ url. url.to_local_file) files))
unfolding arguments
triggered-opened base files area fresh actions =
    ap
      (λ s.
        triggered base "file-transfer"
          (update_state actions (create base fresh (some actions) s).2).1)
      (initialize_scene base files area new_scene)
    ∙ triggered-created base files area fresh actions

without_idem : (a : ℕ) (subs : List ℕ) → without a (without a subs) ≡ without a subs
unfolding without
without_idem a [] = refl
without_idem a (b ∷ rest) = ground (arith, without_idem a rest)

put_first_idem :
    (own : Option ℕ) (subs : List ℕ) → put_first own (put_first own subs) ≡ put_first own subs
unfolding put_first without
put_first_idem none subs = refl
put_first_idem (some a) subs = ground (arith, without_idem a subs)

extend_send_to_idem :
    (own : Option ℕ) (actions : List Action)
    → extend_send_to own (extend_send_to own actions) ≡ extend_send_to own actions
unfolding extend_send_to is_own
extend_send_to_idem own [] = refl
extend_send_to_idem own (act ∷ rest) =
    elim (Bool-cases (is_own own act.id || act.is_separator || not (act.action_id == "send-to"))) [
      | inl other ↦ rw other (rw other (ap (λ l. act ∷ l) (extend_send_to_idem own rest)))
      | inr target ↦ elim (Option-cases act.menu) [
        | inl e ↦ simp (target, e, extend_send_to_idem own rest)
        | inr (subs, e) ↦ rw (target, e) (rw target (rw (put_first_idem own subs) refl))
      ]
    ]

find-insert_self : {V : Type 0} (k : String) (v : V) (m : Hash V) → find k (insert k v m) ≡ some v
find-insert_self k v m = simp (find-insert, eq_refl)

transfer_action_idem :
    (s : Scene)
    → (transfer_action (transfer_action s).1 ≡ transfer_action s)
      × ((transfer_action s).1.is_empty_area ≡ s.is_empty_area)
unfolding transfer_action
transfer_action_idem s = ground (arith, find-insert_self file_transfer none s.predicate_action)

-- Where the menu is updated twice, nothing changes the second time.
pub update_state_idem :
    (actions : List Action) (s : Scene)
    → let (shown, s') = update_state actions s in update_state shown s' ≡ (shown, s')
unfolding update_state
update_state_idem actions s =
    ground (arith, transfer_action_idem s, extend_send_to_idem (transfer_action s).0 actions)
