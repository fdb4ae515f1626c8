-- ===== src/Cooperation/Menu.antt =====
-- menu/cooperationmenuscene.cpp: the menu entry that sends files. The base class of the scene, the
-- conversion of a URL and the start of a program are parameters.
use dde_file_manager_extensi.Prelude.{
  ℕ, String, Bool, true, false, not, ◌||◌, ◌==◌, Option, none, some, List, [], ◌∷◌, ◌++◌, Hash,
  find, insert, has_key, value_or, if◌then◌else◌, num_eq, map,
}

-- A `QUrl`, as far as it is asked: whether it is local, and `toLocalFile`.
pub record Url : Type 0 where
  pub is_local_file : Bool
  pub to_local_file : String

-- A `QAction` of a menu: its identity, the property ActionID, its text and the actions of its menu, if any.
pub record Action : Type 0 where
  pub id : ℕ
  pub action_id : String
  pub text : String
  pub is_separator : Bool
  pub visible : Bool
  pub menu : Option (List ℕ)

-- The private data of the scene. A null action is `none`.
pub record Scene : Type 0 where
  pub select_files : List Url
  pub is_empty_area : Bool
  pub predicate_action : Hash (Option ℕ)
  pub predicate_name : Hash String

-- `AbstractMenuScene` as the base class answers, and `QProcess::startDetached`.
pub record Base : Type 0 where
  pub initialize : Bool
  pub create : Bool
  pub triggered : Bool
  pub scene : Option String
  pub start_detached : String → List String → Bool

abbrev pub file_transfer : String
file_transfer = "file-transfer"

-- The constructor.
unfoldable pub new_scene : Scene
new_scene = record {
  select_files = [];
  is_empty_area = false;
  predicate_action = [];
  predicate_name = (file_transfer, "File transfer") ∷ [];
}

-- The condition of `initialize`, negated: the first selected file is local.
unfoldable pub starts_local : List Url → Bool
starts_local [] = false
starts_local (url ∷ more) = url.is_local_file

-- The parameters are the selected files and whether the menu is that of an empty area.
unfoldable pub initialize : Base → List Url → Bool → Scene → Bool × Scene
initialize base files area s =
    let s' = record s { select_files = files; is_empty_area = area } in
    if not (starts_local files) then (false, s') else (base.initialize, s')

-- `predicateAction.key(action)`: the first name of the action, or the empty one.
unfoldable pub key_of : ℕ → Hash (Option ℕ) → String
key_of a [] = ""
key_of a ((k, none) ∷ rest) = key_of a rest
key_of a ((k, some b) ∷ rest) = if num_eq a b then k else key_of a rest

-- The scene that answers for an action: this one by its name, or what the base class says.
unfoldable pub scene : Base → Option ℕ → Scene → Option String
scene base none s = none
scene base (some a) s =
    if not (key_of a s.predicate_action == "") then some "CooperationMenu" else base.scene

-- `parent->addAction` gives the action `fresh`.
unfoldable pub create :
    Base → ℕ → Option (List Action) → Scene → Bool × Option (List Action) × Scene
create base fresh none s = (false, none, s)
create base fresh (some actions) s =
    if not s.is_empty_area
    then (let act : Action = record {
      id = fresh;
      action_id = file_transfer;
      text = value_or file_transfer s.predicate_name "";
      is_separator = false;
      visible = true;
      menu = none;
    } in
        (
          base.create,
          some (actions ++ act ∷ []),
          record s { predicate_action = insert file_transfer (some fresh) s.predicate_action },
        ))
    else (base.create, some actions, s)

-- `predicateAction[kFileTransfer]`, which makes the entry where there is none.
unfoldable pub transfer_action : Scene → Option ℕ × Scene
transfer_action s = elim (find file_transfer s.predicate_action) [
  | none ↦ (none, record s { predicate_action = insert file_transfer none s.predicate_action })
  | some a ↦ (a, s)
]

unfoldable pub without : ℕ → List ℕ → List ℕ
without a [] = []
without a (b ∷ rest) = let more = without a rest in if num_eq a b then more else b ∷ more

-- `QWidget::addActions` of a list that holds the action of the scene in front of the menu's own ones:
-- each action is moved to the end, and a null one is left out.
unfoldable pub put_first : Option ℕ → List ℕ → List ℕ
put_first none subs = subs
put_first (some a) subs = a ∷ without a subs

unfoldable pub is_own : Option ℕ → ℕ → Bool
is_own none b = false
is_own (some a) b = num_eq a b

-- The loop of `updateState` over the actions of the menu, without the scene's own one.
unfoldable pub extend_send_to : Option ℕ → List Action → List Action
extend_send_to own [] = []
extend_send_to own (act ∷ rest) =
    let more = act ∷ extend_send_to own rest in
    if is_own own act.id || act.is_separator || not (act.action_id == "send-to")
    then more
    else (elim act.menu [
      | none ↦ more
      | some subs ↦ record act { menu = some (put_first own subs); visible = true } ∷ rest
    ])

unfoldable pub update_state : List Action → Scene → List Action × Scene
update_state actions s =
    if not s.is_empty_area
    then (let (own, s') = transfer_action s in (extend_send_to own actions, s'))
    else (actions, s)

-- The arguments of the program.
unfoldable pub arguments : List Url → List String
arguments files = "-s" ∷ map (λ url. url.to_local_file) files

unfoldable pub triggered : Base → String → Scene → Bool
unfolding arguments
triggered base action_id s =
    if not (has_key action_id s.predicate_action)
    then base.triggered
    else if action_id == file_transfer
    then base.start_detached "dde-cooperation-transfer" (arguments s.select_files)
    else true
