-- ===== src/Tables/Fstab.antt =====
-- encrypt/encryptworker.cpp: `PrencryptWorker::setFstabTimeout`, on the contents of /etc/fstab.
use dde_file_manager_extensi.Prelude.{
  String, Bool, true, false, not, ◌==◌, ◌||◌, ◌&&◌, Option, none, some, List, [], ◌∷◌, map, ◌<>◌,
  has_text, split, join, fields, is_newline, if◌then◌else◌,
}

abbrev pub timeout_param : String
timeout_param = "x-systemd.device-timeout=0"

-- One line of six items. `found` is set once a line was changed; the loop changes no line after it.
unfoldable pub set_timeout : String → String → Bool → List String → List String × Bool
set_timeout desc uuid found (a ∷ b ∷ c ∷ d ∷ e ∷ f ∷ []) =
    if (a == desc || a == uuid) && not found && not (has_text d timeout_param)
    then (a ∷ b ∷ c ∷ (d <> ("," <> timeout_param)) ∷ e ∷ f ∷ [], true)
    else (a ∷ b ∷ c ∷ d ∷ e ∷ f ∷ [], found)
set_timeout desc uuid found items = (items, found)

unfoldable pub set_timeouts :
    String → String → Bool → List (List String) → List (List String) × Bool
set_timeouts desc uuid found [] = ([], found)
set_timeouts desc uuid found (items ∷ table) =
    let (items', found') = set_timeout desc uuid found items in
    let (table', found'') = set_timeouts desc uuid found' table in (items' ∷ table', found'')

unfoldable pub new_contents : List (List String) → String
new_contents [] = ""
new_contents (items ∷ table) = join "\t" items <> ("\n" <> new_contents table)

-- The contents to write, if a line was changed.
unfoldable pub fstab_with_timeout : String → String → String → Option String
fstab_with_timeout desc uuid contents =
    let (table, found) = set_timeouts desc uuid false (map fields (split is_newline contents)) in
    if found then some (new_contents table) else none
