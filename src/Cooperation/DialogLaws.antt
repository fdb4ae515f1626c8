-- ===== src/Cooperation/DialogLaws.antt =====
-- dialogs/filetransfersettingsdialog.cpp: the combo box and the stored mode.
use dde_file_manager_extensi.Prelude.{
  ℕ, pos, ◌≤◌, String, true, false, ◌==◌, ◌≡◌, sym, ap, subst, ◌∙◌, none, some, List, [], ◌∷◌, ltb,
  find, has_key, arith, Option-cases, inl, inr,
}
use dde_file_manager_extensi.Settings.{Variant, Variants, value, data_value}
use dde_file_manager_extensi.Settings.Edit.{set_value}
use dde_file_manager_extensi.Settings.Layers.{value-set_value_self}
use dde_file_manager_extensi.Cooperation.AppConfig.{app_attribute, set_app_attribute}
use dde_file_manager_extensi.Cooperation.Config.{DConfig, default_cfg_path}
use dde_file_manager_extensi.Cooperation.ConfigLaws.{value-set_value, has_key-set_value}
use dde_file_manager_extensi.Cooperation.Dialog.{
  Dialog, Toolkit, Stores, Use, shows, picks, chooses, mode_key, on_com_box_value_changed,
  set_current_index, clamp_mode, stored_mode, load_config, on_file_choosered, on_button_clicked,
  act, act_all, set_text, stored_path, attribute_group, storage_path,
}

some_inj {ℓ} : {A : Type ℓ} {a b : A} → some a ≡ some b → a ≡ b
some_inj e = cc

module _ {C V : Type 0} ⦃q : Variants V⦄ (dc : DConfig C V) (qt : Toolkit V)
    (writes_back : (c : C) (v : V) (d : Variant V)
      → dc.read (dc.write c "cooperation.transfer.mode" (some v)) "cooperation.transfer.mode" d
        ≡ some v)
    (ints : (n : ℕ) → qt.to_int (some (qt.of_int n)) ≡ pos n) where
  -- The configuration of the cooperation is there.
  abbrev IsRegistered : Stores C V → Type 0
  IsRegistered s = has_key default_cfg_path s.manager.configs ≡ true

  abbrev Agrees : Dialog × Stores C V → Type 0
  Agrees p = IsRegistered p.1 × (p.0.index ≡ stored_mode dc qt p.1)

  clamp_small : (i : ℕ) → ltb i 3 ≡ true → clamp_mode (pos i) ≡ i
  unfolding clamp_mode
  clamp_small i h = ground arith

  stored_mode_small : (s : Stores C V) → ltb (stored_mode dc qt s) 3 ≡ true
  unfolding stored_mode clamp_mode
  stored_mode_small s = ground arith

  written_mode :
      (i : ℕ) (s : Stores C V)
      → ltb i 3 ≡ true
      → IsRegistered s
      → IsRegistered (on_com_box_value_changed dc qt i s)
        × (stored_mode dc qt (on_com_box_value_changed dc qt i s) ≡ i)
  unfolding on_com_box_value_changed stored_mode
  written_mode i s h r = elim (Option-cases (find default_cfg_path s.manager.configs)) [
    | inl e ↦ absurd (ground arith)
    | inr (c, e) ↦ (
      has_key-set_value dc default_cfg_path mode_key default_cfg_path _ s.manager ∙ r,
      rw (value-set_value dc default_cfg_path mode_key mode_key _ s.manager _ c e)
          (rw writes_back (rw ints (clamp_small i h))),
    )
  ]

  set_current_index-Agrees :
      (i : ℕ) (p : Dialog × Stores C V)
      → ltb i 3 ≡ true
      → Agrees p
      → Agrees (set_current_index dc qt i p)
  unfolding set_current_index
  set_current_index-Agrees i p h (r, a) = ground (arith, written_mode i p.1 h r)

  -- The app's settings are no part of it.
  load_config-Agrees : (p : Dialog × Stores C V) → IsRegistered p.1 → Agrees (load_config dc qt p)
  unfolding load_config set_current_index
  load_config-Agrees p r =
      ground (arith, written_mode (stored_mode dc qt p.1) p.1 (stored_mode_small p.1) r)

  on_file_choosered-manager :
      (dir : String) (s t : Stores C V)
      → on_file_choosered dc qt dir s ≡ some t
      → t.manager ≡ s.manager
  unfolding on_file_choosered
  on_file_choosered-manager dir s t e = ground arith

  on_button_clicked-Agrees :
      (dir : String) (p p' : Dialog × Stores C V)
      → on_button_clicked dc qt dir p ≡ some p'
      → Agrees p
      → Agrees p'
  unfolding on_button_clicked stored_mode
  on_button_clicked-Agrees dir p p' e (r, a) =
      elim (Option-cases (on_file_choosered dc qt dir p.1)) [
        | inl none_left ↦ ground arith
        | inr (s, left) ↦ ground (arith, on_file_choosered-manager dir p.1 s left)
      ]

  act-Agrees :
      (u : Use) (p p' : Dialog × Stores C V) → act dc qt u p ≡ some p' → Agrees p → Agrees p'
  unfolding act
  act-Agrees shows p p' e (r, a) = subst (λ x. Agrees x) (some_inj e) (load_config-Agrees p r)
  act-Agrees (picks i h) p p' e a =
      subst (λ x. Agrees x) (some_inj e) (set_current_index-Agrees i p h a)
  act-Agrees (chooses dir) p p' e a = on_button_clicked-Agrees dir p p' e a

  act_all-Agrees :
      (us : List Use) (p p' : Dialog × Stores C V)
      → act_all dc qt us p ≡ some p'
      → Agrees p
      → Agrees p'
  unfolding act_all
  act_all-Agrees [] p p' e a = subst (λ x. Agrees x) (some_inj e) a
  act_all-Agrees (u ∷ us) p p' e a = elim (Option-cases (act dc qt u p)) [
    | inl stuck ↦ ground arith
    | inr (x, moved) ↦ act_all-Agrees us x p' (rw moved at e) (act-Agrees u p x moved a)
  ]

  load_config-index :
      (p : Dialog × Stores C V) → (load_config dc qt p).0.index ≡ stored_mode dc qt p.1
  unfolding load_config set_current_index
  load_config-index p = ground arith

  -- Once the dialog has been shown, its combo box stands on the stored mode, cut to the three modes that
  -- there are, whatever was stored before and whatever the user does then; so a dialog that is shown
  -- later stands where this one stands. The configuration of the cooperation is there and reads back
  -- what was written, and the integer of a number is the number.
  pub shown_mode :
      (us : List Use) (p p' : Dialog × Stores C V) (d : Dialog)
      → IsRegistered p.1
      → act_all dc qt (shows ∷ us) p ≡ some p'
      → (p'.0.index ≤ 2)
        × (p'.0.index ≡ stored_mode dc qt p'.1)
        × ((load_config dc qt (d, p'.1)).0.index ≡ p'.0.index)
  unfolding act_all act
  shown_mode us p p' d r e =
      let a = act_all-Agrees us (load_config dc qt p) p' e (load_config-Agrees p r) in
      (ground (arith, stored_mode_small p'.1), a.1, load_config-index (d, p'.1) ∙ sym a.1)

module _ {C V : Type 0} ⦃q : Variants V⦄ (dc : DConfig C V) (qt : Toolkit V) where
  load_config-label :
      (p : Dialog × Stores C V)
      → (load_config dc qt p).0.chooser.label ≡ qt.elided (stored_path dc qt p.1)
  unfolding load_config set_text stored_path set_current_index on_com_box_value_changed
  load_config-label p = ground arith

  stored_path_lem :
      (dir : String) (t : Stores C V) (w : V)
      → value t.app.settings attribute_group storage_path none ≡ some w
      → qt.to_text w ≡ dir
      → stored_path dc qt t ≡ dir
  unfolding stored_path app_attribute
  stored_path_lem dir t w e same = rw (stored_path, e) same

  -- What the chooser's slot leaves in the settings.
  clicked_settings :
      (dir : String) (p p' : Dialog × Stores C V)
      → (dir == "") ≡ false
      → on_button_clicked dc qt dir p ≡ some p'
      → set_value attribute_group storage_path (some (qt.of_text dir)) p.1.app.settings
        ≡ some p'.1.app.settings
  unfolding on_button_clicked on_file_choosered set_app_attribute
  clicked_settings dir p p' given e =
      elim (Option-cases
        (set_value attribute_group storage_path (some (qt.of_text dir)) p.1.app.settings)) [
          | inl stuck ↦ ground arith
          | inr (t, left) ↦ ground arith
        ]

  -- A directory that was chosen is stored: every dialog that is shown next has it on its label, elided.
  -- A text reads back from its variant, and so does what stood there before, where it counts as equal to
  -- the new one.
  pub chosen_path :
      (dir : String) (p p' : Dialog × Stores C V) (d : Dialog)
      → (dir == "") ≡ false
      → qt.to_text (qt.of_text dir) ≡ dir
      → ((w : V)
          → data_value p.1.app.writable_data attribute_group storage_path ≡ some w
          → q.beq w (qt.of_text dir) ≡ true
          → qt.to_text w ≡ dir)
      → on_button_clicked dc qt dir p ≡ some p'
      → (load_config dc qt (d, p'.1)).0.chooser.label ≡ qt.elided dir
  chosen_path dir p p' d given reads plain e =
      let (w, now, from) =
        value-set_value_self attribute_group storage_path (qt.of_text dir) p.1.app.settings
          p'.1.app.settings none (clicked_settings dir p p' given e) in
      load_config-label (d, p'.1)
      ∙ ap qt.elided (
          stored_path_lem dir p'.1 w now
            (elim from [ inl same ↦ rw same reads | inr (held, equal) ↦ plain w held equal ]))
