-- ===== src/Entry/WizardInputs.antt =====
-- What the wizard hands out.
use dde_file_manager_extensi.Prelude.{
  ℕ, zero, suc, String, ◌≡◌, ◌≢◌, ◌⊎◌, refl, true, false, Option, none, some, inl, inr, arith, pos,
  is_zero,
}
use dde_file_manager_extensi.Entry.Password.{
  SecKeyType, password_only, tpm_and_pin, tpm_only, valid, validate_password,
}
use dde_file_manager_extensi.Entry.PasswordRules.{IsNewKey, validate_password_lem}
use dde_file_manager_extensi.Entry.Unlock.{shown, accepted}
use dde_file_manager_extensi.Entry.Wizard.{
  password_input_page, export_key_page, confirm_page, is_password_page, Machine, DeviceEncryptParam,
  ExportAlert, Wizard, new_wizard, validate_export_path, is_usable, on_exp_path_changed,
  on_page_changed, pin_of, encrypt_by_tpm, uses_tpm, on_password_page, on_export_page,
  on_confirm_page, on_button_clicked, get_inputs, Running, opened, chooses, types_keys, types_path,
  clicks_first, clicks_next, closes,
}

module _ (m : Machine) (params : DeviceEncryptParam) where
  -- The key that was typed is one that the dialog takes.
  abbrev KeyTaken : Wizard → Type 0
  KeyTaken w = validate_password (m.is_space) true (w.enc_type) (w.key_edit1) (w.key_edit2) ≡ valid

  abbrev Usable : Wizard → Type 0
  Usable w = validate_export_path m params (w.key_export_input) ≡ none

  abbrev Sealed : Wizard → Type 0
  Sealed w = m.gen_passphrase (params.dev_desc) (pin_of m w) ≡ (pos 0, w.tpm_password)

  record Sound (w : Wizard) : Type 0 where
    pub same_params : w.params ≡ params
    pub taken : params.init_only ≡ false → is_password_page (w.page) ≡ false → KeyTaken w
    pub next : w.page ≡ export_key_page → w.next_enabled ≡ true → Usable w
    pub exported : w.page ≡ confirm_page → m.export_key_enabled ≡ true → Usable w
    pub confirmed : w.result ≡ accepted → w.page ≡ confirm_page
    pub sealed :
        w.result ≡ accepted → params.init_only ≡ false → uses_tpm m (w.enc_type) ≡ true → Sealed w
    pub allowed : uses_tpm m (w.enc_type) ≡ true → is_zero (m.tpm_code) ≡ true

  new_wizard-Sound : Sound (new_wizard m params)
  unfolding new_wizard
  new_wizard-Sound = ground arith

  is_usable-none : (o : Option ExportAlert) → is_usable m o ≡ true → o ≡ none
  is_usable-none none h = refl
  is_usable-none (some a) h = ground arith

  types_path-Sound :
      (w : Wizard) (s : String)
      → Sound w
      → w.result ≡ shown
      → w.page ≡ export_key_page
      → Sound (on_exp_path_changed m s false (record w { key_export_input = s }))
  unfolding on_exp_path_changed
  types_path-Sound w s h r p =
      rw (p, h.same_params) (ground (arith, h, is_usable-none (validate_export_path m params s)))

  on_password_page-Sound :
      (w : Wizard)
      → Sound w
      → w.result ≡ shown
      → w.page ≡ password_input_page
      → Sound (on_password_page m w)
  unfolding on_password_page on_page_changed on_exp_path_changed
  on_password_page-Sound w h r p =
      rw (p, h.same_params)
        (ground (arith, h, is_usable-none (validate_export_path m params (w.key_export_input))))

  on_confirm_page-Sound :
      (w : Wizard)
      → Sound w
      → w.result ≡ shown
      → w.page ≡ confirm_page
      → Sound (on_confirm_page m w)
  unfolding on_confirm_page encrypt_by_tpm
  on_confirm_page-Sound w h r p = ground (arith, h)

  on_export_page-Sound :
      (w : Wizard) (n : ℕ)
      → Sound w
      → w.result ≡ shown
      → w.page ≡ export_key_page
      → (n ≡ 1 → w.next_enabled ≡ true)
      → Sound (on_export_page m n w)
  unfolding on_export_page on_page_changed
  on_export_page-Sound w zero h r p e = ground (arith, h)
  on_export_page-Sound w (suc zero) h r p e = ground (arith, h)
  on_export_page-Sound w (suc (suc n)) h r p e = h

  page_cases :
      (w : Wizard)
      → (w.page ≡ password_input_page) ⊎ ((w.page ≡ export_key_page) ⊎ (w.page ≡ confirm_page))
  page_cases w = ground arith

  clicks_first-Sound : (w : Wizard) → Sound w → w.result ≡ shown → Sound (on_button_clicked m 0 w)
  unfolding on_button_clicked
  clicks_first-Sound w h r = elim (page_cases w) [
    | inl p ↦ rw (on_button_clicked, p) (on_password_page-Sound w h r p)
    | inr (inl p) ↦ rw (on_button_clicked, p) (on_export_page-Sound w 0 h r p (ground arith))
    | inr (inr p) ↦ rw (on_button_clicked, p) (on_confirm_page-Sound w h r p)
  ]

  clicks_next-Sound :
      (w : Wizard)
      → Sound w
      → w.result ≡ shown
      → w.page ≡ export_key_page
      → w.next_enabled ≡ true
      → Sound (on_button_clicked m 1 w)
  unfolding on_button_clicked
  clicks_next-Sound w h r p e = rw (on_button_clicked, p) (on_export_page-Sound w 1 h r p (λ i. e))

  Running-Sound : (w : Wizard) → Running m params w → Sound w
  Running-Sound _ opened = new_wizard-Sound
  Running-Sound _ (chooses {w} t u r p a) = ground (arith, Running-Sound w u)
  Running-Sound _ (types_keys {w} s t u r p) = ground (arith, Running-Sound w u)
  Running-Sound _ (types_path {w} s u r p) = types_path-Sound w s (Running-Sound w u) r p
  Running-Sound _ (clicks_first {w} u r) = clicks_first-Sound w (Running-Sound w u) r
  Running-Sound _ (clicks_next {w} u r p e) = clicks_next-Sound w (Running-Sound w u) r p e
  Running-Sound _ (closes {w} u r) = ground (arith, Running-Sound w u)

  -- What the wizard's inputs are good for, where it did not only prepare the device: a passphrase is
  -- a key that was typed twice and is strong, and a key for the TPM is the one that the TPM has
  -- sealed with success, with the PIN that was typed or with none.
  abbrev pub IsGood : Wizard → DeviceEncryptParam → Type 0
  IsGood w inputs =
      ((inputs.type ≡ password_only) × IsNewKey (m.is_space) (inputs.key) (w.key_edit2))
      ⊎ ((m.gen_passphrase (params.dev_desc) (pin_of m w) ≡ (pos 0, inputs.key))
          × ((inputs.type ≡ tpm_only)
              ⊎ ((inputs.type ≡ tpm_and_pin) × IsNewKey (m.is_space) (pin_of m w) (w.key_edit2))))

  type_cases : (t : SecKeyType) → (t ≡ password_only) ⊎ ((t ≡ tpm_and_pin) ⊎ (t ≡ tpm_only))
  type_cases password_only = inl refl
  type_cases tpm_and_pin = inr (inl refl)
  type_cases tpm_only = inr (inr refl)

  typed_key :
      (w : Wizard)
      → w.enc_type ≢ tpm_only
      → (w.enc_type ≡ tpm_only) ⊎ IsNewKey (m.is_space) (w.key_edit1) (w.key_edit2)
      → IsNewKey (m.is_space) (w.key_edit1) (w.key_edit2)
  typed_key w n (inl e) = absurd (n e)
  typed_key w n (inr k) = k

  typed-IsGood :
      (w : Wizard)
      → KeyTaken w
      → (uses_tpm m (w.enc_type) ≡ true → Sealed w)
      → IsGood w (get_inputs m w).1
  unfolding get_inputs
  typed-IsGood w t s =
      let k =
        (validate_password_lem (m.is_space) true (w.enc_type) (w.key_edit1) (w.key_edit2)).0 t in
      elim (type_cases (w.enc_type)) [
        | inl e ↦ inl (e, rw e (typed_key w (ground (arith, e)) k.1))
        | inr (inl e) ↦
            let q = s (ground (arith, e)) in
            inr (rw e (rw e at q), inr (e, rw e (typed_key w (ground (arith, e)) k.1)))
        | inr (inr e) ↦ let q = s (ground (arith, e)) in inr (rw e (rw e at q), inl e)
      ]

  -- However the wizard was used, once it is accepted its inputs are good, unless the device was to be
  -- prepared only; where recovery keys are exported, the path is one that can be used; and a type
  -- that needs the TPM is chosen only where the TPM is available.
  pub get_inputs-IsGood :
      (w : Wizard)
      → Running m params w
      → w.result ≡ accepted
      → (params.init_only ≡ false → IsGood w (get_inputs m w).1)
        × ((m.export_key_enabled ≡ true
              → validate_export_path m params ((get_inputs m w).1.export_path) ≡ none)
            × (uses_tpm m ((get_inputs m w).1.type) ≡ true → is_zero (m.tpm_code) ≡ true))
  unfolding get_inputs
  get_inputs-IsGood w u h =
      let s = Running-Sound w u in
      let c = s.confirmed h in
      (
        λ i. typed-IsGood w (s.taken i (ground (arith, c))) (s.sealed h i),
        (s.exported c, s.allowed),
      )
