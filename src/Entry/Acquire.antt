-- ===== src/Entry/Acquire.antt =====
-- `EventsHandler::onAcquireDevicePwd` of events/eventshandler.cpp. What the dialogs and the TPM
-- answer is a parameter: `unlock` is the dialog that unlocks a partition, opened for a type, `none`
-- where it was not accepted.
use dde_file_manager_extensi.Prelude.{
  ℕ, zero, suc, String, ◌≡◌, refl, ◌⊎◌, Bool, true, false, ◌&&◌, ◌||◌, not, Option, none, some, inl,
  inr, arith, Option-cases, num_eq, if◌then◌else◌, is_empty, ℤ, is_zero,
}
use dde_file_manager_extensi.Entry.Unlock.{UnlockType, pwd, pin, rec}

pub record Answers : Type 0 where
  pub enc_key_type : ℕ
  pub check_tpm : ℤ
  -- whether the dialog on the state of the TPM was left by its button
  pub confirmed : Bool
  pub unlock : UnlockType → Option (UnlockType × String)
  pub get_passphrase : String → String

-- The answer of the hook, and what `pwd` and `cancelled` point at afterwards.
pub record Acquired : Type 0 where
  pub handled : Bool
  pub passphrase : String
  pub cancelled : Bool

abbrev acquired : String → Bool → Acquired
acquired p c = record { handled = true; passphrase = p; cancelled = c }

module _ (answers : Answers) where
  -- The four functions set `cancelled` where the dialog was not accepted, and leave it else.
  unfoldable pub acquire_passphrase : Bool → Acquired
  acquire_passphrase cancelled = elim (answers.unlock pwd) [
    | none ↦ acquired "" true
    | some (type, key) ↦ acquired key cancelled
  ]

  unfoldable pub acquire_passphrase_by_pin : Bool → Acquired
  acquire_passphrase_by_pin cancelled = elim (answers.unlock pin) [
    | none ↦ acquired "" true
    | some (pin, key) ↦ acquired (answers.get_passphrase key) cancelled
    | some (pwd, key) ↦ acquired key cancelled
    | some (rec, key) ↦ acquired key cancelled
  ]

  unfoldable pub acquire_passphrase_by_tpm : Bool → Acquired
  acquire_passphrase_by_tpm cancelled = acquired (answers.get_passphrase "") cancelled

  unfoldable pub acquire_passphrase_by_rec : Bool → Acquired
  acquire_passphrase_by_rec cancelled = elim (answers.unlock rec) [
    | none ↦ acquired "" true
    | some (type, key) ↦ acquired key cancelled
  ]

  -- A passphrase that is empty without being cancelled is reported, and counts as cancelled.
  unfoldable pub reported : Acquired → Acquired
  reported a =
      if is_empty (a.passphrase) && not (a.cancelled) then record a { cancelled = true } else a

  unfoldable pub by_type : ℕ → String → Bool → Acquired
  by_type zero before cancelled = reported (acquire_passphrase cancelled)
  by_type (suc zero) before cancelled = reported (acquire_passphrase_by_pin cancelled)
  by_type (suc (suc zero)) before cancelled = reported (acquire_passphrase_by_tpm cancelled)
  by_type (suc (suc (suc n))) before cancelled = record {
    handled = false;
    passphrase = before;
    cancelled = cancelled;
  }

  -- The type of a device is 1 or 2 where it needs the TPM.
  unfoldable pub tests_tpm : Bool
  tests_tpm = num_eq (answers.enc_key_type) 1 || num_eq (answers.enc_key_type) 2

  -- From what `pwd` and `cancelled` point at before.
  unfoldable pub on_acquire_device_pwd : String → Bool → Acquired
  on_acquire_device_pwd before cancelled =
      if tests_tpm && not (is_zero (answers.check_tpm))
      then (if answers.confirmed
          then acquire_passphrase_by_rec cancelled
          else acquired before cancelled)
      else by_type (answers.enc_key_type) before cancelled

  -- The dialogs hand out no empty key.
  abbrev pub GivesKeys : Type 0
  GivesKeys =
      (t u : UnlockType) (key : String) → answers.unlock t ≡ some (u, key) → is_empty key ≡ false

  reported-cancelled :
      (a : Acquired) → is_empty ((reported a).passphrase) ≡ true → (reported a).cancelled ≡ true
  unfolding reported
  reported-cancelled a h = ground arith

  rec-cancelled :
      (cancelled : Bool)
      → GivesKeys
      → is_empty ((acquire_passphrase_by_rec cancelled).passphrase) ≡ true
      → (acquire_passphrase_by_rec cancelled).cancelled ≡ true
  unfolding acquire_passphrase_by_rec
  rec-cancelled cancelled g h = elim (Option-cases (answers.unlock rec)) [
    | inl n ↦ rw (acquire_passphrase_by_rec, n) refl
    | inr ((t, key), e) ↦ absurd (ground (arith, h, e, g rec t key e))
  ]

  by_type-cancelled :
      (n : ℕ) (before : String) (cancelled : Bool)
      → is_empty ((by_type n before cancelled).passphrase) ≡ true
      → ((by_type n before cancelled).cancelled ≡ true)
        ⊎ ((by_type n before cancelled).handled ≡ false)
  unfolding by_type
  by_type-cancelled zero before cancelled h =
      inl (reported-cancelled (acquire_passphrase cancelled) h)
  by_type-cancelled (suc zero) before cancelled h =
      inl (reported-cancelled (acquire_passphrase_by_pin cancelled) h)
  by_type-cancelled (suc (suc zero)) before cancelled h =
      inl (reported-cancelled (acquire_passphrase_by_tpm cancelled) h)
  by_type-cancelled (suc (suc (suc n))) before cancelled h = inr refl

  -- Where the passphrase of a device comes back empty it counts as cancelled, whatever the caller's
  -- variables held before, but for a device that needs a TPM that is not there, when the message that
  -- says so was closed and not confirmed; or the device is of no known type, and the hook does not
  -- answer. The dialog that unlocks a partition, where it is accepted, hands out no empty key.
  pub on_acquire_device_pwd_cancelled :
      (before : String) (cancelled : Bool)
      → GivesKeys
      → is_empty ((on_acquire_device_pwd before cancelled).passphrase) ≡ true
      → ((on_acquire_device_pwd before cancelled).cancelled ≡ true)
        ⊎ (((on_acquire_device_pwd before cancelled).handled ≡ false)
            ⊎ ((tests_tpm ≡ true)
                × ((is_zero (answers.check_tpm) ≡ false) × (answers.confirmed ≡ false))))
  unfolding on_acquire_device_pwd
  on_acquire_device_pwd_cancelled before cancelled g h = ground (
    arith,
    h,
    rec-cancelled cancelled g,
    by_type-cancelled (answers.enc_key_type) before cancelled,
  )
