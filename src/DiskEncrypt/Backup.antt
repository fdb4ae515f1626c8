-- ===== src/DiskEncrypt/Backup.antt =====
-- encrypt/diskencrypt.cpp: `bcDecryptDevice` backs the header up before it rewrites the device.
use dde_file_manager_extensi.Prelude.{
  ℤ, is_neg, String, Bool, true, false, ◌==◌, ◌&&◌, ◌||◌, not, ◌≡◌, refl, List, [], ◌∷◌, arith,
  Bool-cases, inl, inr, eq_refl,
}
use dde_file_manager_extensi.DiskEncrypt.{fail}
use dde_file_manager_extensi.DiskEncrypt.Calls.{
  Env, World, Event, Call, reencrypts, backs_up_header, call, checked, with_handle, inits,
  inits_data,
}
use dde_file_manager_extensi.DiskEncrypt.Header.{drop_file}
use dde_file_manager_extensi.DiskEncrypt.Reencrypt.{
  backup_file, backup_body, backup_crypt_header, end_decrypt, decrypt_device,
}
use dde_file_manager_extensi.DiskEncrypt.Keeps.{Allows, Brackets, with_handle-Keeps}
use dde_file_manager_extensi.DiskEncrypt.Bodies.{decrypt_body-Keeps}
use dde_file_manager_extensi.DiskEncrypt.Functions.{end_decrypt-Keeps}

abbrev is_reencrypting : Call → Bool
is_reencrypting reencrypts = true
is_reencrypting _ = false

abbrev is_backup : String → Call → Bool
is_backup file (backs_up_header f) = f == file
is_backup file _ = false

-- A header was backed up to the file, with success.
unfoldable pub backed_up : String → List Event → Bool
backed_up file [] = false
backed_up file ((c, a) ∷ es) = (is_backup file c && not (is_neg a)) || backed_up file es

-- Each time a device was rewritten, a backup was there.
unfoldable pub is_safe : String → List Event → Bool
is_safe file [] = true
is_safe file ((c, a) ∷ es) = (not (is_reencrypting c) || backed_up file es) && is_safe file es

abbrev BackedUp : String → World → Type 0
BackedUp file w = (backed_up file w.events ≡ true) × (is_safe file w.events ≡ true)

allows-BackedUp : (file : String) → Allows (BackedUp file)
unfolding backed_up is_safe
allows-BackedUp file c q a w h = ground arith

brackets-BackedUp : (file : String) → Brackets (BackedUp file) (BackedUp file)
unfolding backed_up is_safe
brackets-BackedUp file = record {
  outside = allows-BackedUp file;
  inside = allows-BackedUp file;
  opening = λ c q a k w h. ground arith;
  failing = λ c q a k w h. ground arith;
  closing = λ a w h. ground arith;
  globals = λ r d w h. h;
}

module _ (env : Env) where
  backup-safe :
      (device : String) (w : World)
      → is_safe (backup_file device) w.events ≡ true
      → is_safe (backup_file device) (backup_crypt_header env device w).1.events ≡ true
  unfolding backup_crypt_header with_handle backup_body checked call is_safe
  backup-safe device w h =
      let a = env.code w.events (inits device) in
      let b = env.code ((inits device, a) ∷ w.events) (backs_up_header (backup_file device)) in
      elim (Bool-cases (is_neg a)) [
        | inl k ↦ rw k h
        | inr k ↦ elim (Bool-cases (is_neg b)) [ inl l ↦ rw (k, l) h | inr l ↦ rw (k, l) h ]
      ]

  backup-backed_up :
      (device : String) (w : World)
      → is_neg (backup_crypt_header env device w).0.result ≡ false
      → backed_up (backup_file device) (backup_crypt_header env device w).1.events ≡ true
  unfolding backup_crypt_header with_handle backup_body checked call backed_up fail
  backup-backed_up device w h =
      let a = env.code w.events (inits device) in
      let b = env.code ((inits device, a) ∷ w.events) (backs_up_header (backup_file device)) in
      elim (Bool-cases (is_neg a)) [
        | inl k ↦ ground (arith, rw k at h)
        | inr k ↦ elim (Bool-cases (is_neg b)) [
          | inl l ↦ ground (arith, rw (k, l) at h)
          | inr l ↦ rw (k, l) (ground (arith, eq_refl (backup_file device)))
        ]
      ]

  end_decrypt-safe :
      (device : String) (ret : ℤ) (w : World)
      → is_safe (backup_file device) w.events ≡ true
      → is_safe (backup_file device) (end_decrypt env device ret w).1.events ≡ true
  unfolding end_decrypt drop_file call is_safe
  end_decrypt-safe device ret w h = ground arith

  -- A decryption rewrites the device only after the header has been backed up with success: whatever
  -- the calls answer, if that held of the run so far, it holds of the run after `bcDecryptDevice`.
  pub decrypt_device-is_safe :
      (device passphrase : String) (w : World)
      → is_safe (backup_file device) w.events ≡ true
      → is_safe (backup_file device) (decrypt_device env device passphrase w).1.events ≡ true
  unfolding decrypt_device
  decrypt_device-is_safe device passphrase w h =
      let start = record w { decrypting_device = device } in
      let (backup, w1) = backup_crypt_header env device start in
      let h1 = backup-safe device start h in
      let file = backup_file device in
      elim (Bool-cases (is_neg backup.result)) [
        | inl k ↦ rw k (end_decrypt-safe device backup.result w1 h1)
        | inr k ↦
            rw k
              ((with_handle-Keeps env (BackedUp file) (BackedUp file) (brackets-BackedUp file) _
                  (inits_data file device) _ _ refl
                  (decrypt_body-Keeps env (BackedUp file) (allows-BackedUp file) device passphrase)
                  (end_decrypt-Keeps env _ _ (brackets-BackedUp file) device)).kept
                w1 (backup-backed_up device start k, h1)).1
      ]
