-- ===== src/DiskEncrypt/Globals.antt =====
-- encrypt/diskencrypt.cpp: the globals that name the device of a progress report.
use dde_file_manager_extensi.Prelude.{ℕ, is_neg, String, Bool, ◌≡◌, refl, Bool-cases, inl, inr, ap}
use dde_file_manager_extensi.DiskEncrypt.Calls.{Env, World, inits_data, call, with_handle}
use dde_file_manager_extensi.DiskEncrypt.Reencrypt.{
  end_resume, resume_reencrypt, encrypt_progress, decrypt_progress,
}
use dde_file_manager_extensi.DiskEncrypt.Keeps.{Allows}
use dde_file_manager_extensi.DiskEncrypt.Bodies.{resume_body-Keeps}

allows-name : (device : String) → Allows (λ w. w.reencrypting_device ≡ device)
allows-name device c q a w h = h

module _ (env : Env) (device passphrase clear_dev : String) (expand_fs : Bool) (w : World) where
  after_resume : World
  after_resume = (resume_reencrypt env device passphrase clear_dev expand_fs w).1

  resume_reencrypt-names :
      (after_resume.reencrypting_device ≡ device) × (after_resume.decrypting_device ≡ "")
  unfolding after_resume resume_reencrypt with_handle end_resume call
  resume_reencrypt-names =
      let start = record w { reencrypting_device = device } in
      elim (Bool-cases (is_neg (env.code w.events (inits_data device device)))) [
        | inl k ↦ rw k (refl, refl)
        | inr k ↦ rw k (
          (resume_body-Keeps env _ (allows-name device) device passphrase clear_dev expand_fs).kept
              (call env (inits_data device device) start).1 refl,
          refl,
        )
      ]

  -- The clean-up of `bcResumeReencrypt` clears the wrong name. After it, a report of an encryption's
  -- progress still names the device that was resumed, and a report of a decryption's progress names no
  -- device, also where a decryption was running before.
  pub resume_reencrypt-progress :
      (size offset : ℕ)
      → (encrypt_progress size offset
            (resume_reencrypt env device passphrase clear_dev expand_fs w).1
          ≡ (device, offset, size))
        × (decrypt_progress size offset
              (resume_reencrypt env device passphrase clear_dev expand_fs w).1
            ≡ ("", offset, size))
  unfolding encrypt_progress decrypt_progress after_resume
  resume_reencrypt-progress size offset = (
    ap (λ name. (name, offset, size)) resume_reencrypt-names.0,
    ap (λ name. (name, offset, size)) resume_reencrypt-names.1,
  )
