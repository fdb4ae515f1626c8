-- ===== src/DiskEncrypt/Functions.antt =====
-- encrypt/diskencrypt.cpp: every function keeps what its calls keep outside and inside of its handle.
use dde_file_manager_extensi.Prelude.{
  ℤ, is_neg, is_empty, String, Bool, refl, Option, none, some, arith, Bool-cases, inl, inr,
}
use dde_file_manager_extensi.DiskEncrypt.{EncryptParams}
use dde_file_manager_extensi.DiskEncrypt.Calls.{Env, World, no_more, inits_data}
use dde_file_manager_extensi.DiskEncrypt.Keyslots.{
  change_passphrase, change_passphrase_by_rec_key, get_token, set_token, set_label,
  dev_encrypt_status,
}
use dde_file_manager_extensi.DiskEncrypt.Device.{validate_params}
use dde_file_manager_extensi.DiskEncrypt.Header.{
  prepare_header_file, setup_with, do_setup_header, init_header_file, init_header_device,
}
use dde_file_manager_extensi.DiskEncrypt.Reencrypt.{
  backup_crypt_header, backup_file, end_decrypt, decrypt_device, end_resume, resume_reencrypt,
}
use dde_file_manager_extensi.DiskEncrypt.Keeps.{Keeps, Brackets, with_handle-Keeps}
use dde_file_manager_extensi.DiskEncrypt.Bodies.{
  change_passphrase_body-Keeps, change_passphrase_by_rec_key_body-Keeps, get_token_body-Keeps,
  set_token_body-Keeps, set_label_body-Keeps, dev_encrypt_status_body-Keeps, setup_body-Keeps,
  restore_body-Keeps, backup_body-Keeps, decrypt_body-Keeps, resume_body-Keeps, undo_setup-Keeps,
  drop_file-Keeps, shrink_file_system-Keeps, prepare_header_file-Keeps, validate_params-Keeps,
}

no_more-Keeps : (I : World → Type 0) (ret : ℤ) → Keeps I (no_more ret)
no_more-Keeps I ret = record { kept = λ w h. h }

module _ (env : Env) (I J : World → Type 0) (brackets : Brackets I J) where
  pub change_passphrase-Keeps : (device a b : String) → Keeps I (change_passphrase env device a b)
  unfolding change_passphrase
  change_passphrase-Keeps device a b =
      with_handle-Keeps env I J brackets _ _ _ _ refl
        (change_passphrase_body-Keeps env J brackets.inside a b) (no_more-Keeps I)

  pub change_passphrase_by_rec_key-Keeps :
      (device a b : String) → Keeps I (change_passphrase_by_rec_key env device a b)
  unfolding change_passphrase_by_rec_key
  change_passphrase_by_rec_key-Keeps device a b =
      with_handle-Keeps env I J brackets _ _ _ _ refl
        (change_passphrase_by_rec_key_body-Keeps env J brackets.inside a b) (no_more-Keeps I)

  pub get_token-Keeps : (device : String) → Keeps I (get_token env device)
  unfolding get_token
  get_token-Keeps device =
      with_handle-Keeps env I J brackets _ _ _ _ refl (get_token_body-Keeps env J brackets.inside)
        (no_more-Keeps I)

  pub set_token-Keeps : (device token : String) → Keeps I (set_token env device token)
  unfolding set_token
  set_token-Keeps device token = record {
    kept = λ w h. elim (Bool-cases (is_empty token)) [
      | inl k ↦ rw k h
      | inr k ↦ rw k (
          (with_handle-Keeps env I J brackets _ _ _ _ refl
              (set_token_body-Keeps env J brackets.inside token) (no_more-Keeps I)).kept
            w h)
    ];
  }

  pub set_label-Keeps : (device label : String) → Keeps I (set_label env device label)
  unfolding set_label
  set_label-Keeps device label =
      with_handle-Keeps env I J brackets _ _ _ _ refl
        (set_label_body-Keeps env J brackets.inside label) (no_more-Keeps I)

  pub dev_encrypt_status-Keeps : (device : String) → Keeps I (dev_encrypt_status env device)
  unfolding dev_encrypt_status
  dev_encrypt_status-Keeps device =
      with_handle-Keeps env I J brackets _ _ _ _ refl
        (dev_encrypt_status_body-Keeps env J brackets.inside) (no_more-Keeps I)

  setup_with-Keeps :
      (params : EncryptParams) (r : (ℤ × Option String) × World)
      → I r.1
      → I (setup_with env params r).1
  unfolding setup_with
  setup_with-Keeps params ((ret, none), w) h = h
  setup_with-Keeps params ((ret, some path), w) h =
      (with_handle-Keeps env I J brackets _ _ _ _ refl
          (setup_body-Keeps env J brackets.inside params path)
          (undo_setup-Keeps env I brackets.outside params.device path)).kept
        _ ((shrink_file_system-Keeps env I brackets.outside params.device).kept w h)

  pub do_setup_header-Keeps : (params : EncryptParams) → Keeps I (do_setup_header env params)
  unfolding do_setup_header
  do_setup_header-Keeps params = record {
    kept = λ w h.
        setup_with-Keeps params (prepare_header_file env params.device w)
          ((prepare_header_file-Keeps env I brackets.outside params.device).kept w h);
  }

  pub init_header_file-Keeps : (params : EncryptParams) → Keeps I (init_header_file env params)
  unfolding init_header_file
  init_header_file-Keeps params = record {
    kept = λ w h.
        let w1 = (validate_params env params w).1 in
        ground (
          arith,
          (validate_params-Keeps env I brackets.outside params).kept w h,
          (do_setup_header-Keeps params).kept w1,
        );
  }

  pub init_header_device-Keeps :
      (device path : String) → Keeps I (init_header_device env device path)
  unfolding init_header_device
  init_header_device-Keeps device path =
      with_handle-Keeps env I J brackets _ _ _ _ refl
        (restore_body-Keeps env J brackets.inside path)
        (drop_file-Keeps env I brackets.outside path)

  pub backup_crypt_header-Keeps : (device : String) → Keeps I (backup_crypt_header env device)
  unfolding backup_crypt_header
  backup_crypt_header-Keeps device =
      with_handle-Keeps env I J brackets _ _ _ _ refl
        (backup_body-Keeps env J brackets.inside device) (no_more-Keeps I)

  pub end_decrypt-Keeps : (device : String) (ret : ℤ) → Keeps I (end_decrypt env device ret)
  unfolding end_decrypt
  end_decrypt-Keeps device ret = record {
    kept = λ w h.
        brackets.globals _ _ _
          ((drop_file-Keeps env I brackets.outside (backup_file device) ret).kept w h);
  }

  pub decrypt_device-Keeps :
      (device passphrase : String) → Keeps I (decrypt_device env device passphrase)
  unfolding decrypt_device
  decrypt_device-Keeps device passphrase = record {
    kept = λ w h.
        let start = record w { decrypting_device = device } in
        let backup = (backup_crypt_header env device start).0 in
        let h1 = (backup_crypt_header-Keeps device).kept start (brackets.globals _ _ w h) in
        elim (Bool-cases (is_neg backup.result)) [
          | inl k ↦ rw k ((end_decrypt-Keeps device backup.result).kept _ h1)
          | inr k ↦ rw k (
              (with_handle-Keeps env I J brackets _ (inits_data (backup_file device) device) _ _
                  refl (decrypt_body-Keeps env J brackets.inside device passphrase)
                  (end_decrypt-Keeps device)).kept
                _ h1)
        ];
  }

  end_resume-Keeps : (ret : ℤ) → Keeps I (end_resume env ret)
  unfolding end_resume
  end_resume-Keeps ret = record { kept = λ w h. brackets.globals _ _ w h }

  pub resume_reencrypt-Keeps :
      (device passphrase clear_dev : String) (expand_fs : Bool)
      → Keeps I (resume_reencrypt env device passphrase clear_dev expand_fs)
  unfolding resume_reencrypt
  resume_reencrypt-Keeps device passphrase clear_dev expand_fs = record {
    kept = λ w h.
        (with_handle-Keeps env I J brackets _ _ _ _ refl
            (resume_body-Keeps env J brackets.inside device passphrase clear_dev expand_fs)
            end_resume-Keeps).kept
          _ (brackets.globals _ _ w h);
  }
