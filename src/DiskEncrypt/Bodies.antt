-- ===== src/DiskEncrypt/Bodies.antt =====
-- encrypt/diskencrypt.cpp and fsresize/fsresize.cpp: what is done behind a handle, or without one,
-- opens and frees no handle.
use dde_file_manager_extensi.Prelude.{
  ℕ, zero, suc, ◌+◌, ℤ, String, Bool, true, false, refl, Option, none, some, arith,
}
use dde_file_manager_extensi.DiskEncrypt.{EncryptParams}
use dde_file_manager_extensi.DiskEncrypt.Calls.{
  Env, World, Action, checks_fs, shrinks_fs, expands_fs, stats_path, moves_image, accesses_path,
  opens_file, writes_file, loads_library, resolves_symbol, generates_key, unloads_library,
  gets_token, creates_file, allocates_file, removes_file, adds_keyslot_by_volume_key, call,
  call_output,
}
use dde_file_manager_extensi.DiskEncrypt.Resize.{
  shrink_file_system, expand_file_system, recovery_superblock,
}
use dde_file_manager_extensi.DiskEncrypt.Keyslots.{
  change_passphrase_body, change_passphrase_by_rec_key_body, get_token_body, find_token, tpm_token,
  first_token, set_token_body, set_label_body, dev_encrypt_status_body,
}
use dde_file_manager_extensi.DiskEncrypt.Device.{
  validate_params, gen_rec_key, exp_rec_file, rec_file_name,
}
use dde_file_manager_extensi.DiskEncrypt.Header.{
  prepare_header_file, header_file, add_recovery_key, fill_header, setup_body, undo_setup,
  restore_body, drop_file,
}
use dde_file_manager_extensi.DiskEncrypt.Reencrypt.{
  backup_body, decrypt_body, expand_body, resume_body,
}
use dde_file_manager_extensi.DiskEncrypt.Keeps.{
  Keeps, Allows, call-Keeps, call-step, output-step, checked-Keeps, lift-Keeps, reads-Keeps,
  return-Keeps, require-Keeps, bind-Keeps,
}

ruleset body_rules =
    (bind-Keeps, checked-Keeps, call-Keeps, lift-Keeps, reads-Keeps, require-Keeps, return-Keeps)

module _ (env : Env) (I : World → Type 0) (allows : Allows I) where
  pub shrink_file_system-Keeps : (device : String) → Keeps I (shrink_file_system env device)
  unfolding shrink_file_system
  shrink_file_system-Keeps device = record {
    kept = λ w h. ground (
      arith,
      call-step env I allows (checks_fs device) refl w h,
      call-step env I allows (shrinks_fs device) refl (call env (checks_fs device) w).1,
    );
  }

  pub expand_file_system-Keeps : (device : String) → Keeps I (expand_file_system env device)
  unfolding expand_file_system
  expand_file_system-Keeps device = record {
    kept = λ w h. ground (
      arith,
      call-step env I allows (checks_fs device) refl w h,
      call-step env I allows (expands_fs device) refl (call env (checks_fs device) w).1,
    );
  }

  pub recovery_superblock-Keeps :
      (device path : String) → Keeps I (recovery_superblock env device path)
  unfolding recovery_superblock
  recovery_superblock-Keeps device path = record {
    kept = λ w h.
        let ((found, size), w1) = call_output env (stats_path path) w in
        ground (
          arith,
          output-step env I allows (stats_path path) refl w h,
          call-step env I allows (moves_image device size) refl w1,
        );
  }

  pub gen_rec_key-Keeps : Keeps I (gen_rec_key env)
  unfolding gen_rec_key
  gen_rec_key-Keeps = record {
    kept = λ w h.
        let (a, w1) = call env loads_library w in
        let (b, w2) = call env resolves_symbol w1 in
        let (c, w3) = call_output env generates_key w2 in
        ground (
          arith,
          call-step env I allows loads_library refl w h,
          call-step env I allows resolves_symbol refl w1,
          output-step env I allows generates_key refl w2,
          call-step env I allows unloads_library refl w2,
          call-step env I allows unloads_library refl w3,
        );
  }

  pub exp_rec_file-Keeps : (device path : String) → Keeps I (exp_rec_file env device path)
  unfolding exp_rec_file
  exp_rec_file-Keeps device path = record {
    kept = λ w h.
        let (key, w1) = gen_rec_key env w in
        let file = rec_file_name path device in
        let w2 = (call env (opens_file file) w1).1 in
        ground (
          arith,
          gen_rec_key-Keeps.kept w h,
          call-step env I allows (opens_file file) refl w1,
          call-step env I allows (writes_file file key) refl w2,
        );
  }

  pub validate_params-Keeps : (params : EncryptParams) → Keeps I (validate_params env params)
  unfolding validate_params
  validate_params-Keeps params = record {
    kept = λ w h.
        let w1 = (call env (stats_path params.device) w).1 in
        ground (
          arith,
          call-step env I allows (stats_path params.device) refl w h,
          call-step env I allows (accesses_path params.recovery_path) refl w1,
        );
  }

  pub prepare_header_file-Keeps : (device : String) → Keeps I (prepare_header_file env device)
  unfolding prepare_header_file
  prepare_header_file-Keeps device = record {
    kept = λ w h.
        let path = header_file device in
        let w1 = (call env (creates_file path) w).1 in
        ground (
          arith,
          call-step env I allows (creates_file path) refl w h,
          call-step env I allows (allocates_file path) refl w1,
        );
  }

  pub add_recovery_key-Keeps : (key : String) → Keeps I (add_recovery_key env key)
  unfolding add_recovery_key
  add_recovery_key-Keeps key = record {
    kept = λ w h. ground (arith, call-step env I allows (adds_keyslot_by_volume_key key) refl w h);
  }

  pub undo_setup-Keeps : (device path : String) (ret : ℤ) → Keeps I (undo_setup env device path ret)
  unfolding undo_setup
  undo_setup-Keeps device path ret = record {
    kept = λ w h.
        let w1 = (call env (removes_file path) w).1 in
        ground (
          arith,
          call-step env I allows (removes_file path) refl w h,
          (expand_file_system-Keeps device).kept w1,
        );
  }

  pub drop_file-Keeps : (path : String) (ret : ℤ) → Keeps I (drop_file env path ret)
  unfolding drop_file
  drop_file-Keeps path ret = record {
    kept = λ w h. ground (arith, call-step env I allows (removes_file path) refl w h);
  }

  tpm_token-Keeps : (i : ℕ) → Keeps I (tpm_token env i)
  unfolding tpm_token
  tpm_token-Keeps i = record {
    kept = λ w h. ground (arith, output-step env I allows (gets_token i) refl w h);
  }

  first_token-Keeps :
      (r : Option String × World) (next : Action (Option String))
      → I r.1
      → Keeps I next
      → I (first_token env r next).1
  first_token-Keeps (none, w) next h k = k.kept w h
  first_token-Keeps (some json, w) next h k = h

  find_token-Keeps : (left i : ℕ) → Keeps I (find_token env left i)
  unfolding find_token
  find_token-Keeps zero i = record { kept = λ w h. h }
  find_token-Keeps (suc left) i = record {
    kept = λ w h.
        first_token-Keeps (tpm_token env i w) (find_token env left (i + 1))
          ((tpm_token-Keeps i).kept w h) (find_token-Keeps left (i + 1));
  }

  pub change_passphrase_body-Keeps : (a b : String) → Keeps I (change_passphrase_body env a b)
  unfolding change_passphrase_body
  change_passphrase_body-Keeps a b = search body_rules depth 14

  pub change_passphrase_by_rec_key_body-Keeps :
      (a b : String) → Keeps I (change_passphrase_by_rec_key_body env a b)
  unfolding change_passphrase_by_rec_key_body
  change_passphrase_by_rec_key_body-Keeps a b = search body_rules depth 14

  pub get_token_body-Keeps : Keeps I (get_token_body env)
  unfolding get_token_body
  get_token_body-Keeps = search (body_rules, find_token-Keeps) depth 14

  pub set_token_body-Keeps : (a : String) → Keeps I (set_token_body env a)
  unfolding set_token_body
  set_token_body-Keeps a = search body_rules depth 14

  pub set_label_body-Keeps : (a : String) → Keeps I (set_label_body env a)
  unfolding set_label_body
  set_label_body-Keeps a = search body_rules depth 14

  pub dev_encrypt_status_body-Keeps : Keeps I (dev_encrypt_status_body env)
  unfolding dev_encrypt_status_body
  dev_encrypt_status_body-Keeps = search body_rules depth 14

  pub fill_header-Keeps : (a : EncryptParams) (b : String) → Keeps I (fill_header env a b)
  unfolding fill_header
  fill_header-Keeps a b =
      search (body_rules, exp_rec_file-Keeps, add_recovery_key-Keeps, expand_file_system-Keeps)
        depth 14

  pub setup_body-Keeps : (a : EncryptParams) (b : String) → Keeps I (setup_body env a b)
  unfolding setup_body
  setup_body-Keeps a b = search (body_rules, fill_header-Keeps) depth 14

  pub restore_body-Keeps : (a : String) → Keeps I (restore_body env a)
  unfolding restore_body
  restore_body-Keeps a = search body_rules depth 14

  pub backup_body-Keeps : (a : String) → Keeps I (backup_body env a)
  unfolding backup_body
  backup_body-Keeps a = search body_rules depth 14

  pub decrypt_body-Keeps : (a b : String) → Keeps I (decrypt_body env a b)
  unfolding decrypt_body
  decrypt_body-Keeps a b = search (body_rules, recovery_superblock-Keeps) depth 14

  pub expand_body-Keeps : (a b : String) (ret : ℤ) → Keeps I (expand_body env a b ret)
  unfolding expand_body
  expand_body-Keeps a b ret = search (body_rules, expand_file_system-Keeps) depth 14

  pub resume_body-Keeps :
      (device passphrase clear_dev : String) (expand_fs : Bool)
      → Keeps I (resume_body env device passphrase clear_dev expand_fs)
  unfolding resume_body
  resume_body-Keeps device passphrase clear_dev true =
      search (body_rules, expand_body-Keeps) depth 14
  resume_body-Keeps device passphrase clear_dev false = search body_rules depth 14
