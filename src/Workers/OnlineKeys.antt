-- ===== src/Workers/OnlineKeys.antt =====
-- encrypt/encryptworker.cpp: which passphrases open the device after the online worker.
use dde_file_manager_extensi.Prelude.{
  ℕ, suc, ◌<◌, ℤ, pos, negsuc, is_zero, ◌≤◌, ◌<>◌, String, eq_refl, true, false, ◌≡◌, refl, ap, ◌∙◌,
  Option, none, some, List, [], ◌∷◌, ◌++◌, length, is_empty, arith, eq_iff,
}
use dde_file_manager_extensi.DiskEncrypt.{EncryptConfig}
use dde_file_manager_extensi.DiskEncrypt.Calls.{
  Env, World, Event, Key, key_of, reads_file, call, call_output, checked, with_handle,
}
use dde_file_manager_extensi.DiskEncrypt.Device.{exp_rec_file, gen_rec_key}
use dde_file_manager_extensi.DiskEncrypt.Reencrypt.{resume_reencrypt, resume_body, end_resume}
use dde_file_manager_extensi.DiskEncrypt.Keyslots.{
  change_passphrase, set_label, set_label_body, dev_encrypt_status, dev_encrypt_status_body,
  keyslot_after, change_passphrase_by_rec_key,
}
use dde_file_manager_extensi.Tables.Crypttab.{crypttab_with_tpm}
use dde_file_manager_extensi.Workers.{Params, update_token_keyslots}
use dde_file_manager_extensi.Workers.Online.{
  rec_token, set_passphrase, set_recovery_key, set_backing_dev_label, write_crypttab,
  update_crypttab, remove_encrypt_file, settle, latest, resume_with, online_run,
  has_unfinished_online_encryption, params_valid,
}
use dde_file_manager_extensi.Workers.Waiting.{AllInvalid, await_params_lem}
use dde_file_manager_extensi.Workers.KeySlots.{
  Whole, Honest, replace, keys_step, keys_after, count, change_passphrase-held,
  change_passphrase-keys, set_token-keys, count-replace, count_replaced,
  change_passphrase_by_rec_key-keys,
}

valid_passphrase :
    (config : EncryptConfig) (params : Params)
    → params_valid config params ≡ true
    → is_empty (params.to_text "passphrase") ≡ false
unfolding params_valid
valid_passphrase config params h = ground arith

module _ (read : Key → String) (disk : String) (ks : List String) (env : Env) where
  resume_reencrypt-keys :
      (dev clear : String) (w : World)
      → keys_after read disk ks (resume_reencrypt env dev "" clear false w).1.events
        ≡ keys_after read disk ks w.events
  unfolding resume_reencrypt with_handle resume_body end_resume checked call keys_after keys_step
  resume_reencrypt-keys dev clear w = ground arith

  dev_encrypt_status-keys :
      (dev : String) (w : World)
      → keys_after read disk ks (dev_encrypt_status env dev w).1.events
        ≡ keys_after read disk ks w.events
  unfolding dev_encrypt_status with_handle dev_encrypt_status_body checked call keys_after keys_step
  dev_encrypt_status-keys dev w = ground arith

  set_label-keys :
      (dev label : String) (w : World)
      → keys_after read disk ks (set_label env dev label w).1.events
        ≡ keys_after read disk ks w.events
  unfolding set_label with_handle set_label_body checked call keys_after keys_step
  set_label-keys dev label w = ground arith

  exp_rec_file-keys :
      (dev path : String) (w : World)
      → keys_after read disk ks (exp_rec_file env dev path w).1.events
        ≡ keys_after read disk ks w.events
  unfolding exp_rec_file gen_rec_key call call_output keys_after keys_step
  exp_rec_file-keys dev path w = ground arith

  write_crypttab-keys :
      (written : Option String) (w : World)
      → keys_after read disk ks (write_crypttab env written w).events
        ≡ keys_after read disk ks w.events
  unfolding write_crypttab call keys_after keys_step
  write_crypttab-keys none w = refl
  write_crypttab-keys (some written) w = ground arith

  update_crypttab-keys :
      (params : Params) (w : World)
      → keys_after read disk ks (update_crypttab env params w).events
        ≡ keys_after read disk ks w.events
  unfolding update_crypttab call call_output keys_after keys_step
  update_crypttab-keys params w =
      let ((opened, contents), w1) = call_output env (reads_file "/etc/crypttab") w in
      ground (
        arith,
        write_crypttab-keys
            (crypttab_with_tpm ("UUID=" <> params.to_text "backingDevUUID") contents) w1,
      )

latest-last :
    (first params : Params) (earlier : List Params)
    → latest first (earlier ++ (params ∷ [])) ≡ params
unfolding latest
latest-last first params [] = refl
latest-last first params (p ∷ earlier) = latest-last p params earlier

-- What libcryptsetup reads of a key is empty only where the text is.
abbrev pub ReadsSome : (Key → String) → Env → Type 0
ReadsSome read env = (s : String) → is_empty (read (key_of env s)) ≡ is_empty s

module _ (read : Key → String) (ks : List String) (env : Env) (some_read : ReadsSome read env) where
  read_empty : Whole read env ""
  read_empty = (eq_iff (read (key_of env "")) "").0 (some_read "")

  -- The passphrases of the configuration's device.
  abbrev slots : EncryptConfig → List Event → List String
  slots config es = keys_after read config.device_path ks es

  set_passphrase-keys :
      (config : EncryptConfig) (params : Params) (w : World)
      → Whole read env (params.to_text "passphrase")
      → let (code, w') = set_passphrase env config params (pos 0) w in
        is_zero code ≡ true
        → slots config w'.events ≡ replace "" (params.to_text "passphrase") (slots config w.events)
  unfolding set_passphrase
  set_passphrase-keys config params w whole good =
      let (o, w1) = change_passphrase env config.device_path "" (params.to_text "passphrase") w in
      ground (
        arith,
        whole,
        read_empty,
        change_passphrase-keys read ks env config.device_path "" (params.to_text "passphrase") w,
        set_token-keys read ks env config.device_path config.device_path
            (update_token_keyslots env (params.to_text "tpmToken") (keyslot_after (negsuc 0) o)) w1,
      )

  -- The recovery key's slot is a new one.
  set_recovery_key-keys :
      (config : EncryptConfig) (params : Params) (code : ℤ) (w : World) (k : String)
      → let (code', w') = set_recovery_key env config params code w in
        is_zero code' ≡ true
        → (is_zero code ≡ true)
          × (count k (slots config w.events) ≤ count k (slots config w'.events))
          × (count "" (slots config w'.events) ≡ count "" (slots config w.events))
  unfolding set_recovery_key count
  set_recovery_key-keys config params code w k good =
      let dev = config.device_path in
      let (rec_pass, w1) = exp_rec_file env dev (params.to_text "exportRecKeyTo") w in
      let (o, w2) =
        change_passphrase_by_rec_key env dev (params.to_text "passphrase") rec_pass w1 in
      ground (
        arith,
        some_read rec_pass,
        exp_rec_file-keys read config.device_path ks env dev (params.to_text "exportRecKeyTo") w,
        change_passphrase_by_rec_key-keys read ks env dev (params.to_text "passphrase") rec_pass w1,
        set_token-keys read ks env dev dev
            (rec_token (env.number_text (keyslot_after (negsuc 0) o))) w2,
      )

  -- What follows a finished encryption, where it ends with the code of success.
  settle-keys :
      (config : EncryptConfig) (params : Params) (w : World) (k : String)
      → Whole read env (params.to_text "passphrase")
      → let (code, w') = settle env config params w in
        let set = replace "" (params.to_text "passphrase") (slots config w.events) in
        is_zero code ≡ true
        → (count k set ≤ count k (slots config w'.events))
          × (count "" (slots config w'.events) ≡ count "" set)
  unfolding settle set_backing_dev_label remove_encrypt_file call keys_after keys_step
  settle-keys config params w k whole good =
      let (code, w1) = set_passphrase env config params (pos 0) w in
      let (code', w2) = set_recovery_key env config params code w1 in
      let (z, more, same) = set_recovery_key-keys config params code w1 k good in
      let set = set_passphrase-keys config params w whole z in
      let w3 = (set_label env config.device_path config.device_name w2).1 in
      let kept : slots config (update_crypttab env params w3).events ≡ slots config w2.events =
        update_crypttab-keys read config.device_path ks env params w3
        ∙ set_label-keys read config.device_path ks env config.device_path config.device_name w2 in
      (rw kept (rw set at more), rw kept (same ∙ ap (count "") set))

  set_passphrase-held :
      (config : EncryptConfig) (params : Params) (w : World)
      → Honest read ks env config.device_path "" (params.to_text "passphrase")
      → Whole read env (params.to_text "passphrase")
      → is_zero (set_passphrase env config params (pos 0) w).0 ≡ true
      → 0 < count "" (slots config w.events)
  unfolding set_passphrase
  set_passphrase-held config params w honest whole good = ground (
    arith,
    change_passphrase-held read ks env config.device_path "" (params.to_text "passphrase") w honest,
  )

  settle-opens :
      (config : EncryptConfig) (params : Params) (w : World)
      → Honest read ks env config.device_path "" (params.to_text "passphrase")
      → Whole read env (params.to_text "passphrase")
      → is_empty (params.to_text "passphrase") ≡ false
      → let (code, w') = settle env config params w in
        is_zero code ≡ true
        → (0 < count (params.to_text "passphrase") (slots config w'.events))
          × (suc (count "" (slots config w'.events)) ≡ count "" (slots config w.events))
  unfolding settle
  settle-opens config params w honest whole given good =
      let pass = params.to_text "passphrase" in
      let before = slots config w.events in
      let (code, w1) = set_passphrase env config params (pos 0) w in
      let (z, _, _) = set_recovery_key-keys config params code w1 pass good in
      let held = set_passphrase-held config params w honest whole z in
      let (more, same) = settle-keys config params w pass whole good in
      let moved = count-replace "" pass "" before held in
      let there = count_replaced "" pass before held in
      ground (arith, more, same, moved, there, eq_refl "")

  resume_with-keys :
      (config : EncryptConfig) (seen : List Params) (first params : Params) (n : ℕ) (w : World)
      → latest first seen ≡ params
      → Honest read ks env config.device_path "" (params.to_text "passphrase")
      → Whole read env (params.to_text "passphrase")
      → is_empty (params.to_text "passphrase") ≡ false
      → let (o, w') = resume_with env config seen (some first, n) w in
        o.result ≡ some (pos 0)
        → is_zero o.exit_code ≡ true
        → (0 < count (params.to_text "passphrase") (slots config w'.events))
          × (suc (count "" (slots config w'.events)) ≡ count "" (slots config w.events))
  unfolding resume_with
  resume_with-keys config seen first params n w last honest whole given done good =
      let (o, w1) = resume_reencrypt env config.device_path "" config.clear_dev false w in
      let kept =
        resume_reencrypt-keys read config.device_path ks env config.device_path config.clear_dev
          w in
      ground (arith, last, kept, settle-opens config params w1 honest whole given)

  has_unfinished_online_encryption-keys :
      (config : EncryptConfig) (w : World)
      → slots config (has_unfinished_online_encryption env config w).1.events
        ≡ slots config w.events
  unfolding has_unfinished_online_encryption
  has_unfinished_online_encryption-keys config w =
      ground (arith, dev_encrypt_status-keys read config.device_path ks env config.device_path w)

  -- Where the online worker reports success and ends with the code of success, the passphrase of the
  -- last parameters, the only valid ones, opens the device, and one key slot fewer is opened by the empty passphrase.
  pub online_run-keys :
      (config : EncryptConfig) (earlier : List Params) (params : Params) (w : World)
      → AllInvalid config earlier
      → params_valid config params ≡ true
      → Honest read ks env config.device_path "" (params.to_text "passphrase")
      → Whole read env (params.to_text "passphrase")
      → let (o, w') = online_run env config (earlier ++ (params ∷ [])) w in
        o.result ≡ some (pos 0)
        → is_zero o.exit_code ≡ true
        → (0 < count (params.to_text "passphrase") (slots config w'.events))
          × (suc (count "" (slots config w'.events)) ≡ count "" (slots config w.events))
  unfolding online_run
  online_run-keys config earlier params w invalid valid honest whole done good =
      let (unfinished, w1) = has_unfinished_online_encryption env config w in
      let taken = await_params_lem config earlier [] params invalid valid in
      ground (
        arith,
        taken,
        has_unfinished_online_encryption-keys config w,
        resume_with-keys config (earlier ++ (params ∷ [])) params params (length earlier) w1
            (latest-last params params earlier) honest whole (valid_passphrase config params valid),
      )
