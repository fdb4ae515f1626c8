-- ===== src/DiskEncrypt/Keyslots.antt =====
-- encrypt/diskencrypt.cpp: the functions that work on the key slots, tokens and label of an encrypted
-- device, each behind one handle.
use dde_file_manager_extensi.Prelude.{
  ℕ, zero, suc, ◌+◌, ℤ, pos, negsuc, is_neg, String, Option, none, some, Hash, find, insert,
  has_text, is_empty, if◌then◌else◌, or_else,
}
use dde_file_manager_extensi.DiskEncrypt.{
  load_crypt, change_passphrase_failed, add_keyslot, set_token_failed, set_label_failed,
  get_reencrypt_flag, EncryptStatus, finished, offline_unfinished, online_unfinished,
  status_unknown,
}
use dde_file_manager_extensi.DiskEncrypt.Calls.{
  Env, World, Action, Body, Outcome, Json, number, Flags, inits, inits_data, loads, gets_flags,
  key_of, changes_keyslot, adds_keyslot, gets_token, sets_token, sets_label, call_output, checked,
  return, with_handle, no_more, ◌>>=◌, ◌>>◌, lift,
}

-- The out-parameter of the functions that make a key slot: it is written on success only.
abbrev pub keyslot_after : ℤ → Outcome ℤ → ℤ
keyslot_after before o = or_else o.out before

module _ (env : Env) where
  unfoldable pub change_passphrase_body : String → String → Body ℤ (Outcome ℤ)
  change_passphrase_body old_passphrase new_passphrase = do
    checked env loads load_crypt
    slot ←
        checked env (changes_keyslot (key_of env old_passphrase) (key_of env new_passphrase))
          change_passphrase_failed
    return (pos 0) slot (some slot)

  unfoldable pub change_passphrase : String → String → String → Action (Outcome ℤ)
  change_passphrase device old_passphrase new_passphrase =
      with_handle env (inits_data device "") (change_passphrase_body old_passphrase new_passphrase)
        no_more

  unfoldable pub change_passphrase_by_rec_key_body : String → String → Body ℤ (Outcome ℤ)
  change_passphrase_by_rec_key_body recovery_key new_passphrase = do
    checked env loads load_crypt
    slot ←
        checked env (adds_keyslot (key_of env recovery_key) (key_of env new_passphrase)) add_keyslot
    return (pos 0) slot (some slot)

  unfoldable pub change_passphrase_by_rec_key : String → String → String → Action (Outcome ℤ)
  change_passphrase_by_rec_key device recovery_key new_passphrase =
      with_handle env (inits_data device "")
        (change_passphrase_by_rec_key_body recovery_key new_passphrase) no_more

  -- One token of the loop of `bcGetToken`: the answer is its JSON text, where the slot is in use.
  unfoldable pub tpm_token : ℕ → Action (Option String)
  tpm_token i w =
      let ((found, json), w1) = call_output env (gets_token i) w in
      if is_neg found
      then (none, w1)
      else if has_text json "usec-tpm2"
      then (
        some (env.print_object (insert "token_index" (number (pos i)) (env.parse_object json))),
        w1,
      )
      else (none, w1)

  abbrev pub first_token : Option String × World → Action (Option String) → Option String × World
  first_token (some json, w) next = (some json, w)
  first_token (none, w) next = next w

  -- The loop over the token slots from `i` on, `left` of them.
  unfoldable pub find_token : ℕ → ℕ → Action (Option String)
  find_token zero i w = (none, w)
  find_token (suc left) i w = first_token (tpm_token i w) (find_token left (i + 1))

  unfoldable pub get_token_body : Body String (Outcome String)
  get_token_body = do
    ret ← checked env loads load_crypt
    token ← lift (find_token 32 0)
    return (pos 0) ret token

  -- `bcGetToken`: LUKS2 has 32 token slots. The out-parameter is left alone where no token is found.
  unfoldable pub get_token : String → Action (Outcome String)
  get_token device = with_handle env (inits device) get_token_body no_more

  -- `value("token_index").toInt(CRYPT_ANY_TOKEN)`
  unfoldable pub token_index : Hash Json → ℤ
  token_index obj = elim (find "token_index" obj) [ some (number n) ↦ n | _ ↦ negsuc 0 ]

  unfoldable pub set_token_body : String → Body (Unit {0}) (Outcome (Unit {0}))
  set_token_body token = do
    checked env loads load_crypt
    ret ← checked env (sets_token (token_index (env.parse_object token)) token) set_token_failed
    return (pos 0) ret none

  unfoldable pub set_token : String → String → Action (Outcome (Unit {0}))
  set_token device token w =
      if is_empty token
      then (record { result = pos 0; ret = pos 0; out = none }, w)
      else with_handle env (inits device) (set_token_body token) no_more w

  unfoldable pub set_label_body : String → Body (Unit {0}) (Outcome (Unit {0}))
  set_label_body label = do
    checked env loads load_crypt
    ret ← checked env (sets_label label) set_label_failed
    return (pos 0) ret none

  unfoldable pub set_label : String → String → Action (Outcome (Unit {0}))
  set_label device label = with_handle env (inits device) (set_label_body label) no_more

  -- The assignments of `bcDevEncryptStatus`, the last of which counts.
  unfoldable pub status_of : Flags → EncryptStatus
  status_of flags =
      if flags.unknown
      then status_unknown
      else if flags.online_reencrypt
      then online_unfinished
      else if flags.offline_reencrypt
      then offline_unfinished
      else finished

  unfoldable pub dev_encrypt_status_body : Body EncryptStatus (Outcome EncryptStatus)
  dev_encrypt_status_body = do
    checked env loads load_crypt
    ret ← checked env gets_flags get_reencrypt_flag
    flags ← lift (λ w. (env.flags w.events, w))
    return (pos 0) ret (some (status_of flags))

  unfoldable pub dev_encrypt_status : String → Action (Outcome EncryptStatus)
  dev_encrypt_status device = with_handle env (inits device) dev_encrypt_status_body no_more
