-- ===== src/Workers/Rollback.antt =====
-- encrypt/encryptworker.cpp: which passphrases open the device after `ChgPassWorker::run`.
use dde_file_manager_extensi.Prelude.{
  ◌<◌, ℤ, pos, is_neg, is_zero, String, eq_refl, true, false, ◌≡◌, ◌∙◌, List, ◌∷◌, if◌then◌else◌,
  arith, Bool-cases, inl, inr,
}
use dde_file_manager_extensi.DiskEncrypt.Calls.{
  Env, World, Event, Key, key_of, changes_keyslot, inits_data, loads, call, checked, with_handle,
}
use dde_file_manager_extensi.DiskEncrypt.Keyslots.{
  change_passphrase_by_rec_key, keyslot_after, change_passphrase, change_passphrase_body, set_token,
}
use dde_file_manager_extensi.Workers.{Params, update_token_keyslots}
use dde_file_manager_extensi.Workers.Passphrase.{change_with, update_token, chg_pass_run}
use dde_file_manager_extensi.Workers.KeySlots.{
  Whole, Honest, change_passphrase-held, change_passphrase_by_rec_key-keys, replace, keys_step,
  keys_after, count, change_passphrase-keys, set_token-keys, count_replaced, replace_back,
}

-- A change back on the device from the new passphrase to the old one works wherever the new one opens
-- a slot of it.
abbrev pub CanGoBack : (Key → String) → List String → Env → String → String → String → Type 0
CanGoBack read ks env dev old new =
    (es : List Event)
    → 0 < count new (keys_after read dev ks es)
    → (is_neg (env.code es (inits_data dev "")) ≡ false)
      × (is_neg (env.code es loads) ≡ false)
      × (is_neg (env.code es (changes_keyslot (key_of env new) (key_of env old))) ≡ false)

module _ (read : Key → String) (ks : List String) (env : Env) where
  change_back :
      (dev old new : String) (w : World)
      → CanGoBack read ks env dev old new
      → 0 < count new (keys_after read dev ks w.events)
      → is_zero (change_passphrase env dev new old w).0.result ≡ true
  unfolding change_passphrase with_handle change_passphrase_body checked call keys_after keys_step
  change_back dev old new w back h =
      let w1 = (call env (inits_data dev "") w).1 in
      let w2 = (call env loads w1).1 in
      ground (arith, back w.events h, back w1.events h, back w2.events h)

  -- A change of a text that is read whole.
  change-keys :
      (dev old new : String) (w : World)
      → Whole read env old
      → Whole read env new
      → let (o, w') = change_passphrase env dev old new w in
        keys_after read dev ks w'.events ≡ (
          if is_zero o.result
          then replace old new (keys_after read dev ks w.events)
          else keys_after read dev ks w.events)
  change-keys dev old new w whole_old whole_new =
      ground (arith, change_passphrase-keys read ks env dev old new w, whole_old, whole_new)

  -- The second half of the run, after the passphrase was changed.
  update_token-keys :
      (dev old new token : String) (slot : ℤ) (w : World) (k : String) (before : List String)
      → Whole read env old
      → Whole read env new
      → keys_after read dev ks w.events ≡ replace old new before
      → 0 < count old before
      → CanGoBack read ks env dev old new
      → let (code, w') = update_token env dev old new token slot w in
        count k (keys_after read dev ks w'.events)
        ≡ (if is_zero code then count k (replace old new before) else count k before)
  unfolding update_token
  update_token-keys dev old new token slot w k before whole_old whole_new changed held back =
      let token' = update_token_keyslots env token slot in
      let w1 = (set_token env dev token' w).1 in
      let kept : keys_after read dev ks w1.events ≡ replace old new before =
        set_token-keys read ks env dev dev token' w ∙ changed in
      ground (
        arith,
        kept,
        change-keys dev new old w1 whole_new whole_old,
        change_back dev old new w1 back (rw kept (count_replaced old new before held)),
        replace_back old new k before held,
      )

  -- A change of a passphrase by the old one is all or nothing on its device: where the run reports
  -- success, the new passphrase has taken the place of the old one, and where it reports a failure,
  -- each passphrase opens as many key slots as before. A change succeeds only where the old passphrase
  -- opens a slot, and the new one, where it opens a slot, can be changed back. Both have as many bytes
  -- as UTF-16 units, as an ASCII text has: of another one libcryptsetup is given a part only.
  pub chg_pass_run-keys :
      (params : Params) (w : World) (k : String)
      → Whole read env (params.to_text "oldPassphrase")
      → Whole read env (params.to_text "passphrase")
      → params.to_flag "usingRecKey" ≡ false
      → Honest read ks env
          (params.to_text "device")
          (params.to_text "oldPassphrase")
          (params.to_text "passphrase")
      → CanGoBack read ks env
          (params.to_text "device")
          (params.to_text "oldPassphrase")
          (params.to_text "passphrase")
      → let (code, w') = chg_pass_run env params w in
        let before = keys_after read (params.to_text "device") ks w.events in
        count k (keys_after read (params.to_text "device") ks w'.events) ≡ (
          if is_zero code
          then count k
              (replace (params.to_text "oldPassphrase") (params.to_text "passphrase") before)
          else count k before)
  unfolding chg_pass_run change_with
  chg_pass_run-keys params w k whole_old whole_new plain honest back =
      let dev = params.to_text "device" in
      let old = params.to_text "oldPassphrase" in
      let new = params.to_text "passphrase" in
      let (o, w1) = change_passphrase env dev old new w in
      let before = keys_after read dev ks w.events in
      let changed = change-keys dev old new w whole_old whole_new in
      elim (Bool-cases (is_zero o.result)) [
        | inr bad ↦ ground (arith, changed)
        | inl good ↦
            let kept : keys_after read dev ks w1.events ≡ replace old new before =
              ground (arith, changed) in
            ground (
              arith,
              changed,
              update_token-keys dev old new (params.to_text "tpmToken") (keyslot_after (pos 0) o) w1
                  k before whole_old whole_new kept
                  (change_passphrase-held read ks env dev old new w honest good) back,
            )
      ]

  update_token_failed :
      (dev rec new token : String) (slot : ℤ) (w : World) (before : List String)
      → Whole read env rec
      → Whole read env new
      → keys_after read dev ks w.events ≡ new ∷ before
      → CanGoBack read ks env dev rec new
      → let (code, w') = update_token env dev rec new token slot w in
        keys_after read dev ks w'.events ≡ (if is_zero code then new ∷ before else rec ∷ before)
  unfolding update_token replace count
  update_token_failed dev rec new token slot w before whole_rec whole_new made back =
      let token' = update_token_keyslots env token slot in
      let w1 = (set_token env dev token' w).1 in
      let kept : keys_after read dev ks w1.events ≡ new ∷ before =
        set_token-keys read ks env dev dev token' w ∙ made in
      ground (
        arith,
        kept,
        eq_refl new,
        change-keys dev new rec w1 whole_new whole_rec,
        change_back dev rec new w1 back (rw kept (ground (arith, eq_refl new))),
      )

  -- A change of a passphrase by a recovery key adds a key slot of the device for the new passphrase,
  -- and is not undone: where the run fails after that, the slot is left, and the recovery key opens it.
  -- The new passphrase, where it opens a slot, can be changed to the recovery key, which the clean-up
  -- does; and both have as many bytes as UTF-16 units, as an ASCII text has.
  pub chg_pass_run-rec_key :
      (params : Params) (w : World)
      → Whole read env (params.to_text "oldPassphrase")
      → Whole read env (params.to_text "passphrase")
      → params.to_flag "usingRecKey" ≡ true
      → CanGoBack read ks env
          (params.to_text "device")
          (params.to_text "oldPassphrase")
          (params.to_text "passphrase")
      → let (code, w') = chg_pass_run env params w in
        let before = keys_after read (params.to_text "device") ks w.events in
        let added =
          change_passphrase_by_rec_key env
            (params.to_text "device")
            (params.to_text "oldPassphrase")
            (params.to_text "passphrase")
            w in
        keys_after read (params.to_text "device") ks w'.events ≡ (
          if is_zero code
          then params.to_text "passphrase" ∷ before
          else if is_zero added.0.result
          then params.to_text "oldPassphrase" ∷ before
          else before)
  unfolding chg_pass_run change_with
  chg_pass_run-rec_key params w whole_rec whole_new rec_key back =
      let dev = params.to_text "device" in
      let rec = params.to_text "oldPassphrase" in
      let new = params.to_text "passphrase" in
      let (o, w1) = change_passphrase_by_rec_key env dev rec new w in
      let before = keys_after read dev ks w.events in
      let added = change_passphrase_by_rec_key-keys read ks env dev rec new w in
      elim (Bool-cases (is_zero o.result)) [
        | inr bad ↦ ground (arith, added)
        | inl good ↦
            let made : keys_after read dev ks w1.events ≡ new ∷ before =
              ground (arith, added, whole_new) in
            ground (
              arith,
              added,
              whole_new,
              update_token_failed dev rec new (params.to_text "tpmToken") (keyslot_after (pos 0) o)
                  w1 before whole_rec whole_new made back,
            )
      ]
