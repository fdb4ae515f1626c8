-- ===== src/Entry/EventTraces.antt =====
-- Which dialogs are open after the signals of the daemon.
use dde_file_manager_extensi.Prelude.{
  ℕ, String, ◌≡◌, refl, ap, ◌∙◌, Bool, true, false, ◌&&◌, not, List, [], ◌∷◌, arith, if◌then◌else◌,
  is_empty, ◌==◌, eq_iff, ℤ, Hash, insert, erase, has_key, value_or, is_some, none, some, Option,
  find-insert, find-erase,
}
use dde_file_manager_extensi.Entry.Wizard.{DeviceEncryptParam}
use dde_file_manager_extensi.Entry.Events.{
  Handler, on_encrypt_result, on_decrypt_result, on_encrypt_progress, on_decrypt_progress,
  on_request_encrypt_params,
}

-- The signals, with the device they are about.
pub data Signal : Type 0 where
  encrypt_progress decrypt_progress : String → String → ℕ → Signal
  encrypt_result decrypt_result : String → String → ℤ → Signal
  request_params : Hash String → Option DeviceEncryptParam → Signal

module _ (print_code : ℤ → String) (without_uuid uuid_of : String → String) where
  unfoldable pub handle : Signal → Handler → Handler
  handle (encrypt_progress dev name p) h = (on_encrypt_progress dev name p h).0
  handle (decrypt_progress dev name p) h = (on_decrypt_progress dev name p h).0
  handle (encrypt_result dev name code) h = (on_encrypt_result print_code dev name code h).0
  handle (decrypt_result dev name code) h = (on_decrypt_result print_code dev name code 0 h).0
  handle (request_params c answer) h = (on_request_encrypt_params without_uuid uuid_of c answer h).0

  unfoldable pub handle_all : List Signal → Handler → Handler
  handle_all [] h = h
  handle_all (s ∷ ss) h = handle_all ss (handle s h)

-- Whether a device is being encrypted, from whether it was and the signals: a progress says that it
-- is, a result that it is not.
unfoldable pub encrypting : String → List Signal → Bool → Bool
encrypting dev [] b = b
encrypting dev (encrypt_progress d name p ∷ ss) b = encrypting dev ss (if d == dev then true else b)
encrypting dev (encrypt_result d name code ∷ ss) b =
    encrypting dev ss (if d == dev then false else b)
encrypting dev (s ∷ ss) b = encrypting dev ss b

unfoldable pub decrypting : String → List Signal → Bool → Bool
decrypting dev [] b = b
decrypting dev (decrypt_progress d name p ∷ ss) b = decrypting dev ss (if d == dev then true else b)
decrypting dev (decrypt_result d name code ∷ ss) b =
    decrypting dev ss (if d == dev then false else b)
decrypting dev (s ∷ ss) b = decrypting dev ss b

-- Whether a device waits for its encryption to begin: from an accepted request to the first progress.
unfoldable pub waiting : String → List Signal → Bool → Bool
waiting dev [] b = b
waiting dev (encrypt_progress d name p ∷ ss) b = waiting dev ss (if d == dev then false else b)
waiting dev (request_params c answer ∷ ss) b =
    let d = value_or "device-path" c "" in
    waiting dev ss (if (not (is_empty d) && d == dev) && is_some answer then true else b)
waiting dev (s ∷ ss) b = waiting dev ss b

module _ {ℓ} {V : Type ℓ} where
  has_key-insert :
      (k j : String) (v : V) (m : Hash V)
      → has_key j (insert k v m) ≡ (if k == j then true else has_key j m)
  has_key-insert k j v m = ground (arith, find-insert k j v m)

  has_key-erase :
      (k j : String) (m : Hash V) → has_key j (erase k m) ≡ (if k == j then false else has_key j m)
  has_key-erase k j m = ground (arith, find-erase k j m)

module _ (print_code : ℤ → String) (without_uuid uuid_of : String → String) where
  step-encrypting :
      (dev : String) (s : Signal) (h : Handler)
      → has_key dev ((handle print_code without_uuid uuid_of s h).encrypt_dialogs)
        ≡ encrypting dev (s ∷ []) (has_key dev (h.encrypt_dialogs))
  unfolding handle encrypting on_encrypt_progress on_decrypt_progress on_encrypt_result
      on_decrypt_result on_request_encrypt_params
  step-encrypting dev (encrypt_progress d name p) h = has_key-insert d dev _ (h.encrypt_dialogs)
  step-encrypting dev (decrypt_progress d name p) h = refl
  step-encrypting dev (encrypt_result d name code) h = has_key-erase d dev (h.encrypt_dialogs)
  step-encrypting dev (decrypt_result d name code) h = refl
  step-encrypting dev (request_params c answer) h = ground arith

  -- After any signals a device has a progress dialog of its encryption exactly where the last progress
  -- came after the last result, or where it had one before and neither came.
  pub handle_all-encrypting :
      (dev : String) (ss : List Signal) (h : Handler)
      → has_key dev ((handle_all print_code without_uuid uuid_of ss h).encrypt_dialogs)
        ≡ encrypting dev ss (has_key dev (h.encrypt_dialogs))
  unfolding handle_all handle encrypting
  handle_all-encrypting dev [] h = refl
  handle_all-encrypting dev (encrypt_progress d name p ∷ ss) h =
      handle_all-encrypting dev ss _
      ∙ ap (encrypting dev ss) (step-encrypting dev (encrypt_progress d name p) h)
  handle_all-encrypting dev (decrypt_progress d name p ∷ ss) h =
      handle_all-encrypting dev ss _
      ∙ ap (encrypting dev ss) (step-encrypting dev (decrypt_progress d name p) h)
  handle_all-encrypting dev (encrypt_result d name code ∷ ss) h =
      handle_all-encrypting dev ss _
      ∙ ap (encrypting dev ss) (step-encrypting dev (encrypt_result d name code) h)
  handle_all-encrypting dev (decrypt_result d name code ∷ ss) h =
      handle_all-encrypting dev ss _
      ∙ ap (encrypting dev ss) (step-encrypting dev (decrypt_result d name code) h)
  handle_all-encrypting dev (request_params c answer ∷ ss) h =
      handle_all-encrypting dev ss _
      ∙ ap (encrypting dev ss) (step-encrypting dev (request_params c answer) h)

  step-decrypting :
      (dev : String) (s : Signal) (h : Handler)
      → has_key dev ((handle print_code without_uuid uuid_of s h).decrypt_dialogs)
        ≡ decrypting dev (s ∷ []) (has_key dev (h.decrypt_dialogs))
  unfolding handle decrypting on_encrypt_progress on_decrypt_progress on_encrypt_result
      on_decrypt_result on_request_encrypt_params
  step-decrypting dev (encrypt_progress d name p) h = refl
  step-decrypting dev (decrypt_progress d name p) h = has_key-insert d dev _ (h.decrypt_dialogs)
  step-decrypting dev (encrypt_result d name code) h = refl
  step-decrypting dev (decrypt_result d name code) h = has_key-erase d dev (h.decrypt_dialogs)
  step-decrypting dev (request_params c answer) h = ground arith

  -- The same of the decryption.
  pub handle_all-decrypting :
      (dev : String) (ss : List Signal) (h : Handler)
      → has_key dev ((handle_all print_code without_uuid uuid_of ss h).decrypt_dialogs)
        ≡ decrypting dev ss (has_key dev (h.decrypt_dialogs))
  unfolding handle_all handle decrypting
  handle_all-decrypting dev [] h = refl
  handle_all-decrypting dev (encrypt_progress d name p ∷ ss) h =
      handle_all-decrypting dev ss _
      ∙ ap (decrypting dev ss) (step-decrypting dev (encrypt_progress d name p) h)
  handle_all-decrypting dev (decrypt_progress d name p ∷ ss) h =
      handle_all-decrypting dev ss _
      ∙ ap (decrypting dev ss) (step-decrypting dev (decrypt_progress d name p) h)
  handle_all-decrypting dev (encrypt_result d name code ∷ ss) h =
      handle_all-decrypting dev ss _
      ∙ ap (decrypting dev ss) (step-decrypting dev (encrypt_result d name code) h)
  handle_all-decrypting dev (decrypt_result d name code ∷ ss) h =
      handle_all-decrypting dev ss _
      ∙ ap (decrypting dev ss) (step-decrypting dev (decrypt_result d name code) h)
  handle_all-decrypting dev (request_params c answer ∷ ss) h =
      handle_all-decrypting dev ss _
      ∙ ap (decrypting dev ss) (step-decrypting dev (request_params c answer) h)

  step-waiting :
      (dev : String) (s : Signal) (h : Handler)
      → has_key dev ((handle print_code without_uuid uuid_of s h).encrypt_inputs)
        ≡ waiting dev (s ∷ []) (has_key dev (h.encrypt_inputs))
  unfolding handle waiting on_encrypt_progress on_decrypt_progress on_encrypt_result
      on_decrypt_result on_request_encrypt_params
  step-waiting dev (encrypt_progress d name p) h = has_key-erase d dev (h.encrypt_inputs)
  step-waiting dev (decrypt_progress d name p) h = refl
  step-waiting dev (encrypt_result d name code) h = refl
  step-waiting dev (decrypt_result d name code) h = refl
  step-waiting dev (request_params c none) h =
      let d = value_or "device-path" c "" in
      ground (
        arith,
        eq_iff d dev,
        find-insert d dev d (h.encrypt_inputs),
        find-erase d dev (insert d d (h.encrypt_inputs)),
      )
  step-waiting dev (request_params c (some inputs)) h =
      let d = value_or "device-path" c "" in
      ground (arith, eq_iff d dev, find-insert d dev d (h.encrypt_inputs))

  -- After any signals a device has a dialog for its inputs exactly where a request for it was accepted
  -- and no progress of its encryption came since, or where it had one before and no progress came.
  pub handle_all-waiting :
      (dev : String) (ss : List Signal) (h : Handler)
      → has_key dev ((handle_all print_code without_uuid uuid_of ss h).encrypt_inputs)
        ≡ waiting dev ss (has_key dev (h.encrypt_inputs))
  unfolding handle_all handle waiting
  handle_all-waiting dev [] h = refl
  handle_all-waiting dev (encrypt_progress d name p ∷ ss) h =
      handle_all-waiting dev ss _
      ∙ ap (waiting dev ss) (step-waiting dev (encrypt_progress d name p) h)
  handle_all-waiting dev (decrypt_progress d name p ∷ ss) h =
      handle_all-waiting dev ss _
      ∙ ap (waiting dev ss) (step-waiting dev (decrypt_progress d name p) h)
  handle_all-waiting dev (encrypt_result d name code ∷ ss) h =
      handle_all-waiting dev ss _
      ∙ ap (waiting dev ss) (step-waiting dev (encrypt_result d name code) h)
  handle_all-waiting dev (decrypt_result d name code ∷ ss) h =
      handle_all-waiting dev ss _
      ∙ ap (waiting dev ss) (step-waiting dev (decrypt_result d name code) h)
  handle_all-waiting dev (request_params c answer ∷ ss) h =
      handle_all-waiting dev ss _
      ∙ ap (waiting dev ss) (step-waiting dev (request_params c answer) h)
