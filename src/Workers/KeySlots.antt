-- ===== src/Workers/KeySlots.antt =====
-- encrypt/encryptworker.cpp and encrypt/diskencrypt.cpp: which passphrases open the key slots of a device
-- after a run of calls.
use dde_file_manager_extensi.Prelude.{
  Bool, true, false, ◌&&◌, not, refl, ℕ, suc, ◌+◌, ◌<◌, ℤ, is_neg, is_zero, String, ◌==◌, eq_iff,
  eq_refl, ◌≡◌, List, [], ◌∷◌, if◌then◌else◌, arith,
}
use dde_file_manager_extensi.DiskEncrypt.{fail, value_of}
use dde_file_manager_extensi.DiskEncrypt.Calls.{
  loads, inits_data, Key, key_of, opened_on, Env, World, Event, Call, changes_keyslot, adds_keyslot,
  call, checked, with_handle,
}
use dde_file_manager_extensi.DiskEncrypt.Keyslots.{
  change_passphrase_by_rec_key, change_passphrase_by_rec_key_body, change_passphrase,
  change_passphrase_body, set_token, set_token_body,
}

-- The first slot with the passphrase gets another one.
unfoldable pub replace : String → String → List String → List String
replace old new [] = []
replace old new (k ∷ ks) = let rest = k ∷ replace old new ks in if k == old then new ∷ ks else rest

-- What a call of libcryptsetup does to the passphrases of the key slots, where its handle is the
-- device's (`here`): a change that succeeds puts one in the place of another, and a new slot gets its
-- own. A passphrase is the text that libcryptsetup reads of a key.
unfoldable pub keys_step : (Key → String) → Bool → Call → ℤ → List String → List String
keys_step read here (changes_keyslot old new) answer ks =
    if here && not (is_neg answer) then replace (read old) (read new) ks else ks
keys_step read here (adds_keyslot old new) answer ks =
    if here && not (is_neg answer) then read new ∷ ks else ks
keys_step read here c answer ks = ks

-- The passphrases of a device after a run, from those before it.
unfoldable pub keys_after : (Key → String) → String → List String → List Event → List String
keys_after read device ks [] = ks
keys_after read device ks ((c, answer) ∷ es) =
    keys_step read (opened_on es == device) c answer (keys_after read device ks es)

-- What is read of the key is the whole text: it has as many bytes as UTF-16 units, as an ASCII text has.
abbrev pub Whole : (Key → String) → Env → String → Type 0
Whole read env s = read (key_of env s) ≡ s

unfoldable pub count : String → List String → ℕ
count k [] = 0
count k (j ∷ ks) = let n = count k ks in if j == k then suc n else n

module _ (read : Key → String) (ks : List String) (env : Env) where
  pub change_passphrase-keys :
      (dev old new : String) (w : World)
      → let (o, w') = change_passphrase env dev old new w in
        keys_after read dev ks w'.events ≡ (
          if is_zero o.result
          then replace
              (read (key_of env old))
              (read (key_of env new))
              (keys_after read dev ks w.events)
          else keys_after read dev ks w.events)
  unfolding change_passphrase with_handle change_passphrase_body checked call keys_after keys_step
      opened_on fail value_of
  change_passphrase-keys dev old new w = ground (arith, eq_refl dev)

  pub change_passphrase_by_rec_key-keys :
      (dev rec new : String) (w : World)
      → let (o, w') = change_passphrase_by_rec_key env dev rec new w in
        keys_after read dev ks w'.events ≡ (
          if is_zero o.result
          then read (key_of env new) ∷ keys_after read dev ks w.events
          else keys_after read dev ks w.events)
  unfolding change_passphrase_by_rec_key with_handle change_passphrase_by_rec_key_body checked call
      keys_after keys_step opened_on fail value_of
  change_passphrase_by_rec_key-keys dev rec new w = ground (arith, eq_refl dev)

  -- A change on the device succeeds only where the old passphrase opens a slot.
  abbrev pub Honest : String → String → String → Type 0
  Honest dev old new =
      (es : List Event)
      → opened_on es ≡ dev
      → is_neg (env.code es (changes_keyslot (key_of env old) (key_of env new))) ≡ false
      → 0 < count old (keys_after read dev ks es)

  -- A change that succeeds takes a passphrase that opened a slot.
  pub change_passphrase-held :
      (dev old new : String) (w : World)
      → Honest dev old new
      → is_zero (change_passphrase env dev old new w).0.result ≡ true
      → 0 < count old (keys_after read dev ks w.events)
  unfolding change_passphrase with_handle change_passphrase_body checked call keys_after keys_step
      opened_on fail value_of
  change_passphrase-held dev old new w honest good =
      let w2 = (call env loads (call env (inits_data dev "") w).1).1 in
      ground (arith, honest w2.events refl)

  pub set_token-keys :
      (dev other token : String) (w : World)
      → keys_after read dev ks (set_token env other token w).1.events
        ≡ keys_after read dev ks w.events
  unfolding set_token with_handle set_token_body checked call keys_after keys_step fail value_of
  set_token-keys dev other token w = ground arith

abbrev pub one_if : String → String → ℕ
one_if j k = if j == k then 1 else 0

pub count-replace :
    (a b k : String) (ks : List String)
    → 0 < count a ks
    → count k (replace a b ks) + one_if a k ≡ count k ks + one_if b k
unfolding count replace
count-replace a b k [] h = absurd (omega arith)
count-replace a b k (j ∷ ks) h =
    ground (arith, count-replace a b k ks, eq_iff j a, eq_iff j k, eq_iff a k, eq_iff b k)

pub count_replaced :
    (a b : String) (ks : List String) → 0 < count a ks → 0 < count b (replace a b ks)
unfolding count replace
count_replaced a b [] h = absurd (omega arith)
count_replaced a b (j ∷ ks) h =
    ground (arith, count_replaced a b ks, eq_iff j a, eq_iff j b, eq_refl b)

pub replace_back :
    (a b k : String) (ks : List String)
    → 0 < count a ks
    → count k (replace b a (replace a b ks)) ≡ count k ks
replace_back a b k ks h = omega (
  arith,
  count-replace a b k ks h,
  count-replace b a k (replace a b ks) (count_replaced a b ks h),
)
