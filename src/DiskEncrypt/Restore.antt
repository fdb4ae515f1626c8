-- ===== src/DiskEncrypt/Restore.antt =====
-- encrypt/diskencrypt.cpp: what the success of `bcInitHeaderFile` and of `bcInitHeaderDevice` says.
use dde_file_manager_extensi.Prelude.{
  pos, is_neg, String, Bool, true, false, ◌==◌, ◌&&◌, ◌||◌, not, ◌≡◌, refl, List, [], ◌∷◌, arith,
  Bool-cases, inl, inr, eq_refl,
}
use dde_file_manager_extensi.DiskEncrypt.{EncryptParams, fail}
use dde_file_manager_extensi.DiskEncrypt.Calls.{
  Env, World, Event, Call, restores_header, inits, opened_on, call, checked, with_handle,
}
use dde_file_manager_extensi.DiskEncrypt.Device.{validate_params, version_of, mounted}
use dde_file_manager_extensi.DiskEncrypt.Header.{
  header_file, is_not_encrypted, do_setup_header, init_header_file, init_header_device,
  restore_body,
}
use dde_file_manager_extensi.DiskEncrypt.Keeps.{Brackets}
use dde_file_manager_extensi.DiskEncrypt.Bodies.{drop_file-Keeps}
use dde_file_manager_extensi.DiskEncrypt.Cleanup.{Made, do_setup_header_lem}

abbrev is_restore : String → Call → Bool
is_restore path (restores_header p) = p == path
is_restore path _ = false

-- The header of the file was restored onto the device, with success.
unfoldable pub restored : String → String → List Event → Bool
restored device path [] = false
restored device path ((c, a) ∷ es) =
    (is_restore path c && (not (is_neg a) && (opened_on es == device))) || restored device path es

abbrev pub Restored : String → String → World → Type 0
Restored device path w = restored device path w.events ≡ true

pub Restored-Brackets :
    (device path : String) → Brackets (Restored device path) (Restored device path)
unfolding restored
Restored-Brackets device path = record {
  outside = λ c q a w h. ground arith;
  inside = λ c q a w h. ground arith;
  opening = λ c q a k w h. ground arith;
  failing = λ c q a k w h. ground arith;
  closing = λ a w h. ground arith;
  globals = λ r d w h. h;
}

pub init_header_device-Restored :
    (env : Env) (device path : String) (w : World)
    → (init_header_device env device path w).0.result ≡ pos 0
    → Restored device path (init_header_device env device path w).1
unfolding init_header_device with_handle restore_body checked call restored opened_on fail
init_header_device-Restored env device path w h =
    let a = env.code w.events (inits device) in
    let b = env.code ((inits device, a) ∷ w.events) (restores_header path) in
    elim (Bool-cases (is_neg a)) [
      | inl k ↦ ground (arith, rw k at h)
      | inr k ↦ elim (Bool-cases (is_neg b)) [
        | inl l ↦ ground (arith, rw (k, l) at h)
        | inr l ↦
            rw (k, l)
              ((drop_file-Keeps env (Restored device path) (Restored-Brackets device path).outside
                  path _).kept
                _ (ground (arith, eq_refl path, eq_refl device)))
      ]
    ]

setup-Made :
    (env : Env) (params : EncryptParams) (w : World)
    → (do_setup_header env params w).0.result ≡ pos 0
    → Made (header_file params.device) (do_setup_header env params w)
setup-Made env params w h = elim (do_setup_header_lem env params w) [
  | inl s ↦ s
  | inr (f, _) ↦ absurd (ground (arith, f.0, h))
]

-- `bcInitHeaderFile` succeeds only for valid parameters and a device that is neither encrypted nor
-- mounted, and then LUKS2 has been formatted with success on a handle of the file that it gives, the one
-- of the device, and no call comes after the one that frees the handle.
pub init_header_file_lem :
    (env : Env) (params : EncryptParams) (w : World)
    → (init_header_file env params w).0.result ≡ pos 0
    → ((validate_params env params w).0 ≡ true)
      × (is_not_encrypted
            (version_of (env.block_device (validate_params env params w).1.events params.device))
          ≡ true)
      × (mounted (env.block_device (validate_params env params w).1.events params.device) ≡ false)
      × Made (header_file params.device) (init_header_file env params w)
unfolding init_header_file fail
init_header_file_lem env params w h =
    let (valid, w1) = validate_params env params w in
    let device = env.block_device w1.events params.device in
    elim (Bool-cases valid) [
      | inr a ↦ ground (arith, rw a at h)
      | inl a ↦ elim (Bool-cases (is_not_encrypted (version_of device))) [
        | inr b ↦ ground (arith, rw (a, b) at h)
        | inl b ↦ elim (Bool-cases (mounted device)) [
          | inl c ↦ ground (arith, rw (a, b, c) at h)
          | inr c ↦ rw (a, b, c) (refl, refl, refl, setup-Made env params w1 (rw (a, b, c) at h))
        ]
      ]
    ]
