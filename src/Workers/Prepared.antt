-- ===== src/Workers/Prepared.antt =====
-- encrypt/encryptworker.cpp: what the success of `PrencryptWorker` says.
use dde_file_manager_extensi.Prelude.{
  ℤ, pos, is_zero, is_empty, true, false, ◌≡◌, refl, Option, none, some, arith, Bool-cases, inl,
  inr, String, subst, ap, sym, ◌∙◌,
}
use dde_file_manager_extensi.DiskEncrypt.{fail, EncryptParams, disabled_encrypt_path}
use dde_file_manager_extensi.DiskEncrypt.Calls.{Env, World}
use dde_file_manager_extensi.DiskEncrypt.Device.{validate_params}
use dde_file_manager_extensi.DiskEncrypt.Header.{
  Header, header_file, init_header_file, init_header_device,
}
use dde_file_manager_extensi.DiskEncrypt.Restore.{
  Restored, Restored-Brackets, init_header_device-Restored, init_header_file_lem,
}
use dde_file_manager_extensi.Workers.{Params, convert_params}
use dde_file_manager_extensi.Workers.Prepare.{listed, apply_prepared, prencrypt_run}
use dde_file_manager_extensi.Workers.Keeps.{cache_token-Keeps}

zero_of : (z : ℤ) → is_zero z ≡ true → z ≡ pos 0
zero_of z h = ground arith

abbrev path_of : Option Header → String
path_of none = ""
path_of (some header) = header.path

apply_prepared-Restored :
    (env : Env) (params : EncryptParams) (err : ℤ) (o : Option Header) (w : World)
    → (apply_prepared env params err o w).0.exit_code ≡ pos 0
    → (err ≡ pos 0)
      × ((header : Header) × (o ≡ some header)
          × Restored params.device header.path (apply_prepared env params err o w).1)
unfolding apply_prepared fail
apply_prepared-Restored env params err none w h = absurd (ground arith)
apply_prepared-Restored env params err (some header) w h =
    let (o, w1) = init_header_device env params.device header.path w in
    elim (Bool-cases (is_zero err)) [
      | inr a ↦ absurd (ground (arith, rw a at h))
      | inl a ↦ elim (Bool-cases (is_empty header.path)) [
        | inl b ↦ absurd (ground (arith, rw (a, b) at h))
        | inr b ↦ elim (Bool-cases (is_zero o.result)) [
          | inr c ↦ absurd (ground (arith, rw (a, b, c) at h))
          | inl c ↦
              rw (a, b, c)
                (
                  zero_of err a,
                  (
                    header,
                    refl,
                    cache_token-Keeps env _ _ (Restored-Brackets params.device header.path) params
                        w1
                        (init_header_device-Restored env params.device header.path w
                          (zero_of o.result c)),
                  ),
                )
        ]
      ]
    ]

-- Where a preparation that is to encrypt at once ends with success, the header that was made in the
-- file of the device has been restored onto the device with success.
pub prencrypt_run-Restored :
    (env : Env) (params : Params) (w : World)
    → params.to_flag "initParamsOnly" ≡ false
    → (prencrypt_run env params w).0.exit_code ≡ pos 0
    → Restored
        (params.to_text "device")
        (header_file (params.to_text "device"))
        (prencrypt_run env params w).1
unfolding prencrypt_run convert_params fail
prencrypt_run-Restored env params w now h =
    let enc = convert_params params in
    let (valid, w1) = validate_params env enc w in
    let (o, w2) = init_header_file env enc w1 in
    elim (Bool-cases (listed env (params.to_text "mountpoint") disabled_encrypt_path)) [
      | inl a ↦ absurd (ground (arith, rw a at h))
      | inr a ↦ elim (Bool-cases valid) [
        | inr b ↦ absurd (ground (arith, rw (a, now, b) at h))
        | inl b ↦
            let (zero, (header, e, r)) =
              apply_prepared-Restored env enc o.result o.out w2 (rw (a, now, b) at h) in
            let (_, _, _, ((_, header', e', path), _, _)) = init_header_file_lem env enc w1 zero in
            rw (a, now, b)
              (subst (λ p. Restored enc.device p (apply_prepared env enc o.result o.out w2).1)
                (ap path_of (sym e ∙ e') ∙ path) r)
      ]
    ]
