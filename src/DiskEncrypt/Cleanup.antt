-- ===== src/DiskEncrypt/Cleanup.antt =====
-- encrypt/diskencrypt.cpp: how `bcDoSetupHeader` ends, and what its clean-up removes.
use dde_file_manager_extensi.Prelude.{
  ℤ, pos, negsuc, ◌*◌, ◌/◌, ◌&&◌, not, is_neg, String, Bool, true, false, ◌==◌, ◌||◌, ◌≡◌, refl, ap,
  ◌∙◌, ◌⊎◌, inl, inr, Option, none, some, List, [], ◌∷◌, arith, Bool-cases, Option-cases, eq_refl,
}
use dde_file_manager_extensi.DiskEncrypt.{
  EncryptParams, Status, success, value_of, fail, init_crypt, create_header,
}
use dde_file_manager_extensi.DiskEncrypt.Calls.{
  Env, World, Event, Call, Outcome, Step, returns, goes_on, removes_file, inits, frees, formats,
  sets_rng_type, sets_data_offset, opened_on, call, checked, with_handle,
}
use dde_file_manager_extensi.DiskEncrypt.Resize.{shrink_file_system}
use dde_file_manager_extensi.DiskEncrypt.Header.{
  Header, header_file, prepare_header_file, fill_header, setup_body, undo_setup, setup_with,
  do_setup_header,
}
use dde_file_manager_extensi.DiskEncrypt.Keeps.{Allows}
use dde_file_manager_extensi.DiskEncrypt.Bodies.{fill_header-Keeps, expand_file_system-Keeps}
use dde_file_manager_extensi.DiskEncrypt.Outcomes.{
  failure, Yields, bind-Yields, lift-Exits, checked-Yields, return-Yields,
}

-- Success with a header in the file, or an error and no header.
abbrev pub Success : String → Outcome Header → Type 0
Success path o =
    (o.result ≡ pos 0) × (header : Header) × (o.out ≡ some header) × (header.path ≡ path)

abbrev pub Failure : Outcome Header → Type 0
Failure o = (is_neg o.result ≡ true) × (o.out ≡ none)

abbrev Ended : String → Outcome Header → Type 0
Ended path o = (Success path o × (is_neg o.ret ≡ false)) ⊎ (Failure o × (is_neg o.ret ≡ true))

abbrev removal_of : String → Call → Bool
removal_of path (removes_file p) = p == path
removal_of path _ = false

-- The removal of the file was called in the run.
unfoldable pub removed : String → List Event → Bool
removed path [] = false
removed path ((c, a) ∷ es) = removal_of path c || removed path es

-- The header in the file was formatted, with success.
abbrev is_format : Call → Bool
is_format (formats cipher mode size device) = true
is_format _ = false

unfoldable pub formatted : String → List Event → Bool
formatted path [] = false
formatted path ((c, a) ∷ es) =
    (is_format c && (not (is_neg a) && (opened_on es == path))) || formatted path es

-- The last call frees the handle: nothing touches the file after that.
unfoldable pub freed_last : List Event → Bool
freed_last ((frees, a) ∷ es) = true
freed_last _ = false

-- A header that is made: formatted in the file, which is left there.
abbrev pub Made : String → Outcome Header × World → Type 0
Made path (o, w) = Success path o × (formatted path w.events ≡ true) × (freed_last w.events ≡ true)

allows-formatted : (path : String) → Allows (λ w. formatted path w.events ≡ true)
unfolding formatted
allows-formatted path c q a w h = ground arith

allows-removed : (path : String) → Allows (λ w. removed path w.events ≡ true)
unfolding removed
allows-removed path c q a w h = ground arith

abbrev is_error : Status → Bool
is_error success = false
is_error _ = true

fail-is_neg : (error : Status) → is_error error ≡ true → is_neg (fail error) ≡ true
unfolding fail value_of
fail-is_neg error h = ground arith

module _ (env : Env) (params : EncryptParams) (path : String) where
  setup_body-Yields :
      (P : Outcome Header → Type 0)
      → ((error : Status) (ret : ℤ)
          → is_error error ≡ true
          → is_neg ret ≡ true
          → P (failure error ret))
      → ((ret slot : ℤ) (rec_slot : Option ℤ)
          → is_neg ret ≡ false
          → P (record {
            result = pos 0;
            ret = ret;
            out = some (record { path = path; keyslot_cipher = slot; keyslot_rec_key = rec_slot });
          }))
      → Yields P (setup_body env params path)
  unfolding setup_body fill_header
  setup_body-Yields P failed done =
      search (checked-Yields, bind-Yields, lift-Exits, return-Yields, failed, done) depth 30

  undo_setup-removed :
      (ret : ℤ) (w : World)
      → is_neg ret ≡ true
      → removed path (undo_setup env params.device path ret w).1.events ≡ true
  unfolding undo_setup removed call
  undo_setup-removed ret w h = rw h (
      (expand_file_system-Keeps env _ (allows-removed path) params.device).kept _
        (ground (arith, eq_refl path)))

  abbrev result_of : {A : Type 0} → Step Header A → ℤ
  result_of (returns o) = o.result
  result_of (goes_on a) = negsuc 0

  setup_body-formatted :
      (w : World)
      → opened_on w.events ≡ path
      → result_of (setup_body env params path w).0 ≡ pos 0
      → formatted path (setup_body env params path w).1.events ≡ true
  unfolding setup_body checked call fail formatted opened_on
  setup_body-formatted w here h =
      let (_, w1) = call env sets_rng_type w in
      let (b, w2) = call env (sets_data_offset (32 * 1024)) w1 in
      let (f, w3) = call env (formats params.cipher "xts-plain64" (256 / 8) params.device) w2 in
      elim (Bool-cases (is_neg b)) [
        | inl k ↦ absurd (ground (arith, rw k at h))
        | inr k ↦ elim (Bool-cases (is_neg f)) [
          | inl l ↦ absurd (ground (arith, rw (k, l) at h))
          | inr l ↦
              rw (k, l)
                ((fill_header-Keeps env _ (allows-formatted path) params path).kept w3
                  (ground (arith, here, eq_refl path)))
        ]
      ]

  abbrev Result : Outcome Header × World → Type 0
  Result (o, w) = Made path (o, w) ⊎ (Failure o × (removed path w.events ≡ true))

  ended_with :
      (o : Outcome Header) (w : World)
      → Ended path o
      → (o.result ≡ pos 0 → formatted path w.events ≡ true)
      → freed_last w.events ≡ true
      → Result (o, (undo_setup env params.device path o.ret w).1)
  unfolding undo_setup
  ended_with o w (inl (h, good)) made freed = inl (rw good (h, made h.0, freed))
  ended_with o w (inr (h, k)) made freed = inr (h, undo_setup-removed o.ret w k)

  with_handle-Result :
      (w : World)
      → Result (
          with_handle env
            (inits path)
            (setup_body env params path)
            (undo_setup env params.device path)
            w)
  unfolding with_handle call formatted freed_last opened_on
  with_handle-Result w =
      let (ret, w1) = call env (inits path) w in
      elim (Bool-cases (is_neg ret)) [
        | inl k ↦ rw k (inr ((fail-is_neg init_crypt refl, refl), undo_setup-removed ret w1 k))
        | inr k ↦
            let (o, e, p) =
              (setup_body-Yields (Ended path)
                  (λ error ret h k. inr ((fail-is_neg error h, refl), k))
                  (λ ret slot rec_slot good. inl ((refl, _, refl, refl), good))).yields
                w1 in
            rw (k, e)
              (ended_with o _ p (λ z. setup_body-formatted w1 refl (ap result_of e ∙ z)) refl)
      ]

prepare-path :
    (env : Env) (device : String) (w : World) (path : String)
    → (prepare_header_file env device w).0.1 ≡ some path
    → path ≡ header_file device
unfolding prepare_header_file
prepare-path env device w path h = ground arith

-- The end of `bcDoSetupHeader`: it succeeds, and then it gives the file that `bcPrepareHeaderFile` named,
-- LUKS2 has been formatted with success on a handle of that file, and no call comes after the one that
-- frees the handle; or it fails with an error code and without a header, and then either that function
-- gave no file, or the removal of the file has been called.
pub do_setup_header_lem :
    (env : Env) (params : EncryptParams) (w : World)
    → Made (header_file params.device) (do_setup_header env params w)
      ⊎ (Failure (do_setup_header env params w).0
          × (((prepare_header_file env params.device w).0.1 ≡ none)
              ⊎ (removed (header_file params.device) (do_setup_header env params w).1.events
                  ≡ true)))
unfolding do_setup_header setup_with
do_setup_header_lem env params w =
    elim (Option-cases (prepare_header_file env params.device w).0.1) [
      | inl e ↦ rw e (inr ((fail-is_neg create_header refl, refl), inl refl))
      | inr (path, e) ↦
          let w1 =
            (shrink_file_system env params.device (prepare_header_file env params.device w).1).1 in
          let named = prepare-path env params.device w path e in
          rw (e, named)
            (elim (with_handle-Result env params (header_file params.device) w1) [
              | inl h ↦ inl h
              | inr (h, k) ↦ inr (h, inr k)
            ])
    ]
