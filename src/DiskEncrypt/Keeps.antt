-- ===== src/DiskEncrypt/Keeps.antt =====
-- Invariants of a run: predicates on the world that the calls keep, and so the functions that only
-- make such calls.
use dde_file_manager_extensi.Prelude.{
  ℤ, is_neg, String, Bool, true, false, ◌≡◌, Option, ◌∷◌, Bool-cases, inl, inr,
}
use dde_file_manager_extensi.DiskEncrypt.{Status}
use dde_file_manager_extensi.DiskEncrypt.Calls.{
  Env, World, Action, Body, Call, Outcome, Step, returns, goes_on, inits, inits_data, frees, call,
  call_output, checked, require, return, lift, with_handle, continue, ◌>>=◌,
}

-- Every call but those that open or free a handle.
abbrev pub is_quiet : Call → Bool
is_quiet (inits a) = false
is_quiet (inits_data a b) = false
is_quiet frees = false
is_quiet _ = true

abbrev pub is_opening : Call → Bool
is_opening (inits a) = true
is_opening (inits_data a b) = true
is_opening _ = false

abbrev pub after : Call → ℤ → World → World
after c a w = record w { events = (c, a) ∷ w.events }

-- A record, so that the rules below are found by the action they are about.
pub record Keeps (I : World → Type 0) {X : Type 0} (m : World → X × World) : Type 0 where
  pub kept : (w : World) → I w → I (m w).1

-- The invariant is kept by every call that is not about handles.
abbrev pub Allows : (World → Type 0) → Type 0
Allows I = (c : Call) → is_quiet c ≡ true → (a : ℤ) (w : World) → I w → I (after c a w)

continue-Keeps :
    {I : World → Type 0} {R A B : Type 0} (r : Step R A × World) (f : A → Body R B)
    → I r.1
    → ((a : A) → Keeps I (f a))
    → I (continue r f).1
continue-Keeps (returns o, w) f h l = h
continue-Keeps (goes_on a, w) f h l = (l a).kept w h

module _ (env : Env) (I : World → Type 0) (allows : Allows I) where
  pub call-Keeps : (c : Call) → is_quiet c ≡ true → Keeps I (call env c)
  unfolding call
  call-Keeps c q = record { kept = λ w h. allows c q _ w h }

  -- The same at a given world.
  pub call-step : (c : Call) → is_quiet c ≡ true → (w : World) → I w → I (call env c w).1
  call-step c q = (call-Keeps c q).kept

  pub output-step : (c : Call) → is_quiet c ≡ true → (w : World) → I w → I (call_output env c w).1
  unfolding call_output
  output-step c q = (call-Keeps c q).kept

  pub call_output-Keeps : (c : Call) → is_quiet c ≡ true → Keeps I (call_output env c)
  unfolding call_output
  call_output-Keeps c q = record { kept = λ w h. (call-Keeps c q).kept w h }

  pub checked-Keeps :
      (R : Type 0) (c : Call) (error : Status)
      → is_quiet c ≡ true
      → Keeps I (checked env {R = R} c error)
  unfolding checked
  checked-Keeps R c error q = record {
    kept = λ w h. elim (Bool-cases (is_neg (call env c w).0)) [
      | inl k ↦ rw k ((call-Keeps c q).kept w h)
      | inr k ↦ rw k ((call-Keeps c q).kept w h)
    ];
  }

module _ (I : World → Type 0) (R : Type 0) where
  pub lift-Keeps : {A : Type 0} (m : Action A) → Keeps I m → Keeps I (lift {R = R} m)
  lift-Keeps m k = record { kept = λ w h. k.kept w h }

  pub reads-Keeps : {A : Type 0} (f : World → A) → Keeps I (λ w. (f w, w))
  reads-Keeps f = record { kept = λ w h. h }

  pub return-Keeps : (result ret : ℤ) (out : Option R) → Keeps I (return result ret out)
  return-Keeps result ret out = record { kept = λ w h. h }

  pub require-Keeps :
      (test : Bool) (error : Status) (ret : ℤ) → Keeps I (require {R = R} test error ret)
  require-Keeps true error ret = record { kept = λ w h. h }
  require-Keeps false error ret = record { kept = λ w h. h }

  pub bind-Keeps :
      {A B : Type 0} (m : Body R A) (f : A → Body R B)
      → Keeps I m
      → ((a : A) → Keeps I (f a))
      → Keeps I (m >>= f)
  bind-Keeps m f k l = record { kept = λ w h. continue-Keeps (m w) f (k.kept w h) l }

-- A pair of invariants: one outside the handle, one while it is open. The globals do not matter to
-- either.
pub record Brackets (I J : World → Type 0) : Type 0 where
  pub outside : Allows I
  pub inside : Allows J
  pub opening :
      (c : Call)
      → is_opening c ≡ true
      → (a : ℤ) → is_neg a ≡ false
      → (w : World) → I w
      → J (after c a w)
  pub failing :
      (c : Call)
      → is_opening c ≡ true
      → (a : ℤ) → is_neg a ≡ true
      → (w : World) → I w
      → I (after c a w)
  pub closing : (a : ℤ) (w : World) → J w → I (after frees a w)
  pub globals :
      (r d : String) (w : World)
      → I w
      → I (record w { reencrypting_device = r; decrypting_device = d })

module _ (env : Env) (I J : World → Type 0) (brackets : Brackets I J) where
  pub with_handle-Keeps :
      (R : Type 0) (init : Call) (body : Body R (Outcome R)) (finally : ℤ → Action (Unit {0}))
      → is_opening init ≡ true
      → Keeps J body
      → ((ret : ℤ) → Keeps I (finally ret))
      → Keeps I (with_handle env init body finally)
  unfolding with_handle call
  with_handle-Keeps R init body finally q b f = record {
    kept = λ w h. elim (Bool-cases (is_neg (env.code w.events init))) [
      | inl k ↦ rw k ((f _).kept _ (brackets.failing init q _ k w h))
      | inr k ↦
          rw k ((f _).kept _ (brackets.closing _ _ (b.kept _ (brackets.opening init q _ k w h))))
    ];
  }
