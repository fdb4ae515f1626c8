-- ===== src/DiskEncrypt/Outcomes.antt =====
-- Bodies of which every return has a property.
use dde_file_manager_extensi.Prelude.{
  ℤ, is_neg, true, false, ◌≡◌, refl, Option, none, Bool-cases, inl, inr,
}
use dde_file_manager_extensi.DiskEncrypt.{Status, fail}
use dde_file_manager_extensi.DiskEncrypt.Calls.{
  Env, World, Action, Body, Call, Outcome, Step, returns, goes_on, call, checked, return, lift,
  continue, ◌>>=◌,
}

abbrev pub failure : {R : Type 0} → Status → ℤ → Outcome R
failure error ret = record { result = fail error; ret = ret; out = none }

abbrev IfReturns : {R A : Type 0} → (Outcome R → Type 0) → Step R A → Type 0
IfReturns P (returns o) = P o
IfReturns P (goes_on a) = Unit

abbrev Returned : {R A : Type 0} → (Outcome R → Type 0) → Step R A → Type 0
Returned {R} P s = (o : Outcome R) × (s ≡ returns o) × P o

-- The body may go on; it returns, and so with the property.
pub record Exits {R A : Type 0} (P : Outcome R → Type 0) (m : Body R A) : Type 0 where
  pub exits : (w : World) → IfReturns P (m w).0

pub record Yields {R A : Type 0} (P : Outcome R → Type 0) (m : Body R A) : Type 0 where
  pub yields : (w : World) → Returned P (m w).0

continue-Returned :
    {R A B : Type 0} (P : Outcome R → Type 0) (r : Step R A × World) (f : A → Body R B)
    → IfReturns P r.0
    → ((a : A) → Yields P (f a))
    → Returned P (continue r f).0
continue-Returned P (returns o, w) f h k = (o, refl, h)
continue-Returned P (goes_on a, w) f h k = (k a).yields w

module _ (R : Type 0) (P : Outcome R → Type 0) where
  pub bind-Yields :
      {A B : Type 0} (m : Body R A) (f : A → Body R B)
      → Exits P m
      → ((a : A) → Yields P (f a))
      → Yields P (m >>= f)
  bind-Yields m f h k = record { yields = λ w. continue-Returned P (m w) f (h.exits w) k }

  pub lift-Exits : {A : Type 0} (m : Action A) → Exits P (lift {R = R} m)
  lift-Exits m = record { exits = λ w. tt }

  pub checked-Exits :
      (env : Env) (c : Call) (error : Status)
      → ((ret : ℤ) → is_neg ret ≡ true → P (failure error ret))
      → Exits P (checked env c error)
  unfolding checked
  checked-Exits env c error h = record {
    exits =
        λ w. elim (Bool-cases (is_neg (call env c w).0)) [ inl k ↦ rw k (h _ k) | inr k ↦ rw k tt ];
  }

  -- What follows a checked call knows that the call has not failed.
  pub checked-Yields :
      {B : Type 0} (env : Env) (c : Call) (error : Status) (f : ℤ → Body R B)
      → ((ret : ℤ) → is_neg ret ≡ true → P (failure error ret))
      → ((ret : ℤ) → is_neg ret ≡ false → Yields P (f ret))
      → Yields P (checked env c error >>= f)
  unfolding checked
  checked-Yields env c error f h k = record {
    yields = λ w. elim (Bool-cases (is_neg (call env c w).0)) [
      | inl n ↦ rw n (_, refl, h _ n)
      | inr n ↦ rw n ((k _ n).yields _)
    ];
  }

  pub return-Yields :
      (result ret : ℤ) (out : Option R)
      → P (record { result = result; ret = ret; out = out })
      → Yields P (return result ret out)
  return-Yields result ret out h = record { yields = λ w. (_, refl, h) }
