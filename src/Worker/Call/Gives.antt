-- ===== src/Worker/Call/Gives.antt =====
-- What a call that succeeds has checked on its way.
use apfs_for_windows.Common.{Bool, Option, false, inl, inr, none, refl, some, true, ℕ, ◌≡◌, ◌⊎◌}
use apfs_for_windows.Worker.Call.{
  Status, Outcome, ok, err, ended, Call, is_success, proceed, fail_if, or_fail, or_library,
}

-- What holds of the result and the state after success.
abbrev pub After : {S A : Type 0} → (A → S → Type 0) → Outcome A × S → Type 0
After Q (ok a, s) = Q a s
After Q (err e, s) = Unit
After Q (ended x, s) = Unit

module _ {S A : Type 0} (Q : A → S → Type 0) where
  pub After-success :
      (out : Outcome A × S) → After Q out → is_success out.0 ≡ true → (a : A) × Q a out.1
  After-success (ok a, s) q e = (a, q)
  After-success (err x, s) q e = cc
  After-success (ended x, s) q e = cc

  pub After-fail_if :
      (b : Bool) (e : Status) (f : Unit {0} → Call S A) (s : S)
      → (b ≡ false → After Q (f tt s))
      → After Q (proceed f (fail_if b e s))
  After-fail_if true e f s k = tt
  After-fail_if false e f s k = k refl

  pub After-or_fail :
      {B : Type 0} (o : Option B) (e : Status) (f : B → Call S A) (s : S)
      → ((b : B) → o ≡ some b → After Q (f b s))
      → After Q (proceed f (or_fail o e s))
  After-or_fail none e f s k = tt
  After-or_fail (some b) e f s k = k b refl

  pub After-or_library :
      {B : Type 0} (r : ℕ ⊎ B) (f : B → Call S A) (s : S)
      → ((b : B) → r ≡ inr b → After Q (f b s))
      → After Q (proceed f (or_library r s))
  After-or_library (inl code) f s k = tt
  After-or_library (inr b) f s k = k b refl

  pub After-bind :
      {B : Type 0} (R : B → S → Type 0) (out : Outcome B × S) (f : B → Call S A)
      → After R out
      → ((b : B) (s : S) → R b s → After Q (f b s))
      → After Q (proceed f out)
  After-bind R (ok b, s) f r k = k b s r
  After-bind R (err e, s) f r k = tt
  After-bind R (ended x, s) f r k = tt
