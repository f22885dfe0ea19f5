-- ===== src/Worker/Call/Safe.antt =====
-- Calls that keep a property of the state whichever way they end, and that no null session and no
-- dangling context ends.
use apfs_for_windows.Common.{
  Bool, Option, false, inl, inr, none, some, true, ℕ, ◌≡◌, ◌⊎◌, if◌then◌else◌,
}
use apfs_for_windows.Worker.Call.{
  Status, Outcome, ok, err, ended, null_session, test_fault, dangling_context, Call, pure, fail,
  proceed, gets, modify, fail_if, or_fail, or_library, Fine, Reaches, ◌>>=◌, ◌>>◌,
}

pub record Safe {S A : Type 0} (P : S → Type 0) (m : Call S A) : Type 0 where
  pub apply : (s : S) → P s → Fine P (m s)

module _ {S : Type 0} (Q Q' E : S → Type 0) where
  pub Reaches-proceed :
      {A B : Type 0} (f : A → Call S B) (r : Outcome A × S)
      → Reaches Q E r
      → ((a : A) (s : S) → Q s → Reaches Q' E (f a s))
      → Reaches Q' E (proceed f r)
  Reaches-proceed f (ok a, s) h k = k a s h
  Reaches-proceed f (err e, s) h k = h
  Reaches-proceed f (ended null_session, s) h k = h
  Reaches-proceed f (ended dangling_context, s) h k = h
  Reaches-proceed f (ended test_fault, s) h k = tt

-- From P a call leads to Q where it succeeds, and to E where it fails.
pub record Leads {S A : Type 0} (P Q E : S → Type 0) (m : Call S A) : Type 0 where
  pub leads : (s : S) → P s → Reaches Q E (m s)

module _ {S : Type 0} {P Q R E : S → Type 0} where
  pub Leads-bind :
      {A B : Type 0} {m : Call S A} {f : A → Call S B}
      → Leads P Q E m
      → ((a : A) → Leads Q R E (f a))
      → Leads P R E (m >>= f)
  Leads-bind {m} {f} h k = record {
    leads = λ s p. Reaches-proceed Q R E f (m s) (h.leads s p) (λ a s' q. (k a).leads s' q);
  }

  pub Leads-then :
      {B : Type 0} {m : Call S (Unit {0})} {n : Call S B}
      → Leads P Q E m
      → Leads Q R E n
      → Leads P R E (m >> n)
  Leads-then h k = Leads-bind h (λ _. k)

module _ {S : Type 0} {P Q E : S → Type 0} where
  pub Leads-modify : (f : S → S) → ((s : S) → P s → Q (f s)) → Leads P Q E (modify f)
  Leads-modify f h = record { leads = h }

module _ {S : Type 0} {P E : S → Type 0} where
  pub Leads-gets : {A : Type 0} (f : S → A) → Leads P P E (gets f)
  Leads-gets f = record { leads = λ s p. p }

  pub Leads-fail : {A : Type 0} (e : Status) → Leads E P E (fail {A = A} e)
  Leads-fail e = record { leads = λ s p. p }

  pub Leads-pure : {A : Type 0} (a : A) → Leads P P E (pure a)
  Leads-pure a = record { leads = λ s p. p }

module _ {S : Type 0} {P : S → Type 0} where
  pub Safe-bind :
      {A B : Type 0} {m : Call S A} {f : A → Call S B}
      → Safe P m
      → ((a : A) → Safe P (f a))
      → Safe P (m >>= f)
  Safe-bind {m} {f} h k = record {
    apply = λ s p. Reaches-proceed P P P f (m s) (h.apply s p) (λ a s' p'. (k a).apply s' p');
  }

  pub Safe-then :
      {B : Type 0} {m : Call S (Unit {0})} {n : Call S B} → Safe P m → Safe P n → Safe P (m >> n)
  Safe-then h k = Safe-bind h (λ _. k)

  pub Safe-Leads : {A : Type 0} {m : Call S A} → Safe P m → Leads P P P m
  Safe-Leads h = record { leads = h.apply }

  pub Safe-pure : {A : Type 0} {a : A} → Safe P (pure a)
  Safe-pure = record { apply = λ s p. p }

  pub Safe-fail : {A : Type 0} {e : Status} → Safe P (fail {A = A} e)
  Safe-fail = record { apply = λ s p. p }

  pub Safe-gets : {A : Type 0} {f : S → A} → Safe P (gets f)
  Safe-gets = record { apply = λ s p. p }

  pub Safe-modify : {f : S → S} → ((s : S) → P s → P (f s)) → Safe P (modify f)
  Safe-modify h = record { apply = h }

  pub Safe-fail_if : (e : Status) (b : Bool) → Safe P (fail_if b e)
  Safe-fail_if e true = record { apply = λ s p. p }
  Safe-fail_if e false = record { apply = λ s p. p }

  pub Safe-or_fail : {A : Type 0} (e : Status) (o : Option A) → Safe P (or_fail o e)
  Safe-or_fail e none = record { apply = λ s p. p }
  Safe-or_fail e (some a) = record { apply = λ s p. p }

  pub Safe-if :
      {A : Type 0} {m n : Call S A} (b : Bool) → Safe P m → Safe P n → Safe P (if b then m else n)
  Safe-if true h k = h
  Safe-if false h k = k

  pub Safe-or_library : {A : Type 0} (r : ℕ ⊎ A) → Safe P (or_library r)
  Safe-or_library (inl code) = record { apply = λ s p. p }
  Safe-or_library (inr a) = record { apply = λ s p. p }

-- A branch that is taken.
pub Fine-if :
    {S A : Type 0} (P : S → Type 0) (b : Bool) (x y : Outcome A × S)
    → b ≡ true
    → Fine P x
    → Fine P (if b then x else y)
Fine-if P true x y e h = h
Fine-if P false x y e h = cc

pub Fine-branches :
    {S A : Type 0} (P : S → Type 0) (b : Bool) (x y : Outcome A × S)
    → Fine P x
    → Fine P y
    → Fine P (if b then x else y)
Fine-branches P true x y h k = h
Fine-branches P false x y h k = k

-- A guard that refuses.
pub Fine-refused :
    {S A : Type 0} (P : S → Type 0) (b : Bool) (e : Status) (f : Unit {0} → Call S A) (s : S)
    → b ≡ true
    → P s
    → Fine P (proceed f (fail_if b e s))
Fine-refused P true e f s t p = p
Fine-refused P false e f s t p = cc

-- A call that does nothing, or whose guard refuses.
pub Fine-skips :
    {S : Type 0} (P : S → Type 0) (b c : Bool) (e : Status)
    → (f : Unit {0} → Call S (Unit {0})) (s : S) → c ≡ true
    → P s
    → Fine P ((if b then pure tt else (fail_if c e >>= f)) s)
Fine-skips P true c e f s t p = p
Fine-skips P false c e f s t p = Fine-refused P c e f s t p

pub ruleset safe_rules = (
  Safe-bind, Safe-then, Safe-pure, Safe-fail, Safe-gets, Safe-fail_if, Safe-or_fail,
  Safe-or_library, Safe-if,
)
