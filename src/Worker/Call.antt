-- ===== src/Worker/Call.antt =====
-- src/worker/apfs_winfs_worker.cpp: how a function of the mounted volume ends, and the monad of
-- such functions over a state. An error leaves what was written in the state. A call through the
-- null session of the reader and the exit of the fault test end the process.

-- The NTSTATUS values that are no success, by their names; `of_library` is one that WinFsp or Win32
-- returned.

pub mod Safe
pub mod Gives
use apfs_for_windows.Common.{Bool, Option, false, inl, inr, none, some, true, ℕ, ◌⊎◌}

pub data Status : Type 0 where
  invalid_parameter invalid_device_request end_of_file access_denied not_a_directory : Status
  object_name_not_found object_name_collision media_write_protected not_supported : Status
  insufficient_resources file_too_large directory_not_empty unrecognized_volume : Status
  ea_list_inconsistent not_a_reparse_point io_reparse_data_invalid : Status
  io_reparse_tag_not_handled buffer_too_small buffer_overflow name_too_long is_reparse : Status
  of_library : ℕ → Status

pub data End : Type 0 where
  null_session test_fault dangling_context : End

pub data Outcome (A : Type 0) : Type 0 where
  ok : A → Outcome A
  err : Status → Outcome A
  ended : End → Outcome A

abbrev pub Call : Type 0 → Type 0 → Type 0
Call S A = S → Outcome A × S

abbrev pub pure : {S A : Type 0} → A → Call S A
pure a s = (ok a, s)

abbrev pub fail : {S A : Type 0} → Status → Call S A
fail e s = (err e, s)

-- The rest of a call, after an outcome and in the state that it left.
abbrev pub proceed : {S A B : Type 0} → (A → Call S B) → Outcome A × S → Outcome B × S
proceed f (ok a, s) = f a s
proceed f (err e, s) = (err e, s)
proceed f (ended x, s) = (ended x, s)

infixl 5 ◌>>=◌ ◌>>◌
abbrev pub ◌>>=◌ : {S A B : Type 0} → Call S A → (A → Call S B) → Call S B
◌>>=◌ m f s = proceed f (m s)

abbrev pub ◌>>◌ : {S B : Type 0} → Call S (Unit {0}) → Call S B → Call S B
m >> k = m >>= λ _. k

abbrev pub gets : {S A : Type 0} → (S → A) → Call S A
gets f s = (ok (f s), s)

abbrev pub modify : {S : Type 0} → (S → S) → Call S (Unit {0})
modify f s = (ok tt, f s)

-- An early return with an error.
abbrev pub fail_if : {S : Type 0} → Bool → Status → Call S (Unit {0})
fail_if true e s = (err e, s)
fail_if false e s = (ok tt, s)

abbrev pub or_fail : {S A : Type 0} → Option A → Status → Call S A
or_fail none e s = (err e, s)
or_fail (some a) e s = (ok a, s)

-- The error of a library, or its result.
abbrev pub or_library : {S A : Type 0} → ℕ ⊎ A → Call S A
or_library (inl code) s = (err (of_library code), s)
or_library (inr a) s = (ok a, s)

-- NT_SUCCESS
abbrev pub is_success : {A : Type 0} → Outcome A → Bool
is_success (ok a) = true
is_success (err e) = false
is_success (ended x) = false

-- What holds of the state after success and after an error, and the ends that are ruled out.
abbrev pub Reaches : {S A : Type 0} → (S → Type 0) → (S → Type 0) → Outcome A × S → Type 0
Reaches Q E (ok a, s) = Q s
Reaches Q E (err e, s) = E s
Reaches Q E (ended null_session, s) = ⊥
Reaches Q E (ended dangling_context, s) = ⊥
Reaches Q E (ended test_fault, s) = Unit

-- The same whichever way the call ends.
abbrev pub Fine : {S A : Type 0} → (S → Type 0) → Outcome A × S → Type 0
Fine P r = Reaches P P r
