-- ===== src/Effects.antt =====
-- The exceptions of the core, and methods that change a state and may raise: what was written before
-- a raise stays written, so the state comes back beside the error too.
use bsnexus.Domain.{RequestStatus, RunAttemptPhase, WorkStepStatus}
use bsnexus.Prelude.{Bool, String, false, if◌then◌else◌, inl, inr, refl, true, ◌≡◌, ◌⊎◌}

-- the messages of `GreenfieldStateError` (core/work_steps.py)
pub data StateFault : Type 0 where
  plan_without_steps : StateFault
  illegal_step : WorkStepStatus → WorkStepStatus → StateFault
  illegal_request : RequestStatus → RequestStatus → StateFault
  unproven_request : StateFault

-- the messages of `RunAttemptStateError` (core/run_attempts.py)
pub data AttemptFault : Type 0 where
  attempt_is_terminal : AttemptFault
  illegal_phase : RunAttemptPhase → RunAttemptPhase → AttemptFault
  needs_finish : AttemptFault
  reason_required : AttemptFault
  still_running : AttemptFault
  tool_not_allowed : String → RunAttemptPhase → AttemptFault

pub data Error : Type 0 where
  greenfield_state : StateFault → Error
  run_attempt_state : AttemptFault → Error
  lookup_error : Error
  branch_op : String → Error
  pull_request_op : String → Error
  other_error : String → Error

pub data Result {ℓ} (A : Type ℓ) : Type ℓ where
  ok : A → Result A
  err : Error → Result A

abbrev pub Exec : Type 0 → Type 0 → Type 0
Exec S A = S → Result A × S

module _ {S A : Type 0} where
  abbrev pub pure : A → Exec S A
  pure a s = (ok a, s)

  abbrev pub raise : Error → Exec S A
  raise e s = (err e, s)

  abbrev pub lift : Result A → Exec S A
  lift r s = (r, s)

  abbrev pub gets : (S → A) → Exec S A
  gets f s = (ok (f s), s)

module _ {S : Type 0} where
  abbrev pub modify : (S → S) → Exec S (Unit {0})
  modify f s = (ok tt, f s)

  abbrev pub when : Bool → Exec S (Unit {0}) → Exec S (Unit {0})
  when b m = if b then m else pure tt

  abbrev pub guard : Bool → Error → Exec S (Unit {0})
  guard b e = if b then pure tt else raise e

module _ {S A B : Type 0} where
  abbrev pub continue : Result A → (A → Exec S B) → Exec S B
  continue (ok a) f s = f a s
  continue (err e) f s = (err e, s)

  infixl 5 ◌>>=◌ ◌>>◌
  abbrev pub ◌>>=◌ : Exec S A → (A → Exec S B) → Exec S B
  ◌>>=◌ m f s = continue (m s).0 f (m s).1

  abbrev pub ◌>>◌ : Exec S A → Exec S B → Exec S B
  m >> n = m >>= λ _. n

abbrev pub is_ok {ℓ} : {A : Type ℓ} → Result A → Bool
is_ok (ok a) = true
is_ok (err e) = false

pub Result-cases {ℓ} :
    {A : Type ℓ} (r : Result A) → ((a : A) × (r ≡ ok a)) ⊎ ((e : Error) × (r ≡ err e))
Result-cases (ok a) = inl (a, refl)
Result-cases (err e) = inr (e, refl)
