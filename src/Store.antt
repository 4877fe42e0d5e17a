-- ===== src/Store.antt =====
-- The database session: its tables, and SQLAlchemy's reads and writes of one row.
pub mod Tables
use bsnexus.Domain.{
  deliverable_status_eq, deliverable_type_eq, proof_aspect_status_eq, proof_aspect_type_eq,
  proof_state_eq, request_status_eq, run_attempt_phase_eq, run_attempt_status_eq,
  work_plan_status_eq, work_step_status_eq,
}
use bsnexus.Effects.{Result, err, ok, other_error}
use bsnexus.Models.{
  Decision, Deliverable, Project, Request, RunAttempt, VerificationAspect, WorkPlan, WorkStep,
}
use bsnexus.Prelude.{
  List, Option, [], if◌then◌else◌, int_eq, nat_eq, none, option_eq, some, string_eq, ℕ, ◌==◌, ◌∷◌,
}

-- a table's primary key
pub record HasId (A : Type 0) : Type 0 where
  pub id_of : A → ℕ

instance abbrev pub project_has_id : HasId Project
project_has_id = record { id_of = λ r. r.id }

instance abbrev pub request_has_id : HasId Request
request_has_id = record { id_of = λ r. r.id }

instance abbrev pub work_step_has_id : HasId WorkStep
work_step_has_id = record { id_of = λ r. r.id }

instance abbrev pub deliverable_has_id : HasId Deliverable
deliverable_has_id = record { id_of = λ r. r.id }

instance abbrev pub decision_has_id : HasId Decision
decision_has_id = record { id_of = λ r. r.id }

instance abbrev pub run_attempt_has_id : HasId RunAttempt
run_attempt_has_id = record { id_of = λ r. r.id }

module _ {A : Type 0} ⦃h : HasId A⦄ where
  -- `session.get(A, key)`
  unfoldable pub get : ℕ → List A → Option A
  get key [] = none
  get key (r ∷ rs) = if h.id_of r == key then some r else get key rs

  -- assignments to the attributes of the object with this key
  unfoldable pub update : ℕ → (A → A) → List A → List A
  update key f [] = []
  update key f (r ∷ rs) = if h.id_of r == key then f r ∷ rs else r ∷ update key f rs

pub record Store : Type 0 where
  pub projects : List Project
  pub requests : List Request
  pub plans : List WorkPlan
  pub steps : List WorkStep
  pub attempts : List RunAttempt
  pub deliverables : List Deliverable
  pub decisions : List Decision
  pub aspects : List VerificationAspect
  pub next_id : ℕ
  pub now : ℕ

-- `session.refresh` of an object whose row is gone raises
abbrev pub found {ℓ} : {A : Type ℓ} → Option A → Result A
found none = err (other_error "InvalidRequestError")
found (some a) = ok a
