-- ===== src/Json.antt =====
-- JSON values as `json.loads` gives them, and the column types that hold them.
use bsnexus.Domain.{
  deliverable_status_eq, deliverable_type_eq, proof_aspect_status_eq, proof_aspect_type_eq,
  proof_state_eq, request_status_eq, run_attempt_phase_eq, run_attempt_status_eq,
  work_plan_status_eq, work_step_status_eq,
}
use bsnexus.Prelude.{
  Bool, Option, String, if◌then◌else◌, nat_eq, none, option_eq, some, string_eq, ℕ, ◌==◌,
}

mutual
  pub data Value : Type 0 where
    null : Value
    bool : Bool → Value
    num : ℕ → Value
    str : String → Value
    obj : Fields → Value
    arr : Items → Value

  pub data Fields : Type 0 where
    field : String → Value → Fields → Fields
    end : Fields

  pub data Items : Type 0 where
    cons : Value → Items → Items
    nil : Items

-- `d.get(key)`; the last of two equal keys has won when the text was read
abbrev pub get_field : String → Fields → Option Value
get_field k Fields.end = none
get_field k (Fields.field j v rest) = if j == k then some v else get_field k rest
