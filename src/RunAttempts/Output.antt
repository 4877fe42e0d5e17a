-- ===== src/RunAttempts/Output.antt =====
-- `accept_llm_phase_output` of core/run_attempts.py: what an LLM's phase output can reach.
use bsnexus.Domain.{
  deliverable_status_eq, deliverable_type_eq, proof_aspect_status_eq, proof_aspect_type_eq,
  proof_state_eq, request_status_eq, run_attempt_phase_eq, run_attempt_status_eq,
  work_plan_status_eq, work_step_status_eq,
}
use bsnexus.Json.{Fields, get_field}
use bsnexus.Models.{IgnoredFields, RunAttempt}
use bsnexus.Prelude.{
  Bool-cases, List, String, arith, contains, filter, if◌then◌else◌, inl, inr, int_eq, length,
  nat_beq, nat_eq, none, option_eq, refl, string_eq, ◌==◌, ◌∙◌, ◌≡◌,
}
use bsnexus.RunAttempts.Defs.{forbidden_llm_system_fields, llm_owned_fields}
use bsnexus.RunAttempts.Events.{accept_llm_phase_output, field_names, keep_fields}
use bsnexus.Store.{
  decision_has_id, deliverable_has_id, project_has_id, request_has_id, run_attempt_has_id,
  work_step_has_id,
}

-- the log of ignored fields is the one part of an attempt that the filter may write
abbrev pub IsLogged : RunAttempt → RunAttempt → Type 0
IsLogged a b =
    (logged : List IgnoredFields) × (b
      ≡ record a { telemetry = record (a.telemetry) { ignored_llm_system_fields = logged } })

keep-get :
    (keys : List String) (fields : Fields) (k : String)
    → get_field k (keep_fields keys fields) ≡ (if contains k keys then get_field k fields else none)
unfolding keep_fields
keep-get keys Fields.end k = ground arith
keep-get keys (Fields.field j v rest) k = elim (Bool-cases (j == k)) [
  | inl h ↦ rw (← (string_eq.beq_iff j k).0 h) (elim (Bool-cases (contains j keys)) [
    | inl c ↦ rw (c, (string_eq.beq_iff j j).1 refl) refl
    | inr c ↦ rw c (keep-get keys rest j ∙ rw c refl)
  ])
  | inr h ↦ elim (Bool-cases (contains j keys)) [
    | inl c ↦ rw (c, h) (keep-get keys rest k)
    | inr c ↦ rw (c, h) (keep-get keys rest k)
  ]
]

abbrev ignored_names : (List String → List String) → Fields → List String
ignored_names sort_names payload =
    sort_names (filter (λ k. contains k forbidden_llm_system_fields) (field_names payload))

-- A field of the accepted output is the payload's, for the fields that an LLM owns, and absent for
-- every other one; of the attempt nothing but the log of ignored fields is written.
pub accept_output_exact :
    (sort_names : List String → List String) (payload : Fields) (a : RunAttempt) (k : String)
    → let (accepted, b) = accept_llm_phase_output sort_names payload a in
      (get_field k accepted ≡ (if contains k llm_owned_fields then get_field k payload else none))
      × IsLogged a b
unfolding accept_llm_phase_output
accept_output_exact sort_names payload a k =
    elim (Bool-cases (nat_beq (length (ignored_names sort_names payload)) 0)) [
      | inl h ↦
          rw (h, accept_llm_phase_output)
            (keep-get llm_owned_fields payload k, (a.telemetry.ignored_llm_system_fields, refl))
      | inr h ↦ rw (h, accept_llm_phase_output) (keep-get llm_owned_fields payload k, (_, refl))
    ]
