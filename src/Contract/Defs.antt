-- ===== src/Contract/Defs.antt =====
-- core/verification_contract.py. `str.lower`, and `str` of a JSON value that is not a text, are the
-- arguments `lower` and `str_of`.
use bsnexus.Domain.{
  deliverable_status_eq, deliverable_type_eq, proof_aspect_status_eq, proof_aspect_type_eq,
  proof_state_eq, request_status_eq, run_attempt_phase_eq, run_attempt_status_eq,
  work_plan_status_eq, work_step_status_eq,
}
use bsnexus.Json.{Fields, Items, Value, get_field}
use bsnexus.Prelude.{
  Bool, List, Option, String, [], contains, false, filter, if◌then◌else◌, is_empty, nat_beq, nat_eq,
  none, not, option_eq, some, string_eq, strip, true, ◌&&◌, ◌++◌, ◌==◌, ◌||◌, ◌∷◌,
}
use bsnexus.Store.{
  decision_has_id, deliverable_has_id, project_has_id, request_has_id, run_attempt_has_id,
  work_step_has_id,
}

pub data CheckKind : Type 0 where
  command judge : CheckKind

pub record VerificationCheck : Type 0 where
  pub kind : CheckKind
  pub command : Option String
  pub criteria : List String
  pub rationale : String

pub record VerificationContract : Type 0 where
  pub checks : List VerificationCheck

-- `bool(v)`
abbrev pub is_truthy : Value → Bool
is_truthy Value.null = false
is_truthy (Value.bool b) = b
is_truthy (Value.num n) = not (nat_beq n 0)
is_truthy (Value.str s) = not (is_empty s)
is_truthy (Value.arr Items.nil) = false
is_truthy (Value.arr (Items.cons v vs)) = true
is_truthy (Value.obj Fields.end) = false
is_truthy (Value.obj (Fields.field k v fs)) = true

abbrev pub texts : List String → Items
texts [] = Items.nil
texts (t ∷ ts) = Items.cons (Value.str t) (texts ts)

-- `VerificationCheck.to_dict`
unfoldable pub check_to_dict : VerificationCheck → Value
check_to_dict c = elim (c.kind) [
  | CheckKind.command ↦ Value.obj (
      Fields.field "kind" (Value.str "command") (
        Fields.field "command" (elim (c.command) [ none ↦ Value.null | some t ↦ Value.str t ])
          (Fields.field "rationale" (Value.str c.rationale) Fields.end)))
  | CheckKind.judge ↦ Value.obj (
      Fields.field "kind" (Value.str "judge") (
        Fields.field "criteria" (Value.arr (texts c.criteria))
          (Fields.field "rationale" (Value.str c.rationale) Fields.end)))
]

abbrev pub checks_to_items : List VerificationCheck → Items
checks_to_items [] = Items.nil
checks_to_items (c ∷ cs) = Items.cons (check_to_dict c) (checks_to_items cs)

-- `VerificationContract.to_dict`
unfoldable pub contract_to_dict : VerificationContract → Value
contract_to_dict c =
    Value.obj (Fields.field "checks" (Value.arr (checks_to_items c.checks)) Fields.end)

abbrev pub is_command : VerificationCheck → Bool
is_command c = elim (c.kind) [ CheckKind.command ↦ true | CheckKind.judge ↦ false ]

abbrev pub command_checks : VerificationContract → List VerificationCheck
command_checks c = filter is_command c.checks

abbrev pub judge_checks : VerificationContract → List VerificationCheck
judge_checks c = filter (λ k. not (is_command k)) c.checks

-- the loop over `raw_criteria`, with what is already in `criteria`
abbrev pub add_criterion : List String → String → List String
add_criterion seen text =
    if not (is_empty text) && not (contains text seen) then seen ++ text ∷ [] else seen

abbrev pub judge_check : String → List String → Option VerificationCheck
judge_check rationale [] = none
judge_check rationale (c ∷ cs) =
    some
      (record { kind = CheckKind.judge; command = none; criteria = c ∷ cs; rationale = rationale })

abbrev pub contract_of : List VerificationCheck → Option VerificationContract
contract_of [] = none
contract_of (c ∷ cs) = some (record { checks = c ∷ cs })

module _ (lower : String → String) (str_of : Value → String) where
  -- `str(v)`
  abbrev pub text_of : Value → String
  text_of (Value.str s) = s
  text_of v = str_of v

  -- `str(raw.get(key) or "").strip()`
  unfoldable pub stripped_field : String → Fields → String
  stripped_field key fields = elim (get_field key fields) [
    | none ↦ strip ""
    | some v ↦ if is_truthy v then strip (text_of v) else strip ""
  ]

  unfoldable pub collect_criteria : List String → Items → List String
  collect_criteria seen Items.nil = seen
  collect_criteria seen (Items.cons v vs) =
      collect_criteria (add_criterion seen (strip (text_of v))) vs

  unfoldable pub judge_of : String → Option Value → Option VerificationCheck
  judge_of rationale (some (Value.arr items)) = judge_check rationale (collect_criteria [] items)
  judge_of rationale _ = none

  unfoldable pub parse_fields : Fields → Option VerificationCheck
  parse_fields raw =
      let kind = lower (stripped_field "kind" raw) in
      let rationale = stripped_field "rationale" raw in
      let cmd = stripped_field "command" raw in
      if not (kind == "command" || kind == "judge")
      then none
      else if kind == "command"
      then (if is_empty cmd
          then none
          else some (record {
            kind = CheckKind.command;
            command = some cmd;
            criteria = [];
            rationale = rationale;
          }))
      else judge_of rationale (get_field "criteria" raw)

  -- `_parse_check`
  unfoldable pub parse_check : Value → Option VerificationCheck
  parse_check (Value.obj raw) = parse_fields raw
  parse_check _ = none

  -- the comprehension that drops what does not parse
  unfoldable pub parse_checks : Items → List VerificationCheck
  parse_checks Items.nil = []
  parse_checks (Items.cons v vs) =
      let rest = parse_checks vs in elim (parse_check v) [ none ↦ rest | some c ↦ c ∷ rest ]

  abbrev pub parse_raw_checks : Option Value → Option VerificationContract
  parse_raw_checks (some (Value.arr items)) = contract_of (parse_checks items)
  parse_raw_checks _ = none

  unfoldable pub parse_verification_contract : Value → Option VerificationContract
  parse_verification_contract (Value.obj raw) = parse_raw_checks (get_field "checks" raw)
  parse_verification_contract _ = none
