-- ===== src/Planning.antt =====
-- core/planning/decomposer.py: from a Request's intent and an LLM's replies to the drafts of a plan.
--
-- `fenced` is the first group of a match of `_FENCE_RE`, `reply i` how the `i`-th call of the LLM ends,
-- with its `output_ref`. `loads` is `json.loads`: a value, `none` for a JSONDecodeError, which the
-- code catches, or another exception, as a ValueError on an integer of too many digits or a
-- RecursionError on a reply nested too deep, which it does not catch.
pub mod Drafts
use Prim.Native.Char.{code}
use mathlib.Core.Option
use bsnexus.Domain.{
  deliverable_status_eq, deliverable_type_eq, proof_aspect_status_eq, proof_aspect_type_eq,
  proof_state_eq, request_status_eq, run_attempt_phase_eq, run_attempt_status_eq,
  work_plan_status_eq, work_step_status_eq,
}
use bsnexus.Effects.{Result, err, ok}
use bsnexus.Executor.Handoff.{or_else, stripped_texts}
use bsnexus.Json.{Fields, Items, Value, get_field}
use bsnexus.Models.{WorkStepDraft}
use bsnexus.Prelude.{
  Bool, List, Option, String, [], false, first_line, if◌then◌else◌, int_eq, is_empty, join_text,
  length, ltb, nat_eq, none, not, option_eq, or_empty, some, string_eq, strip, suc, take_text, true,
  zero, ℕ, ◌&&◌, ◌+◌, ◌-◌, ◌==◌, ◌∷◌,
}
use bsnexus.Store.{
  decision_has_id, deliverable_has_id, found, project_has_id, request_has_id, run_attempt_has_id,
  work_step_has_id,
}

abbrev max_steps : ℕ
max_steps = 6

abbrev pub work_step_name_max : ℕ
work_step_name_max = 80

abbrev pub step_list_keys : List String
step_list_keys = "steps" ∷ "plan" ∷ "worksteps" ∷ "work_steps" ∷ "tasks" ∷ []

-- the locals of the bracket scan
pub record Scan : Type 0 where
  pub depth : ℕ
  pub in_str : Bool
  pub escaped : Bool

-- one turn of the loop; `opens` and `closes` are the codes of the brackets that count
unfoldable scan_char : ℕ → ℕ → ℕ → Scan → Scan
scan_char opens closes c st =
    if st.in_str
    then (if st.escaped
        then record st { escaped = false }
        else if c == b'\\'
        then record st { escaped = true }
        else if c == b'"'
        then record st { in_str = false }
        else st)
    else if c == b'"'
    then record st { in_str = true }
    else if c == opens
    then record st { depth = st.depth + 1 }
    else if c == closes
    then record st { depth = st.depth - 1 }
    else st

-- the text up to the bracket that closes the first one
unfoldable balanced : ℕ → ℕ → Scan → String → Option String
unfolding scan_char
balanced opens closes st String.[] = none
balanced opens closes st (String.◌∷◌ ch s) =
    let next = scan_char opens closes (code ch) st in
    let rest = balanced opens closes next s in
    if not st.in_str && code ch == closes && next.depth == 0
    then some (String.◌∷◌ ch "")
    else Option.map (λ t. String.◌∷◌ ch t) rest

abbrev no_scan : Scan
no_scan = record { depth = 0; in_str = false; escaped = false }

-- from the first bracket on
unfoldable pub from_bracket : String → Option String
unfolding balanced
from_bracket String.[] = none
from_bracket (String.◌∷◌ ch s) =
    let rest = from_bracket s in
    if code ch == b'['
    then balanced b'[' b']' no_scan (String.◌∷◌ ch s)
    else if code ch == b'{'
    then balanced b'{' b'}' no_scan (String.◌∷◌ ch s)
    else rest

-- `_json_candidate`
abbrev pub json_candidate : (String → Option String) → String → Option String
json_candidate fenced text = elim (fenced text) [ some t ↦ some t | none ↦ from_bracket text ]

abbrev pub parsed_by : (String → Result (Option Value)) → Option String → Result (Option Value)
parsed_by loads none = ok none
parsed_by loads (some t) = loads t

-- the loop over `_STEP_LIST_KEYS`
unfoldable pub nested_list : List String → Fields → Option Items
nested_list [] fields = none
nested_list (key ∷ keys) fields =
    let rest = nested_list keys fields in
    elim (get_field key fields) [
      | none ↦ rest
      | some v ↦ elim v [ Value.arr items ↦ some items | _ ↦ rest ]
    ]

abbrev pub has_key : String → Fields → Bool
has_key key fields = elim (get_field key fields) [ none ↦ false | some v ↦ true ]

abbrev pub list_of : Option Value → Option Items
list_of (some (Value.arr items)) = some items
list_of (some (Value.obj fields)) =
    if has_key "name" fields && has_key "objective" fields
    then some (Items.cons (Value.obj fields) Items.nil)
    else nested_list step_list_keys fields
list_of _ = none

-- a field that is a text, stripped; none where it is blank or no text
abbrev pub filled_text : Option Value → Option String
filled_text (some (Value.str s)) = if is_empty (strip s) then none else some (strip s)
filled_text _ = none

abbrev pub outputs_of : (String → String) → (Value → String) → Option Value → List String
outputs_of lower str_of (some (Value.arr items)) = stripped_texts lower str_of items
outputs_of lower str_of _ = []

abbrev pub draft_of : Option String → Option String → List String → Option WorkStepDraft
draft_of (some name) (some objective) outputs = some (record {
  name = take_text work_step_name_max name;
  objective = objective;
  expected_outputs = outputs;
  verifier_policy = none;
})
draft_of _ _ outputs = none

abbrev pub keep_draft : Option WorkStepDraft → List WorkStepDraft → List WorkStepDraft
keep_draft none drafts = drafts
keep_draft (some d) drafts = d ∷ drafts

-- `_single_step_fallback`
unfoldable pub single_step_fallback : String → WorkStepDraft
single_step_fallback intent =
    let title = if is_empty intent then "Request" else first_line intent in
    let name = or_else (take_text work_step_name_max title) "Request" in
    record {
      name = name;
      objective = or_else intent name;
      expected_outputs = [];
      verifier_policy = none;
    }

-- `_truncate_with_followup_marker`, of more than `left + 1` drafts
unfoldable pub truncate_drafts : ℕ → List WorkStepDraft → List WorkStepDraft
truncate_drafts left [] = []
truncate_drafts zero (d ∷ drafts) =
    record d {
      name = take_text work_step_name_max (join_text "follow-up split required — " d.name);
      verifier_policy = none;
    }
    ∷ []
truncate_drafts (suc left) (d ∷ drafts) = d ∷ truncate_drafts left drafts

module _ (lower : String → String) (str_of : Value → String) (fenced : String → Option String)
    (loads : String → Result (Option Value)) where
  -- `_extract_step_list`
  unfoldable pub extract_step_list : String → Result (Option Items)
  unfolding from_bracket nested_list
  extract_step_list text = elim (parsed_by loads (json_candidate fenced text)) [
    | err e ↦ err e
    | ok parsed ↦ ok (list_of parsed)
  ]

  -- `_coerce_draft`
  unfoldable pub coerce_draft : Value → Option WorkStepDraft
  coerce_draft (Value.obj entry) =
      draft_of (filled_text (get_field "name" entry)) (filled_text (get_field "objective" entry))
        (outputs_of lower str_of (get_field "expected_outputs" entry))
  coerce_draft v = none

  unfoldable pub coerce_all : Items → List WorkStepDraft
  unfolding coerce_draft
  coerce_all Items.nil = []
  coerce_all (Items.cons v vs) = keep_draft (coerce_draft v) (coerce_all vs)

  -- `_parse_drafts`
  unfoldable pub parse_drafts : String → Result (List WorkStepDraft)
  unfolding extract_step_list coerce_all
  parse_drafts text = elim (extract_step_list text) [
    | err e ↦ err e
    | ok found ↦ elim found [ none ↦ ok [] | some raw ↦ ok (coerce_all raw) ]
  ]

  -- `_call_with_parse_retry` with the calls that are left
  unfoldable pub call_with_parse_retry :
      (ℕ → Result (Option String)) → ℕ → ℕ → Option String → Result (Option String)
  unfolding extract_step_list
  call_with_parse_retry reply i zero last_text = ok last_text
  call_with_parse_retry reply i (suc left) last_text = elim (reply i) [
    | err e ↦ ok none
    | ok output ↦
        let text = strip (or_empty output) in
        if is_empty text
        then call_with_parse_retry reply (i + 1) left last_text
        else elim (extract_step_list text) [
          | err e ↦ err e
          | ok found ↦ elim found [
            | some items ↦ ok (some text)
            | none ↦ call_with_parse_retry reply (i + 1) left (some text)
          ]
        ]
  ]

  abbrev pub capped : List WorkStepDraft → List WorkStepDraft
  capped drafts = if ltb max_steps (length drafts) then truncate_drafts 5 drafts else drafts

  -- the drafts, or the fallback where there are none
  abbrev pub drafts_or : WorkStepDraft → List WorkStepDraft → List WorkStepDraft
  drafts_or fallback [] = fallback ∷ []
  drafts_or fallback (d ∷ drafts) = capped (d ∷ drafts)

  abbrev pub plan_or : WorkStepDraft → Result (List WorkStepDraft) → Result (List WorkStepDraft)
  plan_or fallback (ok drafts) = ok (drafts_or fallback drafts)
  plan_or fallback (err e) = err e

  -- the rest of `decompose_request`, on what the calls of the LLM have given
  abbrev pub plan_of_text : WorkStepDraft → Result (Option String) → Result (List WorkStepDraft)
  plan_of_text fallback (err e) = err e
  plan_of_text fallback (ok none) = ok (fallback ∷ [])
  plan_of_text fallback (ok (some text)) = plan_or fallback (parse_drafts text)

  unfoldable pub decompose_request :
      (ℕ → Result (Option String)) → String → Result (List WorkStepDraft)
  unfolding call_with_parse_retry parse_drafts single_step_fallback truncate_drafts
  decompose_request reply request_intent =
      let intent = strip request_intent in
      let fallback = single_step_fallback intent in
      if is_empty intent
      then ok (fallback ∷ [])
      else plan_of_text fallback (call_with_parse_retry reply 0 2 none)
