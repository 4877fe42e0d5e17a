-- ===== src/Replies.antt =====
-- What core/run_attempt_executor.py and core/verification_judge.py take out of an LLM's text reply.
--
-- `json.loads` is the argument `loads`; `none` is any exception of it, all of which the caller catches.
use Prim.Native.Char.{code}
use bsnexus.Domain.{
  deliverable_status_eq, deliverable_type_eq, proof_aspect_status_eq, proof_aspect_type_eq,
  proof_state_eq, request_status_eq, run_attempt_phase_eq, run_attempt_status_eq,
  work_plan_status_eq, work_step_status_eq,
}
use bsnexus.Json.{Value}
use bsnexus.Prelude.{
  Option, String, if◌then◌else◌, int_eq, is_empty, nat_eq, none, option_eq, some, string_eq, ◌==◌,
}
use bsnexus.Store.{
  decision_has_id, deliverable_has_id, project_has_id, request_has_id, run_attempt_has_id,
  work_step_has_id,
}

-- `text[text.find("{") :]`
from_brace : String → String
from_brace String.[] = ""
from_brace (String.◌∷◌ c s) = if code c == b'{' then String.◌∷◌ c s else from_brace s

-- `text[: text.rfind("}") + 1]`
upto_brace : String → String
upto_brace String.[] = ""
upto_brace (String.◌∷◌ c s) =
    let rest = upto_brace s in
    if is_empty rest then (if code c == b'}' then String.◌∷◌ c "" else "") else String.◌∷◌ c rest

-- `text[start : end + 1]` if `0 <= start < end`
unfoldable pub brace_slice : String → Option String
unfolding from_brace upto_brace
brace_slice text =
    let slice = upto_brace (from_brace text) in if is_empty slice then none else some slice

abbrev loaded : (String → Option Value) → Option String → Option Value
loaded loads none = none
loaded loads (some slice) = loads slice

-- the JSON value between a reply's braces
unfoldable pub reply_value : (String → Option Value) → String → Option Value
unfolding brace_slice
reply_value loads text = loaded loads (brace_slice text)
