-- ===== src/Verification/Judge.antt =====
-- core/verification_judge.py: the grading of a reply, and `judge_criteria`.
--
-- The LLM is the argument `reply`: how its call on the criteria and the workspace ends, with the
-- `output_ref` of its result. `count_text` is `str` of a number, `verdict_text` what the summary says of
-- a failed verdict, `class_text` the name of an exception's class. `rendered` is how
-- `_render_workspace` ends, which stands before the `try`. `loads` is `json.loads`: a value, `none` for
-- a JSONDecodeError or another ValueError, which the code catches, or an exception that it does not
-- catch, as a RecursionError.
use bsnexus.Contract.Defs.{is_truthy}
use bsnexus.Domain.{
  ProofAspectStatus, deliverable_status_eq, deliverable_type_eq, proof_aspect_status_eq,
  proof_aspect_type_eq, proof_state_eq, request_status_eq, run_attempt_phase_eq,
  run_attempt_status_eq, work_plan_status_eq, work_step_status_eq,
}
use bsnexus.Effects.{Error, Result, err, ok}
use bsnexus.Json.{Fields, Items, Value, get_field}
use bsnexus.Prelude.{
  Bool, List, Option, String, [], all, false, filter, if◌then◌else◌, int_eq, join_text, length, map,
  nat_beq, nat_eq, none, not, option_eq, or_empty, refl, some, string_eq, suc, true, ℕ, ◌==◌, ◌∷◌,
  ◌≡◌, ◌⊎◌,
}
use bsnexus.Replies.{brace_slice}
use bsnexus.Store.{
  decision_has_id, deliverable_has_id, project_has_id, request_has_id, run_attempt_has_id,
  work_step_has_id,
}
use bsnexus.Verification.Runners.{concat}
use bsnexus.Verification.Verdicts.{IsGrade}

abbrev pub item_count : Items → ℕ
item_count Items.nil = 0
item_count (Items.cons v vs) = suc (item_count vs)

-- `[v for v in verdicts if isinstance(v, dict)]`
abbrev pub objects : Items → List Fields
objects Items.nil = []
objects (Items.cons (Value.obj fields) vs) = fields ∷ objects vs
objects (Items.cons v vs) = objects vs

abbrev listed : ℕ → Option Value → Option (List Fields)
listed n (some (Value.arr items)) = if item_count items == n then some (objects items) else none
listed n _ = none

abbrev verdicts_of : ℕ → Option Value → Option (List Fields)
verdicts_of n (some (Value.obj fields)) = listed n (get_field "verdicts" fields)
verdicts_of n _ = none

-- `json.loads` of the text from the first brace to the last
abbrev pub reply_object : (String → Result (Option Value)) → Option String → Result (Option Value)
reply_object loads none = ok none
reply_object loads (some slice) = loads slice

-- `_parse_verdicts`
unfoldable pub parse_verdicts :
    (String → Result (Option Value)) → String → ℕ → Result (Option (List Fields))
unfolding brace_slice
parse_verdicts loads text n = elim (reply_object loads (brace_slice text)) [
  | err e ↦ err e
  | ok parsed ↦ ok (verdicts_of n parsed)
]

-- `bool(v.get("pass"))`
abbrev pub passes : Fields → Bool
passes v = elim (get_field "pass" v) [ none ↦ false | some p ↦ is_truthy p ]

-- `"; ".join(…)`
abbrev semicolons : List String → String
semicolons [] = ""
semicolons (t ∷ []) = t
semicolons (t ∷ u ∷ ts) = join_text t (join_text "; " (semicolons (u ∷ ts)))

module _ (count_text : ℕ → String) (verdict_text : Fields → String)
    (class_text : Error → String) where
  abbrev failed_summary : List Fields → ℕ → String
  failed_summary failed n = concat (
      count_text (length failed)
      ∷ "/"
      ∷ count_text n
      ∷ " criteria failed. "
      ∷ semicolons (map verdict_text failed)
      ∷ [])

  -- the grade of parsed verdicts
  unfoldable pub grade : ℕ → Option (List Fields) → ProofAspectStatus × String
  grade n none = (ProofAspectStatus.error, "llm judge returned an unparseable verdict")
  grade n (some verdicts) =
      let failed = filter (λ v. not (passes v)) verdicts in
      if nat_beq (length failed) 0
      then (
        ProofAspectStatus.passed,
        concat ("all " ∷ count_text n ∷ " judge criteria satisfied" ∷ []),
      )
      else (ProofAspectStatus.failed, failed_summary failed n)

  abbrev pub graded_reply : ℕ → Result (Option (List Fields)) → Result (ProofAspectStatus × String)
  graded_reply n (err e) = err e
  graded_reply n (ok verdicts) = ok (grade n verdicts)

  unfoldable pub judge_criteria :
      Result (Unit {0})
      → (String → Result (Option Value))
      → (List String → Result (Option String))
      → List String
      → Result (ProofAspectStatus × String)
  unfolding grade
  judge_criteria (err e) loads reply criteria = err e
  judge_criteria (ok u) loads reply criteria = elim (reply criteria) [
    | err e ↦ ok (ProofAspectStatus.error, concat ("llm judge call failed: " ∷ class_text e ∷ []))
    | ok output ↦
        graded_reply (length criteria) (parse_verdicts loads (or_empty output) (length criteria))
  ]

  -- what an LLM's reply says, with the entries that are not objects left out
  abbrev pub all_pass : Option (List Fields) → Bool
  all_pass none = false
  all_pass (some verdicts) = all passes verdicts

  abbrev pub says_pass : Result (Option (List Fields)) → Bool
  says_pass (err e) = false
  says_pass (ok verdicts) = all_pass verdicts

  -- what the reply to the call says
  abbrev pub reply_passes : (String → Result (Option Value)) → ℕ → Result (Option String) → Bool
  reply_passes loads n (err e) = false
  reply_passes loads n (ok output) = says_pass (parse_verdicts loads (or_empty output) n)

  -- how the judge may end
  abbrev pub IsJudgement :
      Result (Unit {0})
      → (String → Result (Option Value))
      → Bool
      → Result (ProofAspectStatus × String)
      → Type 0
  IsJudgement rendered loads says_passed (ok (status, summary)) =
      IsGrade status × ((status == ProofAspectStatus.passed) ≡ says_passed)
  IsJudgement rendered loads says_passed (err e) =
      (rendered ≡ err e) ⊎ ((t : String) × (loads t ≡ err e))

  no_objects_left :
      (loads : String → Result (Option Value)) (text : String) (n : ℕ) (fields : Fields)
      (items : Items)
      → reply_object loads (brace_slice text) ≡ ok (some (Value.obj fields))
      → get_field "verdicts" fields ≡ some (Value.arr items)
      → item_count items ≡ n
      → objects items ≡ []
      → parse_verdicts loads text n ≡ ok (some [])
  unfolding parse_verdicts
  no_objects_left loads text n fields items e2 e3 e4 e5 =
      let same : (item_count items == n) ≡ true = (nat_eq.beq_iff (item_count items) n).1 e4 in
      rw (e2, parse_verdicts) (rw e3 (rw same (rw e5 refl)))

  -- A reply whose verdicts are as many as the criteria, none of them an object, makes the judge return
  -- `passed` for every workspace that can be read.
  pub judge_passes_no_objects :
      (loads : String → Result (Option Value)) (reply : List String → Result (Option String))
      (criteria : List String) (output : Option String) (fields : Fields) (items : Items)
      → reply criteria ≡ ok output
      → reply_object loads (brace_slice (or_empty output)) ≡ ok (some (Value.obj fields))
      → get_field "verdicts" fields ≡ some (Value.arr items)
      → item_count items ≡ length criteria
      → objects items ≡ []
      → judge_criteria (ok tt) loads reply criteria
        ≡ ok (
          ProofAspectStatus.passed,
          concat ("all " ∷ count_text (length criteria) ∷ " judge criteria satisfied" ∷ []),
        )
  unfolding judge_criteria
  judge_passes_no_objects loads reply criteria output fields items e1 e2 e3 e4 e5 =
      rw (e1, judge_criteria)
        (rw (no_objects_left loads (or_empty output) (length criteria) fields items e2 e3 e4 e5)
          refl)
