-- ===== src/Tests/Judge.antt =====
-- The theorems on the judge, applied to replies with one verdict.
use bsnexus.Domain.{ProofAspectStatus}
use bsnexus.Effects.{Error, Result, ok}
use bsnexus.Json.{Fields, Items, Value}
use bsnexus.Prelude.{List, Option, String, [], refl, some, ℕ, ◌∷◌, ◌≡◌}
use bsnexus.Replies.{brace_slice}
use bsnexus.Tests.Verifier.{calm_host}
use bsnexus.Verification.Judge.{judge_criteria, judge_passes_no_objects}
use bsnexus.Verification.Judged.{judged}
use bsnexus.Verification.Runners.{Host, concat}

abbrev count_words : ℕ → String
count_words n = "1"

abbrev verdict_words : Fields → String
verdict_words fields = "v"

abbrev class_words : Error → String
class_words e = "E"

abbrev one_verdict : Value → Value
one_verdict v = Value.obj (Fields.field "verdicts" (Value.arr (Items.cons v Items.nil)) Fields.end)

abbrev loads_no_object : String → Result (Option Value)
loads_no_object text = ok (some (one_verdict (Value.str "fine")))

abbrev braces : List String → Result (Option String)
braces criteria = ok (some "{}")

abbrev one_criterion : List String
one_criterion = "clear" ∷ []

judge_passes_no_objects_example :
    judge_criteria count_words verdict_words class_words
      (ok tt)
      loads_no_object
      braces
      one_criterion
    ≡ ok (
      ProofAspectStatus.passed,
      concat ("all " ∷ count_words 1 ∷ " judge criteria satisfied" ∷ []),
    )
unfolding brace_slice
judge_passes_no_objects_example =
    judge_passes_no_objects count_words verdict_words class_words loads_no_object braces
      one_criterion (some "{}")
      (Fields.field "verdicts" (Value.arr (Items.cons (Value.str "fine") Items.nil)) Fields.end)
      (Items.cons (Value.str "fine") Items.nil) refl refl refl refl refl

abbrev calm_hosts : ℕ → Host
calm_hosts j = calm_host

abbrev judged_hosts : ℕ → Host
judged_hosts j =
    judged count_words verdict_words class_words (ok tt) loads_no_object braces (calm_hosts j)

abbrev zero_words : Value → String
zero_words v = "0"
