-- ===== src/Verification/Judged.antt =====
-- core/verification.py together with core/verification_judge.py: the verifier whose judge is
-- `judge_criteria`.
use bsnexus.Effects.{Error, Result}
use bsnexus.Json.{Fields, Value}
use bsnexus.Prelude.{List, Option, String, ℕ}
use bsnexus.Verification.Judge.{judge_criteria}
use bsnexus.Verification.Runners.{Host}

module _ (count_text : ℕ → String) (verdict_text : Fields → String) (class_text : Error → String)
    (rendered : Result (Unit {0})) (loads : String → Result (Option Value))
    (reply : List String → Result (Option String)) where
  -- the machine whose judge is the modelled one
  abbrev pub judged : Host → Host
  judged host = record host {
    judge_criteria = judge_criteria count_text verdict_text class_text rendered loads reply;
  }
