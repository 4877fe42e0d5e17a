-- ===== src/Tests/Plans.antt =====
-- The theorem on the decomposer, applied to an LLM that does not answer in JSON.
use bsnexus.Effects.{Result, err, ok, other_error}
use bsnexus.Json.{Value}
use bsnexus.Planning.{decompose_request}
use bsnexus.Planning.Drafts.{Gives, IsPlan, decompose-IsPlan}
use bsnexus.Prelude.{Option, String, none, refl, some, strip, ℕ, ◌≡◌}
use bsnexus.Tests.Data.{identity}
use bsnexus.Tests.Executor.{words}

abbrev silent : String → Option String
silent text = none

abbrev loads_nothing : String → Result (Option Value)
loads_nothing text = ok none

abbrev prose : ℕ → Result (Option String)
prose i = ok (some "I would add [a form]")

decompose-IsPlan_example :
    Gives identity words silent loads_nothing
      (IsPlan identity words silent loads_nothing)
      (decompose_request identity words silent loads_nothing prose "Add login")
decompose-IsPlan_example = decompose-IsPlan identity words silent loads_nothing prose "Add login"

-- `json.loads` on an integer of too many digits
abbrev loads_raises : String → Result (Option Value)
loads_raises text = err (other_error "ValueError")

-- the decomposer raises, in place of a plan of one step
raises_through :
    decompose_request identity words silent loads_raises prose "Add login"
    ≡ err (other_error "ValueError")
unfolding decompose_request strip
raises_through = refl
