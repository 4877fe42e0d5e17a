-- ===== src/Tests/Contracts.antt =====
-- The theorems on contracts and on the verifier, applied.
use bsnexus.Contract.Defs.{
  CheckKind, VerificationCheck, VerificationContract, collect_criteria, contract_to_dict, judge_of,
  parse_check, parse_checks, parse_fields, parse_verification_contract, stripped_field,
}
use bsnexus.Contract.Normal.{IsNormal, parse_check-IsNormal}
use bsnexus.Contract.Roundtrip.{contract_roundtrip}
use bsnexus.Json.{Fields, Items, Value}
use bsnexus.Prelude.{String, [], none, refl, some, strip, ◌∷◌, ◌≡◌}
use bsnexus.Tests.Data.{identity}
use bsnexus.Verification.Specs.{AreSpecsOf, no_check_dropped, specs_of_checks}

abbrev digits : Value → String
digits v = "0"

-- a contract with one command
abbrev raw_contract : Value
raw_contract = Value.obj (
    Fields.field "checks"
      (Value.arr (
        Items.cons
          (Value.obj (
            Fields.field "kind" (Value.str "command")
              (Fields.field "command" (Value.str " pytest ") Fields.end)))
          Items.nil))
      Fields.end)

abbrev raw_check : Value
raw_check = Value.obj (
    Fields.field "kind" (Value.str "judge")
      (Fields.field "criteria" (Value.arr (Items.cons (Value.str "clear") Items.nil)) Fields.end))

abbrev pytest_check : VerificationCheck
pytest_check = record {
  kind = CheckKind.command;
  command = some "pytest";
  criteria = [];
  rationale = "";
}

abbrev judge_clear : VerificationCheck
judge_clear = record {
  kind = CheckKind.judge;
  command = none;
  criteria = "clear" ∷ [];
  rationale = "";
}

abbrev pytest_contract : VerificationContract
pytest_contract = record { checks = pytest_check ∷ [] }

raw_contract_parses :
    parse_verification_contract identity digits raw_contract ≡ some pytest_contract
unfolding parse_verification_contract parse_checks parse_check parse_fields stripped_field strip
raw_contract_parses = refl

parse_check-IsNormal_example : IsNormal judge_clear
unfolding parse_check parse_fields stripped_field strip judge_of collect_criteria
parse_check-IsNormal_example = parse_check-IsNormal identity digits raw_check judge_clear refl

contract_roundtrip_example :
    parse_verification_contract identity digits (contract_to_dict pytest_contract)
    ≡ some pytest_contract
contract_roundtrip_example =
    contract_roundtrip identity digits refl refl raw_contract pytest_contract raw_contract_parses

no_check_dropped_example :
    AreSpecsOf pytest_contract.checks (specs_of_checks pytest_contract.checks)
no_check_dropped_example =
    no_check_dropped identity digits raw_contract pytest_contract raw_contract_parses
