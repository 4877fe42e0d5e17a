-- ===== src/Verification/Specs.antt =====
-- core/verification.py: `AspectSpec`, and the aspects of a declared contract.
use bsnexus.Contract.Defs.{
  CheckKind, VerificationCheck, VerificationContract, parse_verification_contract,
}
use bsnexus.Contract.Normal.{IsNormal, NormalParts}
use bsnexus.Contract.Roundtrip.{parsed-IsNormal}
use bsnexus.Domain.{ProofAspectType}
use bsnexus.Json.{Value}
use bsnexus.Prelude.{
  All, Bool, List, Option, String, [], if◌then◌else◌, inl, inr, is_empty, none, refl, some, true, ℕ,
  ◌∷◌, ◌≡◌, ◌⊎◌,
}

pub record AspectSpec : Type 0 where
  pub aspect_type : ProofAspectType
  pub commands : List (List String)
  pub required_refs : List String
  pub timeout_s : ℕ
  pub blocking : Bool

abbrev pub command_spec : String → AspectSpec
command_spec cmd = record {
  aspect_type = ProofAspectType.declared_command;
  commands = ("sh" ∷ "-c" ∷ cmd ∷ []) ∷ [];
  required_refs = [];
  timeout_s = 300;
  blocking = true;
}

abbrev pub judge_spec : List String → AspectSpec
judge_spec criteria = record {
  aspect_type = ProofAspectType.llm_judge;
  commands = [];
  required_refs = criteria;
  timeout_s = 120;
  blocking = true;
}

-- one turn of the loop of `_contract_to_aspect_specs`
abbrev pub check_spec : CheckKind → Option String → List String → List AspectSpec → List AspectSpec
check_spec CheckKind.command none criteria rest = rest
check_spec CheckKind.command (some cmd) criteria rest =
    if is_empty cmd then rest else command_spec cmd ∷ rest
check_spec CheckKind.judge cmd criteria rest = judge_spec criteria ∷ rest

-- `_contract_to_aspect_specs`
unfoldable pub specs_of_checks : List VerificationCheck → List AspectSpec
specs_of_checks [] = []
specs_of_checks (c ∷ cs) = check_spec c.kind c.command c.criteria (specs_of_checks cs)

-- the spec that a usable check gets
abbrev pub IsSpecOf : VerificationCheck → AspectSpec → Type 0
IsSpecOf c spec =
    (spec.blocking ≡ true)
    × (((c.kind ≡ CheckKind.command)
          × ((cmd : String) × (c.command ≡ some cmd) × (spec ≡ command_spec cmd)))
        ⊎ ((c.kind ≡ CheckKind.judge) × (spec ≡ judge_spec c.criteria)))

abbrev pub AreSpecsOf : List VerificationCheck → List AspectSpec → Type 0
AreSpecsOf [] [] = Unit
AreSpecsOf (c ∷ cs) (s ∷ ss) = IsSpecOf c s × AreSpecsOf cs ss
AreSpecsOf _ _ = ⊥

specs-AreSpecsOf :
    (cs : List VerificationCheck) → All IsNormal cs → AreSpecsOf cs (specs_of_checks cs)
unfolding specs_of_checks
specs-AreSpecsOf [] h = tt
specs-AreSpecsOf (c ∷ cs) h =
    one c.kind c.command c.criteria refl refl h.0.parts (specs-AreSpecsOf cs h.1)
  where
    one :
        (k : CheckKind) (cmd : Option String) (criteria : List String)
        → c.kind ≡ k
        → c.command ≡ cmd
        → NormalParts k cmd criteria
        → AreSpecsOf cs (specs_of_checks cs)
        → AreSpecsOf (c ∷ cs) (check_spec k cmd c.criteria (specs_of_checks cs))
    one CheckKind.command (some t) criteria ek ec p rest =
        rw (p.0.1) ((refl, inl (ek, (t, ec, refl))), rest)
    one CheckKind.command none criteria ek ec p rest = absurd p
    one CheckKind.judge (some t) criteria ek ec p rest = absurd p
    one CheckKind.judge none criteria ek ec p rest = ((refl, inr (ek, refl)), rest)

-- Every check of a parsed contract becomes exactly one aspect, in its place: a blocking command aspect
-- that runs the declared text in a shell, or a blocking judge aspect with the declared criteria.
pub no_check_dropped :
    (lower : String → String) (str_of : Value → String) (raw : Value) (c : VerificationContract)
    → parse_verification_contract lower str_of raw ≡ some c
    → AreSpecsOf c.checks (specs_of_checks c.checks)
no_check_dropped lower str_of raw c e =
    specs-AreSpecsOf c.checks (parsed-IsNormal lower str_of raw c e)
