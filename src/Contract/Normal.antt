-- ===== src/Contract/Normal.antt =====
-- What `_parse_check` of core/verification_contract.py makes: checks in a normal form.
use mathlib.Core.Option.{some-injective}
use bsnexus.Contract.Defs.{
  CheckKind, VerificationCheck, add_criterion, collect_criteria, is_truthy, judge_check, judge_of,
  parse_check, parse_fields, stripped_field, text_of,
}
use bsnexus.Domain.{
  deliverable_status_eq, deliverable_type_eq, proof_aspect_status_eq, proof_aspect_type_eq,
  proof_state_eq, request_status_eq, run_attempt_phase_eq, run_attempt_status_eq,
  work_plan_status_eq, work_step_status_eq,
}
use bsnexus.Json.{Fields, Items, Value, get_field}
use bsnexus.Prelude.{
  All, All-append, Bool, Bool-cases, List, Option, String, [], arith, contains, false,
  if◌then◌else◌, inl, inr, is_empty, length, nat_beq, nat_eq, none, not, option_eq, refl, some,
  string_eq, strip, strip_idem, subst, true, ◌&&◌, ◌++◌, ◌==◌, ◌||◌, ◌∷◌, ◌≡◌, ◌⊎◌,
}
use bsnexus.Store.{
  decision_has_id, deliverable_has_id, project_has_id, request_has_id, run_attempt_has_id,
  work_step_has_id,
}

-- no text stands twice
abbrev pub NoRepeat : List String → Type 0
NoRepeat [] = Unit
NoRepeat (t ∷ ts) = (contains t ts ≡ false) × NoRepeat ts

-- stripped, and not empty
abbrev pub IsClean : String → Type 0
IsClean t = (strip t ≡ t) × (is_empty t ≡ false)

abbrev pub NormalParts : CheckKind → Option String → List String → Type 0
NormalParts CheckKind.command (some t) criteria = IsClean t × (criteria ≡ [])
NormalParts CheckKind.command none criteria = ⊥
NormalParts CheckKind.judge (some t) criteria = ⊥
NormalParts CheckKind.judge none criteria =
    (not (nat_beq (length criteria) 0) ≡ true) × All IsClean criteria × NoRepeat criteria

-- A usable check: a command that is not blank, or criteria that are not blank and do not repeat.
pub record IsNormal (c : VerificationCheck) : Type 0 where
  pub parts : NormalParts c.kind c.command c.criteria
  pub stripped : strip c.rationale ≡ c.rationale

pub text_eq_sym : (a b : String) → (a == b) ≡ false → (b == a) ≡ false
text_eq_sym a b h = ground (arith, string_eq.beq_iff a b, string_eq.beq_iff b a)

pub contains-append :
    (a : String) (xs ys : List String) → contains a (xs ++ ys) ≡ (contains a xs || contains a ys)
contains-append a [] ys = refl
contains-append a (x ∷ xs) ys = ground (arith, contains-append a xs ys)

NoRepeat-append_one :
    (t : String) (ts : List String) → contains t ts ≡ false → NoRepeat ts → NoRepeat (ts ++ t ∷ [])
NoRepeat-append_one t [] n h = (refl, tt)
NoRepeat-append_one t (x ∷ ts) n h = (
  rw (contains-append x ts (t ∷ [])) (ground (arith, h.0, text_eq_sym x t)),
  NoRepeat-append_one t ts (ground arith) h.1,
)

add-normal :
    (seen : List String) (t : String)
    → strip t ≡ t
    → All IsClean seen × NoRepeat seen
    → All IsClean (add_criterion seen t) × NoRepeat (add_criterion seen t)
add-normal seen t st h = elim (Bool-cases (not (is_empty t) && not (contains t seen))) [
  | inl e ↦ rw e (
    All-append IsClean seen (t ∷ []) h.0 ((st, ground arith), tt),
    NoRepeat-append_one t seen (ground arith) h.1,
  )
  | inr e ↦ rw e h
]

judge_check-IsNormal :
    (rationale : String) (criteria : List String) (c : VerificationCheck)
    → strip rationale ≡ rationale
    → All IsClean criteria × NoRepeat criteria
    → judge_check rationale criteria ≡ some c
    → IsNormal c
judge_check-IsNormal rationale [] c st h e = absurd (cc)
judge_check-IsNormal rationale (t ∷ ts) c st h e =
    subst IsNormal (some-injective _ _ e)
      (record { parts = (ground arith, h.0, h.1); stripped = st })

module _ (lower : String → String) (str_of : Value → String) where
  collect-normal :
      (seen : List String) (items : Items)
      → All IsClean seen × NoRepeat seen
      → All IsClean (collect_criteria lower str_of seen items)
        × NoRepeat (collect_criteria lower str_of seen items)
  unfolding collect_criteria
  collect-normal seen Items.nil h = h
  collect-normal seen (Items.cons v vs) h =
      let t = strip (text_of lower str_of v) in
      collect-normal (add_criterion seen t) vs
        (add-normal seen t (strip_idem (text_of lower str_of v)) h)

  stripped_field-stripped :
      (key : String) (raw : Fields)
      → strip (stripped_field lower str_of key raw) ≡ stripped_field lower str_of key raw
  unfolding stripped_field
  stripped_field-stripped key raw = of_value (get_field key raw)
    where
      of_value :
          (o : Option Value)
          → let t : String = elim o [
            | none ↦ strip ""
            | some v ↦ if is_truthy v then strip (text_of lower str_of v) else strip ""
          ] in
            strip t ≡ t
      of_value none = strip_idem ""
      of_value (some v) = of_test (is_truthy v)
        where
          of_test :
              (b : Bool)
              → let t = if b then strip (text_of lower str_of v) else strip "" in strip t ≡ t
          of_test true = strip_idem (text_of lower str_of v)
          of_test false = strip_idem ""

  judge_of-IsNormal :
      (rationale : String) (o : Option Value) (c : VerificationCheck)
      → strip rationale ≡ rationale
      → judge_of lower str_of rationale o ≡ some c
      → IsNormal c
  unfolding judge_of
  judge_of-IsNormal rationale (some (Value.arr items)) c st e =
      judge_check-IsNormal rationale (collect_criteria lower str_of [] items) c st
        (collect-normal [] items (tt, tt)) e
  judge_of-IsNormal rationale _ c st e = absurd (cc)

  abbrev command_check : Fields → VerificationCheck
  command_check raw = record {
    kind = CheckKind.command;
    command = some (stripped_field lower str_of "command" raw);
    criteria = [];
    rationale = stripped_field lower str_of "rationale" raw;
  }

  parse_fields_cases :
      (raw : Fields) (c : VerificationCheck)
      → parse_fields lower str_of raw ≡ some c
      → ((is_empty (stripped_field lower str_of "command" raw) ≡ false) × (command_check raw ≡ c))
        ⊎ (judge_of lower str_of
              (stripped_field lower str_of "rationale" raw)
              (get_field "criteria" raw)
            ≡ some c)
  unfolding parse_fields
  parse_fields_cases raw c e = ground arith

  parse_fields-IsNormal :
      (raw : Fields) (c : VerificationCheck) → parse_fields lower str_of raw ≡ some c → IsNormal c
  parse_fields-IsNormal raw c e = elim (parse_fields_cases raw c e) [
    | inl (filled, q) ↦ subst IsNormal q (record {
      parts = ((stripped_field-stripped "command" raw, filled), refl);
      stripped = stripped_field-stripped "rationale" raw;
    })
    | inr q ↦
        judge_of-IsNormal (stripped_field lower str_of "rationale" raw) (get_field "criteria" raw) c
          (stripped_field-stripped "rationale" raw) q
  ]

  -- Whatever the LLM declares, a check that is kept is usable: its command is not blank, or it has
  -- criteria, none of them blank and none repeated; every text is stripped.
  pub parse_check-IsNormal :
      (raw : Value) (c : VerificationCheck) → parse_check lower str_of raw ≡ some c → IsNormal c
  unfolding parse_check
  parse_check-IsNormal (Value.obj raw) c e = parse_fields-IsNormal raw c e
  parse_check-IsNormal _ c e = absurd (cc)
