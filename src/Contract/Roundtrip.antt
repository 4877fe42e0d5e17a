-- ===== src/Contract/Roundtrip.antt =====
-- A parsed contract, stored by `to_dict` and parsed again, is the same contract
-- (core/verification_contract.py): the verifier runs what the work LLM declared.

use mathlib.Core.Option.{some-injective}
use mathlib.Core.List.{append-nil, append_assoc}
use bsnexus.Contract.Defs.{
  CheckKind, VerificationCheck, VerificationContract, add_criterion, check_to_dict, checks_to_items,
  collect_criteria, contract_of, contract_to_dict, judge_check, judge_of, parse_check, parse_checks,
  parse_fields, parse_raw_checks, parse_verification_contract, stripped_field, texts,
}
use bsnexus.Contract.Normal.{
  IsClean, IsNormal, NoRepeat, NormalParts, contains-append, parse_check-IsNormal, text_eq_sym,
}
use bsnexus.Domain.{
  deliverable_status_eq, deliverable_type_eq, proof_aspect_status_eq, proof_aspect_type_eq,
  proof_state_eq, request_status_eq, run_attempt_phase_eq, run_attempt_status_eq,
  work_plan_status_eq, work_step_status_eq,
}
use bsnexus.Json.{Fields, Items, Value, get_field}
use bsnexus.Prelude.{
  All, List, Option, Option-cases, String, [], ap, arith, contains, false, if◌then◌else◌, inl, inr,
  int_eq, is_empty, length, nat_beq, nat_eq, none, not, option_eq, refl, some, string_eq, strip,
  subst, sym, true, ◌++◌, ◌∙◌, ◌∷◌, ◌≡◌,
}
use bsnexus.Store.{
  decision_has_id, deliverable_has_id, project_has_id, request_has_id, run_attempt_has_id,
  work_step_has_id,
}

contains-not_last :
    (seen : List String) (t : String) (ts : List String)
    → NoRepeat (seen ++ t ∷ ts)
    → contains t seen ≡ false
contains-not_last [] t ts h = refl
contains-not_last (x ∷ seen) t ts h =
    ground (
      arith,
      contains-not_last seen t ts h.1,
      h.0,
      contains-append x seen (t ∷ ts),
      text_eq_sym t x,
    )

added :
    (seen : List String) (t : String)
    → IsClean t
    → contains t seen ≡ false
    → add_criterion seen (strip t) ≡ seen ++ t ∷ []
added seen t clean new = rw (clean.0) (rw (clean.1, new))

-- reading criteria that are clean and do not repeat adds each of them
collect_texts :
    (lower : String → String) (str_of : Value → String) (seen ts : List String)
    → All IsClean ts
    → NoRepeat (seen ++ ts)
    → collect_criteria lower str_of seen (texts ts) ≡ seen ++ ts
unfolding collect_criteria
collect_texts lower str_of seen [] a n = sym (append-nil seen)
collect_texts lower str_of seen (t ∷ ts) a n =
    ap (λ r. collect_criteria lower str_of r (texts ts))
      (added seen t a.0 (contains-not_last seen t ts n))
    ∙ collect_texts lower str_of (seen ++ t ∷ []) ts a.1 (rw (append_assoc seen (t ∷ []) ts) n)
    ∙ append_assoc seen (t ∷ []) ts

module _ (lower : String → String) (str_of : Value → String) where
  parse_checks-All : (items : Items) → All IsNormal (parse_checks lower str_of items)
  unfolding parse_checks
  parse_checks-All Items.nil = tt
  parse_checks-All (Items.cons v vs) = elim (Option-cases (parse_check lower str_of v)) [
    | inl e ↦ rw (e, parse_checks) (parse_checks-All vs)
    | inr (c, e) ↦
        rw (e, parse_checks) (parse_check-IsNormal lower str_of v c e, parse_checks-All vs)
  ]

  contract_of_raw :
      (raw : Value) (c : VerificationContract)
      → parse_verification_contract lower str_of raw ≡ some c
      → All IsNormal c.checks × (contract_of c.checks ≡ some c)
  unfolding parse_verification_contract
  contract_of_raw (Value.obj raw) c e = of_checks (get_field "checks" raw) e
    where
      of_list :
          (l : List VerificationCheck)
          → All IsNormal l
          → contract_of l ≡ some c
          → All IsNormal c.checks × (contract_of c.checks ≡ some c)
      of_list [] h q = absurd (cc)
      of_list (k ∷ ks) h q =
          subst
            (λ (d : VerificationContract). All IsNormal d.checks × (contract_of d.checks ≡ some d))
            (some-injective _ _ q) (h, refl)

      of_checks :
          (o : Option Value)
          → parse_raw_checks lower str_of o ≡ some c
          → All IsNormal c.checks × (contract_of c.checks ≡ some c)
      of_checks (some (Value.arr items)) q =
          of_list (parse_checks lower str_of items) (parse_checks-All items) q
      of_checks _ q = absurd (cc)
  contract_of_raw _ c e = absurd (cc)

  pub parsed-IsNormal :
      (raw : Value) (c : VerificationContract)
      → parse_verification_contract lower str_of raw ≡ some c
      → All IsNormal c.checks
  parsed-IsNormal raw c e = (contract_of_raw raw c e).0

module _ (lower : String → String) (str_of : Value → String)
    (lower_command : lower "command" ≡ "command") (lower_judge : lower "judge" ≡ "judge") where
  field_text : (t : String) → strip t ≡ t → (if not (is_empty t) then strip t else strip "") ≡ t
  unfolding strip
  field_text String.[] h = refl
  field_text (String.◌∷◌ ch t) h = h

  from_command :
      (raw : Fields) (t r : String)
      → stripped_field lower str_of "kind" raw ≡ "command"
      → stripped_field lower str_of "command" raw ≡ t
      → stripped_field lower str_of "rationale" raw ≡ r
      → is_empty t ≡ false
      → parse_fields lower str_of raw
        ≡ some (record { kind = CheckKind.command; command = some t; criteria = []; rationale = r })
  unfolding parse_fields
  from_command raw t r k c q e =
      rw (k, parse_fields) (rw (lower_command, parse_fields) (rw (c, q) (rw e)))

  from_judge :
      (raw : Fields) (cs : List String) (r : String)
      → stripped_field lower str_of "kind" raw ≡ "judge"
      → stripped_field lower str_of "rationale" raw ≡ r
      → get_field "criteria" raw ≡ some (Value.arr (texts cs))
      → collect_criteria lower str_of [] (texts cs) ≡ cs
      → not (nat_beq (length cs) 0) ≡ true
      → parse_fields lower str_of raw
        ≡ some (record { kind = CheckKind.judge; command = none; criteria = cs; rationale = r })
  unfolding parse_fields judge_of
  from_judge raw cs r k q c all_kept e =
      rw (k, parse_fields) (rw (lower_judge, parse_fields) (rw (q, c) (rw all_kept (filled cs e))))
    where
      filled :
          (l : List String)
          → not (nat_beq (length l) 0) ≡ true
          → judge_check r l
            ≡ some (record { kind = CheckKind.judge; command = none; criteria = l; rationale = r })
      filled [] h = absurd (cc)
      filled (t ∷ ts) h = refl

  of_parts :
      (k : CheckKind) (cmd : Option String) (criteria : List String) (rationale : String)
      → NormalParts k cmd criteria
      → strip rationale ≡ rationale
      → let c : VerificationCheck = record {
        kind = k;
        command = cmd;
        criteria = criteria;
        rationale = rationale;
      } in
        parse_check lower str_of (check_to_dict c) ≡ some c
  unfolding parse_check check_to_dict stripped_field
  of_parts CheckKind.command (some t) criteria rationale (clean, none_left) st = rw none_left (
      from_command
        (Fields.field "kind" (Value.str "command") (
          Fields.field "command" (Value.str t)
            (Fields.field "rationale" (Value.str rationale) Fields.end)))
        t rationale (unfold strip in refl) (field_text t clean.0) (field_text rationale st) clean.1)
  of_parts CheckKind.command none criteria rationale h st = absurd h
  of_parts CheckKind.judge (some t) criteria rationale h st = absurd h
  of_parts CheckKind.judge none criteria rationale (some_left, clean, once) st =
      from_judge
        (Fields.field "kind" (Value.str "judge") (
          Fields.field "criteria" (Value.arr (texts criteria))
            (Fields.field "rationale" (Value.str rationale) Fields.end)))
        criteria rationale (unfold strip in refl) (field_text rationale st) refl
        (collect_texts lower str_of [] criteria clean once) some_left

  check_roundtrip :
      (c : VerificationCheck) → IsNormal c → parse_check lower str_of (check_to_dict c) ≡ some c
  check_roundtrip c n = of_parts c.kind c.command c.criteria c.rationale n.parts n.stripped

  checks_roundtrip :
      (cs : List VerificationCheck)
      → All IsNormal cs
      → parse_checks lower str_of (checks_to_items cs) ≡ cs
  unfolding parse_checks
  checks_roundtrip [] h = refl
  checks_roundtrip (c ∷ cs) h =
      rw (check_roundtrip c h.0, parse_checks) (ap (λ r. c ∷ r) (checks_roundtrip cs h.1))

  -- `to_dict` and parsing give back every contract that was parsed, if `str.lower` keeps the two
  -- words "command" and "judge".
  pub contract_roundtrip :
      (raw : Value) (c : VerificationContract)
      → parse_verification_contract lower str_of raw ≡ some c
      → parse_verification_contract lower str_of (contract_to_dict c) ≡ some c
  unfolding parse_verification_contract contract_to_dict
  contract_roundtrip raw c e =
      let (normal, filled) = contract_of_raw lower str_of raw c e in
      rw (checks_roundtrip c.checks normal) filled
