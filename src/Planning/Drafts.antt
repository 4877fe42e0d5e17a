-- ===== src/Planning/Drafts.antt =====
-- core/planning/decomposer.py: what holds of every plan.
use bsnexus.Effects.{Error, Result, Result-cases, err, ok}
use bsnexus.Executor.Handoff.{or_else}
use bsnexus.Json.{Items, Value, get_field}
use bsnexus.Models.{WorkStepDraft}
use bsnexus.Planning.{
  call_with_parse_retry, coerce_all, coerce_draft, decompose_request, draft_of, drafts_or,
  extract_step_list, filled_text, json_candidate, keep_draft, list_of, outputs_of, parse_drafts,
  parsed_by, plan_of_text, plan_or, single_step_fallback, truncate_drafts,
}
use bsnexus.Prelude.{
  All, Bool, Bool-cases, List, Option, String, [], arith, false, first_line, if◌then◌else◌, inl,
  inr, is_empty, join_text, length, ltb, none, or_empty, refl, some, strip, suc, take_text,
  text_length, true, zero, ℕ, ◌+◌, ◌∷◌, ◌≡◌, ◌≤◌, ◌⊎◌,
}
use bsnexus.Store.{found}

-- a draft that the founder can read: a name of 1 to 80 characters, and an objective
abbrev pub IsPlain : WorkStepDraft → Type 0
IsPlain d = (is_empty d.name ≡ false) × (text_length d.name ≤ 80) × (is_empty d.objective ≡ false)

take_length : (n : ℕ) (t : String) → text_length (take_text n t) ≤ n
unfolding take_text text_length
take_length zero t = omega arith
take_length (suc n) String.[] = omega arith
take_length (suc n) (String.◌∷◌ c t) = omega (arith, take_length n t)

take_filled : (n : ℕ) (t : String) → is_empty t ≡ false → is_empty (take_text (suc n) t) ≡ false
unfolding take_text
take_filled n String.[] h = h
take_filled n (String.◌∷◌ c t) h = refl

or_else_filled : (s t : String) → is_empty t ≡ false → is_empty (or_else s t) ≡ false
or_else_filled String.[] t h = h
or_else_filled (String.◌∷◌ c s) t h = refl

or_else_length :
    (s t : String) (n : ℕ) → text_length s ≤ n → text_length t ≤ n → text_length (or_else s t) ≤ n
or_else_length String.[] t n h g = g
or_else_length (String.◌∷◌ c s) t n h g = h

fallback-IsPlain : (intent : String) → IsPlain (single_step_fallback intent)
unfolding single_step_fallback text_length
fallback-IsPlain intent =
    let title = if is_empty intent then "Request" else first_line intent in
    let name = or_else (take_text 80 title) "Request" in
    let named : is_empty name ≡ false = or_else_filled (take_text 80 title) "Request" refl in
    (
      named,
      or_else_length (take_text 80 title) "Request" 80 (take_length 80 title) (omega arith),
      or_else_filled intent name named,
    )

module _ (lower : String → String) (str_of : Value → String) (fenced : String → Option String)
    (loads : String → Result (Option Value)) where
  filled_cases :
      (v : Option Value)
      → (filled_text v ≡ none) ⊎ ((t : String) × (filled_text v ≡ some t) × (is_empty t ≡ false))
  filled_cases none = inl refl
  filled_cases (some (Value.str s)) = elim (Bool-cases (is_empty (strip s))) [
    | inl e ↦ inl (rw e refl)
    | inr e ↦ inr (strip s, rw e refl, e)
  ]
  filled_cases (some v) = inl refl

  kept-IsPlain :
      (name objective : Option Value) (outputs : List String) (drafts : List WorkStepDraft)
      → All IsPlain drafts
      → All IsPlain
          (keep_draft (draft_of (filled_text name) (filled_text objective) outputs) drafts)
  kept-IsPlain name objective outputs drafts h = elim (filled_cases name) [
    | inl e ↦ rw e h
    | inr (n, e, filled) ↦ elim (filled_cases objective) [
      | inl e2 ↦ rw (e, e2) h
      | inr (o, e2, filled2) ↦ rw (e, e2) ((take_filled 79 n filled, take_length 80 n, filled2), h)
    ]
  ]

  coerce-IsPlain : (items : Items) → All IsPlain (coerce_all lower str_of fenced loads items)
  unfolding coerce_all coerce_draft
  coerce-IsPlain Items.nil = tt
  coerce-IsPlain (Items.cons (Value.obj entry) vs) =
      kept-IsPlain (get_field "name" entry) (get_field "objective" entry)
        (outputs_of lower str_of (get_field "expected_outputs" entry))
        (coerce_all lower str_of fenced loads vs) (coerce-IsPlain vs)
  coerce-IsPlain (Items.cons v vs) = coerce-IsPlain vs

  -- the result has `P`, or the exception is one that `json.loads` has raised
  abbrev pub Gives {ℓ} : {A : Type ℓ} → (A → Type 0) → Result A → Type 0
  Gives P (ok a) = P a
  Gives P (err e) = (t : String) × (loads t ≡ err e)

  self-Gives :
      {A : Type 0} (t : String) (r : Result A)
      → ((e : Error) → r ≡ err e → loads t ≡ err e)
      → Gives (λ _. Unit {0}) r
  self-Gives t (ok a) h = tt
  self-Gives t (err e) h = (t, h e refl)

  parsed-Gives : (c : Option String) → Gives (λ _. Unit {0}) (parsed_by loads c)
  parsed-Gives none = tt
  parsed-Gives (some t) = self-Gives t (loads t) (λ e h. h)

  listed-Gives :
      (r : Result (Option Value))
      → Gives (λ _. Unit {0}) r
      → Gives (λ _. Unit {0}) (elim r [ err e ↦ err e | ok parsed ↦ ok (list_of parsed) ])
  listed-Gives (ok parsed) h = tt
  listed-Gives (err e) h = h

  extract-Gives :
      (text : String) → Gives (λ _. Unit {0}) (extract_step_list lower str_of fenced loads text)
  unfolding extract_step_list
  extract-Gives text =
      listed-Gives (parsed_by loads (json_candidate fenced text))
        (parsed-Gives (json_candidate fenced text))

  coerced-Gives :
      (r : Result (Option Items))
      → Gives (λ _. Unit {0}) r
      → Gives (All IsPlain) (elim r [
        | err e ↦ err e
        | ok found ↦ elim found [
          | none ↦ ok []
          | some raw ↦ ok (coerce_all lower str_of fenced loads raw)
        ]
      ])
  coerced-Gives (ok none) h = tt
  coerced-Gives (ok (some raw)) h = coerce-IsPlain raw
  coerced-Gives (err e) h = h

  parse-Gives : (text : String) → Gives (All IsPlain) (parse_drafts lower str_of fenced loads text)
  unfolding parse_drafts
  parse-Gives text =
      coerced-Gives (extract_step_list lower str_of fenced loads text) (extract-Gives text)

  tried-Gives :
      (r : Result (Option Items)) (text : String) (rest : Result (Option String))
      → Gives (λ _. Unit {0}) r
      → Gives (λ _. Unit {0}) rest
      → Gives
          (λ _. Unit {0})
          (elim r [
            | err e ↦ err e
            | ok found ↦ elim found [ some items ↦ ok (some text) | none ↦ rest ]
          ])
  tried-Gives (ok none) text rest h g = g
  tried-Gives (ok (some items)) text rest h g = tt
  tried-Gives (err e) text rest h g = h

  call-Gives :
      (reply : ℕ → Result (Option String)) (i left : ℕ) (last_text : Option String)
      → Gives
          (λ _. Unit {0})
          (call_with_parse_retry lower str_of fenced loads reply i left last_text)
  unfolding call_with_parse_retry
  call-Gives reply i zero last_text = tt
  call-Gives reply i (suc left) last_text = elim (Result-cases (reply i)) [
    | inr (e, x) ↦ rw (x, call_with_parse_retry) tt
    | inl (output, x) ↦
        let text = strip (or_empty output) in
        elim (Bool-cases (is_empty text)) [
          | inl blank ↦
              rw (x, call_with_parse_retry) (rw blank (call-Gives reply (i + 1) left last_text))
          | inr full ↦
              rw (x, call_with_parse_retry)
                (rw full (
                  tried-Gives (extract_step_list lower str_of fenced loads text) text
                    (call_with_parse_retry lower str_of fenced loads reply (i + 1) left (some text))
                    (extract-Gives text) (call-Gives reply (i + 1) left (some text))))
        ]
  ]

  truncate-IsPlain :
      (left : ℕ) (drafts : List WorkStepDraft)
      → All IsPlain drafts
      → All IsPlain (truncate_drafts left drafts)
  unfolding truncate_drafts join_text take_text
  truncate-IsPlain zero [] h = tt
  truncate-IsPlain (suc left) [] h = tt
  truncate-IsPlain zero (d ∷ drafts) h =
      ((refl, take_length 80 (join_text "follow-up split required — " d.name), (h.0).2), tt)
  truncate-IsPlain (suc left) (d ∷ drafts) h = (h.0, truncate-IsPlain left drafts (h.1))

  truncate_few :
      (left : ℕ) (drafts : List WorkStepDraft) → length (truncate_drafts left drafts) ≤ left + 1
  unfolding truncate_drafts
  truncate_few zero [] = omega arith
  truncate_few (suc left) [] = omega arith
  truncate_few zero (d ∷ drafts) = omega arith
  truncate_few (suc left) (d ∷ drafts) = omega (arith, truncate_few left drafts)

  -- a plan of 1 to 6 plain drafts
  abbrev pub IsPlan : List WorkStepDraft → Type 0
  IsPlan drafts = (1 ≤ length drafts) × (length drafts ≤ 6) × All IsPlain drafts

  drafts_or-IsPlan :
      (fallback : WorkStepDraft) (drafts : List WorkStepDraft)
      → IsPlain fallback
      → All IsPlain drafts
      → IsPlan (drafts_or lower str_of fenced loads fallback drafts)
  unfolding truncate_drafts
  drafts_or-IsPlan fallback [] h g = (omega arith, omega arith, (h, tt))
  drafts_or-IsPlan fallback (d ∷ drafts) h g = elim (Bool-cases (ltb 6 (length (d ∷ drafts)))) [
    | inl e ↦ rw e (omega arith, truncate_few 5 (d ∷ drafts), truncate-IsPlain 5 (d ∷ drafts) g)
    | inr e ↦ rw e (omega arith, ground (arith, e), g)
  ]

  plan_or-IsPlan :
      (fallback : WorkStepDraft) (drafts : Result (List WorkStepDraft))
      → IsPlain fallback
      → Gives (All IsPlain) drafts
      → Gives IsPlan (plan_or lower str_of fenced loads fallback drafts)
  plan_or-IsPlan fallback (ok drafts) h g = drafts_or-IsPlan fallback drafts h g
  plan_or-IsPlan fallback (err e) h g = g

  text-IsPlan :
      (fallback : WorkStepDraft) (text : Result (Option String))
      → IsPlain fallback
      → Gives (λ _. Unit {0}) text
      → Gives IsPlan (plan_of_text lower str_of fenced loads fallback text)
  text-IsPlan fallback (err e) h g = g
  text-IsPlan fallback (ok none) h g = (omega arith, omega arith, (h, tt))
  text-IsPlan fallback (ok (some t)) h g =
      plan_or-IsPlan fallback (parse_drafts lower str_of fenced loads t) h (parse-Gives t)

  chosen-IsPlan :
      (fallback : WorkStepDraft) (blank : Bool) (text : Result (Option String))
      → IsPlain fallback
      → Gives (λ _. Unit {0}) text
      → Gives IsPlan (
          if blank
          then ok (fallback ∷ [])
          else plan_of_text lower str_of fenced loads fallback text)
  chosen-IsPlan fallback true text h g = (omega arith, omega arith, (h, tt))
  chosen-IsPlan fallback false text h g = text-IsPlan fallback text h g

  -- Whatever the LLM replies, or if its call raises, the decomposer returns a plan of 1 to 6 drafts, each
  -- with a name of 1 to 80 characters and an objective that is not empty; or it raises, and then what
  -- it raises is an exception of `json.loads` other than JSONDecodeError.
  pub decompose-IsPlan :
      (reply : ℕ → Result (Option String)) (request_intent : String)
      → Gives IsPlan (decompose_request lower str_of fenced loads reply request_intent)
  unfolding decompose_request
  decompose-IsPlan reply request_intent =
      chosen-IsPlan (single_step_fallback (strip request_intent)) (is_empty (strip request_intent))
        (call_with_parse_retry lower str_of fenced loads reply 0 2 none)
        (fallback-IsPlain (strip request_intent)) (call-Gives reply 0 2 none)
