-- ===== src/Executor/Handoff/Usable.antt =====
-- core/run_attempt_executor.py: what a handoff record holds, whatever the LLM replies.
use bsnexus.Contract.Defs.{stripped_field}
use bsnexus.Effects.{Result-cases}
use bsnexus.Executor.Defs.{Llm, Phase, user_says}
use bsnexus.Executor.Handoff.{
  coerce_handoff, fallback_handoff, files_of, generate_handoff_record, or_else, stripped_texts,
  texts_or,
}
use bsnexus.Json.{Value, get_field}
use bsnexus.Models.{Handoff}
use bsnexus.Prelude.{
  List, Option, String, [], arith, false, inl, inr, is_empty, length, nat_beq, none, or_empty, refl,
  some, suc, take_text, true, ℕ, ◌++◌, ◌∷◌, ◌≡◌,
}
use bsnexus.Replies.{reply_value}

-- a summary and what remains, and files where the attempt wrote any
abbrev pub IsUsable : List String → Handoff → Type 0
IsUsable written h =
    (is_empty h.summary ≡ false)
    × (is_empty h.remaining ≡ false)
    × (nat_beq (length h.files_touched) 0 ≡ true → nat_beq (length written) 0 ≡ true)

or_else_filled : (s t : String) → is_empty t ≡ false → is_empty (or_else s t) ≡ false
or_else_filled String.[] t h = h
or_else_filled (String.◌∷◌ c s) t h = refl

take_text_filled :
    (n : ℕ) (t : String) → is_empty t ≡ false → is_empty (take_text (suc n) t) ≡ false
unfolding take_text
take_text_filled n String.[] h = h
take_text_filled n (String.◌∷◌ c t) h = refl

fallback_summary :
    (written : List String) (final_text : String)
    → is_empty (fallback_handoff written final_text).summary ≡ false
unfolding fallback_handoff
fallback_summary written final_text =
    take_text_filled 499 _
      (or_else_filled final_text "Previous attempt ran out of round budget." refl)

fallback-IsUsable :
    (written : List String) (final_text : String)
    → IsUsable written (fallback_handoff written final_text)
unfolding fallback_handoff
fallback-IsUsable written final_text = (fallback_summary written final_text, refl, λ h. h)

module _ (lower : String → String) (str_of : Value → String) where
  texts_keep :
      (texts written : List String)
      → nat_beq (length (texts_or lower str_of texts written)) 0 ≡ true
      → nat_beq (length written) 0 ≡ true
  texts_keep [] written h = h
  texts_keep (t ∷ ts) written h = ground (arith, h)

  files_keep :
      (files : Option Value) (written : List String)
      → nat_beq (length (files_of lower str_of files written)) 0 ≡ true
      → nat_beq (length written) 0 ≡ true
  files_keep none written h = h
  files_keep (some (Value.arr items)) written h =
      texts_keep (stripped_texts lower str_of items) written h
  files_keep (some v) written h = h

  coerce-IsUsable :
      (raw : Option Value) (written : List String) (final_text : String)
      → IsUsable written (coerce_handoff lower str_of raw written final_text)
  unfolding coerce_handoff
  coerce-IsUsable none written final_text = fallback-IsUsable written final_text
  coerce-IsUsable (some (Value.obj raw)) written final_text = (
    or_else_filled (stripped_field lower str_of "summary" raw) _
        (fallback_summary written final_text),
    or_else_filled (stripped_field lower str_of "remaining" raw) "Finish the work step objective."
        refl,
    files_keep (get_field "files_touched" raw) written,
  )
  coerce-IsUsable (some v) written final_text = fallback-IsUsable written final_text

  -- The handoff record has a summary and says what remains to be done, neither empty, and it names
  -- files if the attempt wrote any. This holds whatever the LLM replies, or if its call raises.
  pub generated-IsUsable :
      (loads : String → Option Value) (llm : Llm) (request : String) (ph : Phase)
      → IsUsable ph.written (generate_handoff_record lower str_of loads llm request ph).0
  unfolding generate_handoff_record
  generated-IsUsable loads llm request ph =
      elim (Result-cases (llm ph.trips (ph.messages ++ user_says request ∷ []) false)) [
        | inl (r, e) ↦
            rw (e, generate_handoff_record)
              (coerce-IsUsable (reply_value loads (or_empty r.output_ref)) ph.written ph.final_text)
        | inr (x, e) ↦ rw (e, generate_handoff_record) (fallback-IsUsable ph.written ph.final_text)
      ]
