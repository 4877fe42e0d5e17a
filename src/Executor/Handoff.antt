-- ===== src/Executor/Handoff.antt =====
-- core/run_attempt_executor.py: the handoff record that one attempt leaves to the next.
pub mod Usable
use bsnexus.Contract.Defs.{stripped_field, text_of}
use bsnexus.Effects.{err, ok}
use bsnexus.Executor.Defs.{Llm, Phase, summary_preview_chars, user_says}
use bsnexus.Json.{Items, Value, get_field}
use bsnexus.Models.{Handoff}
use bsnexus.Prelude.{
  List, Option, String, [], false, if◌then◌else◌, is_empty, or_empty, some, strip, take_text, ◌++◌,
  ◌+◌, ◌∷◌,
}
use bsnexus.Replies.{reply_value}

-- `s or t`
abbrev pub or_else : String → String → String
or_else s t = if is_empty s then t else s

-- `_fallback_handoff`
unfoldable pub fallback_handoff : List String → String → Handoff
fallback_handoff written final_text = record {
  summary =
      take_text summary_preview_chars
        (or_else final_text "Previous attempt ran out of round budget.");
  files_touched = written;
  verification_state = "unknown — handoff generation unavailable";
  remaining = "Inspect the workspace files for current state, then finish the work step objective.";
  blockers = "";
}

module _ (lower : String → String) (str_of : Value → String) where
  -- `[str(f).strip() for f in files if str(f).strip()]`
  unfoldable pub stripped_texts : Items → List String
  stripped_texts Items.nil = []
  stripped_texts (Items.cons v vs) =
      let rest = stripped_texts vs in
      let text = strip (text_of lower str_of v) in if is_empty text then rest else text ∷ rest

  abbrev pub texts_or : List String → List String → List String
  texts_or [] written = written
  texts_or (t ∷ ts) written = t ∷ ts

  abbrev pub files_of : Option Value → List String → List String
  files_of (some (Value.arr items)) written = texts_or (stripped_texts items) written
  files_of _ written = written

  -- `_coerce_handoff`
  unfoldable pub coerce_handoff : Option Value → List String → String → Handoff
  unfolding fallback_handoff
  coerce_handoff (some (Value.obj raw)) written final_text = record {
    summary =
        or_else (stripped_field lower str_of "summary" raw)
          (fallback_handoff written final_text).summary;
    files_touched = files_of (get_field "files_touched" raw) written;
    verification_state = or_else (stripped_field lower str_of "verification_state" raw) "(unknown)";
    remaining =
        or_else (stripped_field lower str_of "remaining" raw) "Finish the work step objective.";
    blockers = stripped_field lower str_of "blockers" raw;
  }
  coerce_handoff _ written final_text = fallback_handoff written final_text

  -- `_generate_handoff_record`: one call of the LLM with no tools; whatever goes wrong, a record
  unfoldable pub generate_handoff_record :
      (String → Option Value) → Llm → String → Phase → Handoff × Phase
  unfolding coerce_handoff
  generate_handoff_record loads llm request ph =
      let reply = llm ph.trips (ph.messages ++ user_says request ∷ []) false in
      (
        elim reply [
          | err e ↦ fallback_handoff ph.written ph.final_text
          | ok r ↦
              coerce_handoff (reply_value loads (or_empty r.output_ref)) ph.written ph.final_text
        ],
        record ph { trips = ph.trips + 1 },
      )
