-- ===== src/Prelude/Strips.antt =====
-- `str.strip` leaves a text that it does not change again.
use Prim.Native.String.{String}
use mathlib.Core.Path.{◌≡◌, refl, ap, ◌∙◌}
use mathlib.Core.Bool.{false, ◌&&◌}
use mathlib.Core.Logic.{inl, inr}
use bsnexus.Prelude.Tests.{Bool-cases}
use bsnexus.Prelude.Text.{is_space, is_empty, lstrip, rstrip, strip}

-- the first character, if any, is no white space
abbrev StartsDark : String → Type 0
StartsDark String.[] = Unit
StartsDark (String.◌∷◌ c s) = is_space c ≡ false

lstrip-StartsDark : (s : String) → StartsDark (lstrip s)
unfolding lstrip
lstrip-StartsDark String.[] = tt
lstrip-StartsDark (String.◌∷◌ c s) = elim (Bool-cases (is_space c)) [
  | inl h ↦ rw h (lstrip-StartsDark s)
  | inr h ↦ rw h h
]

lstrip_of_StartsDark : (s : String) → StartsDark s → lstrip s ≡ s
unfolding lstrip
lstrip_of_StartsDark String.[] h = refl
lstrip_of_StartsDark (String.◌∷◌ c s) h = rw h

rstrip-StartsDark : (s : String) → StartsDark s → StartsDark (rstrip s)
unfolding rstrip
rstrip-StartsDark String.[] h = tt
rstrip-StartsDark (String.◌∷◌ c s) h = rw h h

rstrip_idem : (s : String) → rstrip (rstrip s) ≡ rstrip s
unfolding rstrip
rstrip_idem String.[] = refl
rstrip_idem (String.◌∷◌ c s) = elim (Bool-cases (is_space c && is_empty (rstrip s))) [
  | inl h ↦ rw (h, rstrip)
  | inr h ↦ rw (h, rstrip) (rw (rstrip_idem s) (rw h))
]

pub strip_idem : (s : String) → strip (strip s) ≡ strip s
unfolding strip
strip_idem s =
    ap rstrip (
      lstrip_of_StartsDark (rstrip (lstrip s)) (rstrip-StartsDark (lstrip s) (lstrip-StartsDark s)))
    ∙ rstrip_idem (lstrip s)
