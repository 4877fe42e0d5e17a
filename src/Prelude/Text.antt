-- ===== src/Prelude/Text.antt =====
-- What the source uses of Python's `str`.
use Prim.Native.Nat.{ℕ, zero, suc}
use Prim.Native.Char.{Char, code}
use Prim.Native.String.{String}
use mathlib.Core.Bool.{Bool, true, false, not, ◌&&◌, ◌||◌}
use mathlib.Core.Option.{Option, none, some}
use bsnexus.Prelude.Tests.{◌==◌, leb, if◌then◌else◌, string_eq, nat_eq}

-- `str.isspace` of one character
abbrev pub is_space : Char → Bool
is_space ch =
    let c = code ch in
    (leb 9 c && leb c 13)
    || (leb 28 c && leb c 32)
    || c == 133
    || c == 160
    || c == 5760
    || (leb 8192 c && leb c 8202)
    || c == 8232
    || c == 8233
    || c == 8239
    || c == 8287
    || c == 12288

-- `not s`
abbrev pub is_empty : String → Bool
is_empty String.[] = true
is_empty (String.◌∷◌ c s) = false

-- `str.lstrip()`
unfoldable pub lstrip : String → String
lstrip String.[] = String.[]
lstrip (String.◌∷◌ c s) = let rest = lstrip s in if is_space c then rest else String.◌∷◌ c s

-- `str.rstrip()`
unfoldable pub rstrip : String → String
rstrip String.[] = String.[]
rstrip (String.◌∷◌ c s) =
    let rest = rstrip s in if is_space c && is_empty rest then "" else String.◌∷◌ c rest

-- `str.strip()`
unfoldable pub strip : String → String
unfolding lstrip rstrip
strip s = rstrip (lstrip s)

-- `s + t`
unfoldable pub join_text : String → String → String
join_text String.[] t = t
join_text (String.◌∷◌ c s) t = String.◌∷◌ c (join_text s t)

-- `t.startswith(s)`
pub is_prefix : String → String → Bool
is_prefix String.[] t = true
is_prefix (String.◌∷◌ c s) String.[] = false
is_prefix (String.◌∷◌ c s) (String.◌∷◌ d t) = code c == code d && is_prefix s t

-- `s in t`
unfoldable pub is_infix : String → String → Bool
unfolding is_prefix
is_infix s String.[] = is_prefix s ""
is_infix s (String.◌∷◌ d t) = is_prefix s (String.◌∷◌ d t) || is_infix s t

-- `s or ""` for a nullable text
abbrev pub or_empty : Option String → String
or_empty none = ""
or_empty (some s) = s

-- `bool(s)` for a nullable text
abbrev pub has_text : Option String → Bool
has_text s = not (is_empty (or_empty s))

-- a line boundary of `str.splitlines`
abbrev is_line_end : Char → Bool
is_line_end ch =
    let c = code ch in
    (leb 10 c && leb c 13) || (leb 28 c && leb c 30) || c == 133 || c == 8232 || c == 8233

-- `s.splitlines()[0]` of a text that is not empty
unfoldable pub first_line : String → String
first_line String.[] = ""
first_line (String.◌∷◌ c s) = if is_line_end c then "" else String.◌∷◌ c (first_line s)

-- `len(s)`
unfoldable pub text_length : String → ℕ
text_length String.[] = 0
text_length (String.◌∷◌ c s) = suc (text_length s)

-- `s[:n]`
unfoldable pub take_text : ℕ → String → String
take_text zero s = ""
take_text (suc n) String.[] = ""
take_text (suc n) (String.◌∷◌ c s) = String.◌∷◌ c (take_text n s)
