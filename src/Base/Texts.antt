-- ===== src/Base/Texts.antt =====
-- Python's `str` methods that the program calls, over native texts.
use Prim.Native.Nat.{ℕ, zero, suc, ◌+◌, ◌-◌, ◌*◌}
use Prim.Native.Char.{Char, code}
use Prim.Native.String.{String, ◌++◌, char_at}
use mathlib.Core.Bool.{Bool, true, false, ◌&&◌, ◌||◌, not}
use mathlib.Core.Option.{Option, none, some}
use mathlib.Core.List.{List, [], ◌∷◌}
use text.Mathlib.Text.{starts_with}
use edgekit.Base.Tests.{◌==◌, ltb, leb, str_eq, if◌then◌else◌}

-- `str.isspace` of one character.
abbrev pub is_space : Char → Bool
is_space c =
    let n = code c in
    leb 9 n && leb n 13
    || leb 28 n && leb n 32
    || n == 133
    || n == 160
    || n == 5760
    || leb 8192 n && leb n 8202
    || n == 8232
    || n == 8233
    || n == 8239
    || n == 8287
    || n == 12288

-- Drops the leading characters that pass.
unfoldable pub lstrip_by : (Char → Bool) → String → String
lstrip_by p String.[] = ""
lstrip_by p (String.◌∷◌ c s) = let rest = lstrip_by p s in if p c then rest else String.◌∷◌ c s

-- Drops the trailing characters that pass.
unfoldable pub rstrip_by : (Char → Bool) → String → String
rstrip_by p String.[] = ""
rstrip_by p (String.◌∷◌ c s) =
    let rest = rstrip_by p s in if str_eq rest "" && p c then "" else String.◌∷◌ c rest

-- `s.strip()`
unfoldable pub strip : String → String
unfolding lstrip_by rstrip_by
strip s = rstrip_by is_space (lstrip_by is_space s)

-- `s.lower()` of one ASCII letter; `other` says what becomes of the characters beyond ASCII.
unfoldable pub lower_by : (Char → String) → String → String
lower_by other String.[] = ""
lower_by other (String.◌∷◌ c s) =
    let n = code c in
    let rest = lower_by other s in
    if leb 65 n && leb n 90
    then String.◌∷◌ (char_at "abcdefghijklmnopqrstuvwxyz" (n - 65)) rest
    else if ltb n 128
    then String.◌∷◌ c rest
    else other c ++ rest

abbrev pub onto_first : Char → Bool → List String → List String
onto_first c true parts = "" ∷ parts
onto_first c false (part ∷ parts) = String.◌∷◌ c part ∷ parts
onto_first c false [] = String.◌∷◌ c "" ∷ []

-- `s.split(sep)` at one character.
unfoldable pub split_by : (Char → Bool) → String → List String
split_by p String.[] = "" ∷ []
split_by p (String.◌∷◌ c s) = onto_first c (p c) (split_by p s)

abbrev pub is_digit : Char → Bool
is_digit c = leb 48 (code c) && leb (code c) 57

-- `s.isdigit()` over ASCII: not empty, and every character a digit.
abbrev pub all_chars : (Char → Bool) → String → Bool
all_chars p String.[] = true
all_chars p (String.◌∷◌ c s) = p c && all_chars p s

unfoldable pub is_numeric : String → Bool
is_numeric s = not (str_eq s "") && all_chars is_digit s

-- `int(s)` of digits.
unfoldable pub digits_value : ℕ → String → ℕ
digits_value acc String.[] = acc
digits_value acc (String.◌∷◌ c s) = digits_value (acc * 10 + (code c - 48)) s

-- `piece in s`
unfoldable pub includes : String → String → Bool
includes piece String.[] = starts_with "" piece
includes piece (String.◌∷◌ c s) = starts_with (String.◌∷◌ c s) piece || includes piece s

-- `s.endswith(suffix)`
unfoldable pub ends_with : String → String → Bool
ends_with String.[] suffix = str_eq "" suffix
ends_with (String.◌∷◌ c s) suffix = str_eq (String.◌∷◌ c s) suffix || ends_with s suffix

-- What follows the first character that passes, none if there is none.
unfoldable pub after_first : (Char → Bool) → String → Option String
after_first p String.[] = none
after_first p (String.◌∷◌ c s) = let rest = after_first p s in if p c then some s else rest

-- `s[n:]`
unfoldable pub drop_chars : ℕ → String → String
drop_chars zero s = s
drop_chars (suc n) String.[] = ""
drop_chars (suc n) (String.◌∷◌ c s) = drop_chars n s

-- `s.splitlines()` of a text with `\n` between its lines.
unfoldable pub lines_of : List String → List String
lines_of [] = []
lines_of (part ∷ []) = if str_eq part "" then [] else part ∷ []
lines_of (part ∷ next ∷ parts) = part ∷ lines_of (next ∷ parts)

unfoldable pub splitlines : String → List String
splitlines s = lines_of (split_by (λ c. code c == 10) s)
