-- ===== src/Base/Texts.antt =====
-- The functions of Go's `strings` that the handlers call, on texts as sequences of characters.
use Prim.Native.Char.{Char, code}
use Prim.Native.Nat.{ℕ, zero, suc, ◌/◌, ◌%◌}
use mathlib.Core.Path.{◌≡◌, refl}
use Prim.Native.String.{String}
pub use Prim.Native.String.{◌++◌ as ◌<>◌}
use mathlib.Core.Bool.{Bool, true, false, ◌&&◌, ◌||◌, not}
use mathlib.Core.Option.{Option, none, some}
use mathlib.Core.List.{List, [], ◌∷◌}
use text.Mathlib.Text.{find?}
use nightowl.Base.Tests.{leb, ltb, ◌==◌, if◌then◌else◌}
use nightowl.Base.Lists.{get_elem?}

abbrev between : ℕ → ℕ → ℕ → Bool
between low high n = leb low n && leb n high

-- unicode.IsSpace: the characters with the property White_Space.
unfoldable pub is_space : Char → Bool
is_space c =
    let n = code c in
    between 9 13 n
    || n == 32
    || n == 133
    || n == 160
    || n == 5760
    || between 8192 8202 n
    || between 8232 8233 n
    || n == 8239
    || n == 8287
    || n == 12288

unfoldable pub starts_word : String → Bool
unfolding is_space
starts_word String.[] = false
starts_word (String.◌∷◌ c s) = not (is_space c)

-- A character in front of a text: it extends the first word if one begins there.
abbrev pub extend : Char → Bool → List String → List String
extend c true [] = String.◌∷◌ c String.[] ∷ []
extend c true (w ∷ ws) = String.◌∷◌ c w ∷ ws
extend c false ws = String.◌∷◌ c String.[] ∷ ws

-- strings.Fields
unfoldable pub fields : String → List String
unfolding starts_word is_space
fields String.[] = []
fields (String.◌∷◌ c s) =
    let rest = fields s in if is_space c then rest else extend c (starts_word s) rest

-- strings.Join(words, " ")
unfoldable pub join : List String → String
join [] = ""
join (w ∷ []) = w
join (w ∷ v ∷ ws) = w <> " " <> join (v ∷ ws)

-- strings.Join(lines, "\n")
unfoldable pub join_lines : List String → String
join_lines [] = ""
join_lines (l ∷ []) = l
join_lines (l ∷ k ∷ ls) = l <> "\n" <> join_lines (k ∷ ls)

abbrev pub is_empty : String → Bool
is_empty String.[] = true
is_empty (String.◌∷◌ c s) = false

-- strings.TrimSpace
unfoldable pub trim_left : String → String
unfolding is_space
trim_left String.[] = ""
trim_left (String.◌∷◌ c s) = let rest = trim_left s in if is_space c then rest else String.◌∷◌ c s

unfoldable pub trim_right : String → String
unfolding is_space
trim_right String.[] = ""
trim_right (String.◌∷◌ c s) =
    let rest = trim_right s in if is_space c && is_empty rest then "" else String.◌∷◌ c rest

unfoldable pub trim_space : String → String
unfolding trim_left trim_right
trim_space s = trim_left (trim_right s)

-- strings.SplitN(s, ",", 2)[0]
unfoldable pub before_comma : String → String
before_comma String.[] = ""
before_comma (String.◌∷◌ c s) =
    let rest = before_comma s in if code c == 44 then "" else String.◌∷◌ c rest

abbrev found_at : Option ℕ → Bool
found_at none = false
found_at (some i) = true

-- strings.Contains
unfoldable pub contains : String → String → Bool
contains s t = found_at (find? s t)

abbrev text_or : Option String → String
text_or none = ""
text_or (some s) = s

abbrev digit : ℕ → String
digit n = text_or (get_elem? ("0" ∷ "1" ∷ "2" ∷ "3" ∷ "4" ∷ "5" ∷ "6" ∷ "7" ∷ "8" ∷ "9" ∷ []) n)

unfoldable pub decimal_from : ℕ → ℕ → String → String
decimal_from zero n after = after
decimal_from (suc fuel) n after =
    let more = decimal_from fuel (n / 10) (digit (n % 10) <> after) in
    if ltb n 10 then digit n <> after else more

-- The decimal digits of a number; a number is above its quotient by ten, so `suc n` steps are
-- enough.
unfoldable pub decimal : ℕ → String
unfolding decimal_from
decimal n = decimal_from (suc n) n ""

decimal_of_305 : decimal 305 ≡ "305"
unfolding decimal
decimal_of_305 = refl
