-- ===== src/AlertGroup/Matching.antt =====
-- Matching an alert's labels against a rule, and the key and title of its group
-- (pkg/alertgroup/alertgroup.go). The standard library's `regexp` and `crypto/sha256` are parameters.
use Prim.Native.String.{compare, ◌++◌ as ◌<>◌}
use text.Mathlib.Text.{is_le}
use nightowl.Base.{
  ℕ, String, str_eq, Bool, true, false, not, List, [], ◌∷◌, map, Option, none, some, leb,
  if◌then◌else◌, sort_with,
}
use nightowl.Schema.{LabelMap, RawJson, no_bytes, null, object, other, Matcher}

-- labels[key]: a key that is missing reads as the empty text.
abbrev pub label_of : String → LabelMap → String
label_of key [] = ""
label_of key ((k, v) ∷ rest) = if str_eq k key then v else label_of key rest

-- A column that does not decode has no matchers.
abbrev pub parse_matchers : Option (List Matcher) → List Matcher
parse_matchers none = []
parse_matchers (some matchers) = matchers

-- json.Unmarshal into a map of texts.
abbrev pub parse_labels : RawJson → Option LabelMap
parse_labels no_bytes = none
parse_labels null = some []
parse_labels (object labels) = some labels
parse_labels (other text) = none

abbrev pub is_match : Option (String → Bool) → String → Bool
is_match none value = false
is_match (some matches) value = matches value

abbrev pub is_mismatch : Option (String → Bool) → String → Bool
is_mismatch none value = false
is_mismatch (some matches) value = not (matches value)

-- `compile` is regexp.Compile: nothing for a malformed expression, else its MatchString.
module _ (compile : String → Option (String → Bool)) where
  abbrev pub accepts : Matcher → String → Bool
  accepts m value =
      if str_eq m.op "="
      then str_eq value m.value
      else if str_eq m.op "!="
      then not (str_eq value m.value)
      else if str_eq m.op "=~"
      then is_match (compile m.value) value
      else if str_eq m.op "!~"
      then is_mismatch (compile m.value) value
      else false

  unfoldable pub match_alert : List Matcher → LabelMap → Bool
  match_alert [] labels = true
  match_alert (m ∷ ms) labels =
      if accepts m (label_of m.key labels) then match_alert ms labels else false

-- result[key] = value
abbrev pub put : String → String → LabelMap → LabelMap
put key value [] = (key, value) ∷ []
put key value ((k, v) ∷ rest) =
    if str_eq k key then (k, value) ∷ rest else (k, v) ∷ put key value rest

abbrev pub extract_into : LabelMap → List String → LabelMap → LabelMap
extract_into result [] labels = result
extract_into result (key ∷ keys) labels =
    extract_into (put key (label_of key labels) result) keys labels

abbrev pub extract_group_by_labels : List String → LabelMap → LabelMap
extract_group_by_labels group_by labels = extract_into [] group_by labels

-- strings.Join
abbrev pub join : String → List String → String
join separator [] = ""
join separator (s ∷ []) = s
join separator (s ∷ t ∷ rest) = s <> (separator <> join separator (t ∷ rest))

-- The `key=value` texts, sorted.
unfoldable pub sorted_pairs : LabelMap → List String
sorted_pairs labels = sort_with (λ s t. is_le (compare s t)) (map (λ p. p.0 <> ("=" <> p.1)) labels)

-- `sha256_hex` is the hash as hexadecimal digits.
unfoldable pub compute_group_key_hash : (String → String) → LabelMap → String
unfolding sorted_pairs
compute_group_key_hash sha256_hex labels = sha256_hex (join "\n" (sorted_pairs labels))

abbrev pub title_of : List String → String
title_of [] = "(all)"
title_of (s ∷ rest) = join ", " (s ∷ rest)

unfoldable pub compute_group_title : LabelMap → String
unfolding sorted_pairs
compute_group_title labels = title_of (sorted_pairs labels)

abbrev pub severity_rank : String → ℕ
severity_rank s =
    if str_eq s "critical"
    then 4
    else if str_eq s "major"
    then 3
    else if str_eq s "warning"
    then 2
    else if str_eq s "info"
    then 1
    else 0

abbrev pub max_severity_of : String → String → String
max_severity_of a b = if leb (severity_rank b) (severity_rank a) then a else b
