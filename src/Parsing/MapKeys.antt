-- ===== src/Parsing/MapKeys.antt =====
-- internal/configs/parsing_helpers.go: the readers of numbers and lists among the values of a map.
use Prim.Native.Char.{Char}
use kubernetes_ingress.Prelude.{
  ℕ, zero, suc, ℤ, pos, String, starts_with, Bool, true, false, Option, none, some, List, [], ◌∷◌,
  StrMap, lookup, if◌then◌else◌,
}
use kubernetes_ingress.Parsing.{ParseError, contains_invalid, ok, err}
use kubernetes_ingress.Parsing.Strings.{cons_head}
use kubernetes_ingress.Parsing.Signed.{parse_int, parse_int64}

-- `GetMapKeyAsInt`: the value, whether the key exists, and the error.
unfoldable pub get_map_key_as_int : StrMap String → String → ℤ × Bool × Option ParseError
unfolding parse_int lookup
get_map_key_as_int m key = elim (lookup key m) [
  | none ↦ (pos 0, false, none)
  | some str ↦ elim (parse_int str) [
    | ok i ↦ (i, true, none)
    | err e ↦ (pos 0, true, some (contains_invalid key e))
  ]
]

-- `GetMapKeyAsInt64`
unfoldable pub get_map_key_as_int64 : StrMap String → String → ℤ × Bool × Option ParseError
unfolding parse_int64 lookup
get_map_key_as_int64 m key = elim (lookup key m) [
  | none ↦ (pos 0, false, none)
  | some str ↦ elim (parse_int64 str) [
    | ok i ↦ (i, true, none)
    | err e ↦ (pos 0, true, some (contains_invalid key e))
  ]
]

unfoldable pub length_of : String → ℕ
length_of String.[] = 0
length_of (String.◌∷◌ c s) = suc (length_of s)

-- The pieces of a text that a delimiter, a character and a rest, parts, after `skip` characters.
unfoldable pub pieces : Char → String → ℕ → String → List String
unfolding cons_head length_of
pieces d ds skip String.[] = "" ∷ []
pieces d ds (suc skip) (String.◌∷◌ c s) = pieces d ds skip s
pieces d ds zero (String.◌∷◌ c s) =
    let after = pieces d ds (length_of ds) s in
    let rest = pieces d ds zero s in
    if starts_with (String.◌∷◌ c s) (String.◌∷◌ d ds) then "" ∷ after else cons_head c rest

unfoldable pub characters : String → List String
characters String.[] = []
characters (String.◌∷◌ c s) = String.◌∷◌ c "" ∷ characters s

-- `strings.Split`, which gives the characters for an empty delimiter.
unfoldable pub split_text : String → String → List String
unfolding pieces characters
split_text s String.[] = characters s
split_text s (String.◌∷◌ d ds) = pieces d ds zero s

unfoldable pub split_slice : Option String → String → List String × Bool × Option ParseError
unfolding split_text
split_slice none delimiter = ([], false, none)
split_slice (some str) delimiter = (split_text str delimiter, true, none)

-- `GetMapKeyAsStringSlice`
unfoldable pub get_map_key_as_string_slice :
    StrMap String → String → String → List String × Bool × Option ParseError
unfolding split_slice
get_map_key_as_string_slice m key delimiter = split_slice (lookup key m) delimiter
