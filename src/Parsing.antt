-- ===== src/Parsing.antt =====
-- internal/configs/parsing_helpers.go: the parsers of annotation and ConfigMap values. What the code
-- takes of Go's `strings`, `strconv` and `regexp` is written out; the text of an error is kept as a
-- value, since only its presence and its argument matter to the callers.
pub mod Methods
pub mod Strings
pub mod Signed
pub mod Members
pub mod MapKeys
use Prim.Native.Char.{Char, code}
use kubernetes_ingress.Prelude.{
  ℕ, ◌+◌, ◌*◌, ◌^◌, ◌-◌, String, ◌==◌, starts_with, Bool, true, false, ◌&&◌, ◌||◌, Option, none,
  some, List, [], ◌∷◌, StrMap, lookup, ltb, eqb, if◌then◌else◌,
}
use Strings.{trim_space, split, contains, is_digit}

pub data ParseError : Type 0 where
  syntax_error range_error : String → ParseError
  invalid_lb_method : String → ParseError
  invalid_time_string invalid_offset_string invalid_size_string : ParseError
  contains_invalid : String → ParseError → ParseError
  must_be_greater_than_zero : String → ParseError

pub data Result (A : Type 0) : Type 0 where
  ok : A → Result A
  err : ParseError → Result A

-- `strconv.ParseBool`
unfoldable pub parse_bool : String → Result Bool
unfolding contains
parse_bool s =
    if contains ("1" ∷ "t" ∷ "T" ∷ "true" ∷ "TRUE" ∷ "True" ∷ []) s
    then ok true
    else if contains ("0" ∷ "f" ∷ "F" ∷ "false" ∷ "FALSE" ∷ "False" ∷ []) s
    then ok false
    else err (syntax_error s)

abbrev pub u64_mod : ℕ
u64_mod = 2 ^ 64

-- `strconv.ParseUint(s, 10, 64)`: a value past 2^64 - 1 is out of range. The digit that passes
-- the limit ends the scan.
unfoldable pub scan_uint : ℕ → String → String → Result ℕ
unfolding is_digit
scan_uint n whole String.[] = ok n
scan_uint n whole (String.◌∷◌ c s) =
    let next = n * 10 + (code c - b'0') in
    let rest = scan_uint next whole s in
    if is_digit c
    then (if ltb next u64_mod then rest else err (range_error whole))
    else err (syntax_error whole)

-- `ParseUint64`
unfoldable pub parse_uint64 : String → Result ℕ
unfolding scan_uint
parse_uint64 s = if s == "" then err (syntax_error s) else scan_uint 0 s s

-- The states of a matcher of `^([0-9]+([ms|s|m|h|d|w|M|y]?){0,1} *)+$`: at the start, after a digit,
-- after a unit, after a space.
pub data TimeState : Type 0 where
  at_start after_digit after_unit after_space : TimeState

-- The class `[ms|s|m|h|d|w|M|y]`, in which `|` is a character.
unfoldable pub is_time_unit : Char → Bool
is_time_unit c =
    let n = code c in
    eqb n b'm'
    || (eqb n b's'
        || (eqb n b'|'
            || (eqb n b'h' || (eqb n b'd' || (eqb n b'w' || (eqb n b'M' || eqb n b'y'))))))

-- The state after a character, if the text can still match.
unfoldable pub time_step : TimeState → Char → Option TimeState
unfolding is_digit is_time_unit
time_step at_start c = if is_digit c then some after_digit else none
time_step after_digit c =
    if is_digit c
    then some after_digit
    else if is_time_unit c
    then some after_unit
    else if eqb (code c) 32
    then some after_space
    else none
time_step after_unit c =
    if is_digit c then some after_digit else if eqb (code c) 32 then some after_space else none
time_step after_space c =
    if is_digit c then some after_digit else if eqb (code c) 32 then some after_space else none

-- `timeRegexp.MatchString`
unfoldable pub matches_time : TimeState → String → Bool
unfolding time_step
matches_time at_start String.[] = false
matches_time _ String.[] = true
matches_time st (String.◌∷◌ c s) = elim (time_step st c) [
  | none ↦ false
  | some st' ↦ matches_time st' s
]

-- `ParseTime`
unfoldable pub parse_time : String → Result String
unfolding matches_time trim_space
parse_time s =
    let t = trim_space s in if matches_time at_start t then ok t else err invalid_time_string

-- `\d+[units]?`: digits, then at most one unit. `seen` tells if a digit was read.
unfoldable pub matches_amount : (Char → Bool) → Bool → String → Bool
unfolding is_digit
matches_amount is_unit seen String.[] = seen
matches_amount is_unit seen (String.◌∷◌ c s) =
    let rest = matches_amount is_unit true s in
    if is_digit c then rest else seen && (is_unit c && s == "")

-- `[kKmM]` and `[kKmMgG]`
unfoldable pub is_size_unit : Char → Bool
is_size_unit c = let n = code c in eqb n b'k' || (eqb n b'K' || (eqb n b'm' || eqb n b'M'))

unfoldable pub is_offset_unit : Char → Bool
unfolding is_size_unit
is_offset_unit c = is_size_unit c || (eqb (code c) b'g' || eqb (code c) b'G')

-- `ParseOffset`
unfoldable pub parse_offset : String → Result String
unfolding matches_amount is_offset_unit trim_space
parse_offset s =
    let t = trim_space s in
    if matches_amount is_offset_unit false t then ok t else err invalid_offset_string

-- `ParseSize`
unfoldable pub parse_size : String → Result String
unfolding matches_amount is_size_unit trim_space
parse_size s =
    let t = trim_space s in
    if matches_amount is_size_unit false t then ok t else err invalid_size_string

-- `validateHashLBMethod`
unfoldable pub is_hash_method : List String → Bool
is_hash_method (h ∷ key ∷ []) = h == "hash"
is_hash_method (h ∷ key ∷ w ∷ []) = h == "hash" && w == "consistent"
is_hash_method _ = false

unfoldable pub validate_hash_lb_method : String → Result String
unfolding is_hash_method split
validate_hash_lb_method method =
    if is_hash_method (split b' ' method) then ok method else err (invalid_lb_method method)

-- `nginxLBValidInput`
abbrev pub nginx_lb_valid_input : List String
nginx_lb_valid_input =
    "least_conn" ∷ "ip_hash" ∷ "random" ∷ "random two" ∷ "random two least_conn" ∷ []

-- `nginxPlusLBValidInput`
abbrev pub nginx_plus_lb_valid_input : List String
nginx_plus_lb_valid_input =
    "least_conn" ∷ "ip_hash" ∷ "random" ∷ "random two" ∷ "random two least_conn"
    ∷ "random two least_time=header" ∷ "random two least_time=last_byte" ∷ "least_time header"
    ∷ "least_time last_byte" ∷ "least_time header inflight" ∷ "least_time last_byte inflight" ∷ []

lb_method_from : List String → String → Result String
unfolding validate_hash_lb_method contains
lb_method_from valid_input method =
    if method == "round_robin"
    then ok ""
    else if starts_with method "hash"
    then validate_hash_lb_method method
    else if contains valid_input method
    then ok method
    else err (invalid_lb_method method)

-- `ParseLBMethod`
unfoldable pub parse_lb_method : String → Result String
unfolding lb_method_from trim_space
parse_lb_method method = lb_method_from nginx_lb_valid_input (trim_space method)

-- `ParseLBMethodForPlus`
unfoldable pub parse_lb_method_for_plus : String → Result String
unfolding lb_method_from trim_space
parse_lb_method_for_plus method = lb_method_from nginx_plus_lb_valid_input (trim_space method)

-- `GetMapKeyAsBool`: the value, whether the key exists, and the error.
unfoldable pub get_map_key_as_bool : StrMap String → String → Bool × Bool × Option ParseError
unfolding parse_bool lookup
get_map_key_as_bool m key = elim (lookup key m) [
  | none ↦ (false, false, none)
  | some str ↦ elim (parse_bool str) [
    | ok b ↦ (b, true, none)
    | err e ↦ (false, true, some (contains_invalid key e))
  ]
]

-- `GetMapKeyAsUint64`
unfoldable pub get_map_key_as_uint64 : StrMap String → String → Bool → ℕ × Bool × Option ParseError
unfolding parse_uint64 lookup
get_map_key_as_uint64 m key non_zero = elim (lookup key m) [
  | none ↦ (0, false, none)
  | some str ↦ elim (parse_uint64 str) [
    | err e ↦ (0, true, some (contains_invalid key e))
    | ok i ↦
        if non_zero && eqb i 0
        then (0, true, some (must_be_greater_than_zero key))
        else (i, true, none)
  ]
]
