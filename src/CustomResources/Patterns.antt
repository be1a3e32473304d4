-- ===== src/CustomResources/Patterns.antt =====
-- The regular expressions of pkg/apis/configuration/validation, as matchers of whole texts.
use Prim.Native.Char.{Char, code}
use kubernetes_ingress.Prelude.{
  String, ◌++◌, ◌==◌, Bool, true, false, not, ◌&&◌, ◌||◌, List, [], ◌∷◌, leb, eqb, if◌then◌else◌,
}
use kubernetes_ingress.Parsing.Strings.{is_digit}

-- `([^…\\]|\\x)*`: characters that are not excluded, or a backslash and a character that it may stand
-- before. The flag tells that a backslash was read.
unfoldable pub matches_escaped : (Char → Bool) → (Char → Bool) → Bool → String → Bool
matches_escaped excluded follows escaping String.[] = not escaping
matches_escaped excluded follows true (String.◌∷◌ c s) =
    let rest = matches_escaped excluded follows false s in follows c && rest
matches_escaped excluded follows false (String.◌∷◌ c s) =
    let escaped = matches_escaped excluded follows true s in
    let rest = matches_escaped excluded follows false s in
    if eqb (code c) b'\\' then escaped else not (excluded c) && rest

-- The class `.`: any character but a line feed.
abbrev is_any : Char → Bool
is_any c = not (eqb (code c) 10)

-- `escapedStringsFmt`
abbrev pub escaped_strings_fmt : String
escaped_strings_fmt = "([^\"\\\\]|\\\\.)*"

abbrev pub escaped_strings_err_msg : String
escaped_strings_err_msg =
    "must have all '\"' (double quotes) escaped and must not end with an unescaped '\\' (backslash)"

-- `escapedStringsFmtRegexp.MatchString`
unfoldable pub matches_escaped_strings : String → Bool
unfolding matches_escaped
matches_escaped_strings s = matches_escaped (λ c. eqb (code c) b'"') is_any false s

-- `headerValueFmtRegexp.MatchString`
unfoldable pub matches_header_value : String → Bool
unfolding matches_escaped
matches_header_value s =
    matches_escaped (λ c. eqb (code c) b'"' || eqb (code c) b'$') (λ c. not (eqb (code c) b'$'))
      false s

-- `actionReturnTypeRegexp.MatchString`
unfoldable pub matches_action_return_type : String → Bool
unfolding matches_escaped
matches_action_return_type s =
    matches_escaped
      (λ c. eqb (code c) b';' || (eqb (code c) b'{' || (eqb (code c) b'}' || eqb (code c) b'"')))
      is_any false s

-- `[_A-Za-z0-9]+`, which is `cookieNameFmt` and `argumentNameFmt`.
unfoldable pub is_word_char : Char → Bool
unfolding is_digit
is_word_char c =
    eqb (code c) b'_'
    || ((leb b'A' (code c) && leb (code c) b'Z')
        || ((leb b'a' (code c) && leb (code c) b'z') || is_digit c))

unfoldable pub all_word_chars : String → Bool
unfolding is_word_char
all_word_chars String.[] = true
all_word_chars (String.◌∷◌ c s) = let rest = all_word_chars s in is_word_char c && rest

unfoldable pub matches_name : String → Bool
unfolding all_word_chars
matches_name s = not (s == "") && all_word_chars s

-- `\s` and the other characters that `pathFmt` excludes.
unfoldable pub is_path_char : Char → Bool
is_path_char c =
    let n = code c in
    not (
      eqb n 9
      || (eqb n 10
          || (eqb n 12 || (eqb n 13 || (eqb n 32 || (eqb n b'{' || (eqb n b'}' || eqb n b';')))))))

unfoldable pub all_path_chars : String → Bool
unfolding is_path_char
all_path_chars String.[] = true
all_path_chars (String.◌∷◌ c s) = let rest = all_path_chars s in is_path_char c && rest

-- `pathRegexp.MatchString`
unfoldable pub matches_path : String → Bool
unfolding all_path_chars
matches_path String.[] = false
matches_path (String.◌∷◌ c s) = eqb (code c) b'/' && all_path_chars s

-- Where the search for `\$\{([^}]*)\}` stands: outside a variable, after a "$", or in a name, of which
-- the characters are kept.
pub data Capture : Type 0 where
  outside after_dollar : Capture
  within : String → Capture

unfoldable pub capture : Capture → String → List String
capture st String.[] = []
capture outside (String.◌∷◌ c s) =
    let dollar = capture after_dollar s in
    let rest = capture outside s in if eqb (code c) b'$' then dollar else rest
capture after_dollar (String.◌∷◌ c s) =
    let opened = capture (within "") s in
    let dollar = capture after_dollar s in
    let rest = capture outside s in
    if eqb (code c) b'{' then opened else if eqb (code c) b'$' then dollar else rest
capture (within name) (String.◌∷◌ c s) =
    let closed = capture outside s in
    let rest = capture (within (name ++ String.◌∷◌ c "")) s in
    if eqb (code c) b'}' then name ∷ closed else rest

-- `captureVariables`
unfoldable pub capture_variables : String → List String
unfolding capture
capture_variables s = capture outside s
