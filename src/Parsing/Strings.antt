-- ===== src/Parsing/Strings.antt =====
-- What the parsers and the validators take of Go's `strings` and `unicode`.
use Prim.Native.Char.{Char, code}
use kubernetes_ingress.Prelude.{
  ℕ, ◌-◌, String, ◌++◌, ◌==◌, starts_with, Bool, true, false, ◌&&◌, ◌||◌, List, [], ◌∷◌, any, leb,
  ltb, eqb, if◌then◌else◌,
}

-- `unicode.IsSpace`
unfoldable pub is_space : Char → Bool
is_space c =
    let n = code c in
    (leb 9 n && leb n 13)
    || (eqb n 32
        || (eqb n 0x85
            || (eqb n 0xA0
                || (eqb n 0x1680
                    || ((leb 0x2000 n && leb n 0x200a)
                        || (eqb n 0x2028
                            || (eqb n 0x2029
                                || (eqb n 0x202f || (eqb n 0x205f || eqb n 0x3000)))))))))

unfoldable pub trim_left : String → String
unfolding is_space
trim_left String.[] = ""
trim_left (String.◌∷◌ c s) = let rest = trim_left s in if is_space c then rest else String.◌∷◌ c s

unfoldable pub trim_right : String → String
unfolding is_space
trim_right String.[] = ""
trim_right (String.◌∷◌ c s) =
    let rest = trim_right s in if is_space c && rest == "" then "" else String.◌∷◌ c rest

-- `strings.TrimSpace`
unfoldable pub trim_space : String → String
unfolding trim_left trim_right
trim_space s = trim_right (trim_left s)

unfoldable pub cons_head : Char → List String → List String
cons_head c [] = String.◌∷◌ c "" ∷ []
cons_head c (s ∷ ss) = String.◌∷◌ c s ∷ ss

-- `strings.Split` at one character
unfoldable pub split : ℕ → String → List String
unfolding cons_head
split sep String.[] = "" ∷ []
split sep (String.◌∷◌ c s) =
    let rest = split sep s in if eqb (code c) sep then "" ∷ rest else cons_head c rest

unfoldable pub contains : List String → String → Bool
contains xs s = any (λ x. x == s) xs

unfoldable pub is_digit : Char → Bool
is_digit c = leb b'0' (code c) && leb (code c) b'9'

-- `strings.SplitN` at one character: at most `n` cuts, which is its argument less one.
unfoldable pub split_n : ℕ → ℕ → String → List String
unfolding cons_head
split_n sep n String.[] = "" ∷ []
split_n sep n (String.◌∷◌ c s) =
    let cut = split_n sep (n - 1) s in
    let rest = split_n sep n s in if eqb (code c) sep && ltb 0 n then "" ∷ cut else cons_head c rest

-- `strings.Join` of two texts
unfoldable pub join_two : String → String → String → String
join_two a b sep = a ++ sep ++ b

-- `strings.Contains` of one character, which is also how a text is searched for "}".
unfoldable pub has_char : ℕ → String → Bool
has_char n String.[] = false
has_char n (String.◌∷◌ c s) = eqb (code c) n || has_char n s

-- `strings.Contains` of a text
unfoldable pub has_text : String → String → Bool
has_text t String.[] = t == ""
has_text t (String.◌∷◌ c s) = let rest = has_text t s in starts_with (String.◌∷◌ c s) t || rest

-- `strings.HasSuffix` of one character
unfoldable pub ends_with : ℕ → String → Bool
ends_with n String.[] = false
ends_with n (String.◌∷◌ c String.[]) = eqb (code c) n
ends_with n (String.◌∷◌ c (String.◌∷◌ d s)) = ends_with n (String.◌∷◌ d s)

-- `strings.Replace(s, from, to, -1)` of one character
unfoldable pub replace : ℕ → Char → String → String
replace from to String.[] = ""
replace from to (String.◌∷◌ c s) =
    let rest = replace from to s in String.◌∷◌ (if eqb (code c) from then to else c) rest

-- `strings.TrimPrefix` of one character
unfoldable pub trim_prefix : ℕ → String → String
trim_prefix n String.[] = ""
trim_prefix n (String.◌∷◌ c s) = if eqb (code c) n then s else String.◌∷◌ c s

-- `strings.TrimSuffix` of one character
unfoldable pub trim_suffix : ℕ → String → String
trim_suffix n String.[] = ""
trim_suffix n (String.◌∷◌ c String.[]) = if eqb (code c) n then "" else String.◌∷◌ c ""
trim_suffix n (String.◌∷◌ c (String.◌∷◌ d s)) =
    let rest = trim_suffix n (String.◌∷◌ d s) in String.◌∷◌ c rest

-- `strings.ToLower` on the letters "K" and "M" and the Kelvin sign, which are all that become a unit.
unfoldable pub to_lower_units : String → String
to_lower_units String.[] = ""
to_lower_units (String.◌∷◌ c s) =
    let rest = to_lower_units s in
    String.◌∷◌
      (if eqb (code c) b'K' || eqb (code c) 0x212A
        then "k"
        else if eqb (code c) b'M'
        then "m"
        else c)
      rest

-- If a text is at its end or before a space.
unfoldable pub at_gap : String → Bool
unfolding is_space
at_gap String.[] = true
at_gap (String.◌∷◌ c s) = is_space c

-- `strings.Fields`
unfoldable pub fields : String → List String
unfolding is_space at_gap cons_head
fields String.[] = []
fields (String.◌∷◌ c s) =
    let rest = fields s in
    if is_space c then rest else if at_gap s then String.◌∷◌ c "" ∷ rest else cons_head c rest
