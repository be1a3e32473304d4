-- ===== src/Parsing/Signed.antt =====
-- internal/configs/parsing_helpers.go: the parsers of signed numbers, `strconv.ParseInt(s, 10, 64)` and
-- `strconv.Atoi`, which differ in the text of an error alone.
use Prim.Native.Char.{code}
use kubernetes_ingress.Prelude.{
  ℕ, zero, suc, ◌^◌, ℤ, pos, negsuc, String, ◌==◌, Bool, true, false, ltb, leb, eqb, if◌then◌else◌,
}
use kubernetes_ingress.Parsing.{Result, ok, err, syntax_error, range_error, scan_uint}

-- If a text has a minus sign, and what follows its sign.
unfoldable pub sign : String → Bool × String
sign String.[] = (false, "")
sign (String.◌∷◌ c s) =
    if eqb (code c) b'-'
    then (true, s)
    else if eqb (code c) b'+'
    then (false, s)
    else (false, String.◌∷◌ c s)

-- A magnitude with its sign, if it is in the range of 64 bits.
unfoldable pub with_sign : String → Bool → ℕ → Result ℤ
with_sign s true zero = ok (pos 0)
with_sign s true (suc n) = if leb (suc n) (2 ^ 63) then ok (negsuc n) else err (range_error s)
with_sign s false n = if ltb n (2 ^ 63) then ok (pos n) else err (range_error s)

-- `ParseInt64`
unfoldable pub parse_int64 : String → Result ℤ
unfolding sign with_sign scan_uint
parse_int64 s =
    let parts = sign s in
    if parts.1 == ""
    then err (syntax_error s)
    else elim (scan_uint 0 s parts.1) [ ok n ↦ with_sign s parts.0 n | err e ↦ err e ]

-- `ParseInt`
unfoldable pub parse_int : String → Result ℤ
unfolding parse_int64
parse_int s = parse_int64 s
