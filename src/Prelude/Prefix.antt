-- ===== src/Prelude/Prefix.antt =====
-- Keys with a kind in front.
use Prim.Native.Nat.{ℕ}
use Prim.Native.Char.{Char, code}
use Prim.Native.String.{String, ◌++◌}
use Prim.Native.String.append
use mathlib.Core.Path.{◌≡◌, ap, sym, ◌∙◌}
use mathlib.Core.Logic.{◌≢◌}
use native.Mathlib.Omega.{arith}
use text.Mathlib.TextLemmas.{append_cancel_left}

first : String → ℕ
first String.[] = 0
first (String.◌∷◌ c s) = code c

first-append : (c : Char) (s t : String) → first ((String.◌∷◌ c s) ++ t) ≡ code c
unfolding first
first-append c s t = ap first (append.cons c s t)

pub key_injective : (kind x y : String) → kind ++ "/" ++ x ≡ kind ++ "/" ++ y → x ≡ y
key_injective kind x y h =
    append_cancel_left "/" x y (append_cancel_left kind ("/" ++ x) ("/" ++ y) h)

pub ingress-ne-virtual_server : (x y : String) → "Ingress" ++ "/" ++ x ≢ "VirtualServer" ++ "/" ++ y
ingress-ne-virtual_server x y h =
    let e : ◌≡◌ {A = ℕ} 73 86 =
      sym (first-append "I" "ngress" ("/" ++ x))
      ∙ (ap first h ∙ first-append "V" "irtualServer" ("/" ++ y)) in
    absurd (omega arith)
