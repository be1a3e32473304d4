-- ===== src/Parsing/Methods.antt =====
-- The load balancing methods of NGINX and NGINX Plus.
use kubernetes_ingress.Prelude.{
  String, ◌≡◌, refl, sym, subst, inl, inr, true, List, [], ◌∷◌, In, arith,
}
use kubernetes_ingress.Parsing.{
  ParseError, ok, err, parse_lb_method, parse_lb_method_for_plus, lb_method_from,
  nginx_lb_valid_input, nginx_plus_lb_valid_input,
}
use kubernetes_ingress.Parsing.Strings.{contains, trim_space}

contains-plus :
    (m : String)
    → contains nginx_lb_valid_input m ≡ true
    → contains nginx_plus_lb_valid_input m ≡ true
unfolding contains
contains-plus m h = ground arith

-- The methods of NGINX Plus alone.
abbrev pub plus_methods : List String
plus_methods =
    "random two least_time=header" ∷ "random two least_time=last_byte" ∷ "least_time header"
    ∷ "least_time last_byte" ∷ "least_time header inflight" ∷ "least_time last_byte inflight" ∷ []

IsRefused : String → Type 0
IsRefused m = (e : ParseError) × (lb_method_from nginx_lb_valid_input m ≡ err e)

plus_methods-IsRefused : (m : String) → In m plus_methods → IsRefused m
unfolding lb_method_from IsRefused
plus_methods-IsRefused m (inl e) = subst IsRefused (sym e) (_, refl)
plus_methods-IsRefused m (inr (inl e)) = subst IsRefused (sym e) (_, refl)
plus_methods-IsRefused m (inr (inr (inl e))) = subst IsRefused (sym e) (_, refl)
plus_methods-IsRefused m (inr (inr (inr (inl e)))) = subst IsRefused (sym e) (_, refl)
plus_methods-IsRefused m (inr (inr (inr (inr (inl e))))) = subst IsRefused (sym e) (_, refl)
plus_methods-IsRefused m (inr (inr (inr (inr (inr (inl e)))))) = subst IsRefused (sym e) (_, refl)
plus_methods-IsRefused m (inr (inr (inr (inr (inr (inr n)))))) = absurd n

-- A method that NGINX accepts is none of NGINX Plus alone.
pub parse_lb_method-open :
    (method : String) (value : String)
    → parse_lb_method method ≡ ok value
    → ¬ (In (trim_space method) plus_methods)
unfolding parse_lb_method IsRefused
parse_lb_method-open method value h i =
    let (e, r) = plus_methods-IsRefused (trim_space method) i in ground (arith, h, r)

-- A method that NGINX accepts is accepted for NGINX Plus, with the same result.
pub parse_lb_method-plus :
    (method : String) (value : String)
    → parse_lb_method method ≡ ok value
    → parse_lb_method_for_plus method ≡ ok value
unfolding parse_lb_method parse_lb_method_for_plus lb_method_from
parse_lb_method-plus method value h = ground (arith, contains-plus (trim_space method))
