-- ===== src/CustomResources/Checks.antt =====
-- What the validators call of k8s.io/apimachinery and of Go's `regexp` and `net`: the functions of
-- `util/validation`, which return messages, and the compiler of regular expressions, which returns the
-- text of its error, and whether a text is a CIDR or an IP address. `IsInRange` and `IsValidPortNum` are on Go's `int`.
use kubernetes_ingress.Prelude.{ℤ, String, Bool, Option, List, [], ◌∷◌}
use kubernetes_ingress.Validation.Errors.{FieldPath, text, invalid, invalid_int, ErrorList}

pub record Checks : Type 0 where
  pub is_dns1123_subdomain : String → List String
  pub is_dns1123_label : String → List String
  pub is_dns1035_label : String → List String
  pub is_http_header_name : String → List String
  pub is_qualified_name : String → List String
  pub is_valid_label_value : String → List String
  pub is_valid_port_num : ℤ → List String
  pub is_in_range : ℤ → ℤ → ℤ → List String
  pub inclusive_range_error : ℤ → ℤ → String
  pub compile : String → Option String
  pub parse_cidr : String → Bool
  pub parse_ip : String → Bool

-- The loop over the messages of a check, each an error of the value.
unfoldable pub invalid_all : FieldPath → String → List String → ErrorList
invalid_all path value [] = []
invalid_all path value (msg ∷ msgs) = invalid path value (text msg) ∷ invalid_all path value msgs

unfoldable pub invalid_int_all : FieldPath → ℤ → List String → ErrorList
invalid_int_all path value [] = []
invalid_int_all path value (msg ∷ msgs) =
    invalid_int path value (text msg) ∷ invalid_int_all path value msgs
