-- ===== src/Validation/Annotations.antt =====
-- internal/k8s/validation.go: the validations of the annotations of an Ingress.
use mathlib.Core.List.{◌++◌}
use kubernetes_ingress.Prelude.{
  String, ◌==◌, Bool, not, ◌&&◌, Option, none, some, List, [], ◌∷◌, StrMap, lookup, get_sorted_keys,
  if◌then◌else◌,
}
use kubernetes_ingress.Api.{mergeable_ingress_type_annotation}
use kubernetes_ingress.Parsing.{
  ParseError, Result, ok, err, parse_bool, parse_time, parse_uint64, parse_lb_method,
  parse_lb_method_for_plus,
}
use kubernetes_ingress.Validation.Errors.{
  FieldPath, child, Detail, text, parse_failed, related_must_be_set, related_parse_failed,
  related_must_be_true, required, forbidden, invalid, ErrorList,
}

-- `annotationValidationContext`
pub record AnnotationValidationContext : Type 0 where
  pub annotations : Option (StrMap String)
  pub name : String
  pub value : String
  pub is_plus : Bool
  pub field_path : FieldPath

abbrev pub AnnotationValidationFunc : Type 0
AnnotationValidationFunc = AnnotationValidationContext → ErrorList

abbrev lb_method_annotation : String
lb_method_annotation = "nginx.org/lb-method"

abbrev pub health_checks_annotation : String
health_checks_annotation = "nginx.com/health-checks"

abbrev pub health_checks_mandatory_annotation : String
health_checks_mandatory_annotation = "nginx.com/health-checks-mandatory"

abbrev pub health_checks_mandatory_queue_annotation : String
health_checks_mandatory_queue_annotation = "nginx.com/health-checks-mandatory-queue"

abbrev pub slow_start_annotation : String
slow_start_annotation = "nginx.com/slow-start"

-- A read of the annotations, which may be a nil map.
unfoldable pub read : Option (StrMap String) → String → Option String
unfolding lookup
read none key = none
read (some m) key = lookup key m

-- `validateIsTrue`: what is wrong with the value of the related annotation `name`.
unfoldable pub validate_is_true : String → String → Option Detail
unfolding parse_bool
validate_is_true name v = elim (parse_bool v) [
  | err e ↦ some (related_parse_failed name e)
  | ok b ↦ if not b then some (related_must_be_true name) else none
]

-- `validateRelatedAnnotation`
unfoldable pub validate_related_annotation :
    String → (String → String → Option Detail) → AnnotationValidationFunc
unfolding read
validate_related_annotation name validator context = elim (read context.annotations name) [
  | none ↦ forbidden context.field_path (related_must_be_set name) ∷ []
  | some val ↦ elim (validator name val) [
    | some detail ↦ forbidden context.field_path detail ∷ []
    | none ↦ []
  ]
]

-- `validateMergeableIngressTypeAnnotation`
unfoldable pub validate_mergeable_ingress_type_annotation : AnnotationValidationFunc
validate_mergeable_ingress_type_annotation context =
    if not (context.value == "master") && not (context.value == "minion")
    then invalid context.field_path context.value (text "must be one of: 'master' or 'minion'") ∷ []
    else []

-- The error of a parser as an invalid value; its own text, or a fixed one.
errors_of :
    {A : Type 0} → (ParseError → Detail) → AnnotationValidationContext → Result A → ErrorList
errors_of detail context (ok a) = []
errors_of detail context (err e) = invalid context.field_path context.value (detail e) ∷ []

-- `validateNginxLBMethodAnnotation`
unfoldable pub validate_nginx_lb_method_annotation : AnnotationValidationFunc
unfolding errors_of parse_lb_method
validate_nginx_lb_method_annotation context =
    errors_of parse_failed context (parse_lb_method context.value)

-- `validateNginxPlusLBMethodAnnotation`
unfoldable pub validate_nginx_plus_lb_method_annotation : AnnotationValidationFunc
unfolding errors_of parse_lb_method_for_plus
validate_nginx_plus_lb_method_annotation context =
    errors_of parse_failed context (parse_lb_method_for_plus context.value)

-- `validateRequiredAnnotation`
unfoldable pub validate_required_annotation : AnnotationValidationFunc
validate_required_annotation context =
    if context.value == "" then required context.field_path "" ∷ [] else []

-- `validatePlusOnlyAnnotation`
unfoldable pub validate_plus_only_annotation : AnnotationValidationFunc
validate_plus_only_annotation context =
    if not context.is_plus
    then forbidden context.field_path (text "annotation requires NGINX Plus") ∷ []
    else []

-- `validateBoolAnnotation`
unfoldable pub validate_bool_annotation : AnnotationValidationFunc
unfolding errors_of parse_bool
validate_bool_annotation context =
    errors_of (λ _. text "must be a valid boolean") context (parse_bool context.value)

-- `validateTimeAnnotation`
unfoldable pub validate_time_annotation : AnnotationValidationFunc
unfolding errors_of parse_time
validate_time_annotation context =
    errors_of (λ _. text "must be a valid time") context (parse_time context.value)

-- `validateNonNegativeIntAnnotation`
unfoldable pub validate_non_negative_int_annotation : AnnotationValidationFunc
unfolding errors_of parse_uint64
validate_non_negative_int_annotation context =
    errors_of (λ _. text "must be a non-negative integer") context (parse_uint64 context.value)

-- `nginxAnnotationValidations`
unfoldable pub nginx_annotation_validations : StrMap (List AnnotationValidationFunc)
unfolding validate_required_annotation validate_mergeable_ingress_type_annotation
    validate_nginx_lb_method_annotation validate_plus_only_annotation
nginx_annotation_validations =
    (
      mergeable_ingress_type_annotation,
      validate_required_annotation ∷ validate_mergeable_ingress_type_annotation ∷ [],
    )
    ∷ (
      lb_method_annotation,
      validate_required_annotation ∷ validate_nginx_lb_method_annotation ∷ [],
    )
    ∷ (health_checks_annotation, validate_plus_only_annotation ∷ [])
    ∷ (health_checks_mandatory_annotation, validate_plus_only_annotation ∷ [])
    ∷ (health_checks_mandatory_queue_annotation, validate_plus_only_annotation ∷ [])
    ∷ (slow_start_annotation, validate_plus_only_annotation ∷ [])
    ∷ []

-- `nginxPlusAnnotationValidations`
unfoldable pub nginx_plus_annotation_validations : StrMap (List AnnotationValidationFunc)
unfolding validate_required_annotation validate_mergeable_ingress_type_annotation
    validate_nginx_plus_lb_method_annotation validate_bool_annotation validate_related_annotation
    validate_is_true validate_non_negative_int_annotation validate_time_annotation
nginx_plus_annotation_validations =
    (
      mergeable_ingress_type_annotation,
      validate_required_annotation ∷ validate_mergeable_ingress_type_annotation ∷ [],
    )
    ∷ (
      lb_method_annotation,
      validate_required_annotation ∷ validate_nginx_plus_lb_method_annotation ∷ [],
    )
    ∷ (health_checks_annotation, validate_required_annotation ∷ validate_bool_annotation ∷ [])
    ∷ (
      health_checks_mandatory_annotation,
      validate_related_annotation health_checks_annotation validate_is_true
          ∷ validate_required_annotation
          ∷ validate_bool_annotation
          ∷ [],
    )
    ∷ (
      health_checks_mandatory_queue_annotation,
      validate_related_annotation health_checks_mandatory_annotation validate_is_true
          ∷ validate_required_annotation
          ∷ validate_non_negative_int_annotation
          ∷ [],
    )
    ∷ (slow_start_annotation, validate_required_annotation ∷ validate_time_annotation ∷ [])
    ∷ []

abbrev pub annotation_validations : Bool → StrMap (List AnnotationValidationFunc)
annotation_validations is_plus =
    if is_plus then nginx_plus_annotation_validations else nginx_annotation_validations

-- The validations of one annotation, up to the first that fails.
unfoldable pub first_errors :
    List AnnotationValidationFunc → AnnotationValidationContext → ErrorList
first_errors [] context = []
first_errors (validation ∷ rest) context =
    let later = first_errors rest context in
    elim (validation context) [ [] ↦ later | e ∷ es ↦ e ∷ es ]

-- `validateIngressAnnotation`
unfoldable pub validate_ingress_annotation : AnnotationValidationFunc
unfolding first_errors nginx_annotation_validations nginx_plus_annotation_validations lookup
validate_ingress_annotation context =
    elim (lookup context.name (annotation_validations context.is_plus)) [
      | none ↦ []
      | some funcs ↦ first_errors funcs context
    ]

-- The loop of `validateIngressAnnotations` over the sorted names.
unfoldable pub validate_annotations :
    List String → Option (StrMap String) → Bool → FieldPath → ErrorList
unfolding read validate_ingress_annotation
validate_annotations [] annotations is_plus path = []
validate_annotations (name ∷ names) annotations is_plus path =
    let rest = validate_annotations names annotations is_plus path in
    elim (read annotations name) [
      | none ↦ rest
      | some value ↦
          validate_ingress_annotation (record {
            annotations = annotations;
            name = name;
            value = value;
            is_plus = is_plus;
            field_path = child path name;
          })
          ++ rest
    ]

-- `validateIngressAnnotations`
unfoldable pub validate_ingress_annotations : Option (StrMap String) → Bool → FieldPath → ErrorList
unfolding validate_annotations get_sorted_keys
validate_ingress_annotations annotations is_plus path =
    validate_annotations (get_sorted_keys (annotation_validations is_plus)) annotations is_plus path
