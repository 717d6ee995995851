-- ===== src/Service/Resources.antt =====
-- `authenticate_protected_resource` of service/service.py and the selection of its presentation.
-- Header names and values are texts over code points.
pub mod Access
pub mod Selected
pub mod Active
mod Examples
use aep_python.Common.{
  Bool, true, false, not, ◌||◌, Option, none, some, List, [], ◌∷◌, ◌++◌, ◌==◌, nat_eq, string_eq,
  pair_eq, list_eq, if◌then◌else◌, is_empty, or_empty,
}
use aep_python.Common.Exec.{
  value_error, assertion_error, authorization_error, key_error, Result, ok, raised, blocked,
}
use aep_python.Common.Dict.{Dict, get, put}
use aep_python.Common.Text.{Text, codes, lower, before}
use aep_python.Core.Http.{
  AuthorizationCarrier, AuthorizationScheme, Presentation, parse_authorization,
}
use aep_python.Core.Json.{Json}
use aep_python.Service.Time.{DateTime}
use aep_python.Service.Types.{AgentStatus, status_beq, EnrollmentRecord}
use aep_python.Service.Enrollments.{find}
use aep_python.Service.Problem.{ErrorCode, ServiceResult, problem_result, plain_problem, code_text}
use aep_python.Service.Settings.{
  AssertionOperation, AssertionClaims, CommandOptions, Settings, Ports, State, on_world, now_of,
}
use aep_python.Service.Assertions.{authenticate_assertion}
use aep_python.Service.Responses.{validate_record}
use aep_python.Service.Credentials.{CredentialAuthenticationInput}
use aep_python.Service.Credentials.Handler.{AuthenticationKind, AuthenticatedPrincipal}

abbrev pub Headers : Type 0
Headers = Dict Text (List Text)

-- `_normalize_headers`, each source value a list
unfoldable pub normalize_headers : List (Text × List Text) → Headers → Headers
normalize_headers [] result = result
normalize_headers ((name, values) ∷ source) result =
    let key = lower name in
    normalize_headers source (put key (or_empty (get key result) ++ values) result)

-- `except AepAuthorizationError` round the parser
abbrev pub parses : Result Presentation → Result Bool
parses (ok p) = ok true
parses (raised (authorization_error m c)) = ok false
parses (raised (value_error m)) = raised (value_error m)
parses (raised (assertion_error m)) = raised (assertion_error m)
parses (raised key_error) = raised key_error
parses blocked = blocked

-- `_recognized`
unfoldable pub recognized : Text → Result Bool
recognized value = parses (parse_authorization value AuthorizationCarrier.standard)

-- `_names_aep_scheme`
unfoldable pub names_aep_scheme : Text → Bool
names_aep_scheme value =
    let scheme = lower (before 9 (before b' ' value)) in
    scheme == codes "aep" || (scheme == codes "bearer" || scheme == codes "basic")

-- `any(p(value) for value in values)` with a test that may raise
abbrev pub any_result : (Text → Result Bool) → List Text → Result Bool
any_result p [] = ok false
any_result p (v ∷ vs) =
    let rest = any_result p vs in
    elim (p v) [ ok true ↦ ok true | ok false ↦ rest | raised e ↦ raised e | blocked ↦ blocked ]

-- `[value for value in values if p(value)]`
abbrev pub filter_result : (Text → Result Bool) → List Text → Result (List Text)
filter_result p [] = ok []
filter_result p (v ∷ vs) =
    let rest = filter_result p vs in
    elim (p v) [
      | ok true ↦ (elim rest [ ok xs ↦ ok (v ∷ xs) | raised e ↦ raised e | blocked ↦ blocked ])
      | ok false ↦ rest
      | raised e ↦ raised e
      | blocked ↦ blocked
    ]

abbrev pub malformed : Text → Result Bool
malformed value =
    if names_aep_scheme value
    then (elim (recognized value) [ ok r ↦ ok (not r) | raised e ↦ raised e | blocked ↦ blocked ])
    else ok false

-- a presentation, if any, and whether it is unambiguous
abbrev pub Selection : Type 0
Selection = Option Presentation × Bool

abbrev pub ambiguous : Result Selection
ambiguous = ok (none, false)

-- what the other field leaves of a dedicated presentation
abbrev pub unrivalled : Presentation → Result Bool → Result Selection
unrivalled p (ok true) = ambiguous
unrivalled p (ok false) = ok (some p, true)
unrivalled p (raised e) = raised e
unrivalled p blocked = blocked

abbrev pub dedicated_parsed : Result Presentation → List Text → Result Selection
dedicated_parsed (ok p) standard = unrivalled p (any_result recognized standard)
dedicated_parsed (raised (authorization_error m c)) standard = ambiguous
dedicated_parsed (raised (value_error m)) standard = raised (value_error m)
dedicated_parsed (raised (assertion_error m)) standard = raised (assertion_error m)
dedicated_parsed (raised key_error) standard = raised key_error
dedicated_parsed blocked standard = blocked

unfoldable pub select_dedicated : List Text → List Text → Result Selection
select_dedicated (value ∷ []) standard =
    dedicated_parsed (parse_authorization value AuthorizationCarrier.dedicated) standard
select_dedicated _ standard = ambiguous

-- of the recognized values
abbrev pub select_recognized : List Text → List Text → Result Selection
select_recognized standard [] = ok (none, true)
select_recognized (_ ∷ []) (value ∷ []) =
    elim (parse_authorization value AuthorizationCarrier.standard) [
      | ok p ↦ ok (some p, true)
      | raised e ↦ raised e
      | blocked ↦ blocked
    ]
select_recognized standard recognized = ambiguous

abbrev pub filtered : List Text → Result (List Text) → Result Selection
filtered standard (ok values) = select_recognized standard values
filtered standard (raised e) = raised e
filtered standard blocked = blocked

unfoldable pub select_standard : List Text → Result Selection
select_standard standard = elim (any_result malformed standard) [
  | ok true ↦ ambiguous
  | ok false ↦ filtered standard (filter_result recognized standard)
  | raised e ↦ raised e
  | blocked ↦ blocked
]

-- `_select_presentation`
unfoldable pub select_presentation : Headers → Result Selection
select_presentation headers =
    let dedicated = or_empty (get (codes "aep-authorization") headers) in
    let standard = or_empty (get (codes "authorization") headers) in
    if is_empty dedicated then select_standard standard else select_dedicated dedicated standard
