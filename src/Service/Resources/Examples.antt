-- ===== src/Service/Resources/Examples.antt =====
-- A protected resource of a small Service, with a bearer token.
use aep_python.Common.{
  ℕ, ◌≡◌, refl, true, false, none, some, [], ◌∷◌, nat_eq, string_eq, pair_eq, list_eq,
}
use aep_python.Common.Exec.{ok}
use aep_python.Common.Dict.{get, put}
use aep_python.Common.Text.{codes}
use aep_python.Core.Http.{
  match_word, match_scheme, match_credentials, scheme_named, parse_authorization,
}
use aep_python.Service.Types.{AgentStatus, post_init}
use aep_python.Service.Enrollments.{find}
use aep_python.Service.Settings.{State, now_of}
use aep_python.Service.Responses.{validate_record}
use aep_python.Service.Credentials.Handler.{AuthenticationKind, AuthenticatedPrincipal}
use aep_python.Service.Resources.{
  normalize_headers, select_presentation, select_standard, recognized, names_aep_scheme,
}
use aep_python.Service.Resources.Access.{
  ProtectedResourceRequest, Resources, active_record, admit, invalid_principal, try_methods,
  with_credentials, authenticate_protected_resource, let_in,
}
use aep_python.Service.Resources.Active.{ActiveIn, authenticated_is_active}
use aep_python.Core.Http.{AuthorizationCarrier, Presentation, bearer}
use aep_python.Service.Resources.{Headers}
use aep_python.Service.Resources.Selected.{Alone, selected-Alone}
use aep_python.Service.Examples.{did, settings, ports, suspended}

abbrev principal : AuthenticatedPrincipal
principal = record {
  agent_did = did;
  authentication_kind = AuthenticationKind.session_credential;
  authentication_method = "oauth-bearer";
  credential_id = some "c1";
  grant_type = some "oauth-bearer";
  scopes = [];
}

abbrev res : Resources ℕ
res = record {
  authentication_methods = "oauth-bearer" ∷ [];
  inspect_url = none;
  origin = λ r. r;
  resource_uri = λ r. ok r;
  string_of = λ t. "a.b.c";
  has_presentation = λ method input w. (ok true, w);
  authenticate = λ method input w. (ok (some principal), w);
}

abbrev request : ProtectedResourceRequest
request = record {
  headers = (codes "Authorization", codes "Bearer abc" ∷ []) ∷ [];
  method = "GET";
  url = "https://service.example/";
}

abbrev state : AgentStatus → State ℕ
state status = record {
  world = 300;
  replay = [];
  enrollments = record { pending = []; records = (did, record suspended { status = status }) ∷ [] };
}

lets_in :
    (authenticate_protected_resource settings ports res request (state AgentStatus.active)).0
    ≡ ok (let_in principal)
unfolding authenticate_protected_resource normalize_headers put get select_presentation
    select_standard recognized names_aep_scheme parse_authorization match_scheme match_word
    match_credentials scheme_named with_credentials now_of try_methods invalid_principal admit
    active_record find validate_record post_init
lets_in = refl

authenticated_is_active_example :
    (p : AuthenticatedPrincipal) × (some principal ≡ some p)
    × ActiveIn (state AgentStatus.active).enrollments p.agent_did
authenticated_is_active_example =
    authenticated_is_active settings ports res request (state AgentStatus.active) (let_in principal)
      lets_in refl

abbrev headers : Headers
headers = (codes "authorization", codes "Bearer abc" ∷ []) ∷ []

abbrev token : Presentation
token = record {
  carrier = AuthorizationCarrier.standard;
  credentials = codes "abc";
  scheme = bearer;
}

token_selected : select_presentation headers ≡ ok (some token, true)
unfolding get select_presentation select_standard recognized names_aep_scheme parse_authorization
    match_scheme match_word match_credentials scheme_named
token_selected = refl

-- a second value makes the request ambiguous
second_value :
    select_presentation ((codes "authorization", codes "Bearer abc" ∷ codes "Digest x" ∷ []) ∷ [])
    ≡ ok (none, false)
unfolding get select_presentation select_standard recognized names_aep_scheme parse_authorization
    match_scheme match_word match_credentials scheme_named
second_value = refl

selected-Alone_example : Alone token [] (codes "Bearer abc" ∷ [])
unfolding get
selected-Alone_example = selected-Alone headers token token_selected
