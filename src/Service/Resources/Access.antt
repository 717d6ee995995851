-- ===== src/Service/Resources/Access.antt =====
-- `authenticate_protected_resource` of service/service.py, and who it lets in.
use aep_python.Common.{
  String, Bool, true, false, not, ◌||◌, Option, none, some, List, [], ◌∷◌, ◌==◌, nat_eq, string_eq,
  pair_eq, list_eq, member, if◌then◌else◌,
}
use aep_python.Common.Exec.{value_error, Result, ok, raised, blocked, Exec, pure, lift, ◌>>=◌}
use aep_python.Common.Text.{Text}
use aep_python.Core.Http.{AuthorizationScheme, Presentation}
use aep_python.Core.Json.{Json}
use aep_python.Service.Types.{AgentStatus, status_beq, EnrollmentRecord}
use aep_python.Service.Enrollments.{find}
use aep_python.Service.Problem.{ErrorCode, ServiceResult, problem_result, plain_problem, code_text}
use aep_python.Service.Settings.{
  AssertionOperation, AssertionClaims, Settings, Ports, State, on_world, now_of,
}
use aep_python.Service.Assertions.{authenticate_assertion}
use aep_python.Service.Responses.{validate_record}
use aep_python.Service.Credentials.{CredentialAuthenticationInput}
use aep_python.Service.Credentials.Handler.{AuthenticationKind, AuthenticatedPrincipal}
use aep_python.Service.Resources.{Headers, normalize_headers, Selection, select_presentation}

pub record ProtectedResourceRequest : Type 0 where
  pub headers : List (Text × List Text)
  pub method : String
  pub url : String

pub record ProtectedResourceResult : Type 0 where
  pub authenticated : Bool
  pub principal : Option AuthenticatedPrincipal
  pub response : Option (ServiceResult Json)

-- the authenticator of a grant type, and what `__init__` keeps for protected resources
pub record Resources (W : Type 0) : Type 0 where
  pub authentication_methods : List String
  pub inspect_url : Option String
  -- `_origin`, by `urlsplit`
  pub origin : String → String
  -- `_absolute_url` and `_normalize_resource_uri`, by `urlsplit`
  pub resource_uri : String → Result String
  -- the text with these code points
  pub string_of : Text → String
  pub has_presentation : String → CredentialAuthenticationInput → Exec W Bool
  pub authenticate : String → CredentialAuthenticationInput → Exec W (Option AuthenticatedPrincipal)

abbrev pub is_session : AuthenticationKind → Bool
is_session AuthenticationKind.session_credential = true
is_session AuthenticationKind.aep_jwt = false

-- the check of what an authenticator returns
unfoldable pub invalid_principal : String → AuthenticatedPrincipal → Bool
invalid_principal method p =
    p.agent_did == ""
    || (not (is_session p.authentication_kind)
        || (not (p.authentication_method == method)
            || (elim p.grant_type [ none ↦ true | some t ↦ not (t == method) ])))

-- the method behind a presentation of a session credential
abbrev pub method_of : AuthorizationScheme → String
method_of AuthorizationScheme.basic = "basic"
method_of _ = "oauth-bearer"

abbrev pub is_aep : AuthorizationScheme → Bool
is_aep AuthorizationScheme.aep = true
is_aep _ = false

abbrev pub let_in : AuthenticatedPrincipal → ProtectedResourceResult
let_in p = record { authenticated = true; principal = some p; response = none }

abbrev pub jwt_principal : String → AuthenticatedPrincipal
jwt_principal sub = record {
  agent_did = sub;
  authentication_kind = AuthenticationKind.aep_jwt;
  authentication_method = "aep-jwt";
  credential_id = none;
  grant_type = none;
  scopes = [];
}

-- `_active`
unfoldable pub active_record : Option EnrollmentRecord → String → Result Bool
active_record none agent_did = ok false
active_record (some r) agent_did = elim (validate_record r agent_did) [
  | ok _ ↦ ok (status_beq r.status AgentStatus.active)
  | raised e ↦ raised e
  | blocked ↦ blocked
]

module _ {W : Type 0} (settings : Settings) (ports : Ports W) (res : Resources W) where
  abbrev pub is_active : String → Exec (State W) Bool
  is_active agent_did s = (active_record (find agent_did s.enrollments) agent_did, s)

  abbrev pub challenge_text : ErrorCode → String → String
  challenge_text code resource =
      let inspect : String = elim res.inspect_url [
        | some url ↦ url
        | none ↦ Prim.Native.String.◌++◌ (res.origin resource) "/.well-known/aep"
      ] in
      Prim.Native.String.◌++◌ "AEP service_did=\"" (
        Prim.Native.String.◌++◌ settings.service_did (
          Prim.Native.String.◌++◌ "\",inspect=\"" (
            Prim.Native.String.◌++◌ inspect (
              Prim.Native.String.◌++◌ "\",reason=\""
                (Prim.Native.String.◌++◌ (code_text code) "\"")))))

  -- `_protected_problem`
  unfoldable pub protected_problem : ErrorCode → String → Result ProtectedResourceResult
  protected_problem code resource = elim (problem_result (plain_problem code 401)) [
    | ok r ↦ ok (record {
      authenticated = false;
      principal = none;
      response =
          some (record r { headers = ("WWW-Authenticate", challenge_text code resource) ∷ [] });
    })
    | raised e ↦ raised e
    | blocked ↦ blocked
  ]

  abbrev pub denied : ErrorCode → String → Exec (State W) ProtectedResourceResult
  denied code resource = lift (protected_problem code resource)

  -- an identified Agent gets in if its enrollment is active
  unfoldable pub admit : String → AuthenticatedPrincipal → Exec (State W) ProtectedResourceResult
  admit resource p = do
    active ← is_active p.agent_did
    if active then pure (let_in p) else denied ErrorCode.not_recognized resource

  abbrev pub with_claims : String → Option AssertionClaims → Exec (State W) ProtectedResourceResult
  with_claims resource none = denied ErrorCode.not_recognized resource
  with_claims resource (some c) = admit resource (jwt_principal c.sub)

  unfoldable pub with_assertion : String → Presentation → Exec (State W) ProtectedResourceResult
  with_assertion resource p =
      if not (member "aep-jwt" res.authentication_methods)
      then denied ErrorCode.unsupported_authentication_method resource
      else do
        c ←
            authenticate_assertion settings ports
              (record { client_assertion = res.string_of p.credentials; idempotency_key = none })
              AssertionOperation.authenticate (some resource)
        with_claims resource c

  -- what follows the answer of one authenticator
  abbrev pub with_principal :
      String
      → String
      → Option AuthenticatedPrincipal
      → Exec (State W) ProtectedResourceResult
      → Exec (State W) ProtectedResourceResult
  with_principal resource method none rest = rest
  with_principal resource method (some p) rest =
      if invalid_principal method p
      then lift (raised (value_error "AEP credential authenticator returned an invalid principal"))
      else admit resource p

  -- the loop over the methods; `presented` is what the loop knows so far
  unfoldable pub try_methods :
      String
      → CredentialAuthenticationInput
      → List String
      → Bool
      → Exec (State W) ProtectedResourceResult
  try_methods resource input [] presented =
      denied (if presented then ErrorCode.not_recognized else ErrorCode.authentication_required)
        resource
  try_methods resource input (method ∷ methods) presented =
      let rest : Bool → Exec (State W) ProtectedResourceResult =
        try_methods resource input methods in
      if method == "aep-jwt" then rest presented else do
        seen ← if presented then pure true else on_world (res.has_presentation method input)
        p ← on_world (res.authenticate method input)
        with_principal resource method p (rest seen)

  unfoldable pub with_credentials :
      ProtectedResourceRequest → Headers → String → Bool → Exec (State W) ProtectedResourceResult
  with_credentials request headers resource presented = do
    now ← on_world (now_of ports)
    try_methods resource
        (record { headers = headers; method = request.method; current_time = now; url = resource })
        res.authentication_methods presented

  -- the branches on the selected presentation
  abbrev pub with_selection :
      ProtectedResourceRequest
      → Headers
      → String
      → Selection
      → Exec (State W) ProtectedResourceResult
  with_selection request headers resource (p, false) = denied ErrorCode.not_recognized resource
  with_selection request headers resource (none, true) =
      with_credentials request headers resource false
  with_selection request headers resource (some p, true) =
      if is_aep p.scheme
      then with_assertion resource p
      else if not (member (method_of p.scheme) res.authentication_methods)
      then denied ErrorCode.unsupported_authentication_method resource
      else with_credentials request headers resource true

  unfoldable pub authenticate_protected_resource :
      ProtectedResourceRequest → Exec (State W) ProtectedResourceResult
  authenticate_protected_resource request =
      let headers = normalize_headers request.headers [] in
      do
        resource ← lift (res.resource_uri request.url)
        selection ← lift (select_presentation headers)
        with_selection request headers resource selection
