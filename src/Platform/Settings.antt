-- ===== src/Platform/Settings.antt =====
-- What a `Platform` of platform/platform.py keeps, the requests and results of platform/types.py and
-- core/models.py, and the ports: what the application and the libraries provide, over a state `W`.
-- A timestamp text stands for the instant that it denotes.
use aep_python.Common.{
  ℕ, ◌*◌, ◌/◌, String, Bool, true, false, not, ◌||◌, Option, none, some, List, [], nat_eq,
  string_eq, pair_eq, list_eq, ltb, leb, if◌then◌else◌, is_empty,
}
use aep_python.Common.Exec.{value_error, Result, ok, raised, Exec, lift, ◌>>=◌}
use aep_python.Common.Dict.{Dict, has, put, retain}
use aep_python.Common.Text.{Text}
use aep_python.Core.Json.{Json}
use aep_python.Core.Assertions.{Jwt}
use aep_python.Service.Time.{DateTime}
use aep_python.Service.Problem.{ErrorCode, Problem, plain_problem, problem_media_type}
use aep_python.Service.Settings.{AssertionOperation, AssertionClaims}
use aep_python.Platform.Types.{
  ManagedAgentStatus, SigningAlgorithm, IdentityRecord, IdentityListQuery, RequestContext,
}
use aep_python.Platform.Identities.{IdentityStore}

pub record PlatformResult (B : Type 0) : Type 0 where
  pub status : ℕ
  pub body : Option B
  pub content_type : String
  pub headers : Dict String String
  pub problem : Option Problem

abbrev pub media_type : String
media_type = "application/aep+json"

-- `_success`
abbrev pub success : {B : Type 0} → ℕ → B → PlatformResult B
success status body = record {
  status = status;
  body = some body;
  content_type = media_type;
  headers = [];
  problem = none;
}

-- `_problem`; no problem of the Platform has pending members, so its checks pass
abbrev pub problem : {B : Type 0} → ℕ → ErrorCode → PlatformResult B
problem status code = record {
  status = status;
  body = none;
  content_type = problem_media_type;
  headers = [];
  problem = some (plain_problem code status);
}

pub record PlatformSignRequest : Type 0 where
  pub jti : String
  pub op : AssertionOperation
  pub service_did : String
  -- `int(lifetime_seconds)`
  pub lifetime_seconds : Option ℕ
  pub platform_context : Option Json
  pub resource : Option String

pub record PlatformSignCompleted : Type 0 where
  pub agent_did : String
  pub client_assertion : String
  pub expires_at : DateTime
  pub issued_at : DateTime
  pub jti : String
  pub service_did : String
  pub platform_context : Option Json

pub data PlatformSignResponse : Type 0 where
  completed : PlatformSignCompleted → PlatformSignResponse
  pending : ℕ → PlatformSignResponse

pub record PlatformVerificationRequest : Type 0 where
  pub client_assertion : String
  pub op : AssertionOperation
  pub service_did : String
  pub resource : Option String

pub record PlatformVerificationResponse : Type 0 where
  pub verified : Bool
  pub service_did : String
  pub agent_did : Option String
  pub agent_identity_id : Option String
  pub op : Option AssertionOperation
  pub status : Option ManagedAgentStatus

pub record PlatformAgentIdentity : Type 0 where
  pub agent_did : String
  pub agent_identity_id : String
  pub created_at : DateTime
  pub did_document_url : String
  pub key_id : String
  pub service_did : String
  pub signing_algorithms : List SigningAlgorithm
  pub status : ManagedAgentStatus
  pub updated_at : DateTime

-- `AuthorizationRequest`, by its operation
pub data AuthorizationRequest : Type 0 where
  get_identity : IdentityRecord → AuthorizationRequest
  list_identities : IdentityListQuery → AuthorizationRequest
  provision_identity : String → AuthorizationRequest
  sign : IdentityRecord → PlatformSignRequest → AuthorizationRequest
  update_identity : IdentityRecord → ManagedAgentStatus → AuthorizationRequest
  verify : IdentityRecord → PlatformVerificationRequest → AuthorizationRequest

pub record DidVerificationMethod : Type 0 where
  pub controller : String
  pub id : String
  pub public_key_jwk : Dict String Json
  pub type : String

-- the members of an unverified token that the Platform reads, where they are texts
pub record Token : Type 0 where
  pub kid : Option String
  pub iss : Option String
  pub sub : Option String

pub record PlatformSettings : Type 0 where
  pub default_lifetime : ℕ
  pub maximum_lifetime : ℕ
  pub hosted_verification : Bool
  pub signing_algorithms : List SigningAlgorithm

pub record PlatformPorts (W : Type 0) : Type 0 where
  pub clock : Exec W DateTime
  pub authorize : AuthorizationRequest → RequestContext → Exec W Bool
  pub resolve_service : String → Exec W Bool
  -- the key store
  pub create_key : IdentityRecord → Exec W (Unit {0})
  pub did_verification_method : IdentityRecord → Exec W DidVerificationMethod
  pub sign_claims : IdentityRecord → AssertionClaims → Exec W String
  pub verification_key : IdentityRecord → Exec W String
  -- the lifecycle policy
  pub can_sign : IdentityRecord → RequestContext → Exec W Bool
  pub can_verify : IdentityRecord → RequestContext → Exec W Bool
  pub can_transition : IdentityRecord → ManagedAgentStatus → RequestContext → Exec W Bool
  pub sign_handler : Option (
      IdentityRecord
      → PlatformSignRequest
      → RequestContext
      → Exec W (Option (PlatformResult PlatformSignResponse)))
  pub identifier : Exec W String
  pub agent_did_id_generator : Exec W String
  -- `create_service_scoped_agent_did` and `render_did_url` at the configured host, path and
  -- template, by `urlsplit` and `quote`
  pub agent_did : String → Result String
  pub did_url : String → Result String
  -- the jwt library, the parts of a token by base64 and json, and `_normalize_resource_uri`
  pub jwt : Jwt
  pub decode_token : String → Result Token
  pub normalize_resource : String → Result String
  -- `ClientAssertionClaims.model_validate` and `PlatformAgentIdentity`, by pydantic
  pub claims_model : AssertionClaims → Result AssertionClaims
  pub identity_model : PlatformAgentIdentity → Result PlatformAgentIdentity

-- the second of an instant
abbrev pub whole_seconds : DateTime → DateTime
whole_seconds t = record { micros = t.micros / 1_000_000 * 1_000_000; aware = true }

-- `identity_response`
unfoldable pub identity_response : IdentityRecord → PlatformAgentIdentity
identity_response r = record {
  agent_did = r.agent_did;
  agent_identity_id = r.agent_identity_id;
  created_at = whole_seconds r.created_at;
  did_document_url = r.did_document_url;
  key_id = r.key_id;
  service_did = r.service_did;
  signing_algorithms = r.signing_algorithms;
  status = r.status;
  updated_at = whole_seconds r.updated_at;
}

-- `MemoryReplayStore` of platform/stores.py: keys, and when each may be forgotten
abbrev pub ReplayStore : Type 0
ReplayStore = Dict Text DateTime

unfoldable pub consume : Text → DateTime → DateTime → Exec ReplayStore Bool
consume key expires_at now records =
    if is_empty key || (not expires_at.aware || not now.aware)
    then (raised (value_error "AEP Platform replay input is invalid"), records)
    else let live = retain (λ expiry. ltb now.micros expiry.micros) records in
      if leb expires_at.micros now.micros || has key live
      then (ok false, live)
      else (ok true, put key expires_at live)

-- the state that a request works on, but for the idempotency store
pub record PlatformState (W : Type 0) : Type 0 where
  pub world : W
  pub identities : IdentityStore
  pub replay : ReplayStore

module _ {W A : Type 0} where
  abbrev pub on_world : Exec W A → Exec (PlatformState W) A
  on_world m s = let (r, w) = m s.world in (r, record s { world = w })

  abbrev pub on_identities : Exec IdentityStore A → Exec (PlatformState W) A
  on_identities m s = let (r, x) = m s.identities in (r, record s { identities = x })

  abbrev pub on_replay : Exec ReplayStore A → Exec (PlatformState W) A
  on_replay m s = let (r, x) = m s.replay in (r, record s { replay = x })

  -- a call that works on the world and the identities
  abbrev pub on_both : Exec (W × IdentityStore) A → Exec (PlatformState W) A
  on_both m s =
      let (r, x) = m (s.world, s.identities) in (r, record s { world = x.0; identities = x.1 })

-- `_aware`
unfoldable pub require_aware : DateTime → Result DateTime
require_aware t =
    if t.aware
    then ok t
    else raised (value_error "AEP Platform clock must return an offset-aware datetime")

-- `_aware(self._clock())`
unfoldable pub now_of : {W : Type 0} → PlatformPorts W → Exec (PlatformState W) DateTime
now_of ports = do t ← on_world ports.clock; lift (require_aware t)

-- `_aware(self._request_time(context))`
unfoldable pub request_time :
    {W : Type 0} → PlatformPorts W → RequestContext → Exec (PlatformState W) DateTime
request_time ports context = elim context.current_time [
  | some t ↦ lift (require_aware t)
  | none ↦ now_of ports
]
