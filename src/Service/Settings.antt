-- ===== src/Service/Settings.antt =====
-- What a `Service` of service/service.py keeps from its options, the requests that it reads, and the
-- ports: what the application or a library provides, over a state `W` of the outside world.
use aep_python.Common.{
  ℕ, String, Bool, true, false, not, Option, List, nat_eq, string_eq, pair_eq, list_eq,
}
use aep_python.Common.Exec.{value_error, Result, Exec, pure, ◌>>=◌, ◌>>◌, raise_if}
use aep_python.Common.Dict.{Dict}
use aep_python.Service.Limits.{ClaimValueLimits}
use aep_python.Core.Json.{Json}
use aep_python.Core.Claims.{InspectClaims}
use aep_python.Service.Time.{DateTime}
use aep_python.Service.Types.{ClaimValues, EnrollmentRecord}
use aep_python.Service.Replay.{ReplayStore}
use aep_python.Service.Enrollments.{EnrollmentStore}

pub data AssertionOperation : Type 0 where
  enroll grant revoke status authenticate : AssertionOperation

abbrev pub operation_beq : AssertionOperation → AssertionOperation → Bool
operation_beq enroll enroll = true
operation_beq grant grant = true
operation_beq revoke revoke = true
operation_beq status status = true
operation_beq authenticate authenticate = true
operation_beq _ _ = false

pub record AssertionClaims : Type 0 where
  pub aud : String
  pub exp : ℕ
  pub iat : ℕ
  pub iss : String
  pub jti : String
  pub op : AssertionOperation
  pub resource : Option String
  pub sub : String

-- the members of a JOSE header that are texts
pub record JoseHeader : Type 0 where
  pub typ : Option String
  pub kid : Option String
  pub alg : Option String

pub record CommandOptions : Type 0 where
  pub client_assertion : String
  pub idempotency_key : Option String

pub record VerificationContext : Type 0 where
  pub current_time : DateTime
  pub idempotency_key : Option String
  pub operation : AssertionOperation
  pub resource : Option String

pub record EnrollRequest : Type 0 where
  pub agent_did : String
  pub claims : Option ClaimValues
  pub idempotency_key : Option String
  pub acknowledged_document_ids : Option (List String)

pub record GrantRequest : Type 0 where
  pub grant_type : String
  pub requested_scopes : Option (List String)

pub record RevokeRequest : Type 0 where
  pub grant_type : Option String
  pub credential_id : Option String
  pub all_grant_types : Bool

-- `EnrollmentDecision`; its status is one of three
pub data DecisionStatus : Type 0 where
  active pending rejected : DecisionStatus

pub record EnrollmentDecision : Type 0 where
  pub status : DecisionStatus
  pub owner_action_required : Option Bool
  pub requirements_pending : Option (List String)
  pub verification_pending : Option (List String)
  pub update_existing : Bool

-- `GrantContext` and `RevokeContext`
pub record CredentialContext : Type 0 where
  pub agent_did : String
  pub enrollment : EnrollmentRecord
  pub grant_type : String
  pub current_time : DateTime

pub record ServiceDocument : Type 0 where
  pub id : String
  pub required : Bool

-- what `__init__` derives from `ServiceOptions`
pub record Settings : Type 0 where
  pub service_did : String
  pub signing_algorithms : List String
  pub identity_methods : List String
  pub claims : Option InspectClaims
  pub extensions : List String
  pub service_documents : List ServiceDocument
  pub clock_tolerance : ℕ
  pub maximum_assertion_lifetime : ℕ
  pub claim_limits : ClaimValueLimits
  -- grant types in the order of their definitions, with `supports_per_credential_revoke == "true"`
  pub grant_types : Dict String Bool

pub record Ports (W : Type 0) : Type 0 where
  pub clock : Exec W DateTime
  pub verify : String → VerificationContext → Exec W AssertionClaims
  -- `decode_jwt_unverified`, the header
  pub decode_header : String → Result JoseHeader
  -- `_require_resource_uri` and `_normalize_resource_uri`, by `urlsplit`
  pub normalize_resource : String → Result String
  pub decide : EnrollRequest → DateTime → Exec W EnrollmentDecision
  pub identifier : Exec W String
  -- the length of the encoded JSON object
  pub encoded_bytes : ClaimValues → ℕ
  -- `parse_json_model` for `ClaimValues`
  pub claim_values : ClaimValues → Result ClaimValues
  pub grant_handler : String → GrantRequest → CredentialContext → Exec W String
  pub revoke_handler : String → RevokeRequest → CredentialContext → Exec W (Unit {0})
  -- `_credential_object`
  pub credential_object : String → Result Json

-- the state that a command works on, but for the idempotency store
pub record State (W : Type 0) : Type 0 where
  pub world : W
  pub replay : ReplayStore
  pub enrollments : EnrollmentStore

module _ {W A : Type 0} where
  abbrev pub on_world : Exec W A → Exec (State W) A
  on_world m s = let (r, w) = m s.world in (r, record s { world = w })

  abbrev pub on_replay : Exec ReplayStore A → Exec (State W) A
  on_replay m s = let (r, x) = m s.replay in (r, record s { replay = x })

  -- a call that works on the world and the enrollments
  abbrev pub on_enrollments : Exec (W × EnrollmentStore) A → Exec (State W) A
  on_enrollments m s =
      let (r, x) = m (s.world, s.enrollments) in (r, record s { world = x.0; enrollments = x.1 })

-- `_now`
unfoldable pub now_of : {W : Type 0} → Ports W → Exec W DateTime
now_of ports = do
  value ← ports.clock
  raise_if (not value.aware) (value_error "AEP Service clock must return an offset-aware datetime")
  pure value
