-- ===== src/Service/Commands.antt =====
-- The commands of service/service.py on the Service's own stores: authentication, the checks of the
-- request, and the command's body, run through the idempotency store.
pub mod Grants
pub mod Outcomes
pub mod Stored
pub mod Gate
use aep_python.Common.{
  String, Bool, true, not, ◌&&◌, ◌||◌, Option, none, some, ◌==◌, nat_eq, string_eq, pair_eq,
  list_eq, member, if◌then◌else◌, is_empty,
}
use aep_python.Common.Exec.{Result, ok, raised, blocked, Exec, pure, lift, ◌>>=◌, ◌>>◌}
use aep_python.Common.Dict.{has}
use aep_python.Service.Types.{AgentStatus, status_beq, EnrollmentRecord}
use aep_python.Service.Enrollments.{find}
use aep_python.Service.Problem.{
  ErrorCode, ServiceResult, problem_result, plain_problem, document_requirements,
}
use aep_python.Service.Settings.{
  AssertionOperation, AssertionClaims, CommandOptions, EnrollRequest, GrantRequest, Settings, Ports,
  State, on_world, now_of,
}
use aep_python.Core.Json.{Json}
use aep_python.Core.Claims.{missing_required_claim_names}
use aep_python.Service.Limits.{claims_within_limits}
use aep_python.Service.Assertions.{authenticate_assertion}
use aep_python.Service.Responses.{
  LifecycleResponse, lifecycle_response, lifecycle_data, validate_record, success,
  grant_lifecycle_problem,
}
use aep_python.Service.Lifecycle.{
  missing_document_ids, required_claims, update_enrollment, create_or_refuse,
}
use aep_python.Service.Idempotent.{Wire, Codec, Full, on_state, refuse, valid_key, idempotent}

abbrev pub extension : String
extension = "urn:aep:ext:aep-foundation:service-documents#v=1.0.0"

module _ {W : Type 0} (settings : Settings) (ports : Ports W) (wire : Wire) where
  -- `enroll`: the request without the document declarations, if the extension is not advertised
  abbrev pub effective : EnrollRequest → EnrollRequest
  effective request =
      if member extension settings.extensions
      then request
      else record request { acknowledged_document_ids = none }

  -- the body of `enroll`
  unfoldable pub enroll_body :
      String → EnrollRequest → Exec (State W) (ServiceResult LifecycleResponse)
  enroll_body sub request s = elim (find sub s.enrollments) [
    | some existing ↦ update_enrollment settings ports (effective request) existing s
    | none ↦ create_or_refuse settings ports sub (effective request) s
  ]

  -- the checks of `enroll` on a request that was read
  abbrev pub enroll_request_ok : String → String → EnrollRequest → Bool
  enroll_request_ok sub key request =
      request.agent_did == sub
      && (claims_within_limits ports.encoded_bytes settings.claim_limits request.claims
          && (elim request.idempotency_key [ none ↦ true | some k ↦ k == key ]))

  abbrev pub enroll_checked :
      Codec LifecycleResponse
      → String
      → Option EnrollRequest
      → Option String
      → Exec (Full W) (ServiceResult LifecycleResponse)
  enroll_checked codec sub (some request) (some key) =
      if enroll_request_ok sub key request
      then idempotent settings ports wire codec
          (record {
            agent_did = sub;
            command = "enroll";
            idempotency_key = key;
            request_hash = wire.enroll_hash request;
          })
          (enroll_body sub request)
      else refuse ErrorCode.invalid_request 400
  enroll_checked codec sub _ _ = refuse ErrorCode.invalid_request 400

  abbrev pub enroll_as :
      Codec LifecycleResponse
      → String
      → Option String
      → Option AssertionClaims
      → Exec (Full W) (ServiceResult LifecycleResponse)
  enroll_as codec body key none = refuse ErrorCode.not_recognized 401
  enroll_as codec body key (some c) =
      enroll_checked codec c.sub (wire.enroll_request body) (valid_key wire key)

  unfoldable pub enroll :
      Codec LifecycleResponse
      → String
      → CommandOptions
      → Exec (Full W) (ServiceResult LifecycleResponse)
  enroll codec body options = do
    c ← on_state (authenticate_assertion settings ports options AssertionOperation.enroll none)
    enroll_as codec body options.idempotency_key c

  -- `status`
  abbrev pub status_of : String → Option EnrollmentRecord → Result (ServiceResult LifecycleResponse)
  status_of sub none = problem_result (plain_problem ErrorCode.not_recognized 401)
  status_of sub (some r) = elim (validate_record r sub) [
    | ok _ ↦ elim (lifecycle_response (record (lifecycle_data r) { since = some r.since })) [
      | ok body ↦ ok (success body)
      | raised e ↦ raised e
      | blocked ↦ blocked
    ]
    | raised e ↦ raised e
    | blocked ↦ blocked
  ]

  abbrev pub status_as : Option AssertionClaims → Exec (State W) (ServiceResult LifecycleResponse)
  status_as none s = (problem_result (plain_problem ErrorCode.not_recognized 401), s)
  status_as (some c) s = (status_of c.sub (find c.sub s.enrollments), s)

  unfoldable pub status : CommandOptions → Exec (State W) (ServiceResult LifecycleResponse)
  status options = do
    c ← authenticate_assertion settings ports options AssertionOperation.status none
    status_as c

  -- `grant` behind its lifecycle checks: the handler, and the check of what it returns
  unfoldable pub issue :
      String → GrantRequest → EnrollmentRecord → Exec (State W) (ServiceResult Json)
  issue sub request r = do
    now ← on_world (now_of ports)
    raw ← on_world (
        ports.grant_handler request.grant_type request (record {
          agent_did = sub;
          enrollment = r;
          grant_type = request.grant_type;
          current_time = now;
        }))
    credential ← lift (ports.credential_object raw)
    pure (success credential)

  -- the body of `grant` for a stored record
  unfoldable pub grant_for :
      String → GrantRequest → EnrollmentRecord → Exec (State W) (ServiceResult Json)
  grant_for sub request r =
      let missing = missing_required_claim_names (required_claims settings ports) r.claims in
      let documents = missing_document_ids settings ports (some r) in
      do
        lift (validate_record r sub)
        if not (has request.grant_type settings.grant_types)
            then refuse ErrorCode.unsupported_grant_type 400
            else if not (status_beq r.status AgentStatus.active)
            then lift (grant_lifecycle_problem r)
            else if not (is_empty missing) || not (is_empty documents)
            then lift (document_requirements missing documents)
            else issue sub request r

  unfoldable pub grant_body : String → GrantRequest → Exec (State W) (ServiceResult Json)
  grant_body sub request s = elim (find sub s.enrollments) [
    | some r ↦ grant_for sub request r s
    | none ↦ (problem_result (plain_problem ErrorCode.not_recognized 401), s)
  ]

  abbrev pub grant_checked :
      Codec Json → String → Option GrantRequest → Option String → Exec (Full W) (ServiceResult Json)
  grant_checked codec sub (some request) (some key) =
      idempotent settings ports wire codec
        (record {
          agent_did = sub;
          command = "grant";
          idempotency_key = key;
          request_hash = wire.grant_hash request;
        })
        (grant_body sub request)
  grant_checked codec sub _ _ = refuse ErrorCode.invalid_request 400

  abbrev pub grant_as :
      Codec Json
      → String
      → Option String
      → Option AssertionClaims
      → Exec (Full W) (ServiceResult Json)
  grant_as codec body key none = refuse ErrorCode.not_recognized 401
  grant_as codec body key (some c) =
      grant_checked codec c.sub (wire.grant_request body) (valid_key wire key)

  unfoldable pub grant : Codec Json → String → CommandOptions → Exec (Full W) (ServiceResult Json)
  grant codec body options = do
    c ← on_state (authenticate_assertion settings ports options AssertionOperation.grant none)
    grant_as codec body options.idempotency_key c
