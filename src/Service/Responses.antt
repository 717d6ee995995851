-- ===== src/Service/Responses.antt =====
-- The responses that service/service.py builds from enrollment records and decisions, with the checks
-- of their models.
use aep_python.Common.{
  String, Bool, true, false, ◌&&◌, Option, none, some, List, [], ◌∷◌, ◌++◌, map, ◌==◌, nat_eq,
  string_eq, pair_eq, list_eq, member, if◌then◌else◌, select, or_empty,
}
use aep_python.Common.Exec.{value_error, Result, ok, raised, blocked, Exec, pure, lift, ◌>>=◌, ◌>>◌}
use aep_python.Common.Dict.{put}
use aep_python.Service.Time.{DateTime}
use aep_python.Service.Types.{AgentStatus, status_beq, ClaimValues, EnrollmentRecord, post_init}
use aep_python.Service.Enrollments.{save}
use aep_python.Service.Problem.{
  ErrorCode, ServiceResult, problem_result, pending_values, document_ids,
}
use aep_python.Service.Settings.{DecisionStatus, EnrollmentDecision, ServiceDocument, State}
use aep_python.Core.Claims.{InspectClaims, names_of}

-- the members of an `EnrollResponse` or `StatusResponse`; an empty tuple is left out
pub record LifecycleResponse : Type 0 where
  pub status : AgentStatus
  pub owner_action_required : Bool
  pub requirements_pending : List String
  pub verification_pending : List String
  pub since : Option DateTime
  pub acknowledged_document_ids : Option (List String)

-- `LifecycleResponse.validate_pending_values`, and `_document_ids`
unfoldable pub lifecycle_response : LifecycleResponse → Result LifecycleResponse
lifecycle_response r =
    if (pending_values r.requirements_pending && pending_values r.verification_pending)
      && (elim r.acknowledged_document_ids [ none ↦ true | some ids ↦ document_ids ids ])
    then ok r
    else raised (value_error "invalid lifecycle response")

-- `_lifecycle_data`
abbrev pub lifecycle_data : EnrollmentRecord → LifecycleResponse
lifecycle_data r = record {
  status = r.status;
  owner_action_required = r.owner_action_required;
  requirements_pending = r.requirements_pending;
  verification_pending = r.verification_pending;
  since = none;
  acknowledged_document_ids = none;
}

-- `_validate_enrollment_record`
unfoldable pub validate_record : EnrollmentRecord → String → Result (Unit {0})
validate_record r agent_did = elim (post_init r) [
  | ok _ ↦
      if r.agent_did == agent_did
      then ok tt
      else raised (value_error "AEP enrollment store returned a mismatched Agent DID")
  | raised e ↦ raised e
  | blocked ↦ blocked
]

abbrev pub success : {B : Type 0} → B → ServiceResult B
success body = record {
  status = 200;
  body = some body;
  content_type = "application/aep+json";
  headers = [];
  problem = none;
}

abbrev pub decision_status : DecisionStatus → AgentStatus
decision_status DecisionStatus.active = AgentStatus.active
decision_status DecisionStatus.pending = AgentStatus.pending
decision_status DecisionStatus.rejected = AgentStatus.rejected

abbrev pub is_rejected : DecisionStatus → Bool
is_rejected DecisionStatus.rejected = true
is_rejected _ = false

abbrev pub or_false : Option Bool → Bool
or_false none = false
or_false (some b) = b

-- `_validate_enrollment_decision`
unfoldable pub validate_decision : EnrollmentDecision → Result LifecycleResponse
validate_decision d = lifecycle_response (record {
  status = decision_status d.status;
  owner_action_required = or_false d.owner_action_required;
  requirements_pending = or_empty d.requirements_pending;
  verification_pending = or_empty d.verification_pending;
  since = none;
  acknowledged_document_ids = none;
})

abbrev pub document_id_of : List ServiceDocument → List String
document_id_of = map (λ d. d.id)

-- `_enrollment_result`
unfoldable pub enrollment_result :
    {S : Type 0}
    → EnrollmentRecord
    → String
    → Option (List String)
    → Exec S (ServiceResult LifecycleResponse)
enrollment_result r agent_did declared = do
  lift (validate_record r agent_did)
  body ← lift (
      lifecycle_response (record (lifecycle_data r) {
        acknowledged_document_ids =
            if status_beq r.status AgentStatus.rejected then none else declared;
      }))
  pure (success body)

-- `await self._enrollment_store.save(…)`
abbrev pub saving : {W : Type 0} → EnrollmentRecord → Exec (State W) (Unit {0})
saving r s = (ok tt, record s { enrollments = save r s.enrollments })

-- `_grant_lifecycle_problem`
abbrev pub lifecycle_code : AgentStatus → ErrorCode
lifecycle_code AgentStatus.pending = ErrorCode.verification_pending
lifecycle_code AgentStatus.suspended = ErrorCode.identity_suspended
lifecycle_code AgentStatus.terminated = ErrorCode.identity_terminated
lifecycle_code AgentStatus.unavailable = ErrorCode.identity_unavailable
lifecycle_code _ = ErrorCode.enrollment_failed

abbrev pub is_enrollment_failed : ErrorCode → Bool
is_enrollment_failed ErrorCode.enrollment_failed = true
is_enrollment_failed _ = false

unfoldable pub grant_lifecycle_problem : {B : Type 0} → EnrollmentRecord → Result (ServiceResult B)
grant_lifecycle_problem r = problem_result (record {
  status = if is_enrollment_failed (lifecycle_code r.status) then 400 else 403;
  code = lifecycle_code r.status;
  owner_action_required = r.owner_action_required;
  requirements_pending = r.requirements_pending;
  verification_pending = r.verification_pending;
  required_document_ids = [];
})

-- the names that the Service advertises
abbrev pub advertised : Option InspectClaims → List String
advertised claims =
    names_of (λ c. c.required) claims
    ++ (names_of (λ c. c.preferred) claims ++ names_of (λ c. c.optional) claims)

-- `{name: value for name, value in members if name in names}`
abbrev pub select_names : List String → ClaimValues → ClaimValues
select_names names = select (λ m. member m.0 names)

-- `merged.update(supplied)`
abbrev pub update : ClaimValues → ClaimValues → ClaimValues
update merged [] = merged
update merged ((k, v) ∷ d) = update (put k v merged) d
