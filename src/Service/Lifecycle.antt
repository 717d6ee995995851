-- ===== src/Service/Lifecycle.antt =====
-- `_update_enrollment` and the creation of a record in service/service.py, behind authentication and
-- idempotency.
pub mod Identity
pub mod Runs
use aep_python.Common.{
  String, Bool, true, not, ◌&&◌, ◌||◌, Option, none, some, List, [], ◌++◌, ◌==◌, nat_eq, string_eq,
  pair_eq, list_eq, member, if◌then◌else◌, select, is_empty, or_empty, or_else,
}
use aep_python.Common.Exec.{
  value_error, Result, ok, raised, blocked, Exec, lift, ◌>>=◌, ◌>>◌, raise_if,
}
use aep_python.Service.Time.{DateTime}
use aep_python.Service.Types.{ClaimValues, EnrollmentRecord, post_init}
use aep_python.Service.Enrollments.{find_or_create}
use aep_python.Service.Problem.{
  ErrorCode, ServiceResult, problem_result, plain_problem, document_requirements,
}
use aep_python.Service.Settings.{
  EnrollRequest, EnrollmentDecision, Settings, Ports, State, on_world, on_enrollments, now_of,
}
use aep_python.Core.Claims.{names_of, supplied, missing_required_claim_names}
use aep_python.Service.Responses.{
  LifecycleResponse, validate_record, decision_status, is_rejected, or_false, validate_decision,
  document_id_of, enrollment_result, saving, advertised, select_names, update,
}

module _ {W : Type 0} (settings : Settings) (ports : Ports W) where
  -- `_accepted_claims`
  unfoldable pub accepted_claims : Option ClaimValues → Result (Option ClaimValues)
  accepted_claims none = ok none
  accepted_claims (some values) =
      elim (ports.claim_values (select_names (advertised settings.claims) values)) [
        | ok v ↦ ok (some v)
        | raised e ↦ raised e
        | blocked ↦ blocked
      ]

  abbrev pub outstanding : Option EnrollmentRecord → String → Bool
  outstanding none id = true
  outstanding (some r) id =
      not (member id r.acknowledged_document_ids) || member id r.required_document_ids

  -- `_missing_document_ids`
  unfoldable pub missing_document_ids : Option EnrollmentRecord → List String
  missing_document_ids r =
      document_id_of (select (λ d. d.required && outstanding r d.id) settings.service_documents)

  -- `_accepted_document_ids`
  unfoldable pub accepted_document_ids : List String → Option (List String) → List String
  accepted_document_ids existing declared =
      existing
      ++ select
          (λ id. member id (document_id_of settings.service_documents) && not (member id existing))
          (or_empty declared)

  abbrev pub required_claims : List String
  required_claims = names_of (λ c. c.required) settings.claims

  abbrev pub missing_unless_declared : Option EnrollmentRecord → Option (List String) → List String
  missing_unless_declared r none = missing_document_ids r
  missing_unless_declared r (some ids) = []

  -- the record that `_update_enrollment` saves
  unfoldable pub updated_record :
      EnrollRequest
      → EnrollmentRecord
      → EnrollmentDecision
      → ClaimValues
      → DateTime
      → EnrollmentRecord
  updated_record request existing decision values now = record existing {
    claims = some values;
    acknowledged_document_ids =
        accepted_document_ids existing.acknowledged_document_ids request.acknowledged_document_ids;
    required_document_ids =
        select (λ id. not (member id (or_empty request.acknowledged_document_ids)))
          existing.required_document_ids;
    owner_action_required = or_else decision.owner_action_required existing.owner_action_required;
    requirements_pending = or_else decision.requirements_pending existing.requirements_pending;
    verification_pending = or_else decision.verification_pending existing.verification_pending;
    updated_at = now;
  }

  -- the second half of `_update_enrollment`: the merged claims are known
  unfoldable pub save_update :
      EnrollRequest
      → EnrollmentRecord
      → EnrollmentDecision
      → DateTime
      → ClaimValues
      → Exec (State W) (ServiceResult LifecycleResponse)
  save_update request existing decision now values =
      let missing = missing_required_claim_names required_claims (some values) in
      let documents = missing_unless_declared (some existing) request.acknowledged_document_ids in
      if not (is_empty missing) || not (is_empty documents)
      then lift (document_requirements missing documents)
      else do
        r ← lift (post_init (updated_record request existing decision values now))
        saving r
        enrollment_result r request.agent_did request.acknowledged_document_ids

  -- `_update_enrollment`
  unfoldable pub update_enrollment :
      EnrollRequest → EnrollmentRecord → Exec (State W) (ServiceResult LifecycleResponse)
  update_enrollment request existing = do
    lift (validate_record existing request.agent_did)
    now ← on_world (now_of ports)
    decision ← on_world (ports.decide request now)
    lift (validate_decision decision)
    if is_rejected decision.status
        then lift (problem_result (plain_problem ErrorCode.enrollment_failed 403))
        else if not decision.update_existing
        then enrollment_result existing request.agent_did request.acknowledged_document_ids
        else do
          given ← lift (accepted_claims request.claims)
          values ← lift (ports.claim_values (update (supplied existing.claims) (supplied given)))
          save_update request existing decision now values

  -- `create`, the factory of a new record
  unfoldable pub create_enrollment : String → EnrollRequest → Exec W EnrollmentRecord
  create_enrollment sub request = do
    now ← now_of ports
    decision ← ports.decide request now
    lift (validate_decision decision)
    identifier ← ports.identifier
    raise_if (identifier == "")
        (value_error "AEP enrollment identifier provider returned an empty identifier")
    claims ← lift (accepted_claims request.claims)
    lift (
        post_init (record {
          agent_did = sub;
          claims = claims;
          created_at = now;
          enrollment_id = identifier;
          owner_action_required = or_false decision.owner_action_required;
          requirements_pending = or_empty decision.requirements_pending;
          since = now;
          status = decision_status decision.status;
          updated_at = now;
          verification_pending = or_empty decision.verification_pending;
          acknowledged_document_ids =
              if is_rejected decision.status
              then []
              else accepted_document_ids [] request.acknowledged_document_ids;
          required_document_ids = [];
        }))

  -- a new Agent: its requirements, then the record
  unfoldable pub create_or_refuse :
      String → EnrollRequest → Exec (State W) (ServiceResult LifecycleResponse)
  create_or_refuse sub request =
      let missing = missing_required_claim_names required_claims request.claims in
      let documents = missing_unless_declared none request.acknowledged_document_ids in
      if not (is_empty missing) || not (is_empty documents)
      then lift (document_requirements missing documents)
      else do
        found ← on_enrollments (find_or_create sub (create_enrollment sub request))
        enrollment_result found.0 sub request.acknowledged_document_ids
