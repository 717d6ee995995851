-- ===== src/Service/Commands/Grants.antt =====
-- The body of a grant: the lifecycle rules in front of the grant handler.
use aep_python.Common.{
  String, ◌≡◌, refl, ◌⊎◌, inl, inr, true, false, not, ◌&&◌, ◌||◌, none, some, List, [], ◌∷◌, arith,
  nat_eq, string_eq, pair_eq, list_eq, if_cases, member, if◌then◌else◌, select, is_empty, or_empty,
}
use aep_python.Common.Exec.{Result, ok, raised, blocked, Exec, lift, continue}
use aep_python.Common.Dict.{has}
use aep_python.Service.Types.{AgentStatus, status_beq, EnrollmentRecord}
use aep_python.Service.Problem.{
  ErrorCode, Problem, ServiceResult, problem_result, plain_problem, document_requirements,
  problem_media_type,
}
use aep_python.Service.Settings.{GrantRequest, ServiceDocument, Settings, Ports, State}
use aep_python.Core.Json.{Json}
use aep_python.Service.Types.{status_beq_iff}
use aep_python.Core.Claims.{All, supplied, missing_required_claim_names, nothing_missing_iff}
use aep_python.Service.Responses.{validate_record, grant_lifecycle_problem, document_id_of}
use aep_python.Service.Lifecycle.{missing_document_ids, required_claims, outstanding}
use aep_python.Service.Idempotent.{Wire, refuse}
use aep_python.Service.Commands.{issue, grant_for}

-- what the protocol asks of an enrollment before a credential is issued
pub record Eligible (settings : Settings) (request : GrantRequest) (r : EnrollmentRecord)
    : Type 0 where
  pub active : r.status ≡ AgentStatus.active
  pub offered : has request.grant_type settings.grant_types ≡ true
  -- each required claim was given
  pub claimed :
      All
        (λ name. not (has name (supplied r.claims)) ≡ false)
        (elim settings.claims [ none ↦ [] | some c ↦ or_empty c.required ])
  -- each required document was acknowledged, and is not to be acknowledged again
  pub acknowledged :
      All
        (λ (d : ServiceDocument).
          d.required ≡ true
          → (member d.id r.acknowledged_document_ids ≡ true)
            × (member d.id r.required_document_ids ≡ false))
        settings.service_documents

-- an answer without a credential
abbrev pub IsProblem : {B : Type 0} → ServiceResult B → Type 0
IsProblem result = (result.body ≡ none) × (result.content_type ≡ problem_media_type)

pub problem_no_body :
    {B : Type 0} (p : Problem) (result : ServiceResult B)
    → problem_result p ≡ ok result
    → IsProblem result
unfolding problem_result
problem_no_body p result h = (ground arith, ground arith)

lifecycle_no_body :
    {B : Type 0} (r : EnrollmentRecord) (result : ServiceResult B)
    → grant_lifecycle_problem r ≡ ok result
    → IsProblem result
unfolding grant_lifecycle_problem
lifecycle_no_body r result h = problem_no_body _ result h

requirements_no_body :
    {B : Type 0} (claims documents : List String) (result : ServiceResult B)
    → document_requirements claims documents ≡ ok result
    → IsProblem result
unfolding document_requirements
requirements_no_body claims documents result h = problem_no_body _ result h

module _ {W : Type 0} (settings : Settings) (ports : Ports W) (wire : Wire) where
  documents_acknowledged :
      (r : EnrollmentRecord) (docs : List ServiceDocument)
      → is_empty (
          document_id_of
            (select (λ d. d.required && outstanding settings ports (some r) d.id) docs))
        ≡ true
      → All
          (λ (d : ServiceDocument).
            d.required ≡ true
            → (member d.id r.acknowledged_document_ids ≡ true)
              × (member d.id r.required_document_ids ≡ false))
          docs
  documents_acknowledged r [] h = tt
  documents_acknowledged r (d ∷ docs) h =
      (λ needed. (ground arith, ground arith), documents_acknowledged r docs (ground arith))

  -- nothing is issued, and nothing changes
  abbrev pub Refused : Result (ServiceResult Json) × State W → State W → Type 0
  Refused x s = (x.1 ≡ s) × ((result : ServiceResult Json) → x.0 ≡ ok result → IsProblem result)

  module _ (sub : String) (request : GrantRequest) (r : EnrollmentRecord) (s : State W) where
    abbrev Gate : Result (ServiceResult Json) × State W → Type 0
    Gate x =
        (Eligible settings request r × (x ≡ issue settings ports wire sub request r s))
        ⊎ Refused x s

    abbrev missing : List String
    missing = missing_required_claim_names (required_claims settings ports) r.claims

    abbrev documents : List String
    documents = missing_document_ids settings ports (some r)

    refused-Gate :
        (o : Result (ServiceResult Json))
        → ((result : ServiceResult Json) → o ≡ ok result → IsProblem result)
        → Gate (o, s)
    refused-Gate o none_issued = inr (refl, none_issued)

    eligible :
        not (has request.grant_type settings.grant_types) ≡ false
        → not (status_beq r.status AgentStatus.active) ≡ false
        → (not (is_empty missing) || not (is_empty documents)) ≡ false
        → Eligible settings request r
    unfolding missing_document_ids
    eligible offered active complete = record {
      active = (status_beq_iff r.status AgentStatus.active).0 (ground arith);
      offered = ground arith;
      claimed = (nothing_missing_iff (required_claims settings ports) r.claims).0 (ground arith);
      acknowledged = documents_acknowledged r settings.service_documents (ground arith);
    }

    checked-Gate : Gate (
        (if not (has request.grant_type settings.grant_types)
            then refuse ErrorCode.unsupported_grant_type 400
            else if not (status_beq r.status AgentStatus.active)
            then lift (grant_lifecycle_problem r)
            else if not (is_empty missing) || not (is_empty documents)
            then lift (document_requirements missing documents)
            else issue settings ports wire sub request r)
          s)
    checked-Gate =
        if_cases {A = Exec (State W) (ServiceResult Json)} (λ m. Gate (m s))
          (not (has request.grant_type settings.grant_types))
          (λ _.
            refused-Gate _ (problem_no_body (plain_problem ErrorCode.unsupported_grant_type 400)))
          λ offered.
            if_cases {A = Exec (State W) (ServiceResult Json)} (λ m. Gate (m s))
              (not (status_beq r.status AgentStatus.active))
              (λ _. refused-Gate _ (lifecycle_no_body r))
              λ active.
                if_cases {A = Exec (State W) (ServiceResult Json)} (λ m. Gate (m s))
                  (not (is_empty missing) || not (is_empty documents))
                  (λ _. refused-Gate _ (requirements_no_body missing documents))
                  λ complete. inl (eligible offered active complete, refl)

    continue-Gate :
        (o : Result (Unit {0})) (m : Exec (State W) (ServiceResult Json))
        → Gate (m s)
        → Gate (continue o (λ _. m) s)
    continue-Gate (ok x) m g = g
    continue-Gate (raised e) m g = inr (refl, λ result h. absurd (ground arith))
    continue-Gate blocked m g = inr (refl, λ result h. absurd (ground arith))

    -- The body for a stored enrollment either meets all the rules and runs the handler, or leaves the
    -- state as it was and answers without a credential, by a problem or an exception.
    pub grant_gate :
        (Eligible settings request r
          × (grant_for settings ports wire sub request r s
              ≡ issue settings ports wire sub request r s))
        ⊎ Refused (grant_for settings ports wire sub request r s) s
    unfolding grant_for
    grant_gate = continue-Gate (validate_record r sub) _ checked-Gate
