-- ===== src/Service/Types.antt =====
-- The records and enumerations of service/types.py that the stores keep.
use aep_python.Common.{
  ℕ, String, ◌≡◌, ◌↔◌, Bool, true, false, not, ◌||◌, Option, List, arith, Eq, nat_eq, string_eq,
  pair_eq, nonempty, if◌then◌else◌,
}
use aep_python.Common.Exec.{value_error, Result, ok, raised}
use aep_python.Common.Dict.{Dict}
use aep_python.Core.Json.{Json}
use aep_python.Service.Time.{DateTime}

-- `AgentStatus` of core/models.py
pub data AgentStatus : Type 0 where
  active pending rejected suspended terminated unavailable : AgentStatus

abbrev pub status_beq : AgentStatus → AgentStatus → Bool
status_beq active active = true
status_beq pending pending = true
status_beq rejected rejected = true
status_beq suspended suspended = true
status_beq terminated terminated = true
status_beq unavailable unavailable = true
status_beq _ _ = false

pub status_beq_iff : (a b : AgentStatus) → (status_beq a b ≡ true) ↔ (a ≡ b)
status_beq_iff a b = ground arith

instance abbrev pub status_eq : Eq AgentStatus
status_eq = record { test = status_beq; test_iff = status_beq_iff }

-- the members of a `ClaimValues` model, as `to_wire()` gives them
abbrev pub ClaimValues : Type 0
ClaimValues = Dict String Json

pub record EnrollmentRecord : Type 0 where
  pub agent_did : String
  pub claims : Option ClaimValues
  pub created_at : DateTime
  pub enrollment_id : String
  pub owner_action_required : Bool
  pub requirements_pending : List String
  pub since : DateTime
  pub status : AgentStatus
  pub updated_at : DateTime
  pub verification_pending : List String
  pub acknowledged_document_ids : List String
  pub required_document_ids : List String

-- `EnrollmentRecord.__post_init__`, which `replace` runs too
unfoldable pub post_init : EnrollmentRecord → Result EnrollmentRecord
post_init r =
    if not (nonempty r.agent_did) || not (nonempty r.enrollment_id)
    then raised (value_error "AEP enrollment record requires Agent and enrollment identifiers")
    else if not r.created_at.aware || (not r.since.aware || not r.updated_at.aware)
    then raised (value_error "AEP enrollment timestamps must contain UTC offsets")
    else ok r

-- `StoredResponse`, after its own check of the timestamp
pub record StoredResponse : Type 0 where
  pub body : String
  pub content_type : String
  pub created_at : DateTime
  pub headers : Dict String String
  pub status : ℕ

pub record IdempotencyInput : Type 0 where
  pub agent_did : String
  pub command : String
  pub idempotency_key : String
  pub request_hash : String

pub data IdempotencyState : Type 0 where
  conflict created replayed : IdempotencyState

pub record IdempotencyResult : Type 0 where
  pub response : Option StoredResponse
  pub state : IdempotencyState
