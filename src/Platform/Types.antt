-- ===== src/Platform/Types.antt =====
-- The records and enumerations of platform/types.py.
use aep_python.Common.{
  ℕ, String, ◌≡◌, ◌↔◌, Bool, true, false, Option, List, arith, Eq, nat_eq, string_eq, pair_eq,
  list_eq,
}
use aep_python.Service.Time.{DateTime}

-- `ManagedAgentStatus` of core/models.py
pub data ManagedAgentStatus : Type 0 where
  active revoked suspended terminated : ManagedAgentStatus

abbrev pub managed_beq : ManagedAgentStatus → ManagedAgentStatus → Bool
managed_beq active active = true
managed_beq revoked revoked = true
managed_beq suspended suspended = true
managed_beq terminated terminated = true
managed_beq _ _ = false

pub managed_beq_iff : (a b : ManagedAgentStatus) → (managed_beq a b ≡ true) ↔ (a ≡ b)
managed_beq_iff a b = ground arith

instance abbrev pub managed_eq : Eq ManagedAgentStatus
managed_eq = record { test = managed_beq; test_iff = managed_beq_iff }

-- `SigningAlgorithm` of core/models.py
pub data SigningAlgorithm : Type 0 where
  eddsa es256 : SigningAlgorithm

pub record IdentityRecord : Type 0 where
  pub agent_did : String
  pub agent_did_id : String
  pub agent_identity_id : String
  pub created_at : DateTime
  pub did_document_url : String
  pub key_id : String
  pub principal : String
  pub service_did : String
  pub signing_algorithms : List SigningAlgorithm
  pub status : ManagedAgentStatus
  pub updated_at : DateTime

-- a Python integer that the caller gives: `negsuc n` is -(n + 1)
pub data ℤ : Type 0 where
  pos : ℕ → ℤ
  negsuc : ℕ → ℤ

abbrev pub is_negative : ℤ → Bool
is_negative (pos n) = false
is_negative (negsuc n) = true

-- the number where it is not negative
abbrev pub pos_part : ℤ → ℕ
pos_part (pos n) = n
pos_part (negsuc n) = 0

pub record IdentityListQuery : Type 0 where
  pub descending : Bool
  pub limit : ℤ
  pub offset : ℤ
  pub service_did : Option String
  pub status : Option ManagedAgentStatus

pub record IdentityListResult : Type 0 where
  pub identities : List IdentityRecord
  pub total : ℕ

-- `RequestContext`, the members that the Platform reads; ports may read the others
pub record RequestContext : Type 0 where
  pub principal : String
  pub idempotency_key : Option String
  pub authorization : Option String
  pub request_id : Option String
  pub current_time : Option DateTime
