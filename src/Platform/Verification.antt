-- ===== src/Platform/Verification.antt =====
-- The hosted `verify` request of platform/platform.py, up to the idempotency store: an assertion is
-- verified for a trusted Service, and then its identifier is used up.
pub mod Once
pub mod Accepted
use aep_python.Common.{
  ℕ, ◌*◌, String, true, false, not, ◌&&◌, Option, none, some, ◌∷◌, ◌++◌, ◌==◌, nat_eq, string_eq,
  pair_eq, list_eq, if◌then◌else◌,
}
use aep_python.Common.Exec.{
  value_error, assertion_error, authorization_error, key_error, Result, ok, raised, blocked, Exec,
  pure, lift, ◌>>=◌,
}
use aep_python.Common.Text.{Text, codes}
use aep_python.Core.Assertions.{verify_client_assertion}
use aep_python.Service.Time.{DateTime, timestamp}
use aep_python.Service.Settings.{AssertionOperation, AssertionClaims}
use aep_python.Platform.Types.{active, managed_beq, IdentityRecord, RequestContext}
use aep_python.Platform.Identities.{validate_identity_record, find_by_agent_did}
use aep_python.Platform.Settings.{
  PlatformResult, success, PlatformVerificationRequest, PlatformVerificationResponse, Token,
  AuthorizationRequest, PlatformSettings, PlatformPorts, PlatformState, on_world, on_replay,
  request_time, consume,
}
use aep_python.Platform.Requests.{mismatched}
use aep_python.Platform.Signing.{expected, is_key}

abbrev pub unrecognized : String → PlatformResult PlatformVerificationResponse
unrecognized service_did = success 200 (record {
  verified = false;
  service_did = service_did;
  agent_did = none;
  agent_identity_id = none;
  op = none;
  status = none;
})

abbrev pub recognized :
    PlatformVerificationRequest → IdentityRecord → PlatformResult PlatformVerificationResponse
recognized request r = success 200 (record {
  verified = true;
  service_did = request.service_did;
  agent_did = some r.agent_did;
  agent_identity_id = some r.agent_identity_id;
  op = some request.op;
  status = some r.status;
})

-- the value of `AssertionOperation`
abbrev pub operation_value : AssertionOperation → String
operation_value AssertionOperation.enroll = "enroll"
operation_value AssertionOperation.grant = "grant"
operation_value AssertionOperation.revoke = "revoke"
operation_value AssertionOperation.status = "status"
operation_value AssertionOperation.authenticate = "authenticate"

-- `"\0".join((service_did, op, agent_did, jti))`
unfoldable pub replay_key : String → AssertionOperation → String → String → Text
replay_key service_did op agent_did jti =
    codes service_did
    ++ (0 ∷ (codes (operation_value op) ++ (0 ∷ (codes agent_did ++ (0 ∷ codes jti)))))

-- `datetime.fromtimestamp(exp, UTC)`
abbrev pub from_timestamp : ℕ → DateTime
from_timestamp t = record { micros = t * 1_000_000; aware = true }

-- `except AepAssertionError: return unrecognized`
abbrev pub verified_or : {A : Type 0} → Result A → Result (Option A)
verified_or (ok a) = ok (some a)
verified_or (raised (assertion_error m)) = ok none
verified_or (raised (value_error m)) = raised (value_error m)
verified_or (raised (authorization_error m c)) = raised (authorization_error m c)
verified_or (raised key_error) = raised key_error
verified_or blocked = blocked

abbrev pub caught : {S A : Type 0} → Exec S A → Exec S (Option A)
caught m s = let (r, t) = m s in (verified_or r, t)

-- the issuer, if subject and key are the same text
unfoldable pub named_agent : Token → Option String
named_agent token = elim token.iss [
  | none ↦ none
  | some did ↦ if is_key token.sub did && is_key token.kid did then some did else none
]

module _ {W : Type 0} (settings : PlatformSettings) (ports : PlatformPorts W) where
  -- the use of the replay store
  unfoldable pub use_up :
      IdentityRecord
      → PlatformVerificationRequest
      → RequestContext
      → AssertionClaims
      → Exec (PlatformState W) (PlatformResult PlatformVerificationResponse)
  use_up r request context c = do
    now ← request_time ports context
    fresh ← on_replay (
        consume (replay_key request.service_did request.op r.agent_did c.jti) (from_timestamp c.exp)
          now)
    pure (if fresh then recognized request r else unrecognized request.service_did)

  abbrev pub with_verified :
      IdentityRecord
      → PlatformVerificationRequest
      → RequestContext
      → Option AssertionClaims
      → Exec (PlatformState W) (PlatformResult PlatformVerificationResponse)
  with_verified r request context none = pure (unrecognized request.service_did)
  with_verified r request context (some c) = use_up r request context c

  -- the body of the `try`
  unfoldable pub read_claims :
      IdentityRecord
      → PlatformVerificationRequest
      → RequestContext
      → Exec (PlatformState W) AssertionClaims
  read_claims r request context = do
    key ← on_world (ports.verification_key r)
    now ← request_time ports context
    lift (
        verify_client_assertion ports.normalize_resource
          (expected r request.service_did request.op request.resource (timestamp now)) ports.jwt
          request.client_assertion key (timestamp now))

  unfoldable pub verify_allowed :
      IdentityRecord
      → PlatformVerificationRequest
      → RequestContext
      → Exec (PlatformState W) (PlatformResult PlatformVerificationResponse)
  verify_allowed r request context = do
    c ← caught (read_claims r request context)
    with_verified r request context c

  -- `_verify`
  unfoldable pub verify_body :
      IdentityRecord
      → PlatformVerificationRequest
      → RequestContext
      → Exec (PlatformState W) (PlatformResult PlatformVerificationResponse)
  verify_body r request context =
      if not (managed_beq r.status active) then pure (unrecognized request.service_did) else do
        allowed ← on_world (ports.can_verify r context)
        if allowed
            then verify_allowed r request context
            else pure (unrecognized request.service_did)

  -- the identity that the token names, if it is for this Service and the caller may verify it
  unfoldable pub verifiable :
      PlatformVerificationRequest
      → RequestContext
      → Option IdentityRecord
      → String
      → Exec (PlatformState W) (Option IdentityRecord)
  verifiable request context none did = pure none
  verifiable request context (some r) did = do
    _ ← lift (validate_identity_record r)
    _ ← lift (if r.agent_did == did then ok tt else mismatched)
    if not (r.service_did == request.service_did) then pure none else do
      allowed ← on_world (ports.authorize (AuthorizationRequest.verify r request) context)
      pure (if allowed then some r else none)

  abbrev pub named_identity :
      PlatformVerificationRequest
      → RequestContext
      → Option Token
      → Exec (PlatformState W) (Option IdentityRecord)
  named_identity request context none s = (ok none, s)
  named_identity request context (some token) s = elim (named_agent token) [
    | none ↦ (ok none, s)
    | some did ↦ verifiable request context (find_by_agent_did did s.identities) did s
  ]

  -- the first half of `verify`
  unfoldable pub find_verifiable :
      PlatformVerificationRequest → RequestContext → Exec (PlatformState W) (Option IdentityRecord)
  find_verifiable request context = do
    token ← lift (verified_or (ports.decode_token request.client_assertion))
    named_identity request context token
