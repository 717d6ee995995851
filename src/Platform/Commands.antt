-- ===== src/Platform/Commands.antt =====
-- The requests of platform/platform.py that run through the idempotency store: provision, sign and
-- verify, with `_idempotent`, `_store_result` and `_restore_result`.
use aep_python.Common.{
  ℕ, String, not, ◌&&◌, Option, none, some, ◌==◌, nat_eq, string_eq, pair_eq, list_eq, nonempty,
  if◌then◌else◌,
}
use aep_python.Common.Exec.{
  value_error, Result, ok, raised, blocked, Exec, pure, lift, ◌>>=◌, raise_if,
}
use aep_python.Service.Types.{
  StoredResponse, IdempotencyState, conflict, created, replayed, IdempotencyResult,
}
use aep_python.Service.Problem.{ErrorCode, Problem, problem_media_type}
use aep_python.Platform.Types.{IdentityRecord, RequestContext}
use aep_python.Platform.Idempotency.{
  IdempotentOperation, PlatformIdempotencyInput, PlatformIdempotencyStore, execute, invalid_input,
}
use aep_python.Platform.Settings.{
  PlatformResult, problem, PlatformAgentIdentity, PlatformSignRequest, PlatformSignResponse,
  PlatformVerificationRequest, PlatformVerificationResponse, AuthorizationRequest, PlatformSettings,
  PlatformPorts, PlatformState, on_world, now_of,
}
use aep_python.Platform.Requests.{authorized_identity, not_recognized, provision_body}
use aep_python.Platform.Signing.{sign_body, sign_lifetime}
use aep_python.Platform.Verification.{verify_body, find_verifiable, unrecognized}

-- how requests are hashed and problems stored: JSON, pydantic and digests
pub record PlatformWire : Type 0 where
  pub provision_hash : String → String
  pub sign_hash : String → PlatformSignRequest → String
  pub verify_hash : PlatformVerificationRequest → String
  pub problem_text : Problem → String
  pub problem_of : String → Result Problem

-- how the body of one request's results is written and read
pub record PlatformCodec (B : Type 0) : Type 0 where
  pub body_text : Option B → String
  pub body_of : String → Result B

-- the whole state of a Platform
abbrev pub PlatformFull : Type 0 → Type 0
PlatformFull W = PlatformState W × PlatformIdempotencyStore

abbrev pub on_state : {W A : Type 0} → Exec (PlatformState W) A → Exec (PlatformFull W) A
on_state m x = let (r, s) = m x.0 in (r, (s, x.1))

-- `not context.principal or not context.idempotency_key`, else the key
unfoldable pub request_key : RequestContext → Option String
request_key context = elim context.idempotency_key [
  | none ↦ none
  | some k ↦ if nonempty context.principal && nonempty k then some k else none
]

module _ {W : Type 0} (settings : PlatformSettings) (ports : PlatformPorts W)
    (wire : PlatformWire) where
  module _ {B : Type 0} (codec : PlatformCodec B) where
    abbrev pub stored_body : PlatformResult B → String
    stored_body x = elim x.problem [ none ↦ codec.body_text x.body | some p ↦ wire.problem_text p ]

    -- `_store_result`
    unfoldable pub store_result :
        Exec (PlatformState W) (PlatformResult B) → Exec (PlatformState W) StoredResponse
    store_result operation = do
      x ← operation
      now ← now_of ports
      pure (record {
        body = stored_body x;
        content_type = x.content_type;
        created_at = now;
        headers = x.headers;
        status = x.status;
      })

    abbrev pub with_parts : StoredResponse → Option B → Option Problem → PlatformResult B
    with_parts r body p = record {
      status = r.status;
      body = body;
      content_type = r.content_type;
      headers = r.headers;
      problem = p;
    }

    -- `_restore_result`
    unfoldable pub restore_result : StoredResponse → Result (PlatformResult B)
    restore_result r =
        if r.content_type == problem_media_type
        then (elim (wire.problem_of r.body) [
          | ok p ↦ ok (with_parts r none (some p))
          | raised e ↦ raised e
          | blocked ↦ blocked
        ])
        else (elim (codec.body_of r.body) [
          | ok b ↦ ok (with_parts r (some b) none)
          | raised e ↦ raised e
          | blocked ↦ blocked
        ])

    abbrev pub restored : Option StoredResponse → Result (PlatformResult B)
    restored none = raised (value_error "AEP Platform idempotency store returned no response")
    restored (some r) = restore_result r

    abbrev pub replied : IdempotencyResult → IdempotencyState → Result (PlatformResult B)
    replied x conflict = ok (problem 409 ErrorCode.idempotency_conflict)
    replied x created = restored x.response
    replied x replayed = restored x.response

    -- `execute` reads the clock after its check of the input
    unfoldable pub execute_now :
        PlatformIdempotencyInput
        → Exec (PlatformState W) StoredResponse
        → Exec (PlatformFull W) IdempotencyResult
    execute_now v operation = do
      _ ← raise_if (invalid_input v) (value_error "AEP Platform idempotency input is invalid")
      now ← on_state (on_world ports.clock)
      execute v now operation

    -- `_idempotent`
    unfoldable pub idempotent :
        PlatformIdempotencyInput
        → Exec (PlatformState W) (PlatformResult B)
        → Exec (PlatformFull W) (PlatformResult B)
    idempotent v operation = do x ← execute_now v (store_result operation); lift (replied x x.state)

  abbrev pub input_of :
      IdempotentOperation → RequestContext → String → String → PlatformIdempotencyInput
  input_of operation context key hash = record {
    idempotency_key = key;
    operation = operation;
    principal = context.principal;
    request_hash = hash;
  }

  unfoldable pub provision :
      PlatformCodec PlatformAgentIdentity
      → String
      → RequestContext
      → Exec (PlatformFull W) (PlatformResult PlatformAgentIdentity)
  provision codec service_did context = elim (request_key context) [
    | none ↦ pure (problem 400 ErrorCode.invalid_request)
    | some key ↦ do
      allowed ←
          on_state (
            on_world
              (ports.authorize (AuthorizationRequest.provision_identity service_did) context))
      if not allowed
          then not_recognized
          else idempotent codec
              (input_of IdempotentOperation.provision context key (wire.provision_hash service_did))
              (provision_body settings ports service_did context)
  ]

  abbrev pub sign_identity :
      PlatformCodec PlatformSignResponse
      → String
      → PlatformSignRequest
      → RequestContext
      → ℕ
      → String
      → Option IdentityRecord
      → Exec (PlatformFull W) (PlatformResult PlatformSignResponse)
  sign_identity codec id request context lifetime key none = not_recognized
  sign_identity codec id request context lifetime key (some r) =
      if not (r.service_did == request.service_did)
      then not_recognized
      else idempotent codec
          (input_of IdempotentOperation.sign context key (wire.sign_hash id request))
          (sign_body settings ports r request context lifetime)

  unfoldable pub sign :
      PlatformCodec PlatformSignResponse
      → String
      → PlatformSignRequest
      → RequestContext
      → Exec (PlatformFull W) (PlatformResult PlatformSignResponse)
  sign codec id request context = elim (sign_lifetime settings ports request) [
    | none ↦ pure (problem 400 ErrorCode.invalid_request)
    | some lifetime ↦ elim (request_key context) [
      | none ↦ pure (problem 400 ErrorCode.invalid_request)
      | some key ↦ do
        r ← on_state (
            authorized_identity settings ports id (λ r. AuthorizationRequest.sign r request)
              context)
        sign_identity codec id request context lifetime key r
    ]
  ]

  abbrev pub verify_identity :
      PlatformCodec PlatformVerificationResponse
      → PlatformVerificationRequest
      → RequestContext
      → String
      → Option IdentityRecord
      → Exec (PlatformFull W) (PlatformResult PlatformVerificationResponse)
  verify_identity codec request context key none = pure (unrecognized request.service_did)
  verify_identity codec request context key (some r) =
      idempotent codec
        (input_of IdempotentOperation.hosted_verification context key (wire.verify_hash request))
        (verify_body settings ports r request context)

  unfoldable pub verify :
      PlatformCodec PlatformVerificationResponse
      → PlatformVerificationRequest
      → RequestContext
      → Exec (PlatformFull W) (PlatformResult PlatformVerificationResponse)
  verify codec request context =
      if not settings.hosted_verification then not_recognized else elim (request_key context) [
        | none ↦ pure (problem 400 ErrorCode.invalid_request)
        | some key ↦ do
          r ← on_state (find_verifiable settings ports request context)
          verify_identity codec request context key r
      ]
