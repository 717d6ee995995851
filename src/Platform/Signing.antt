-- ===== src/Platform/Signing.antt =====
-- The `sign` request of platform/platform.py, up to the idempotency store: an assertion of a managed
-- identity, by the application's handler or the key store, checked before it is returned.
pub mod Signed
pub mod Completed
use aep_python.Common.{
  ℕ, ◌+◌, ◌*◌, String, Bool, true, false, not, ◌&&◌, ◌||◌, Option, none, some, ◌==◌, nat_eq,
  string_eq, pair_eq, list_eq, ltb, if◌then◌else◌, any, or_else,
}
use aep_python.Common.Exec.{
  value_error, assertion_error, authorization_error, key_error, Result, ok, raised, blocked, Exec,
  pure, lift, ◌>>=◌, raise_if,
}
use aep_python.Common.Text.{codes, lower}
use aep_python.Core.Http.Paths.{media_type_essence}
use aep_python.Core.Assertions.{VerifyClientAssertionOptions, verify_client_assertion}
use aep_python.Service.Time.{DateTime, timestamp}
use aep_python.Service.Settings.{AssertionOperation, AssertionClaims}
use aep_python.Platform.Types.{active, managed_beq, IdentityRecord, RequestContext}
use aep_python.Platform.Settings.{
  PlatformResult, success, problem, PlatformSignRequest, PlatformSignCompleted,
  PlatformSignResponse, completed, pending, Token, PlatformSettings, PlatformPorts, PlatformState,
  on_world, request_time, whole_seconds, media_type,
}
use aep_python.Platform.Requests.{lifecycle_error}

abbrev pub expected :
    IdentityRecord → String → AssertionOperation → Option String → ℕ → VerifyClientAssertionOptions
expected r audience op resource now = record {
  algorithms = r.signing_algorithms;
  audience = some audience;
  issuer = some r.agent_did;
  subject = some r.agent_did;
  operation = some op;
  resource = resource;
  current_time = some now;
  clock_tolerance_seconds = 0;
}

-- `except AepAssertionError as error: raise ValueError(…)`
abbrev pub as_value_error : {A : Type 0} → Result A → Result A
as_value_error (ok a) = ok a
as_value_error (raised (assertion_error m)) =
    raised (value_error "AEP Platform signer returned an invalid client assertion")
as_value_error (raised (value_error m)) = raised (value_error m)
as_value_error (raised (authorization_error m c)) = raised (authorization_error m c)
as_value_error (raised key_error) = raised key_error
as_value_error blocked = blocked

abbrev pub rethrown : {S A : Type 0} → Exec S A → Exec S A
rethrown m s = let (r, t) = m s in (as_value_error r, t)

abbrev pub is_key : Option String → String → Bool
is_key none key = false
is_key (some k) key = k == key

-- the response names this identity, Service, identifier and lifetime
unfoldable pub answers_request :
    PlatformSignCompleted → IdentityRecord → PlatformSignRequest → ℕ → Bool
answers_request body r request lifetime =
    body.agent_did == r.agent_did
    && (body.service_did == request.service_did
        && (body.jti == request.jti
            && body.expires_at.micros == body.issued_at.micros + lifetime * 1_000_000))

-- the claims of the verified assertion are those of the response
unfoldable pub claims_agree :
    Token → AssertionClaims → PlatformSignCompleted → IdentityRecord → PlatformSignRequest → Bool
claims_agree token c body r request =
    is_key token.kid r.key_id
    && (c.iat == timestamp body.issued_at
        && (c.exp == timestamp body.expires_at && c.jti == request.jti))

module _ {W : Type 0} (settings : PlatformSettings) (ports : PlatformPorts W) where
  -- the body of the `try` of `_validate_sign_result`
  unfoldable pub read_assertion :
      PlatformSignCompleted
      → IdentityRecord
      → PlatformSignRequest
      → ℕ
      → Exec (PlatformState W) (Token × AssertionClaims)
  read_assertion body r request now = do
    token ← lift (ports.decode_token body.client_assertion)
    key ← on_world (ports.verification_key r)
    c ← lift (
        verify_client_assertion ports.normalize_resource
          (expected r request.service_did request.op request.resource now) ports.jwt
          body.client_assertion key now)
    pure (token, c)

  -- the check of a completed response
  unfoldable pub validate_completed :
      PlatformSignCompleted
      → IdentityRecord
      → PlatformSignRequest
      → ℕ
      → ℕ
      → Exec (PlatformState W) (Unit {0})
  validate_completed body r request lifetime now = do
    _ ←
        raise_if (not (answers_request body r request lifetime))
          (value_error "AEP Platform signing handler response does not match the request")
    read ← rethrown (read_assertion body r request now)
    raise_if (not (claims_agree read.0 read.1 body r request))
        (value_error "AEP Platform signer returned mismatched assertion claims")

  abbrev pub validate_body :
      ℕ
      → Option PlatformSignResponse
      → IdentityRecord
      → PlatformSignRequest
      → ℕ
      → ℕ
      → Exec (PlatformState W) (Unit {0})
  validate_body status (some (pending seconds)) r request lifetime now =
      raise_if (not (status == 202))
        (value_error "AEP Platform pending signing response must use 202")
  validate_body status (some (completed body)) r request lifetime now =
      if not (status == 200)
      then lift (raised (value_error "AEP Platform signing handler returned an invalid response"))
      else validate_completed body r request lifetime now
  validate_body status none r request lifetime now =
      lift (raised (value_error "AEP Platform signing handler returned an invalid response"))

  -- `_validate_sign_result`
  unfoldable pub validate_sign_result :
      PlatformResult PlatformSignResponse
      → IdentityRecord
      → PlatformSignRequest
      → ℕ
      → DateTime
      → Exec (PlatformState W) (Unit {0})
  validate_sign_result x r request lifetime now = do
    _ ←
        raise_if
          (not (media_type_essence (codes x.content_type) == codes media_type)
            || (elim x.problem [ none ↦ false | some p ↦ true ]))
          (value_error "AEP Platform signing response must use application/aep+json")
    _ ←
        raise_if (any (λ h. lower (codes h.0) == codes "retry-after") x.headers)
          (value_error "AEP Platform signing response must not include Retry-After")
    validate_body x.status x.body r request lifetime (timestamp now)

  -- the key store signs
  unfoldable pub sign_here :
      IdentityRecord
      → PlatformSignRequest
      → RequestContext
      → ℕ
      → Exec (PlatformState W) (PlatformResult PlatformSignResponse)
  sign_here r request context lifetime = do
    now ← request_time ports context
    claims ← lift (
        ports.claims_model (record {
          aud = request.service_did;
          exp = timestamp now + lifetime;
          iat = timestamp now;
          iss = r.agent_did;
          jti = request.jti;
          op = request.op;
          resource = request.resource;
          sub = r.agent_did;
        }))
    assertion ← on_world (ports.sign_claims r claims)
    let body : PlatformSignResponse = completed (record {
      agent_did = r.agent_did;
      client_assertion = assertion;
      expires_at =
          whole_seconds (record { micros = now.micros + lifetime * 1_000_000; aware = true });
      issued_at = whole_seconds now;
      jti = request.jti;
      service_did = request.service_did;
      platform_context = request.platform_context;
    })
    _ ← validate_sign_result (success 200 body) r request lifetime now
    pure (success 200 body)

  -- what the application's handler answered, `none` where it leaves the request to the Platform
  abbrev pub handled :
      IdentityRecord
      → PlatformSignRequest
      → RequestContext
      → ℕ
      → Option (PlatformResult PlatformSignResponse)
      → Exec (PlatformState W) (PlatformResult PlatformSignResponse)
  handled r request context lifetime none = sign_here r request context lifetime
  handled r request context lifetime (some x) = do
    now ← request_time ports context
    _ ← validate_sign_result x r request lifetime now
    pure x

  unfoldable pub sign_allowed :
      IdentityRecord
      → PlatformSignRequest
      → RequestContext
      → ℕ
      → Exec (PlatformState W) (PlatformResult PlatformSignResponse)
  sign_allowed r request context lifetime = elim ports.sign_handler [
    | none ↦ sign_here r request context lifetime
    | some handler ↦ do
      x ← on_world (handler r request context)
      handled r request context lifetime x
  ]

  -- `_sign`
  unfoldable pub sign_body :
      IdentityRecord
      → PlatformSignRequest
      → RequestContext
      → ℕ
      → Exec (PlatformState W) (PlatformResult PlatformSignResponse)
  sign_body r request context lifetime =
      if not (managed_beq r.status active)
      then pure (problem 403 (lifecycle_error r.status))
      else do
        allowed ← on_world (ports.can_sign r context)
        if allowed
            then sign_allowed r request context lifetime
            else pure (problem 403 (lifecycle_error r.status))

  -- `_sign_lifetime`
  unfoldable pub sign_lifetime : PlatformSignRequest → Option ℕ
  sign_lifetime request =
      let lifetime = or_else request.lifetime_seconds settings.default_lifetime in
      if ltb settings.maximum_lifetime lifetime then none else some lifetime
