-- ===== src/Platform/Signing/Completed.antt =====
-- Which answers `_sign` of platform/platform.py gives.
use aep_python.Common.{
  ℕ, ◌+◌, ◌*◌, String, ◌≡◌, ap, ◌∙◌, inl, inr, Bool, true, false, Option, none, some, arith, nat_eq,
  string_eq, pair_eq, list_eq, if◌then◌else◌, Bool-cases, Option-cases,
}
use aep_python.Common.Exec.{Result, ok, Exec, pure, lift, ◌>>=◌}
use aep_python.Common.Exec.{bind_ok, pure_ok}
use aep_python.Service.Time.{DateTime, timestamp}
use aep_python.Service.Settings.{AssertionClaims}
use aep_python.Platform.Types.{active, managed_beq, managed_beq_iff, IdentityRecord, RequestContext}
use aep_python.Platform.Settings.{
  PlatformResult, success, problem, PlatformSignRequest, PlatformSignCompleted,
  PlatformSignResponse, completed, PlatformSettings, PlatformPorts, PlatformState, on_world,
  request_time, whole_seconds,
}
use aep_python.Platform.Signing.Signed.{IsSigned, validate-Signed}
use aep_python.Platform.Requests.{lifecycle_error}
use aep_python.Platform.Signing.{validate_sign_result, sign_here, handled, sign_allowed, sign_body}

module _ {W : Type 0} (settings : PlatformSettings) (ports : PlatformPorts W) (r : IdentityRecord)
    (request : PlatformSignRequest) (lifetime : ℕ) where
  -- an answer is as it should be where it is completed
  abbrev pub IsCompleted : PlatformResult PlatformSignResponse → Type 0
  IsCompleted x =
      (body : PlatformSignCompleted)
      → x.body ≡ some (completed body)
      → (x.status ≡ 200) × IsSigned ports r request lifetime body

  checked-Completed :
      (x y : PlatformResult PlatformSignResponse) (now : DateTime) (s t : PlatformState W)
      → (validate_sign_result settings ports x r request lifetime now >>= (λ _. pure x)) s
        ≡ (ok y, t)
      → IsCompleted y
  checked-Completed x y now s t h body b =
      let (_, u, valid, h2) =
        bind_ok (validate_sign_result settings ports x r request lifetime now) (λ _. pure x) s
          {b = y} {t = t} h in
      let (same, _) = pure_ok x u {b = y} {t = t} h2 in
      rw (← same) (
        validate-Signed settings ports r request lifetime x body now s u valid
          (ap (λ z. z.body) same ∙ b))

  module _ (context : RequestContext) where
    sign_here-Completed :
        (y : PlatformResult PlatformSignResponse) (s t : PlatformState W)
        → sign_here settings ports r request context lifetime s ≡ (ok y, t)
        → IsCompleted y
    unfolding sign_here
    sign_here-Completed y s t h =
        let claims : DateTime → Result AssertionClaims = λ now. ports.claims_model (record {
          aud = request.service_did;
          exp = timestamp now + lifetime;
          iat = timestamp now;
          iss = r.agent_did;
          jti = request.jti;
          op = request.op;
          resource = request.resource;
          sub = r.agent_did;
        }) in
        let body : DateTime → String → PlatformSignResponse = λ now assertion. completed (record {
          agent_did = r.agent_did;
          client_assertion = assertion;
          expires_at =
              whole_seconds (record { micros = now.micros + lifetime * 1_000_000; aware = true });
          issued_at = whole_seconds now;
          jti = request.jti;
          service_did = request.service_did;
          platform_context = request.platform_context;
        }) in
        let with_text : DateTime
            → String
            → Exec (PlatformState W) (PlatformResult PlatformSignResponse) =
          λ now assertion.
            validate_sign_result settings ports (success 200 (body now assertion)) r request
              lifetime now
            >>= (λ _. pure (success 200 (body now assertion))) in
        let with_claims : DateTime
            → AssertionClaims
            → Exec (PlatformState W) (PlatformResult PlatformSignResponse) =
          λ now c. on_world (ports.sign_claims r c) >>= with_text now in
        let with_time : DateTime → Exec (PlatformState W) (PlatformResult PlatformSignResponse) =
          λ now. lift (claims now) >>= with_claims now in
        let (now, u, _, h1) = bind_ok (request_time ports context) with_time s {b = y} {t = t} h in
        let (c, v, _, h2) = bind_ok (lift (claims now)) (with_claims now) u {b = y} {t = t} h1 in
        let (text, w, _, h3) =
          bind_ok (on_world (ports.sign_claims r c)) (with_text now) v {b = y} {t = t} h2 in
        checked-Completed (success 200 (body now text)) y now w t h3

    handled-Completed :
        (x : Option (PlatformResult PlatformSignResponse)) (y : PlatformResult PlatformSignResponse)
        (s t : PlatformState W)
        → handled settings ports r request context lifetime x s ≡ (ok y, t)
        → IsCompleted y
    handled-Completed none y s t h = sign_here-Completed y s t h
    handled-Completed (some x) y s t h =
        let answer : DateTime → Exec (PlatformState W) (PlatformResult PlatformSignResponse) =
          λ now. validate_sign_result settings ports x r request lifetime now >>= (λ _. pure x) in
        let (now, u, _, h1) = bind_ok (request_time ports context) answer s {b = y} {t = t} h in
        checked-Completed x y now u t h1

    sign_allowed-Completed :
        (y : PlatformResult PlatformSignResponse) (s t : PlatformState W)
        → sign_allowed settings ports r request context lifetime s ≡ (ok y, t)
        → IsCompleted y
    unfolding sign_allowed
    sign_allowed-Completed y s t h = elim (Option-cases ports.sign_handler) [
      | inl n ↦ sign_here-Completed y s t (ground arith)
      | inr (handler, e) ↦
          let h' : (on_world (handler r request context)
                  >>= handled settings ports r request context lifetime)
                s
              ≡ (ok y, t) =
            ground arith in
          let (x, u, _, h1) =
            bind_ok (on_world (handler r request context))
              (handled settings ports r request context lifetime) s {b = y} {t = t} h' in
          handled-Completed x y u t h1
    ]

    -- A completed answer of `_sign`, by the application's handler or by the key store, is one for an
    -- active identity, has status 200, and names this Agent, Service and identifier and lasts as long
    -- as asked; and its assertion is verified under a key of the key store, as one of this Agent for
    -- this Service, operation and resource, with the times and the identifier of the answer.
    pub sign_body-Completed :
        (y : PlatformResult PlatformSignResponse) (body : PlatformSignCompleted)
        (s t : PlatformState W)
        → sign_body settings ports r request context lifetime s ≡ (ok y, t)
        → y.body ≡ some (completed body)
        → (r.status ≡ active) × (y.status ≡ 200) × IsSigned ports r request lifetime body
    unfolding sign_body
    sign_body-Completed y body s t h b = elim (Bool-cases (managed_beq r.status active)) [
      | inr n ↦ absurd ground arith
      | inl is ↦
          let decide : Bool → Exec (PlatformState W) (PlatformResult PlatformSignResponse) =
            λ allowed.
              if allowed
              then sign_allowed settings ports r request context lifetime
              else pure (problem 403 (lifecycle_error r.status)) in
          let (allowed, u, _, h1) =
            bind_ok (on_world (ports.can_sign r context)) decide s {b = y} {t = t} (ground arith) in
          let (status, signed) = decided allowed y u t h1 body b in
          ((managed_beq_iff r.status active).0 is, status, signed)
    ]
      where
        decided :
            (allowed : Bool) (y : PlatformResult PlatformSignResponse) (u t : PlatformState W)
            → (if allowed
                  then sign_allowed settings ports r request context lifetime
                  else pure (problem 403 (lifecycle_error r.status)))
                u
              ≡ (ok y, t)
            → IsCompleted y
        decided true y u t h = sign_allowed-Completed y u t h
        decided false y u t h = λ body b. absurd ground arith
