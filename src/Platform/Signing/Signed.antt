-- ===== src/Platform/Signing/Signed.antt =====
-- What `_validate_sign_result` of platform/platform.py accepts as a completed answer.
use aep_python.Common.{
  ℕ, ◌+◌, ◌*◌, String, ◌≡◌, refl, sym, ap, ◌∙◌, Bool, true, false, not, ◌||◌, none, some, arith,
  ◌==◌, nat_eq, string_eq, pair_eq, list_eq, ==_iff, eq_of_beq, if◌then◌else◌, any,
}
use aep_python.Common.Exec.{
  Exn, value_error, assertion_error, authorization_error, key_error, Result, ok, raised, blocked,
  Exec, lift, ◌>>=◌, ◌>>◌, raise_if,
}
use aep_python.Common.Exec.{pure, bind_ok, guard_ok, guard_then, lift_ok, pure_ok}
use aep_python.Common.Text.{codes, lower}
use aep_python.Core.Http.Paths.{media_type_essence}
use aep_python.Core.Assertions.{verify_client_assertion}
use aep_python.Core.Assertions.Rules.{IsVerified}
use aep_python.Core.Assertions.Verified.{verify_sound}
use aep_python.Service.Time.{DateTime, timestamp}
use aep_python.Service.Settings.{AssertionClaims}
use aep_python.Platform.Types.{IdentityRecord}
use aep_python.Platform.Settings.{
  PlatformResult, media_type, PlatformSignRequest, PlatformSignCompleted, PlatformSignResponse,
  completed, Token, PlatformSettings, PlatformPorts, PlatformState, on_world,
}
use aep_python.Platform.Steps.{on_world_ok}
use aep_python.Platform.Signing.{
  expected, as_value_error, rethrown, read_assertion, answers_request, claims_agree,
  validate_completed, validate_body, validate_sign_result,
}

-- a completed answer, and the assertion in it, verified under some key of the identity
pub record IsSigned {W : Type 0} (ports : PlatformPorts W) (r : IdentityRecord)
    (request : PlatformSignRequest) (lifetime : ℕ) (body : PlatformSignCompleted) : Type 0 where
  pub is_agent : body.agent_did ≡ r.agent_did
  pub is_service : body.service_did ≡ request.service_did
  pub is_named : body.jti ≡ request.jti
  pub lasts : body.expires_at.micros ≡ body.issued_at.micros + lifetime * 1_000_000
  pub claims : AssertionClaims
  pub key : String
  pub before : W
  pub after : W
  pub has_key : ports.verification_key r before ≡ (ok key, after)
  pub now : ℕ
  pub verified :
      IsVerified ports.normalize_resource
        (expected r request.service_did request.op request.resource now)
        ports.jwt
        body.client_assertion
        key
        now
        claims
  pub issued : claims.iat ≡ timestamp body.issued_at
  pub expires : claims.exp ≡ timestamp body.expires_at
  pub claims_named : claims.jti ≡ request.jti

as_value_error-ok : {A : Type 0} (r : Result A) (a : A) → as_value_error r ≡ ok a → r ≡ ok a
as_value_error-ok (ok b) a h = h
as_value_error-ok (raised (value_error m)) a h = absurd ground arith
as_value_error-ok (raised (assertion_error m)) a h = absurd ground arith
as_value_error-ok (raised (authorization_error m e)) a h = absurd ground arith
as_value_error-ok (raised key_error) a h = absurd ground arith
as_value_error-ok blocked a h = absurd ground arith

unrefused : (b : Bool) → not b ≡ false → b ≡ true
unrefused b h = ground arith

answers-each :
    (body : PlatformSignCompleted) (r : IdentityRecord) (request : PlatformSignRequest)
    (lifetime : ℕ)
    → answers_request body r request lifetime ≡ true
    → (body.agent_did ≡ r.agent_did)
      × (body.service_did ≡ request.service_did)
      × (body.jti ≡ request.jti)
      × (body.expires_at.micros ≡ body.issued_at.micros + lifetime * 1_000_000)
unfolding answers_request
answers-each body r request lifetime h = (
  ground (arith, ==_iff body.agent_did r.agent_did),
  ground (arith, ==_iff body.service_did request.service_did),
  ground (arith, ==_iff body.jti request.jti),
  ground (arith, ==_iff body.expires_at.micros (body.issued_at.micros + lifetime * 1_000_000)),
)

claims-each :
    (token : Token) (c : AssertionClaims) (body : PlatformSignCompleted) (r : IdentityRecord)
    (request : PlatformSignRequest)
    → claims_agree token c body r request ≡ true
    → (c.iat ≡ timestamp body.issued_at)
      × (c.exp ≡ timestamp body.expires_at)
      × (c.jti ≡ request.jti)
unfolding claims_agree
claims-each token c body r request h = (
  ground (arith, ==_iff c.iat (timestamp body.issued_at)),
  ground (arith, ==_iff c.exp (timestamp body.expires_at)),
  ground (arith, ==_iff c.jti request.jti),
)

rethrown_ok :
    {S A : Type 0} (m : Exec S A) (s : S) {a : A} {t : S}
    → rethrown m s ≡ (ok a, t)
    → m s ≡ (ok a, t)
rethrown_ok {S} {A} m s {a} {t} h = go (m s) h
  where
    go :
        (x : Result A × S)
        → ◌≡◌ {A = Result A × S} (as_value_error x.0, x.1) (ok a, t)
        → x ≡ (ok a, t)
    go (r, u) e =
        let is : r ≡ ok a = as_value_error-ok r a (ap (λ y. y.0) e) in
        let same : u ≡ t = ap (λ y. y.1) e in λ i. (is i, same i)

module _ {W : Type 0} (settings : PlatformSettings) (ports : PlatformPorts W) (r : IdentityRecord)
    (request : PlatformSignRequest) (lifetime : ℕ) where
  read_assertion-Read :
      (body : PlatformSignCompleted) (now : ℕ) (token : Token) (c : AssertionClaims)
      (s t : PlatformState W)
      → read_assertion settings ports body r request now s ≡ (ok (token, c), t)
      → (key : String) × (after : W) × (ports.verification_key r s.world ≡ (ok key, after))
        × (verify_client_assertion ports.normalize_resource
              (expected r request.service_did request.op request.resource now)
              ports.jwt
              body.client_assertion
              key
              now
            ≡ ok c)
  unfolding read_assertion
  read_assertion-Read body now token c s t h =
      let result : String → Result AssertionClaims = λ key.
        verify_client_assertion ports.normalize_resource
          (expected r request.service_did request.op request.resource now) ports.jwt
          body.client_assertion key now in
      let last : Token → AssertionClaims → Exec (PlatformState W) (Token × AssertionClaims) =
        λ token' c'. pure (token', c') in
      let with_key : Token → String → Exec (PlatformState W) (Token × AssertionClaims) =
        λ token' key. lift (result key) >>= last token' in
      let with_token : Token → Exec (PlatformState W) (Token × AssertionClaims) =
        λ token'. on_world (ports.verification_key r) >>= with_key token' in
      let (token', u, read, h1) =
        bind_ok (lift (ports.decode_token body.client_assertion)) with_token s {b = (token, c)}
          {t = t} h in
      let (key, v, asked, h2) =
        bind_ok (on_world (ports.verification_key r)) (with_key token') u {b = (token, c)} {t = t}
          h1 in
      let (c', w, verified, h3) =
        bind_ok (lift (result key)) (last token') v {b = (token, c)} {t = t} h2 in
      let (same, _) = pure_ok (token', c') w {b = (token, c)} {t = t} h3 in
      let start : u ≡ s =
        (lift_ok (ports.decode_token body.client_assertion) s {x = token'} {t = u} read).1 in
      let has_key = (on_world_ok (ports.verification_key r) u {a = key} {t = v} asked).0 in
      (
        key,
        v.world,
        ap (λ x. ports.verification_key r x.world) (sym start) ∙ has_key,
        (lift_ok (result key) v {x = c'} {t = w} verified).0 ∙ ap (λ x. ok x.1) same,
      )

  validate_completed-Signed :
      (body : PlatformSignCompleted) (now : ℕ) (s t : PlatformState W)
      → validate_completed settings ports body r request lifetime now s ≡ (ok tt, t)
      → IsSigned ports r request lifetime body
  unfolding validate_completed
  validate_completed-Signed body now s t h =
      let reading : Exec (PlatformState W) (Token × AssertionClaims) =
        read_assertion settings ports body r request now in
      let last : Token × AssertionClaims → Exec (PlatformState W) (Unit {0}) = λ read.
        raise_if (not (claims_agree read.0 read.1 body r request))
          (value_error "AEP Platform signer returned mismatched assertion claims") in
      let (answers, h1) =
        guard_then (not (answers_request body r request lifetime))
          (value_error "AEP Platform signing handler response does not match the request")
          (rethrown reading >>= last) s {x = tt} {t = t} h in
      let (read, w, asked, h2) = bind_ok (rethrown reading) last s {b = tt} {t = t} h1 in
      let (agree, _) =
        guard_ok (not (claims_agree read.0 read.1 body r request))
          (value_error "AEP Platform signer returned mismatched assertion claims") w {x = tt}
          {t = t} h2 in
      let token : Token = read.0 in
      let c : AssertionClaims = read.1 in
      let (key, after, has_key, ok_claims) =
        read_assertion-Read body now token c s w (rethrown_ok reading s {a = read} {t = w} asked) in
      let (agent, service, named, lasts) =
        answers-each body r request lifetime
          (unrefused (answers_request body r request lifetime) answers) in
      let (issued, expires, claims_named) =
        claims-each token c body r request
          (unrefused (claims_agree token c body r request) agree) in
      record {
        is_agent = agent;
        is_service = service;
        is_named = named;
        lasts = lasts;
        claims = c;
        key = key;
        before = s.world;
        after = after;
        has_key = has_key;
        now = now;
        verified =
            verify_sound ports.normalize_resource
              (expected r request.service_did request.op request.resource now) ports.jwt
              body.client_assertion key now c ok_claims;
        issued = issued;
        expires = expires;
        claims_named = claims_named;
      }

  status-200 :
      (b : Bool) (s t : PlatformState W) (n : Exec (PlatformState W) (Unit {0})) (e : Exn)
      → (if not b then lift (raised e) else n) s ≡ (ok tt, t)
      → (b ≡ true) × (n s ≡ (ok tt, t))
  status-200 true s t n e h = (refl, h)
  status-200 false s t n e h =
      let k : ◌≡◌ {A = Result Unit} (raised e) (ok tt) = ap (λ p. p.0) h in cc

  pub validate-Signed :
      (x : PlatformResult PlatformSignResponse) (body : PlatformSignCompleted) (now : DateTime)
      (s t : PlatformState W)
      → validate_sign_result settings ports x r request lifetime now s ≡ (ok tt, t)
      → x.body ≡ some (completed body)
      → (x.status ≡ 200) × IsSigned ports r request lifetime body
  unfolding validate_sign_result
  validate-Signed x body now s t h b =
      let rest : Exec (PlatformState W) (Unit {0}) =
        validate_body settings ports x.status x.body r request lifetime (timestamp now) in
      let typed : Bool =
        not (media_type_essence (codes x.content_type) == codes media_type)
        || (elim x.problem [ none ↦ false | some p ↦ true ]) in
      let retry : Bool = any (λ h. lower (codes h.0) == codes "retry-after") x.headers in
      let no_retry : Exec (PlatformState W) (Unit {0}) =
        raise_if retry (value_error "AEP Platform signing response must not include Retry-After")
        >> rest in
      let (_, h1) =
        guard_then typed (value_error "AEP Platform signing response must use application/aep+json")
          no_retry s {x = tt} {t = t} h in
      let (_, h2) =
        guard_then retry (value_error "AEP Platform signing response must not include Retry-After")
          rest s {x = tt} {t = t} h1 in
      let h3 : validate_body settings ports x.status (some (completed body)) r request lifetime
            (timestamp now) s
          ≡ (ok tt, t) =
        sym
          (ap (λ y. validate_body settings ports x.status y r request lifetime (timestamp now) s) b)
        ∙ h2 in
      let (status, h4) =
        status-200 (x.status == 200) s t
          (validate_completed settings ports body r request lifetime (timestamp now))
          (value_error "AEP Platform signing handler returned an invalid response") h3 in
      (eq_of_beq x.status 200 status, validate_completed-Signed body (timestamp now) s t h4)
