-- ===== src/Platform/Examples/Data.antt =====
-- One identity, and the ports of a Platform that allows everything.
use aep_python.Common.{true, none, some, [], ◌∷◌, nat_eq, string_eq, pair_eq, list_eq}
use aep_python.Common.Exec.{ok, pure}
use aep_python.Core.Json.{Json}
use aep_python.Core.Assertions.{Jwt, absent}
use aep_python.Service.Time.{DateTime}
use aep_python.Service.Settings.{AssertionOperation, AssertionClaims}
use aep_python.Platform.Types.{active, eddsa, IdentityRecord, RequestContext}
use aep_python.Platform.Identities.{IdentityStore}
use aep_python.Platform.Settings.{
  PlatformSettings, PlatformPorts, PlatformState, PlatformSignRequest, PlatformVerificationRequest,
}

abbrev pub noon : DateTime
noon = record { micros = 43_200_000_000; aware = true }

abbrev pub agent : IdentityRecord
agent = record {
  agent_did = "did:web:a";
  agent_did_id = "a";
  agent_identity_id = "pai_a";
  created_at = noon;
  did_document_url = "https://p/a";
  key_id = "did:web:a";
  principal = "ann";
  service_did = "did:web:s";
  signing_algorithms = eddsa ∷ [];
  status = active;
  updated_at = noon;
}

abbrev pub claims : AssertionClaims
claims = record {
  aud = "did:web:s";
  exp = 43_260;
  iat = 43_200;
  iss = "did:web:a";
  jti = "j";
  op = AssertionOperation.enroll;
  resource = none;
  sub = "did:web:a";
}

abbrev pub jwt : Jwt
jwt = record {
  header = λ text. some (record { alg = some "EdDSA"; kid = some "did:web:a"; typ = some "JWT" });
  decode = λ text key algorithms. some (record { claims = some claims; nbf = absent });
  encode = λ c key algorithm kid. "token";
}

abbrev pub ports : PlatformPorts Unit
ports = record {
  clock = pure noon;
  authorize = λ request context. pure true;
  resolve_service = λ did. pure true;
  create_key = λ r. pure tt;
  did_verification_method = λ r. pure (record {
    controller = "did:web:a";
    id = "did:web:a";
    public_key_jwk = ("kty", Json.text "OKP") ∷ [];
    type = "JsonWebKey2020";
  });
  sign_claims = λ r c. pure "token";
  verification_key = λ r. pure "key";
  can_sign = λ r context. pure true;
  can_verify = λ r context. pure true;
  can_transition = λ r status context. pure true;
  sign_handler = none;
  identifier = pure "a";
  agent_did_id_generator = pure "a";
  agent_did = λ id. ok "did:web:a";
  did_url = λ id. ok "https://p/a";
  jwt = jwt;
  decode_token = λ text.
      ok (record { kid = some "did:web:a"; iss = some "did:web:a"; sub = some "did:web:a" });
  normalize_resource = ok;
  claims_model = ok;
  identity_model = ok;
}

abbrev pub settings : PlatformSettings
settings = record {
  default_lifetime = 60;
  maximum_lifetime = 300;
  hosted_verification = true;
  signing_algorithms = eddsa ∷ [];
}

abbrev pub context : RequestContext
context = record {
  principal = "ann";
  idempotency_key = some "k";
  authorization = none;
  request_id = none;
  current_time = none;
}

abbrev pub stored : IdentityStore
stored = record {
  pending = [];
  records = ("pai_a", agent) ∷ [];
  by_agent_did = ("did:web:a", "pai_a") ∷ [];
  by_agent_did_id = ("a", "pai_a") ∷ [];
  by_scope = (("ann", "did:web:s"), "pai_a") ∷ [];
}

abbrev pub state : PlatformState Unit
state = record { world = tt; identities = stored; replay = [] }

abbrev pub sign_request : PlatformSignRequest
sign_request = record {
  jti = "j";
  op = AssertionOperation.enroll;
  service_did = "did:web:s";
  lifetime_seconds = none;
  platform_context = none;
  resource = none;
}

abbrev pub verify_request : PlatformVerificationRequest
verify_request = record {
  client_assertion = "token";
  op = AssertionOperation.enroll;
  service_did = "did:web:s";
  resource = none;
}
