-- ===== src/Core/Assertions/Examples.antt =====
-- The theorems about client assertions and endpoint bases, on concrete data.
use aep_python.Common.{
  ◌≡◌, refl, ◌↔◌, ◌⊎◌, true, none, some, [], ◌∷◌, ◌++◌, nat_eq, string_eq, pair_eq, list_eq,
}
use aep_python.Common.Exec.{ok}
use aep_python.Common.Text.{codes}
use aep_python.Service.Settings.{AssertionOperation, AssertionClaims}
use aep_python.Platform.Types.{eddsa}
use aep_python.Core.Assertions.{Jwt, absent, VerifyClientAssertionOptions, verify_client_assertion}
use aep_python.Core.Assertions.Rules.{IsVerified}
use aep_python.Core.Assertions.Verified.{verify_iff}
use aep_python.Core.Http.Paths.{is_endpoint_path, ends_with, split, normalize_endpoint_base}
use aep_python.Core.Http.Paths.Base.{normalize_endpoint_base-Normal}

abbrev claims : AssertionClaims
claims = record {
  aud = "did:web:s";
  exp = 160;
  iat = 100;
  iss = "did:web:a";
  jti = "j";
  op = AssertionOperation.enroll;
  resource = none;
  sub = "did:web:a";
}

abbrev jwt : Jwt
jwt = record {
  header = λ text. some (record { alg = some "EdDSA"; kid = some "did:web:a#k"; typ = some "JWT" });
  decode = λ text key algorithms. some (record { claims = some claims; nbf = absent });
  encode = λ c key algorithm kid. "token";
}

abbrev options : VerifyClientAssertionOptions
options = record {
  algorithms = eddsa ∷ [];
  audience = some "did:web:s";
  issuer = none;
  subject = none;
  operation = none;
  resource = none;
  current_time = some 120;
  clock_tolerance_seconds = 30;
}

verify_iff_example :
    (verify_client_assertion ok options jwt "token" "key" 0 ≡ ok claims)
    ↔ IsVerified ok options jwt "token" "key" 120 claims
verify_iff_example = verify_iff ok options jwt "token" "key" 0 claims

normalize_endpoint_base-Normal_example :
    (is_endpoint_path (codes "/aep/") ≡ true)
    × (ends_with b'/' (codes "/aep/") ≡ true)
    × ((codes "/aep/" ≡ codes "/aep") ⊎ (codes "/aep/" ≡ codes "/aep" ++ (b'/' ∷ [])))
    × (normalize_endpoint_base (codes "/aep/") ≡ ok (codes "/aep/"))
unfolding normalize_endpoint_base is_endpoint_path split
normalize_endpoint_base-Normal_example =
    normalize_endpoint_base-Normal (codes "/aep") (codes "/aep/") refl
