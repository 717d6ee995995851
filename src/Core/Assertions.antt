-- ===== src/Core/Assertions.antt =====
-- `verify_client_assertion` and `sign_client_assertion` of core/assertions.py, over the jwt library.
pub mod Rules
pub mod Verified
mod Examples
use aep_python.Common.{
  ℕ, ◌+◌, String, Bool, true, false, not, ◌&&◌, ◌||◌, Option, none, some, List, map, ◌==◌, nat_eq,
  string_eq, pair_eq, list_eq, member, nonempty, ltb, leb, if◌then◌else◌, or_else,
}
use aep_python.Common.Exec.{
  value_error, assertion_error, authorization_error, key_error, Result, ok, raised, blocked,
}
use aep_python.Common.Dict.{has}
use aep_python.Service.Settings.{AssertionOperation, operation_beq, AssertionClaims, JoseHeader}
use aep_python.Service.Assertions.{partition_front}
use aep_python.Platform.Types.{SigningAlgorithm, eddsa, es256}

abbrev pub algorithm_text : SigningAlgorithm → String
algorithm_text eddsa = "EdDSA"
algorithm_text es256 = "ES256"

-- the member `nbf` of a payload; a number stands for the first whole second that is not before it
pub data NotBefore : Type 0 where
  absent invalid : NotBefore
  at : ℕ → NotBefore

pub record Payload : Type 0 where
  -- `ClientAssertionClaims.model_validate_json` of the payload, `none` where it raises
  pub claims : Option AssertionClaims
  pub nbf : NotBefore

-- what the jwt and json libraries give
pub record Jwt : Type 0 where
  -- `get_unverified_header`, `none` where it raises or holds a number that is not finite
  pub header : String → Option JoseHeader
  -- `decode` with a key and the allowed algorithms: the signature is checked, the claims are there
  pub decode : String → String → List String → Option Payload
  -- `encode` with a key, an algorithm and a `kid`
  pub encode : AssertionClaims → String → SigningAlgorithm → String → String

pub record VerifyClientAssertionOptions : Type 0 where
  pub algorithms : List SigningAlgorithm
  pub audience : Option String
  pub issuer : Option String
  pub subject : Option String
  pub operation : Option AssertionOperation
  pub resource : Option String
  pub current_time : Option ℕ
  pub clock_tolerance_seconds : ℕ

abbrev pub refused : {A : Type 0} → String → Result A
refused message = raised (assertion_error message)

-- `wanted is not None and wanted != actual`
abbrev pub differs : Option String → String → Bool
differs none actual = false
differs (some wanted) actual = not (wanted == actual)

abbrev pub other_operation : Option AssertionOperation → AssertionOperation → Bool
other_operation none actual = false
other_operation (some wanted) actual = not (operation_beq wanted actual)

-- `_require_key_binding`, as a test
unfoldable pub key_bound : String → AssertionClaims → Bool
key_bound key_id c = partition_front b'#' key_id == c.iss && c.iss == c.sub

unfoldable pub premature : NotBefore → ℕ → Bool
premature absent limit = false
premature invalid limit = true
premature (at t) limit = ltb limit t

-- the text of a key identifier, where the header has one and is of type JWT
unfoldable pub key_id_of : JoseHeader → Option String
key_id_of h = elim h.typ [ none ↦ none | some typ ↦ if typ == "JWT" then h.kid else none ]

abbrev pub allowed_algorithm : Option String → List String → Bool
allowed_algorithm none allowed = false
allowed_algorithm (some a) allowed = member a allowed

-- both resources normalised, or an exception of one of them; `normalize` is `_normalize_resource_uri`
unfoldable pub resource_matches :
    (String → Result String) → Option String → Option String → Result Bool
resource_matches normalize none claimed = ok true
resource_matches normalize (some wanted) none = ok false
resource_matches normalize (some wanted) (some claimed) = elim (normalize claimed) [
  | raised e ↦ raised e
  | blocked ↦ blocked
  | ok a ↦ elim (normalize wanted) [ raised e ↦ raised e | blocked ↦ blocked | ok b ↦ ok (a == b) ]
]

-- `except ValueError` round the comparison
abbrev pub resource_checked : Result Bool → AssertionClaims → Result AssertionClaims
resource_checked (ok true) c = ok c
resource_checked (ok false) c = refused "AEP client assertion resource does not match."
resource_checked (raised (value_error m)) c = refused "AEP client assertion resource is invalid."
resource_checked (raised (assertion_error m)) c = raised (assertion_error m)
resource_checked (raised (authorization_error m d)) c = raised (authorization_error m d)
resource_checked (raised key_error) c = raised key_error
resource_checked blocked c = blocked

module _ (normalize : String → Result String) (options : VerifyClientAssertionOptions) where
  -- the checks of the decoded claims, in their order; `now` is the current second
  unfoldable pub check_claims : String → NotBefore → AssertionClaims → ℕ → Result AssertionClaims
  check_claims key_id nbf c now =
      if not (key_bound key_id c)
      then refused "AEP client assertion kid, iss, and sub must identify one Agent DID."
      else if premature nbf (now + options.clock_tolerance_seconds)
      then refused "AEP client assertion is not yet valid or has an invalid nbf."
      else if ltb (now + options.clock_tolerance_seconds) c.iat
          || leb (c.exp + options.clock_tolerance_seconds) now
      then refused "AEP client assertion is outside its valid time window."
      else if differs options.audience c.aud
      then refused "AEP client assertion audience does not match."
      else if differs options.issuer c.iss
      then refused "AEP client assertion issuer does not match."
      else if differs options.subject c.sub
      then refused "AEP client assertion subject does not match."
      else if other_operation options.operation c.op
      then refused "AEP client assertion operation does not match."
      else resource_checked (resource_matches normalize options.resource c.resource) c

  abbrev pub decoded : String → Option Payload → ℕ → Result AssertionClaims
  decoded key_id none now = refused "Invalid AEP client assertion."
  decoded key_id (some p) now = elim p.claims [
    | none ↦ refused "Invalid AEP client assertion."
    | some c ↦ check_claims key_id p.nbf c now
  ]

  -- `time` is `int(time.time())`, which only counts where the options name no time
  unfoldable pub verify_client_assertion : Jwt → String → String → ℕ → Result AssertionClaims
  verify_client_assertion jwt assertion key time = elim (jwt.header assertion) [
    | none ↦ refused "Invalid AEP client assertion."
    | some h ↦ elim (key_id_of h) [
      | none ↦ refused "Invalid AEP client assertion JOSE header."
      | some key_id ↦
          if not (allowed_algorithm h.alg (map algorithm_text options.algorithms))
          then refused "AEP client assertion signing algorithm is not allowed."
          else decoded key_id (jwt.decode assertion key (map algorithm_text options.algorithms))
              (or_else options.current_time time)
    ]
  ]

-- `sign_client_assertion` of claims that pass their own validation
unfoldable pub sign_client_assertion :
    Jwt → AssertionClaims → String → SigningAlgorithm → Option String → Result String
sign_client_assertion jwt c key algorithm key_id =
    let kid = elim key_id as (λ _. String) [
      | none ↦ c.iss
      | some k ↦ if nonempty k then k else c.iss
    ] in
    if not (key_bound kid c)
    then refused "AEP client assertion kid, iss, and sub must identify one Agent DID."
    else ok (jwt.encode c key algorithm kid)
