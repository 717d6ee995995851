-- ===== src/Service/Credentials.antt =====
-- service/credentials.py: the built-in credentials, and what the memory store keeps of one. Header
-- names, header values and secrets are texts over code points.
pub mod Store
pub mod Handler
pub mod Entries
pub mod Calls
pub mod Revoked
mod Examples
use aep_python.Common.{
  String, Bool, true, false, not, ◌||◌, Option, none, some, List, [], ◌∷◌, ◌++◌, ◌==◌, nat_eq,
  string_eq, pair_eq, list_eq, member, nonempty, ltb, leb, if◌then◌else◌, all, or_empty,
}
use aep_python.Common.Exec.{◌>>=◌, Exn, value_error, Result, ok, raised, Exec, pure, lift, raise_if}
use aep_python.Common.Dict.{Dict}
use aep_python.Common.Text.{Text, codes, lower}
use aep_python.Service.Time.{DateTime}

-- `CredentialResponse` of core/models.py, the members that the store reads
pub record CredentialResponse : Type 0 where
  pub credential_id : String
  pub expires_at : String
  pub scopes : Option (List String)

pub data BuiltInCredential : Type 0 where
  -- the access token
  oauth_bearer_response : CredentialResponse → Text → BuiltInCredential
  -- the key and its header
  api_key_response : CredentialResponse → Text → Text → BuiltInCredential
  -- the user name and the password
  basic_response : CredentialResponse → Text → Text → BuiltInCredential

abbrev pub response_of : BuiltInCredential → CredentialResponse
response_of (oauth_bearer_response r token) = r
response_of (api_key_response r key header) = r
response_of (basic_response r username password) = r

pub record ServiceCredentialRecord : Type 0 where
  pub agent_did : String
  pub created_at : DateTime
  pub credential : BuiltInCredential
  pub credential_id : String
  pub expires_at : DateTime
  pub grant_type : String

pub record CredentialMatch : Type 0 where
  pub agent_did : String
  pub credential_id : String
  pub expires_at : DateTime
  pub grant_type : String
  pub scopes : List String

pub record CredentialAuthenticationInput : Type 0 where
  pub headers : Dict Text (List Text)
  pub method : String
  pub current_time : DateTime
  pub url : String

pub record MemoryCredentialRecord : Type 0 where
  pub agent_did : String
  pub credential_id : String
  pub expires_at : DateTime
  pub grant_type : String
  pub header : Text
  pub scopes : List String
  pub salt : Text
  pub username : Text
  pub verifier : Text
  pub revoked_at : Option DateTime

-- what hashlib, secrets, base64, json and pydantic do, over a state `W` of the outside world
pub record CredentialPorts (W : Type 0) : Type 0 where
  -- `_credential_digest`: scrypt for a password, else SHA-256
  pub digest : Text → Text → Bool → Text
  -- `secrets.token_bytes(16)`
  pub token_bytes : Exec W Text
  pub b64encode : Text → Text
  -- `b64decode(…, validate=True).decode("utf-8")`
  pub b64decode : Text → Option Text
  -- `model.model_validate(credential.to_wire())`
  pub model_validate : BuiltInCredential → Result BuiltInCredential
  -- `datetime.fromisoformat` behind the pattern of RFC 3339
  pub parse_expiry : String → Result DateTime
  -- `json.dumps(parsed.to_wire(), …)`
  pub dumps : BuiltInCredential → String

-- `_require_aware_time`
abbrev pub require_aware_time : DateTime → Result (Unit {0})
require_aware_time t =
    if t.aware then ok tt else raised (value_error "AEP credential time must contain a UTC offset")

-- the credential is of the class that belongs to the grant type
unfoldable pub is_model_of : String → BuiltInCredential → Bool
is_model_of grant_type (oauth_bearer_response r token) = grant_type == "oauth-bearer"
is_model_of grant_type (api_key_response r key header) = grant_type == "api-key"
is_model_of grant_type (basic_response r username password) = grant_type == "basic"

-- `isinstance(credential, BasicGrantResponse)`
abbrev pub is_basic : BuiltInCredential → Bool
is_basic (basic_response r username password) = true
is_basic _ = false

-- the field under which a client presents the credential
unfoldable pub header_of : BuiltInCredential → Text
header_of (api_key_response r key header) = lower header
header_of _ = codes "authorization"

unfoldable pub username_of : BuiltInCredential → Text
username_of (basic_response r username password) = username
username_of _ = []

-- `_require_encodable_basic`
unfoldable pub require_encodable_basic : BuiltInCredential → Result (Unit {0})
require_encodable_basic (basic_response r username password) =
    if not (all (λ c. ltb c 128) username) || not (all (λ c. ltb c 128) password)
    then raised (value_error "AEP issued Basic credentials must be encodable as US-ASCII")
    else ok tt
require_encodable_basic _ = ok tt

-- `_validate_issued_credential_config`; the configured names are those of
-- `_configured_api_key_headers`
unfoldable pub validate_issued_config : BuiltInCredential → Option (List Text) → Result (Unit {0})
validate_issued_config (api_key_response r key header) (some names) =
    if member (lower header) names
    then ok tt
    else raised (value_error "AEP issued API-key header is not advertised by the Service")
validate_issued_config _ _ = ok tt

module _ {W : Type 0} (ports : CredentialPorts W) where
  -- `_credential_secret`
  unfoldable pub credential_secret : BuiltInCredential → Text
  credential_secret (oauth_bearer_response r token) = token
  credential_secret (api_key_response r key header) = key
  credential_secret (basic_response r username password) =
      ports.b64encode (username ++ (b':' ∷ password))

  -- `_validate_built_in_credential`
  unfoldable pub validate_built_in_credential :
      String → BuiltInCredential → Result BuiltInCredential
  validate_built_in_credential grant_type credential =
      if is_model_of grant_type credential
      then ports.model_validate credential
      else raised (value_error "AEP credential issuer returned the wrong built-in credential type")

  abbrev pub mismatched : Exn
  mismatched = value_error "AEP credential record metadata does not match its credential"

  -- `_memory_credential_record`
  unfoldable pub memory_credential_record : ServiceCredentialRecord → Exec W MemoryCredentialRecord
  memory_credential_record v = do
    _ ← lift (require_aware_time v.created_at)
    _ ← lift (require_aware_time v.expires_at)
    _ ←
        raise_if
          (not (nonempty v.agent_did)
            || (not (nonempty v.credential_id)
                || (leb v.expires_at.micros v.created_at.micros || not (nonempty v.grant_type))))
          (value_error "AEP credential store received an invalid record")
    credential ← lift (validate_built_in_credential v.grant_type v.credential)
    _ ← raise_if (not ((response_of credential).credential_id == v.credential_id)) mismatched
    expiry ← lift (ports.parse_expiry (response_of credential).expires_at)
    _ ← raise_if (not (expiry.micros == v.expires_at.micros)) mismatched
    salt ← ports.token_bytes
    pure (record {
      agent_did = v.agent_did;
      credential_id = v.credential_id;
      expires_at = v.expires_at;
      grant_type = v.grant_type;
      header = header_of credential;
      scopes = or_empty (response_of credential).scopes;
      salt = salt;
      username = username_of credential;
      verifier = ports.digest (credential_secret credential) salt (is_basic credential);
      revoked_at = none;
    })
