-- ===== src/Service/Credentials/Handler.antt =====
-- `_StoredCredentialHandler` of service/credentials.py, on the memory store, and the configured
-- header names of API keys.
use aep_python.Common.{
  ℕ, String, Bool, not, ◌&&◌, ◌||◌, Option, none, some, List, [], ◌∷◌, ◌==◌, nat_eq, string_eq,
  pair_eq, list_eq, member, nonempty, leb, if◌then◌else◌, all, is_empty,
}
use aep_python.Common.Exec.{
  value_error, Result, ok, raised, blocked, Exec, pure, lift, ◌>>=◌, raise_if,
}
use aep_python.Common.Text.{Text, codes, lower}
use aep_python.Core.Json.{Json, Items}
use aep_python.Service.Time.{DateTime}
use aep_python.Service.Settings.{GrantRequest, RevokeRequest, CredentialContext}
use aep_python.Service.Credentials.{
  BuiltInCredential, response_of, CredentialMatch, CredentialAuthenticationInput, CredentialPorts,
  require_aware_time, require_encodable_basic, validate_issued_config, validate_built_in_credential,
}
use aep_python.Service.Credentials.Store.{
  CredentialStore, save_credential, authenticate_credential, has_credential_presentation,
  revoke_credential, revoke_grant_type,
}

-- a code point of `HTTP_FIELD_NAME_PATTERN`
unfoldable pub field_name_code : ℕ → Bool
field_name_code c =
    (leb b'0' c && leb c b'9')
    || ((leb b'A' c && leb c b'Z')
        || ((leb b'a' c && leb c b'z') || member c (codes "!#$%&'*+.^_`|~-")))

-- the loop of `_configured_api_key_headers`, with the names so far
unfoldable pub header_names : List Text → Items → Result (List Text)
header_names names Items.nil = ok names
header_names names (Items.cons (Json.text item) items) =
    let name = lower (codes item) in
    let rest = header_names (name ∷ names) items in
    if is_empty name || not (all field_name_code (codes item))
    then raised
        (value_error "AEP API-key header_names configuration contains an invalid HTTP field name")
    else if member name names
    then raised
        (value_error "AEP API-key header_names configuration contains a duplicate field name")
    else rest
header_names names (Items.cons _ items) =
    raised
      (value_error "AEP API-key header_names configuration contains an invalid HTTP field name")

-- `_configured_api_key_headers` of the member `header_names`
unfoldable pub configured_api_key_headers : Option Json → Result (Option (List Text))
configured_api_key_headers none = ok none
configured_api_key_headers (some (Json.array items)) = elim (header_names [] items) [
  | ok names ↦ ok (some names)
  | raised e ↦ raised e
  | blocked ↦ blocked
]
configured_api_key_headers (some _) =
    raised (value_error "AEP API-key header_names configuration is invalid")

-- only an API key has its configuration looked at
unfoldable pub validate_issued_credential_config :
    BuiltInCredential → Option Json → Result (Unit {0})
validate_issued_credential_config (BuiltInCredential.api_key_response r key header) config =
    elim (configured_api_key_headers config) [
      | ok names ↦ validate_issued_config (BuiltInCredential.api_key_response r key header) names
      | raised e ↦ raised e
      | blocked ↦ blocked
    ]
validate_issued_credential_config _ config = ok tt

pub data AuthenticationKind : Type 0 where
  aep_jwt session_credential : AuthenticationKind

pub record AuthenticatedPrincipal : Type 0 where
  pub agent_did : String
  pub authentication_kind : AuthenticationKind
  pub authentication_method : String
  pub credential_id : Option String
  pub grant_type : Option String
  pub scopes : List String

unfoldable pub revoke : String → RevokeRequest → CredentialContext → Exec CredentialStore (Unit {0})
revoke handled request context s = elim request.credential_id [
  | some credential_id ↦
      revoke_credential context.agent_did handled credential_id context.current_time s
  | none ↦ revoke_grant_type context.agent_did handled context.current_time s
]

module _ {W : Type 0} (ports : CredentialPorts W) (handled : String) (config : Option Json) where
  abbrev pub on_outside : {A : Type 0} → Exec W A → Exec (W × CredentialStore) A
  on_outside m (w, s) = let (r, w') = m w in (r, (w', s))

  abbrev pub on_credentials : {A : Type 0} → Exec CredentialStore A → Exec (W × CredentialStore) A
  on_credentials m (w, s) = let (r, s') = m s in (r, (w, s'))

  -- `issue` is the application's issuer
  unfoldable pub grant :
      (GrantRequest → CredentialContext → Exec W BuiltInCredential)
      → GrantRequest
      → CredentialContext
      → Exec (W × CredentialStore) String
  grant issue request context = do
    _ ← lift (require_aware_time context.current_time)
    credential ← on_outside (issue request context)
    parsed ← lift (validate_built_in_credential ports handled credential)
    _ ← lift (validate_issued_credential_config parsed config)
    _ ← lift (require_encodable_basic parsed)
    expires_at ← lift (ports.parse_expiry (response_of parsed).expires_at)
    _ ←
        raise_if (leb expires_at.micros context.current_time.micros)
          (value_error "AEP issued credential must expire after issuance")
    _ ← save_credential ports (record {
      agent_did = context.agent_did;
      created_at = context.current_time;
      credential = parsed;
      credential_id = (response_of parsed).credential_id;
      expires_at = expires_at;
      grant_type = handled;
    })
    pure (ports.dumps parsed)

  -- the check of what the store answers
  unfoldable pub principal_of :
      DateTime → Option CredentialMatch → Result (Option AuthenticatedPrincipal)
  principal_of now none = ok none
  principal_of now (some found) =
      if not (nonempty found.agent_did)
        || (not (nonempty found.credential_id)
            || (leb found.expires_at.micros now.micros || not (found.grant_type == handled)))
      then raised (value_error "AEP credential store returned an invalid match")
      else ok (
          some (record {
            agent_did = found.agent_did;
            authentication_kind = AuthenticationKind.session_credential;
            authentication_method = handled;
            credential_id = some found.credential_id;
            grant_type = some handled;
            scopes = found.scopes;
          }))

  unfoldable pub authenticate :
      CredentialAuthenticationInput → CredentialStore → Result (Option AuthenticatedPrincipal)
  authenticate request s = elim (authenticate_credential ports handled request s) [
    | ok found ↦ principal_of request.current_time found
    | raised e ↦ raised e
    | blocked ↦ blocked
  ]

  unfoldable pub has_presentation : CredentialAuthenticationInput → CredentialStore → Result Bool
  has_presentation request s = has_credential_presentation handled request s
