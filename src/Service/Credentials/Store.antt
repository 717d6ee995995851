-- ===== src/Service/Credentials/Store.antt =====
-- `MemoryServiceCredentialStore` of service/credentials.py. Each method holds the lock while it
-- reads or writes the records.
use aep_python.Common.{
  String, Bool, true, false, not, ◌&&◌, Option, none, some, List, [], ◌∷◌, ◌++◌, map, ◌==◌, nat_eq,
  string_eq, pair_eq, list_eq, member, ltb, if◌then◌else◌, is_none, any, is_empty, or_empty,
}
use aep_python.Common.Exec.{
  value_error, assertion_error, authorization_error, key_error, Result, ok, raised, blocked, Exec,
}
use aep_python.Common.Dict.{Dict, get, has, put}
use aep_python.Common.Text.{Text, codes, before}
use aep_python.Core.Http.{
  AuthorizationCarrier, AuthorizationScheme, Presentation, parse_authorization,
}
use aep_python.Service.Time.{DateTime}
use aep_python.Service.Credentials.{
  BuiltInCredential, ServiceCredentialRecord, CredentialMatch, CredentialAuthenticationInput,
  MemoryCredentialRecord, CredentialPorts, credential_secret, memory_credential_record,
}

abbrev pub CredentialStore : Type 0
CredentialStore = Dict String MemoryCredentialRecord

abbrev pub scheme_beq : AuthorizationScheme → AuthorizationScheme → Bool
scheme_beq AuthorizationScheme.aep AuthorizationScheme.aep = true
scheme_beq AuthorizationScheme.bearer AuthorizationScheme.bearer = true
scheme_beq AuthorizationScheme.basic AuthorizationScheme.basic = true
scheme_beq _ _ = false

-- the header names of the API keys in the store, without repetition
unfoldable pub key_headers : String → CredentialStore → List Text
key_headers grant_type [] = []
key_headers grant_type ((id, r) ∷ s) =
    let rest = key_headers grant_type s in
    if r.grant_type == grant_type && not (member r.header rest) then r.header ∷ rest else rest

unfoldable pub presented_under : Dict Text (List Text) → List Text → List (Text × Text)
presented_under headers [] = []
presented_under headers (name ∷ names) =
    map (λ value. (name, value)) (or_empty (get name headers)) ++ presented_under headers names

-- the body of the loop over the values: another exception than the parser's own is not caught
abbrev pub with_value :
    AuthorizationScheme
    → Result Presentation
    → Result (List (Text × Text))
    → Result (List (Text × Text))
with_value expected (ok p) (ok rest) =
    ok
      (if scheme_beq p.scheme expected then (codes "authorization", p.credentials) ∷ rest else rest)
with_value expected (ok p) (raised e) = raised e
with_value expected (ok p) blocked = blocked
with_value expected (raised (authorization_error m c)) rest = rest
with_value expected (raised (value_error m)) rest = raised (value_error m)
with_value expected (raised (assertion_error m)) rest = raised (assertion_error m)
with_value expected (raised key_error) rest = raised key_error
with_value expected blocked rest = blocked

unfoldable pub parsed_values :
    AuthorizationScheme → AuthorizationCarrier → List Text → Result (List (Text × Text))
parsed_values expected carrier [] = ok []
parsed_values expected carrier (value ∷ values) =
    with_value expected (parse_authorization value carrier) (parsed_values expected carrier values)

abbrev pub joined :
    Result (List (Text × Text)) → Result (List (Text × Text)) → Result (List (Text × Text))
joined (ok xs) (ok ys) = ok (xs ++ ys)
joined (ok xs) r = r
joined r _ = r

-- `_credential_presentations`; Python's set of names has no order of its own
unfoldable pub credential_presentations :
    String → Dict Text (List Text) → CredentialStore → Result (List (Text × Text))
credential_presentations grant_type headers records =
    if grant_type == "api-key"
    then ok (presented_under headers (key_headers grant_type records))
    else let expected =
        if grant_type == "basic" then AuthorizationScheme.basic else AuthorizationScheme.bearer in
      joined
        (parsed_values expected AuthorizationCarrier.standard
          (or_empty (get (codes "authorization") headers)))
        (parsed_values expected AuthorizationCarrier.dedicated
          (or_empty (get (codes "aep-authorization") headers)))

module _ {W : Type 0} (ports : CredentialPorts W) where
  -- an issued credential with the same secret
  unfoldable pub same_secret :
      BuiltInCredential → MemoryCredentialRecord → MemoryCredentialRecord → Bool
  same_secret credential stored existing =
      existing.grant_type == stored.grant_type
      && (existing.header == stored.header
          && (existing.username == stored.username
              && existing.verifier
                == ports.digest (credential_secret ports credential) existing.salt
                    (stored.grant_type == "basic")))

  -- the region under the lock
  unfoldable pub insert_record :
      ServiceCredentialRecord → MemoryCredentialRecord → Exec CredentialStore (Unit {0})
  insert_record v stored s =
      if has v.credential_id s
      then (raised (value_error "AEP credential identifier has already been issued"), s)
      else if any (λ entry. same_secret v.credential stored entry.1) s
      then (raised (value_error "AEP credential secret has already been issued"), s)
      else (ok tt, put v.credential_id stored s)

  abbrev pub inserted :
      ServiceCredentialRecord
      → Result MemoryCredentialRecord × W
      → CredentialStore
      → Result (Unit {0}) × (W × CredentialStore)
  inserted v (ok stored, w) s = let (r, s') = insert_record v stored s in (r, (w, s'))
  inserted v (raised e, w) s = (raised e, (w, s))
  inserted v (blocked, w) s = (blocked, (w, s))

  unfoldable pub save_credential : ServiceCredentialRecord → Exec (W × CredentialStore) (Unit {0})
  save_credential v (w, s) = inserted v (memory_credential_record ports v w) s

  -- the test of the loop in `authenticate_credential`
  unfoldable pub matches : String → DateTime → Text → Text → Text → MemoryCredentialRecord → Bool
  matches grant_type now header value username r =
      r.grant_type == grant_type
      && (r.header == header
          && (r.username == username
              && (is_none r.revoked_at
                  && (ltb now.micros r.expires_at.micros
                      && r.verifier == ports.digest value r.salt (grant_type == "basic")))))

  abbrev pub match_of : MemoryCredentialRecord → CredentialMatch
  match_of r = record {
    agent_did = r.agent_did;
    credential_id = r.credential_id;
    expires_at = r.expires_at;
    grant_type = r.grant_type;
    scopes = r.scopes;
  }

  unfoldable pub first_match :
      String → DateTime → Text → Text → Text → CredentialStore → Option CredentialMatch
  first_match grant_type now header value username [] = none
  first_match grant_type now header value username ((id, r) ∷ s) =
      if matches grant_type now header value username r
      then some (match_of r)
      else first_match grant_type now header value username s

  -- the user name of the presented value, `none` where it does not decode
  unfoldable pub presented_username : String → Text → Option Text
  presented_username grant_type value =
      if grant_type == "basic"
      then elim (ports.b64decode value) [ none ↦ none | some pair ↦ some (before b':' pair) ]
      else some []

  unfoldable pub match_one :
      String → DateTime → CredentialStore → List (Text × Text) → Option CredentialMatch
  match_one grant_type now s ((header, value) ∷ []) = elim (presented_username grant_type value) [
    | none ↦ none
    | some username ↦ first_match grant_type now header value username s
  ]
  match_one grant_type now s _ = none

  unfoldable pub authenticate_credential :
      String → CredentialAuthenticationInput → CredentialStore → Result (Option CredentialMatch)
  authenticate_credential grant_type request s =
      elim (credential_presentations grant_type request.headers s) [
        | ok presentations ↦ ok (match_one grant_type request.current_time s presentations)
        | raised e ↦ raised e
        | blocked ↦ blocked
      ]

unfoldable pub has_credential_presentation :
    String → CredentialAuthenticationInput → CredentialStore → Result Bool
has_credential_presentation grant_type request s =
    elim (credential_presentations grant_type request.headers s) [
      | ok presentations ↦ ok (not (is_empty presentations))
      | raised e ↦ raised e
      | blocked ↦ blocked
    ]

-- `replace(record, revoked_at=revoked_at)`
abbrev pub revoked_record : DateTime → MemoryCredentialRecord → MemoryCredentialRecord
revoked_record revoked_at r = record r { revoked_at = some revoked_at }

abbrev pub belongs : String → String → MemoryCredentialRecord → Bool
belongs agent_did grant_type r = r.agent_did == agent_did && r.grant_type == grant_type

unfoldable pub revoke_credential :
    String → String → String → DateTime → Exec CredentialStore (Unit {0})
revoke_credential agent_did grant_type credential_id revoked_at s =
    if not revoked_at.aware
    then (raised (value_error "AEP credential time must contain a UTC offset"), s)
    else elim (get credential_id s) [
      | none ↦ (ok tt, s)
      | some r ↦
          if belongs agent_did grant_type r
          then (ok tt, put credential_id (revoked_record revoked_at r) s)
          else (ok tt, s)
    ]

-- the loop writes each record back under its own key, so at its own place
unfoldable pub revoke_all : String → String → DateTime → CredentialStore → CredentialStore
revoke_all agent_did grant_type revoked_at [] = []
revoke_all agent_did grant_type revoked_at ((id, r) ∷ s) =
    (id, if belongs agent_did grant_type r then revoked_record revoked_at r else r)
    ∷ revoke_all agent_did grant_type revoked_at s

unfoldable pub revoke_grant_type : String → String → DateTime → Exec CredentialStore (Unit {0})
revoke_grant_type agent_did grant_type revoked_at s =
    if not revoked_at.aware
    then (raised (value_error "AEP credential time must contain a UTC offset"), s)
    else (ok tt, revoke_all agent_did grant_type revoked_at s)
