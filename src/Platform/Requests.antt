-- ===== src/Platform/Requests.antt =====
-- The requests of platform/platform.py about identities: look up, list, provision, update, and the
-- DID document.
pub mod Owner
pub mod Documents
pub mod Update
use aep_python.Common.{
  String, Bool, true, false, not, ◌&&◌, ◌||◌, Option, none, some, List, [], ◌∷◌, ◌==◌, nat_eq,
  string_eq, pair_eq, list_eq, nonempty, if◌then◌else◌, any, is_empty,
}
use aep_python.Common.Exec.{value_error, Result, ok, raised, Exec, pure, lift, ◌>>=◌, raise_if}
use aep_python.Common.Dict.{Dict, get, has}
use aep_python.Common.Text.{Text, codes}
use aep_python.Core.Json.{Json}
use aep_python.Service.Time.{DateTime}
use aep_python.Service.Problem.{ErrorCode}
use aep_python.Platform.Types.{
  ManagedAgentStatus, active, managed_beq, SigningAlgorithm, eddsa, es256, IdentityRecord,
  RequestContext,
}
use aep_python.Platform.Identities.{
  IdentityStore, validate_identity_record, invalid_identity, find_or_create, find_by_agent_did_id,
  update_status,
}
use aep_python.Platform.Identities
use aep_python.Platform.Settings.{
  PlatformResult, success, problem, PlatformAgentIdentity, AuthorizationRequest,
  DidVerificationMethod, PlatformSettings, PlatformPorts, identity_response, PlatformState,
  on_world, on_identities, on_both, now_of,
}

abbrev pub not_recognized : {S B : Type 0} → Exec S (PlatformResult B)
not_recognized = pure (problem 404 ErrorCode.not_recognized)

abbrev pub mismatched : {A : Type 0} → Result A
mismatched = raised (value_error "AEP Platform identity store returned a mismatched record")

abbrev pub same_algorithms : List SigningAlgorithm → List SigningAlgorithm → Bool
same_algorithms [] [] = true
same_algorithms (eddsa ∷ xs) (eddsa ∷ ys) = same_algorithms xs ys
same_algorithms (es256 ∷ xs) (es256 ∷ ys) = same_algorithms xs ys
same_algorithms _ _ = false

abbrev pub same_time : DateTime → DateTime → Bool
same_time a b = a.micros == b.micros

-- `_is_lifecycle_update`
unfoldable pub is_lifecycle_update : IdentityRecord → IdentityRecord → ManagedAgentStatus → Bool
is_lifecycle_update before after status =
    after.agent_did == before.agent_did
    && (after.agent_did_id == before.agent_did_id
        && (after.agent_identity_id == before.agent_identity_id
            && (same_time after.created_at before.created_at
                && (after.did_document_url == before.did_document_url
                    && (after.key_id == before.key_id
                        && (after.principal == before.principal
                            && (after.service_did == before.service_did
                                && (same_algorithms after.signing_algorithms
                                      before.signing_algorithms
                                    && managed_beq after.status status))))))))

-- `_lifecycle_error`
unfoldable pub lifecycle_error : ManagedAgentStatus → ErrorCode
lifecycle_error ManagedAgentStatus.terminated = ErrorCode.identity_terminated
lifecycle_error ManagedAgentStatus.suspended = ErrorCode.identity_suspended
lifecycle_error ManagedAgentStatus.revoked = ErrorCode.identity_suspended
lifecycle_error ManagedAgentStatus.active = ErrorCode.identity_unavailable

-- the members of a JWK that are private
abbrev pub private_members : List String
private_members = "d" ∷ "dp" ∷ "dq" ∷ "k" ∷ "oth" ∷ "p" ∷ "q" ∷ "qi" ∷ []

abbrev pub is_text : Option Json → String → Bool
is_text (some (Json.text s)) t = s == t
is_text _ t = false

-- what `_require_public_jwk` refuses
unfoldable pub private_jwk : Dict String Json → Bool
private_jwk jwk = is_text (get "kty" jwk) "oct" || any (λ m. has m jwk) private_members

pub record DidDocument : Type 0 where
  pub id : String
  pub verification_method : DidVerificationMethod

-- `create_did_document`; the relationships all name the one method
unfoldable pub create_did_document : IdentityRecord → DidVerificationMethod → Result DidDocument
create_did_document r m =
    if not (m.id == r.key_id)
      || (not (m.controller == r.agent_did) || (not (nonempty m.type) || is_empty m.public_key_jwk))
    then raised
        (value_error "AEP Platform DID verification method does not match the managed identity")
    else if private_jwk m.public_key_jwk
    then raised
        (value_error "AEP Platform DID verification method must carry only public key material")
    else ok (record { id = r.agent_did; verification_method = m })

abbrev pub did_media_type : String
did_media_type = "application/did+json"

-- `startswith`
abbrev pub starts_with : Text → Text → Bool
starts_with [] t = true
starts_with (c ∷ s) [] = false
starts_with (c ∷ s) (d ∷ t) = c == d && starts_with s t

-- `f"pai_{id}"` where the prefix is missing
unfoldable pub prefixed : String → String
prefixed id =
    if starts_with (codes "pai_") (codes id) then id else Prim.Native.String.◌++◌ "pai_" id

module _ {W : Type 0} (settings : PlatformSettings) (ports : PlatformPorts W) where
  abbrev pub with_principal :
      AuthorizationRequest
      → RequestContext
      → IdentityRecord
      → Exec (PlatformState W) (Option IdentityRecord)
  with_principal request context r =
      if not (nonempty context.principal) || not (r.principal == context.principal)
      then pure none
      else do
        allowed ← on_world (ports.authorize request context)
        pure (if allowed then some r else none)

  abbrev pub authorized_record :
      String
      → (IdentityRecord → AuthorizationRequest)
      → RequestContext
      → Option IdentityRecord
      → Exec (PlatformState W) (Option IdentityRecord)
  authorized_record id request context none = pure none
  authorized_record id request context (some r) = do
    _ ← lift (validate_identity_record r)
    _ ← lift (if r.agent_identity_id == id then ok tt else mismatched)
    with_principal (request r) context r

  -- `_authorized_identity`
  unfoldable pub authorized_identity :
      String
      → (IdentityRecord → AuthorizationRequest)
      → RequestContext
      → Exec (PlatformState W) (Option IdentityRecord)
  authorized_identity id request context s =
      authorized_record id request context (Identities.get_identity id s.identities) s

  abbrev pub answer_identity :
      Option IdentityRecord → Exec (PlatformState W) (PlatformResult PlatformAgentIdentity)
  answer_identity none = not_recognized
  answer_identity (some r) = do
    body ← lift (ports.identity_model (identity_response r))
    pure (success 200 body)

  unfoldable pub get_identity :
      String → RequestContext → Exec (PlatformState W) (PlatformResult PlatformAgentIdentity)
  get_identity id context = do
    r ← authorized_identity id AuthorizationRequest.get_identity context
    answer_identity r

  -- the checks of what the store answers to an update
  abbrev pub check_update :
      ManagedAgentStatus
      → IdentityRecord
      → Option IdentityRecord
      → Exec (PlatformState W) (PlatformResult PlatformAgentIdentity)
  check_update status r none = not_recognized
  check_update status r (some q) = do
    _ ← lift (validate_identity_record q)
    _ ← lift (if is_lifecycle_update r q status then ok tt else mismatched)
    answer_identity (some q)

  -- the write of an update that the policy allows
  unfoldable pub update_allowed :
      String
      → ManagedAgentStatus
      → IdentityRecord
      → Exec (PlatformState W) (PlatformResult PlatformAgentIdentity)
  update_allowed id status r = do
    now ← now_of ports
    updated ← on_identities (update_status id status now)
    check_update status r updated

  abbrev pub update_authorized :
      String
      → ManagedAgentStatus
      → RequestContext
      → Option IdentityRecord
      → Exec (PlatformState W) (PlatformResult PlatformAgentIdentity)
  update_authorized id status context none = not_recognized
  update_authorized id status context (some r) = do
    allowed ← on_world (ports.can_transition r status context)
    if allowed then update_allowed id status r else pure (problem 403 (lifecycle_error r.status))

  unfoldable pub update_identity :
      String
      → ManagedAgentStatus
      → RequestContext
      → Exec (PlatformState W) (PlatformResult PlatformAgentIdentity)
  update_identity id status context = do
    r ← authorized_identity id (λ r. AuthorizationRequest.update_identity r status) context
    update_authorized id status context r

  -- `_create_identity`
  unfoldable pub create_identity : String → String → Exec W IdentityRecord
  create_identity principal service_did = do
    id ← ports.identifier
    did_id ← ports.agent_did_id_generator
    _ ←
        raise_if (not (nonempty id) || not (nonempty did_id))
          (value_error "AEP Platform identity generator returned an empty identifier")
    now ← ports.clock
    _ ←
        raise_if (not now.aware)
          (value_error "AEP Platform clock must return an offset-aware datetime")
    agent_did ← lift (ports.agent_did did_id)
    url ← lift (ports.did_url did_id)
    let r : IdentityRecord = record {
      agent_did = agent_did;
      agent_did_id = did_id;
      agent_identity_id = prefixed id;
      created_at = now;
      did_document_url = url;
      key_id = agent_did;
      principal = principal;
      service_did = service_did;
      signing_algorithms = settings.signing_algorithms;
      status = active;
      updated_at = now;
    }
    _ ← ports.create_key r
    pure r

  -- `_provision`
  unfoldable pub provision_body :
      String → RequestContext → Exec (PlatformState W) (PlatformResult PlatformAgentIdentity)
  provision_body service_did context = do
    resolved ← on_world (ports.resolve_service service_did)
    if not resolved then pure (problem 400 ErrorCode.invalid_request) else do
      found ← on_both (
          find_or_create (context.principal, service_did)
            (create_identity context.principal service_did))
      _ ← lift (validate_identity_record found.0)
      _ ← lift (
          if found.0.principal == context.principal && found.0.service_did == service_did
          then ok tt
          else mismatched)
      answer_identity (some found.0)

  abbrev pub published :
      String → Option IdentityRecord → Exec (PlatformState W) (PlatformResult DidDocument)
  published did_id none = not_recognized
  published did_id (some r) = if not (managed_beq r.status active) then not_recognized else do
    _ ← lift (validate_identity_record r)
    _ ← lift (if r.agent_did_id == did_id then ok tt else mismatched)
    method ← on_world (ports.did_verification_method r)
    document ← lift (create_did_document r method)
    pure (record {
      status = 200;
      body = some document;
      content_type = did_media_type;
      headers = ("Cache-Control", "max-age=300") ∷ [];
      problem = none;
    })

  unfoldable pub did_document : String → Exec (PlatformState W) (PlatformResult DidDocument)
  did_document did_id s = published did_id (find_by_agent_did_id did_id s.identities) s
