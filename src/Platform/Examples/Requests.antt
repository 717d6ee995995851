-- ===== src/Platform/Examples/Requests.antt =====
-- The theorems about the requests, on one identity.
use aep_python.Common.{
  ℕ, ◌≡◌, refl, true, false, none, [], ◌∷◌, arith, nat_eq, string_eq, pair_eq, list_eq,
}
use aep_python.Common.Exec.{ok}
use aep_python.Common.Dict.{get, put, retain}
use aep_python.Common.Text.{codes}
use aep_python.Core.Json.{Json}
use aep_python.Service.Settings.{AssertionOperation}
use aep_python.Platform.Types.{active, suspended}
use aep_python.Platform.Identities.{IdentityStore, empty_store, insert_identity, scope_of}
use aep_python.Platform.Settings.{PlatformState}
use aep_python.Platform.Examples.Data.{
  noon, agent, ports, settings, context, state, sign_request, verify_request,
}
use aep_python.Platform.Identities
use aep_python.Platform.Identities.{
  find_by_agent_did_id, invalid_identity, validate_identity_record,
}
use aep_python.Platform.Settings.{
  AuthorizationRequest, success, PlatformSignCompleted, completed, request_time, now_of,
  require_aware, consume,
}
use aep_python.Platform.Requests.{
  authorized_identity, update_identity, DidDocument, did_document, create_did_document, private_jwk,
}
use aep_python.Platform.Requests.Owner.{IsAllowed, authorized_identity-Allowed}
use aep_python.Platform.Requests.Update.{IsUpdated, update_identity-Updated}
use aep_python.Platform.Requests.Documents.{IsPublished, did_document-Public, document_reply}
use aep_python.Platform.Signing.{
  sign_body, sign_allowed, sign_here, validate_sign_result, validate_completed, read_assertion,
  answers_request, claims_agree,
}
use aep_python.Platform.Signing.Signed.{IsSigned}
use aep_python.Platform.Signing.Completed.{sign_body-Completed}
use aep_python.Core.Assertions.{
  verify_client_assertion, check_claims, key_bound, key_id_of, premature, resource_matches,
}
use aep_python.Core.Http.Paths.{media_type_essence, parameters, next_place, token_code}
use aep_python.Platform.Verification.{
  verify_body, verify_allowed, read_claims, use_up, replay_key, from_timestamp, recognized,
}
use aep_python.Platform.Verification.Once.{consume_once, uses}
use aep_python.Platform.Verification.Accepted.{IsAccepted, verify_body-Accepted}

authorized_identity-Allowed_example :
    IsAllowed ports "pai_a" AuthorizationRequest.get_identity context state agent state
unfolding authorized_identity Identities.get_identity validate_identity_record invalid_identity get
authorized_identity-Allowed_example =
    authorized_identity-Allowed settings ports context "pai_a" AuthorizationRequest.get_identity
      agent state state refl

update_identity-Updated_example :
    IsUpdated settings ports "pai_a" suspended context state
      (update_identity settings ports "pai_a" suspended context state)
update_identity-Updated_example =
    update_identity-Updated settings ports "pai_a" suspended context state

abbrev document : DidDocument
document = record {
  id = "did:web:a";
  verification_method = record {
    controller = "did:web:a";
    id = "did:web:a";
    public_key_jwk = ("kty", Json.text "OKP") ∷ [];
    type = "JsonWebKey2020";
  };
}

did_document-Public_example : IsPublished "a" state document
unfolding did_document find_by_agent_did_id validate_identity_record invalid_identity get
    create_did_document private_jwk
did_document-Public_example =
    did_document-Public settings ports "a" state state
      (document_reply settings ports "a" state state document) document refl refl

abbrev answer : PlatformSignCompleted
answer = record {
  agent_did = "did:web:a";
  client_assertion = "token";
  expires_at = record { micros = 43_260_000_000; aware = true };
  issued_at = noon;
  jti = "j";
  service_did = "did:web:s";
  platform_context = none;
}

sign_body-Completed_example :
    (agent.status ≡ active) × ◌≡◌ {A = ℕ} 200 200 × IsSigned ports agent sign_request 60 answer
unfolding sign_body sign_allowed sign_here request_time now_of require_aware validate_sign_result
    validate_completed read_assertion answers_request claims_agree verify_client_assertion
    check_claims key_bound key_id_of premature resource_matches media_type_essence parameters
    next_place token_code
sign_body-Completed_example =
    sign_body-Completed settings ports agent sign_request 60 context
      (success 200 (completed answer)) answer state state refl refl

abbrev used : PlatformState Unit
used = record state {
  replay =
      (replay_key "did:web:s" AssertionOperation.enroll "did:web:a" "j", from_timestamp 43_260)
      ∷ [];
}

verify_body-Accepted_example :
    (agent.status ≡ active)
    × (recognized verify_request agent ≡ recognized verify_request agent)
    × IsAccepted ports agent verify_request context state used
unfolding verify_body verify_allowed read_claims use_up request_time now_of require_aware
    verify_client_assertion check_claims key_bound key_id_of premature resource_matches consume
    retain get put replay_key
verify_body-Accepted_example =
    verify_body-Accepted settings ports agent verify_request context
      (recognized verify_request agent) refl state used refl

consume_once_example :
    (consume
      (codes "j")
      noon
      (record { micros = 2; aware = true })
      (uses
        ((codes "i", noon, record { micros = 1; aware = true }) ∷ [])
        ((codes "j", noon) ∷ []))).0
    ≡ ok false
unfolding consume retain get put
consume_once_example =
    consume_once (codes "j") noon noon (record { micros = 0; aware = true })
      (record { micros = 2; aware = true })
      ((codes "i", noon, record { micros = 1; aware = true }) ∷ []) [] ((codes "j", noon) ∷ []) refl
      (omega arith, tt) refl refl (omega arith)
