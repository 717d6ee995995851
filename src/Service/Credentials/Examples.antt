-- ===== src/Service/Credentials/Examples.antt =====
-- Two API keys of one Agent, of which one is revoked.
use aep_python.Common.{
  ℕ, suc, ◌*◌, String, ◌≡◌, refl, true, false, none, some, List, [], ◌∷◌, ◌++◌, nat_eq, string_eq,
  pair_eq, list_eq,
}
use aep_python.Common.Exec.{ok}
use aep_python.Common.Dict.{get, put}
use aep_python.Common.Text.{codes}
use aep_python.Service.Time.{DateTime}
use aep_python.Service.Types.{AgentStatus, EnrollmentRecord}
use aep_python.Service.Settings.{RevokeRequest, CredentialContext}
use aep_python.Service.Credentials.{
  BuiltInCredential, ServiceCredentialRecord, CredentialMatch, CredentialAuthenticationInput,
  MemoryCredentialRecord, CredentialPorts, memory_credential_record, validate_built_in_credential,
  is_model_of, header_of, username_of, credential_secret,
}
use aep_python.Service.Credentials.Store.{
  CredentialStore, insert_record, same_secret, save_credential, matches, first_match,
  presented_username, match_one, key_headers, presented_under, credential_presentations,
  authenticate_credential, revoke_credential,
}
use aep_python.Service.Credentials.Handler.{revoke}
use aep_python.Service.Credentials.Calls.{Call, run, run_all}
use aep_python.Service.Credentials.Revoked.{revoked_for_good}

abbrev at : ℕ → DateTime
at s = record { micros = s * 1_000_000; aware = true }

abbrev ports : CredentialPorts ℕ
ports = record {
  digest = λ value salt password. value ++ salt;
  token_bytes = λ w. (ok (w ∷ []), suc w);
  b64encode = λ t. t;
  b64decode = λ t. some t;
  model_validate = λ c. ok c;
  parse_expiry = λ s. ok (at 500);
  dumps = λ c. "{}";
}

abbrev key_record : String → String → ServiceCredentialRecord
key_record id key = record {
  agent_did = "did:web:agent.example";
  created_at = at 100;
  credential =
      BuiltInCredential.api_key_response
        (record { credential_id = id; expires_at = "1970-01-01T00:08:20Z"; scopes = none })
        (codes key) (codes "X-Key");
  credential_id = id;
  expires_at = at 500;
  grant_type = "api-key";
}

abbrev kept : String → String → ℕ → MemoryCredentialRecord
kept id key salt = record {
  agent_did = "did:web:agent.example";
  credential_id = id;
  expires_at = at 500;
  grant_type = "api-key";
  header = codes "x-key";
  scopes = [];
  salt = salt ∷ [];
  username = [];
  verifier = codes key ++ (salt ∷ []);
  revoked_at = none;
}

abbrev enrolled : EnrollmentRecord
enrolled = record {
  agent_did = "did:web:agent.example";
  claims = none;
  created_at = at 0;
  enrollment_id = "e1";
  owner_action_required = false;
  requirements_pending = [];
  since = at 0;
  status = AgentStatus.active;
  updated_at = at 0;
  verification_pending = [];
  acknowledged_document_ids = [];
  required_document_ids = [];
}

abbrev context : CredentialContext
context = record {
  agent_did = "did:web:agent.example";
  enrollment = enrolled;
  grant_type = "api-key";
  current_time = at 200;
}

abbrev request : RevokeRequest
request = record { grant_type = some "api-key"; credential_id = some "c1"; all_grant_types = false }

abbrev input : String → CredentialAuthenticationInput
input key = record {
  headers = (codes "x-key", codes key ∷ []) ∷ [];
  method = "GET";
  current_time = at 300;
  url = "https://service.example/";
}

abbrev issued : List (Call ℕ)
issued = Call.saves (key_record "c1" "one") ∷ []

abbrev later : List (Call ℕ)
later = Call.saves (key_record "c2" "two") ∷ []

abbrev found : CredentialMatch
found = record {
  agent_did = "did:web:agent.example";
  credential_id = "c2";
  expires_at = at 500;
  grant_type = "api-key";
  scopes = [];
}

abbrev end_state : CredentialStore
end_state =
    (run_all ports later
      (8, (revoke "api-key" request context (run_all ports issued (7, [])).1).1)).1

stored_first : get "c1" (run_all ports issued (7, [])).1 ≡ some (kept "c1" "one" 7)
unfolding run_all run save_credential memory_credential_record validate_built_in_credential
    is_model_of header_of username_of credential_secret insert_record get put
stored_first = refl

second_found : authenticate_credential ports "api-key" (input "two") end_state ≡ ok (some found)
unfolding run_all run save_credential memory_credential_record validate_built_in_credential
    is_model_of header_of username_of credential_secret insert_record same_secret get put revoke
    revoke_credential authenticate_credential credential_presentations key_headers presented_under
    match_one presented_username first_match matches
second_found = refl

first_gone : authenticate_credential ports "api-key" (input "one") end_state ≡ ok none
unfolding run_all run save_credential memory_credential_record validate_built_in_credential
    is_model_of header_of username_of credential_secret insert_record same_secret get put revoke
    revoke_credential authenticate_credential credential_presentations key_headers presented_under
    match_one presented_username first_match matches
first_gone = refl

revoked_for_good_example : ¬ (found.credential_id ≡ "c1")
revoked_for_good_example =
    revoked_for_good ports issued later 7 8 "api-key" request context "c1" (kept "c1" "one" 7)
      "api-key" (input "two") found stored_first refl refl refl second_found
