-- ===== src/Service/Credentials/Revoked.antt =====
-- A revoked credential does not authenticate again, whatever the store does afterwards.
use aep_python.Common.{
  String, ◌≡◌, ◌∙◌, inl, inr, true, not, Option, some, List, [], ◌∷◌, arith, nat_eq, string_eq,
  pair_eq, list_eq, if_cases, Option-cases, or_else,
}
use aep_python.Common.Exec.{Result, ok, raised, blocked}
use aep_python.Common.Dict.{get, get-put_self}
use aep_python.Common.Text.{Text}
use aep_python.Service.Time.{DateTime}
use aep_python.Service.Settings.{RevokeRequest, CredentialContext}
use aep_python.Service.Credentials.{
  CredentialMatch, CredentialAuthenticationInput, MemoryCredentialRecord, CredentialPorts,
}
use aep_python.Service.Credentials.Store.{
  CredentialStore, matches, first_match, presented_username, match_one, credential_presentations,
  authenticate_credential, revoked_record, belongs, revoke_credential, revoke_grant_type,
}
use aep_python.Service.Credentials.Handler.{revoke}
use aep_python.Service.Credentials.Entries.{
  Unusable, get-none-revoke_all, revoked-Unusable, revoked_all-Unusable,
}
use aep_python.Service.Credentials.Calls.{
  Call, Good, Gone, run_all, run-Good, run-Gone, run_all-keeps,
}

module _ {W : Type 0} (ports : CredentialPorts W) where
  -- what matches is no revoked entry
  first-Unusable :
      (grant_type : String) (now : DateTime) (header value username : Text) (id : String)
      (s : CredentialStore) (m : CredentialMatch)
      → Unusable id s
      → first_match ports grant_type now header value username s ≡ some m
      → ¬ (m.credential_id ≡ id)
  unfolding first_match matches
  first-Unusable grant_type now header value username id [] m u e same = absurd cc
  first-Unusable grant_type now header value username id ((k, r) ∷ s) m (first, u) e same =
      ground (arith, first-Unusable grant_type now header value username id s m u)

  match_one-Unusable :
      (grant_type : String) (now : DateTime) (presented : List (Text × Text)) (id : String)
      (s : CredentialStore) (m : CredentialMatch)
      → Unusable id s
      → match_one ports grant_type now s presented ≡ some m
      → ¬ (m.credential_id ≡ id)
  unfolding match_one
  match_one-Unusable grant_type now [] id s m u e = absurd cc
  match_one-Unusable grant_type now (_ ∷ _ ∷ _) id s m u e = absurd cc
  match_one-Unusable grant_type now ((header, value) ∷ []) id s m u e =
      elim (Option-cases (presented_username ports grant_type value)) [
        | inl n ↦ absurd ground arith
        | inr (username, given) ↦
            first-Unusable grant_type now header value username id s m u (ground arith)
      ]

  answered :
      {A : Type 0} (f : A → Option CredentialMatch) (x : Result A) (m : CredentialMatch)
      → (elim x [ ok p ↦ ok (f p) | raised e ↦ raised e | blocked ↦ blocked ]) ≡ ok (some m)
      → (p : A) × (f p ≡ some m)
  answered f (ok p) m h = (p, ground arith)
  answered f (raised e) m h = absurd cc
  answered f blocked m h = absurd cc

  authenticate-Unusable :
      (grant_type : String) (request : CredentialAuthenticationInput) (id : String)
      (s : CredentialStore) (m : CredentialMatch)
      → Unusable id s
      → authenticate_credential ports grant_type request s ≡ ok (some m)
      → ¬ (m.credential_id ≡ id)
  unfolding authenticate_credential
  authenticate-Unusable grant_type request id s m u e =
      let (p, found) =
        answered (match_one ports grant_type request.current_time s)
          (credential_presentations grant_type request.headers s) m e in
      match_one-Unusable grant_type request.current_time p id s m u found

  -- the handler's revocation covers the entry
  revoke_type_makes-Gone :
      (agent_did handled id : String) (at : DateTime) (r : MemoryCredentialRecord)
      (s : CredentialStore)
      → Good s
      → get id s ≡ some r
      → belongs agent_did handled r ≡ true
      → at.aware ≡ true
      → Gone id (revoke_grant_type agent_did handled at s).1
  unfolding revoke_grant_type
  revoke_type_makes-Gone agent_did handled id at r s (k, u) e b aware =
      if_cases {A = Result (Unit {0}) × CredentialStore} (λ x. Gone id x.1) (not at.aware)
        (λ naive. absurd ground arith)
        λ _. (
          revoked_all-Unusable agent_did handled at id r s k u e b,
          get-none-revoke_all agent_did handled at id s ∙ ground arith,
        )

  revoke_one_makes-Gone :
      (agent_did handled id : String) (at : DateTime) (r : MemoryCredentialRecord)
      (s : CredentialStore)
      → Good s
      → get id s ≡ some r
      → belongs agent_did handled r ≡ true
      → at.aware ≡ true
      → Gone id (revoke_credential agent_did handled id at s).1
  unfolding revoke_credential
  revoke_one_makes-Gone agent_did handled id at r s (k, u) e b aware = rw aware (
      rw e (
        rw b (
          revoked-Unusable id r at s k u,
          ground (arith, get-put_self id (revoked_record at r) s),
        )))

  revoke_makes-Gone :
      (handled : String) (request : RevokeRequest) (context : CredentialContext) (id : String)
      (r : MemoryCredentialRecord) (s : CredentialStore)
      → Good s
      → get id s ≡ some r
      → belongs context.agent_did handled r ≡ true
      → or_else request.credential_id id ≡ id
      → context.current_time.aware ≡ true
      → Gone id (revoke handled request context s).1
  unfolding revoke
  revoke_makes-Gone handled request context id r s g e b sel aware =
      elim (Option-cases request.credential_id) [
        | inl n ↦ rw n (
            revoke_type_makes-Gone context.agent_did handled id context.current_time r s g e b
              aware)
        | inr (j, given) ↦
            let same : j ≡ id = ground arith in
            rw given (
              rw same (
                revoke_one_makes-Gone context.agent_did handled id context.current_time r s g e b
                  aware))
      ]

  -- A credential that the store holds for an Agent and a grant type, in a state that writes reach
  -- from the empty store: once the handler of that grant type revoked it, alone or with all others
  -- of the Agent, no later request authenticates with it, whatever writes and changes of the world
  -- come in between.
  pub revoked_for_good :
      (before after : List (Call W)) (w w' : W) (handled : String) (request : RevokeRequest)
      (context : CredentialContext) (id : String) (r : MemoryCredentialRecord) (grant_type : String)
      (input : CredentialAuthenticationInput) (m : CredentialMatch)
      → get id (run_all ports before (w, [])).1 ≡ some r
      → belongs context.agent_did handled r ≡ true
      → or_else request.credential_id id ≡ id
      → context.current_time.aware ≡ true
      → authenticate_credential ports grant_type input
          (run_all ports after
            (w', (revoke handled request context (run_all ports before (w, [])).1).1)).1
        ≡ ok (some m)
      → ¬ (m.credential_id ≡ id)
  revoked_for_good before after w w' handled request context id r grant_type input m e b sel aware
        found =
      authenticate-Unusable grant_type input id _ m
        (run_all-keeps ports (Gone id) (run-Gone ports id) after _ (
          revoke_makes-Gone handled request context id r _
            (run_all-keeps ports Good (run-Good ports) before (w, []) (tt, tt)) e b sel aware)).0
        found
