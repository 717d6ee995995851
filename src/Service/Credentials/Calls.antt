-- ===== src/Service/Credentials/Calls.antt =====
-- Sequences of calls on the credential store, and what they keep.
use aep_python.Common.{
  String, ◌≡◌, refl, sym, ◌∙◌, inl, inr, false, not, some, List, [], ◌∷◌, arith, nat_eq, string_eq,
  pair_eq, list_eq, ==_iff, if_cases, Option-cases, is_none, any,
}
use aep_python.Common.Exec.{Result, ok, raised, blocked}
use aep_python.Common.Dict.{get, has, IsDict, get-put, put-IsDict}
use aep_python.Service.Time.{DateTime}
use aep_python.Service.Credentials.{
  ServiceCredentialRecord, MemoryCredentialRecord, CredentialPorts, memory_credential_record,
}
use aep_python.Service.Credentials.Store.{
  CredentialStore, insert_record, inserted, same_secret, save_credential, revoked_record, belongs,
  revoke_credential, revoke_grant_type,
}
use aep_python.Service.Credentials.Entries.{
  Unusable, Keyed, put-Unusable, put-Keyed, revoke_all-Unusable, get-none-revoke_all,
  revoke_all-Keyed, revoke_all-IsDict,
}

-- the calls that write, and a change of the world outside the store
pub data Call (W : Type 0) : Type 0 where
  saves : ServiceCredentialRecord → Call W
  revokes : String → String → String → DateTime → Call W
  revokes_all : String → String → DateTime → Call W
  elsewhere : W → Call W

abbrev pub Good : CredentialStore → Type 0
Good s = Keyed s × IsDict s

abbrev pub Gone : String → CredentialStore → Type 0
Gone id s = Unusable id s × (is_none (get id s) ≡ false)

pub keyed :
    (s : CredentialStore) (id : String) (r : MemoryCredentialRecord)
    → Keyed s
    → get id s ≡ some r
    → r.credential_id ≡ id
unfolding get
keyed [] id r k e = absurd cc
keyed ((j, q) ∷ s) id r (here, k) e = ground (arith, keyed s id r k, ==_iff j id)

module _ {W : Type 0} (ports : CredentialPorts W) where
  unfoldable pub run : Call W → W × CredentialStore → W × CredentialStore
  run (saves v) x = (save_credential ports v x).1
  run (revokes agent_did grant_type id at) (w, s) =
      (w, (revoke_credential agent_did grant_type id at s).1)
  run (revokes_all agent_did grant_type at) (w, s) =
      (w, (revoke_grant_type agent_did grant_type at s).1)
  run (elsewhere w') (w, s) = (w', s)

  unfoldable pub run_all : List (Call W) → W × CredentialStore → W × CredentialStore
  run_all [] x = x
  run_all (c ∷ calls) x = run_all calls (run c x)

  -- the stored record has the identifier of its request
  memory_id :
      (v : ServiceCredentialRecord) (w : W) (r : MemoryCredentialRecord)
      → (memory_credential_record ports v w).0 ≡ ok r
      → r.credential_id ≡ v.credential_id
  unfolding memory_credential_record
  memory_id v w r h = ground arith

  insert-Good :
      (v : ServiceCredentialRecord) (r : MemoryCredentialRecord) (s : CredentialStore)
      → r.credential_id ≡ v.credential_id
      → Good s
      → Good (insert_record ports v r s).1
  unfolding insert_record
  insert-Good v r s e (k, u) =
      if_cases {A = Result (Unit {0}) × CredentialStore} (λ x. Good x.1) (has v.credential_id s)
        (λ _. (k, u))
        λ _.
          if_cases {A = Result (Unit {0}) × CredentialStore} (λ x. Good x.1)
            (any (λ entry. same_secret ports v.credential r entry.1) s) (λ _. (k, u))
            λ _. (put-Keyed v.credential_id r s e k, put-IsDict v.credential_id r s u)

  insert-Gone :
      (id : String) (v : ServiceCredentialRecord) (r : MemoryCredentialRecord) (s : CredentialStore)
      → r.credential_id ≡ v.credential_id
      → Gone id s
      → Gone id (insert_record ports v r s).1
  unfolding insert_record
  insert-Gone id v r s e (g, there) =
      if_cases {A = Result (Unit {0}) × CredentialStore} (λ x. Gone id x.1) (has v.credential_id s)
        (λ _. (g, there))
        λ new.
          if_cases {A = Result (Unit {0}) × CredentialStore} (λ x. Gone id x.1)
            (any (λ entry. same_secret ports v.credential r entry.1) s) (λ _. (g, there))
            λ _. (
              put-Unusable id v.credential_id r s (λ same. absurd (other new (sym e ∙ same))) g,
              ground (arith, get-put v.credential_id id r s),
            )
    where
      other : has v.credential_id s ≡ false → ¬ (v.credential_id ≡ id)
      other new same = ground arith

  revoke-Good :
      (agent_did grant_type id : String) (at : DateTime) (s : CredentialStore)
      → Good s
      → Good (revoke_credential agent_did grant_type id at s).1
  unfolding revoke_credential
  revoke-Good agent_did grant_type id at s (k, u) =
      if_cases {A = Result (Unit {0}) × CredentialStore} (λ x. Good x.1) (not at.aware)
        (λ _. (k, u))
        λ _. elim (Option-cases (get id s)) [
          | inl n ↦ rw n (k, u)
          | inr (r, e) ↦ rw e (
              if_cases {A = Result (Unit {0}) × CredentialStore} (λ x. Good x.1)
                (belongs agent_did grant_type r)
                (λ _. (
                  put-Keyed id (revoked_record at r) s (keyed s id r k e) k,
                  put-IsDict id (revoked_record at r) s u,
                ))
                λ _. (k, u))
        ]

  revoke-Gone :
      (agent_did grant_type k id : String) (at : DateTime) (s : CredentialStore)
      → Gone id s
      → Gone id (revoke_credential agent_did grant_type k at s).1
  unfolding revoke_credential
  revoke-Gone agent_did grant_type k id at s (g, there) =
      if_cases {A = Result (Unit {0}) × CredentialStore} (λ x. Gone id x.1) (not at.aware)
        (λ _. (g, there))
        λ _. elim (Option-cases (get k s)) [
          | inl n ↦ rw n (g, there)
          | inr (r, e) ↦ rw e (
              if_cases {A = Result (Unit {0}) × CredentialStore} (λ x. Gone id x.1)
                (belongs agent_did grant_type r)
                (λ _. (
                  put-Unusable id k (revoked_record at r) s (λ _. refl) g,
                  ground (arith, get-put k id (revoked_record at r) s),
                ))
                λ _. (g, there))
        ]

  revoke_type-Good :
      (agent_did grant_type : String) (at : DateTime) (s : CredentialStore)
      → Good s
      → Good (revoke_grant_type agent_did grant_type at s).1
  unfolding revoke_grant_type
  revoke_type-Good agent_did grant_type at s (k, u) =
      if_cases {A = Result (Unit {0}) × CredentialStore} (λ x. Good x.1) (not at.aware)
        (λ _. (k, u))
        λ _. (
          revoke_all-Keyed agent_did grant_type at s k,
          revoke_all-IsDict agent_did grant_type at s u,
        )

  revoke_type-Gone :
      (agent_did grant_type id : String) (at : DateTime) (s : CredentialStore)
      → Gone id s
      → Gone id (revoke_grant_type agent_did grant_type at s).1
  unfolding revoke_grant_type
  revoke_type-Gone agent_did grant_type id at s (g, there) =
      if_cases {A = Result (Unit {0}) × CredentialStore} (λ x. Gone id x.1) (not at.aware)
        (λ _. (g, there))
        λ _. (
          revoke_all-Unusable agent_did grant_type at id s g,
          get-none-revoke_all agent_did grant_type at id s ∙ there,
        )

  inserted-keeps :
      (P : CredentialStore → Type 0) (v : ServiceCredentialRecord)
      (x : Result MemoryCredentialRecord × W) (s : CredentialStore)
      → ((r : MemoryCredentialRecord) → x.0 ≡ ok r → P (insert_record ports v r s).1)
      → P s
      → P (inserted ports v x s).1.1
  inserted-keeps P v (ok r, w) s new p = new r refl
  inserted-keeps P v (raised e, w) s new p = p
  inserted-keeps P v (blocked, w) s new p = p

  pub run-Good : (c : Call W) (w : W) (s : CredentialStore) → Good s → Good (run c (w, s)).1
  unfolding run save_credential
  run-Good (saves v) w s g =
      inserted-keeps Good v (memory_credential_record ports v w) s
        (λ r e. insert-Good v r s (memory_id v w r e) g) g
  run-Good (revokes agent_did grant_type id at) w s g = revoke-Good agent_did grant_type id at s g
  run-Good (revokes_all agent_did grant_type at) w s g =
      revoke_type-Good agent_did grant_type at s g
  run-Good (elsewhere w') w s g = g

  pub run-Gone :
      (id : String) (c : Call W) (w : W) (s : CredentialStore)
      → Gone id s
      → Gone id (run c (w, s)).1
  unfolding run save_credential
  run-Gone id (saves v) w s g =
      inserted-keeps (Gone id) v (memory_credential_record ports v w) s
        (λ r e. insert-Gone id v r s (memory_id v w r e) g) g
  run-Gone id (revokes agent_did grant_type k at) w s g =
      revoke-Gone agent_did grant_type k id at s g
  run-Gone id (revokes_all agent_did grant_type at) w s g =
      revoke_type-Gone agent_did grant_type id at s g
  run-Gone id (elsewhere w') w s g = g

  pub run_all-keeps :
      (P : CredentialStore → Type 0)
      (step : (c : Call W) (w : W) (s : CredentialStore) → P s → P (run c (w, s)).1)
      (calls : List (Call W)) (x : W × CredentialStore)
      → P x.1
      → P (run_all calls x).1
  unfolding run_all
  run_all-keeps P step [] x p = p
  run_all-keeps P step (c ∷ calls) (w, s) p =
      run_all-keeps P step calls (run c (w, s)) (step c w s p)
