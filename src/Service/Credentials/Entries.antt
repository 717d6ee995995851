-- ===== src/Service/Credentials/Entries.antt =====
-- The entries of one credential identifier, and what the writes do to them.
use aep_python.Common.{
  String, ◌≡◌, refl, sym, ◌∙◌, inl, inr, true, false, none, some, [], ◌∷◌, arith, ◌==◌, nat_eq,
  string_eq, pair_eq, list_eq, ==_iff, eq_of_beq, Bool-cases, is_none,
}
use aep_python.Common.Dict.{get, put, IsDict}
use aep_python.Service.Time.{DateTime}
use aep_python.Service.Credentials.{MemoryCredentialRecord}
use aep_python.Service.Credentials.Store.{CredentialStore, revoked_record, belongs, revoke_all}

-- no entry with this identifier is usable, and its key is taken
abbrev pub Unusable : String → CredentialStore → Type 0
Unusable id [] = Unit
Unusable id ((k, r) ∷ s) = (r.credential_id ≡ id → is_none r.revoked_at ≡ false) × Unusable id s

abbrev pub Keyed : CredentialStore → Type 0
Keyed [] = Unit
Keyed ((k, r) ∷ s) = (r.credential_id ≡ k) × Keyed s

pub put-Unusable :
    (id k : String) (r : MemoryCredentialRecord) (s : CredentialStore)
    → (r.credential_id ≡ id → is_none r.revoked_at ≡ false)
    → Unusable id s
    → Unusable id (put k r s)
unfolding put
put-Unusable id k r [] h u = (h, tt)
put-Unusable id k r ((j, q) ∷ s) h (first, u) = elim (Bool-cases (j == k)) [
  | inl same ↦ rw same (h, u)
  | inr other ↦ rw other (first, put-Unusable id k r s h u)
]

pub put-Keyed :
    (k : String) (r : MemoryCredentialRecord) (s : CredentialStore)
    → r.credential_id ≡ k
    → Keyed s
    → Keyed (put k r s)
unfolding put
put-Keyed k r [] h u = (h, tt)
put-Keyed k r ((j, q) ∷ s) h (first, u) = elim (Bool-cases (j == k)) [
  | inl same ↦ rw same (h ∙ sym (eq_of_beq j k same), u)
  | inr other ↦ rw other (first, put-Keyed k r s h u)
]

pub revoke_all-Unusable :
    (agent_did grant_type : String) (at : DateTime) (id : String) (s : CredentialStore)
    → Unusable id s
    → Unusable id (revoke_all agent_did grant_type at s)
unfolding revoke_all
revoke_all-Unusable agent_did grant_type at id [] u = tt
revoke_all-Unusable agent_did grant_type at id ((k, r) ∷ s) (first, u) = (
  elim (Bool-cases (belongs agent_did grant_type r)) [
    | inl mine ↦ rw mine λ _. refl
    | inr other ↦ rw other first
  ],
  revoke_all-Unusable agent_did grant_type at id s u,
)

pub get-none-revoke_all :
    (agent_did grant_type : String) (at : DateTime) (id : String) (s : CredentialStore)
    → is_none (get id (revoke_all agent_did grant_type at s)) ≡ is_none (get id s)
unfolding revoke_all get
get-none-revoke_all agent_did grant_type at id [] = refl
get-none-revoke_all agent_did grant_type at id ((k, r) ∷ s) =
    ground (arith, get-none-revoke_all agent_did grant_type at id s)

absent-Unusable : (id : String) (s : CredentialStore) → Keyed s → get id s ≡ none → Unusable id s
unfolding get
absent-Unusable id [] k n = tt
absent-Unusable id ((j, q) ∷ s) (here, k) n = elim (Bool-cases (j == id)) [
  | inl same ↦ absurd ground arith
  | inr other ↦ (λ e. absurd (ground (arith, ==_iff j id)), absent-Unusable id s k (ground arith))
]

-- in a keyed dictionary, the only entry with this identifier is the one that is replaced
pub revoked-Unusable :
    (id : String) (r : MemoryCredentialRecord) (at : DateTime) (s : CredentialStore)
    → Keyed s
    → IsDict s
    → Unusable id (put id (revoked_record at r) s)
unfolding put
revoked-Unusable id r at [] k u = (λ _. refl, tt)
revoked-Unusable id r at ((j, q) ∷ s) (here, k) (fresh, u) = elim (Bool-cases (j == id)) [
  | inl same ↦ rw same (λ _. refl, absent-Unusable id s k (rw (← eq_of_beq j id same) fresh))
  | inr other ↦ rw other (λ e. absurd (ground (arith, ==_iff j id)), revoked-Unusable id r at s k u)
]

module _ (agent_did grant_type : String) (at : DateTime) where
  pub revoked_all-Unusable :
      (id : String) (r : MemoryCredentialRecord) (s : CredentialStore)
      → Keyed s
      → IsDict s
      → get id s ≡ some r
      → belongs agent_did grant_type r ≡ true
      → Unusable id (revoke_all agent_did grant_type at s)
  unfolding revoke_all get
  revoked_all-Unusable id r [] k u e b = absurd cc
  revoked_all-Unusable id r ((j, q) ∷ s) (here, k) (fresh, u) e b = elim (Bool-cases (j == id)) [
    | inl same ↦
        let mine : belongs agent_did grant_type q ≡ true = ground arith in
        rw mine (
          λ _. refl,
          revoke_all-Unusable agent_did grant_type at id s
              (absent-Unusable id s k (rw (← eq_of_beq j id same) fresh)),
        )
    | inr other ↦ (
      λ e. absurd (ground (arith, ==_iff j id)),
      revoked_all-Unusable id r s k u (ground arith) b,
    )
  ]

  pub revoke_all-Keyed :
      (s : CredentialStore) → Keyed s → Keyed (revoke_all agent_did grant_type at s)
  unfolding revoke_all
  revoke_all-Keyed [] k = tt
  revoke_all-Keyed ((j, q) ∷ s) (here, k) = (ground arith, revoke_all-Keyed s k)

  pub revoke_all-IsDict :
      (s : CredentialStore) → IsDict s → IsDict (revoke_all agent_did grant_type at s)
  unfolding revoke_all
  revoke_all-IsDict [] u = tt
  revoke_all-IsDict ((j, q) ∷ s) (fresh, u) =
      (ground (arith, get-none-revoke_all agent_did grant_type at j s), revoke_all-IsDict s u)
