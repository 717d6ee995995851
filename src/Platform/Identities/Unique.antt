-- ===== src/Platform/Identities/Unique.antt =====
-- What every interleaving of the identity store's calls guarantees.
use aep_python.Common.{
  String, ◌≡◌, ap, ◌∙◌, ◌⊎◌, inl, inr, some, arith, Eq, nat_eq, string_eq, pair_eq, list_eq,
  Option-cases,
}
use aep_python.Common.Dict.{Dict, get}
use aep_python.Platform.Types.{IdentityRecord}
use aep_python.Platform.Identities.{
  IdentityStore, scope_of, through, find_by_agent_did, find_by_agent_did_id, get_identity,
}
use aep_python.Platform.Identities.Tasks.{System, start, Reach}
use aep_python.Platform.Identities.Index.{Index}
use aep_python.Platform.Identities.Indexed.{Indexed}
use aep_python.Platform.Identities.Invariant.{Reach-Inv}

same_entry :
    {K : Type 0} ⦃e : Eq K⦄ (key : IdentityRecord → K) (index : Dict K String)
    (records : Dict String IdentityRecord) (v : Index key index records) (id j : String)
    (r q : IdentityRecord)
    → get id records ≡ some r
    → get j records ≡ some q
    → key r ≡ key q
    → id ≡ j
same_entry key index records v id j r q h k same =
    let a : get (key r) index ≡ some id = v.complete id r h in
    let b : get (key q) index ≡ some j = v.complete j q k in
    let b' : get (key r) index ≡ some j = rw same b in cc

-- In every reachable state, two stored identities that share the principal and the Service DID, or
-- the Agent DID, or the identifier in the Agent DID, are one identity.
pub identities_unique :
    {s : System} (id j : String) (r q : IdentityRecord)
    → Reach start s
    → get_identity id s.store ≡ some r
    → get_identity j s.store ≡ some q
    → (scope_of r ≡ scope_of q) ⊎ ((r.agent_did ≡ q.agent_did) ⊎ (r.agent_did_id ≡ q.agent_did_id))
    → (id ≡ j) × (r ≡ q)
unfolding get_identity
identities_unique {s} id j r q reach h k same =
    let v : Indexed s.store = (Reach-Inv reach).indexed in let is : id ≡ j = one v same in (is, cc)
  where
    one :
        Indexed s.store
        → (scope_of r ≡ scope_of q)
          ⊎ ((r.agent_did ≡ q.agent_did) ⊎ (r.agent_did_id ≡ q.agent_did_id))
        → id ≡ j
    one v (inl e) = same_entry scope_of s.store.by_scope s.store.records v.scopes id j r q h k e
    one v (inr (inl e)) =
        same_entry (λ r. r.agent_did) s.store.by_agent_did s.store.records v.dids id j r q h k e
    one v (inr (inr e)) =
        same_entry (λ r. r.agent_did_id) s.store.by_agent_did_id s.store.records v.did_ids id j r q
          h k e

through_complete :
    {K : Type 0} ⦃e : Eq K⦄ (key : IdentityRecord → K) (index : Dict K String) (s : IdentityStore)
    (v : Index key index s.records) (id : String) (r : IdentityRecord)
    → get id s.records ≡ some r
    → through (key r) index s ≡ some r
through_complete key index s v id r h = ground (arith, v.complete id r)

through_sound :
    {K : Type 0} ⦃e : Eq K⦄ (key : IdentityRecord → K) (index : Dict K String) (s : IdentityStore)
    (v : Index key index s.records) (k : K) (r : IdentityRecord)
    → through k index s ≡ some r
    → (key r ≡ k) × (id : String) × (get id s.records ≡ some r)
through_sound key index s v k r h = elim (Option-cases (get k index)) [
  | inl n ↦ absurd (ground arith)
  | inr (id, e) ↦
      let (q, stored, is) = v.sound k id e in
      let found : get id s.records ≡ some r = ground arith in
      let same : q ≡ r = cc in (rw (← same) is, id, found)
]

-- In every reachable state the lookups agree: an identity is found by its identifier exactly when it
-- is found by its own Agent DID and by the identifier in it, and what a lookup finds has the value
-- that was looked for.
pub lookups_agree :
    {s : System} (r : IdentityRecord)
    → Reach start s
    → ((did : String)
        → find_by_agent_did did s.store ≡ some r
        → (r.agent_did ≡ did) × (get_identity r.agent_identity_id s.store ≡ some r))
      × ((did_id : String)
          → find_by_agent_did_id did_id s.store ≡ some r
          → (r.agent_did_id ≡ did_id) × (get_identity r.agent_identity_id s.store ≡ some r))
      × ((id : String)
          → get_identity id s.store ≡ some r
          → (r.agent_identity_id ≡ id)
            × (find_by_agent_did r.agent_did s.store ≡ some r)
            × (find_by_agent_did_id r.agent_did_id s.store ≡ some r))
unfolding find_by_agent_did find_by_agent_did_id get_identity
lookups_agree {s} r reach =
    let v : Indexed s.store = (Reach-Inv reach).indexed in
    (
      λ did h.
          let (is, id, stored) =
            through_sound (λ r. r.agent_did) s.store.by_agent_did s.store v.dids did r h in
          (is, ap (λ i. get i s.store.records) (v.keyed id r stored) ∙ stored),
      λ did_id h.
          let (is, id, stored) =
            through_sound (λ r. r.agent_did_id) s.store.by_agent_did_id s.store v.did_ids did_id r
              h in
          (is, ap (λ i. get i s.store.records) (v.keyed id r stored) ∙ stored),
      λ id h. (
        v.keyed id r h,
        through_complete (λ r. r.agent_did) s.store.by_agent_did s.store v.dids id r h,
        through_complete (λ r. r.agent_did_id) s.store.by_agent_did_id s.store v.did_ids id r h,
      ),
    )
