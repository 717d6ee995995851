-- ===== src/Platform/Identities/Indexed.antt =====
-- The three indexes of the identity store agree with its records.
use aep_python.Common.{
  String, ◌≡◌, refl, inl, inr, false, not, Option, none, some, arith, Eq, nat_eq, string_eq,
  pair_eq, list_eq, ==_iff, if_cases, Option-cases,
}
use aep_python.Common.Exec.{Result}
use aep_python.Common.Dict.{Dict, get, has, get-put}
use aep_python.Service.Time.{DateTime}
use aep_python.Platform.Types.{ManagedAgentStatus, IdentityRecord}
use aep_python.Platform.Identities.{
  IdentityStore, scope_of, taken, insert_identity, update_status, updated,
}
use aep_python.Platform.Identities.Index.{Index, add-Index, change-Index}

pub record Indexed (s : IdentityStore) : Type 0 where
  pub keyed :
      (id : String) (r : IdentityRecord) → get id s.records ≡ some r → r.agent_identity_id ≡ id
  pub scopes : Index scope_of s.by_scope s.records
  pub dids : Index (λ r. r.agent_did) s.by_agent_did s.records
  pub did_ids : Index (λ r. r.agent_did_id) s.by_agent_did_id s.records

has-false : {K V : Type 0} ⦃e : Eq K⦄ (k : K) (d : Dict K V) → has k d ≡ false → get k d ≡ none
has-false k d h = ground arith

pub insert-Indexed :
    (r : IdentityRecord) (s : IdentityStore)
    → Indexed s
    → taken r s ≡ false
    → get (scope_of r) s.by_scope ≡ none
    → Indexed (insert_identity (scope_of r) r s)
unfolding insert_identity taken
insert-Indexed r s v t free = record {
  keyed = λ j q p.
      ground (
        arith,
        v.keyed j q,
        get-put r.agent_identity_id j r s.records,
        ==_iff r.agent_identity_id j,
      );
  scopes = add-Index scope_of s.by_scope s.records v.scopes r.agent_identity_id r new free;
  dids =
      add-Index (λ r. r.agent_did) s.by_agent_did s.records v.dids r.agent_identity_id r new
        (has-false r.agent_did s.by_agent_did (ground arith));
  did_ids =
      add-Index (λ r. r.agent_did_id) s.by_agent_did_id s.records v.did_ids r.agent_identity_id r
        new (has-false r.agent_did_id s.by_agent_did_id (ground arith));
}
  where
    new : get r.agent_identity_id s.records ≡ none
    new = has-false r.agent_identity_id s.records (ground arith)

pub update-Indexed :
    (id : String) (status : ManagedAgentStatus) (at : DateTime) (s : IdentityStore)
    → Indexed s
    → Indexed (update_status id status at s).1
unfolding update_status
update-Indexed id status at s v =
    if_cases {A = Result (Option IdentityRecord) × IdentityStore} (λ x. Indexed x.1) (not at.aware)
      (λ _. v)
      λ _. elim (Option-cases (get id s.records)) [
        | inl n ↦ rw n v
        | inr (r, e) ↦ rw e (record {
          keyed = λ j q p. ground (
            arith,
            v.keyed j q,
            v.keyed id r,
            get-put id j (updated status at r) s.records,
            ==_iff id j,
          );
          scopes =
              change-Index scope_of s.by_scope s.records v.scopes id (updated status at r) r e refl;
          dids =
              change-Index (λ r. r.agent_did) s.by_agent_did s.records v.dids id
                (updated status at r) r e refl;
          did_ids =
              change-Index (λ r. r.agent_did_id) s.by_agent_did_id s.records v.did_ids id
                (updated status at r) r e refl;
        })
      ]
