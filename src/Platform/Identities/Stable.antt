-- ===== src/Platform/Identities/Stable.antt =====
-- An identity that is stored keeps its place and all it was made with, whatever the tasks do.
use aep_python.Common.{
  String, ◌≡◌, refl, ap, inl, inr, false, not, Option, some, arith, ◌==◌, nat_eq, string_eq,
  pair_eq, list_eq, ==_iff, if_cases, eq_of_beq, Bool-cases, Option-cases,
}
use aep_python.Common.Exec.{Result, ok}
use aep_python.Common.Dict.{get, put, get-put}
use aep_python.Service.Time.{DateTime}
use aep_python.Platform.Types.{ManagedAgentStatus, IdentityRecord}
use aep_python.Platform.Identities.{
  Scope, IdentityStore, scope_of, taken, insert_identity, existing, enter, update_status, updated,
}
use aep_python.Platform.Identities.Tasks.{
  System, start, Step, call, enters, finish, fail, leave, updates, Reach, here, next,
}
use aep_python.Platform.Identities.Invariant.{
  Inv, Step-Inv, Reach-Inv, release_owned, commit_cases, enter_cases,
}

-- the identity is stored, and only its status and the time of its update may differ
abbrev pub Assigned : String → IdentityRecord → IdentityStore → Type 0
Assigned id r s =
    (q : IdentityRecord) × (get id s.records ≡ some q)
    × (q ≡ record r { status = q.status; updated_at = q.updated_at })

insert-Assigned :
    (id : String) (r q : IdentityRecord) (scope : Scope) (s : IdentityStore)
    → taken q s ≡ false
    → Assigned id r s
    → Assigned id r (insert_identity scope q s)
unfolding insert_identity taken
insert-Assigned id r q scope s free (p, h, same) = (
  p,
  ground (arith, get-put q.agent_identity_id id q s.records, ==_iff q.agent_identity_id id),
  same,
)

put-Assigned :
    (id j : String) (r p : IdentityRecord) (status : ManagedAgentStatus) (at : DateTime)
    (s : IdentityStore)
    → get j s.records ≡ some p
    → Assigned id r s
    → Assigned id r (record s { records = put j (updated status at p) s.records })
put-Assigned id j r p status at s e (q, h, same) = elim (Bool-cases (j == id)) [
  | inl is ↦
      let here : j ≡ id = eq_of_beq j id is in
      let was : p ≡ q = cc in
      (
        updated status at p,
        ground (arith, get-put j id (updated status at p) s.records),
        rw was (ap (updated status at) same),
      )
  | inr other ↦ (q, ground (arith, get-put j id (updated status at p) s.records), same)
]

update-Assigned :
    (id j : String) (r : IdentityRecord) (status : ManagedAgentStatus) (at : DateTime)
    (s : IdentityStore)
    → Assigned id r s
    → Assigned id r (update_status j status at s).1
unfolding update_status
update-Assigned id j r status at s v =
    if_cases {A = Result (Option IdentityRecord) × IdentityStore} (λ x. Assigned id r x.1)
      (not at.aware) (λ _. v)
      λ _. elim (Option-cases (get j s.records)) [
        | inl n ↦ rw n v
        | inr (p, e) ↦ rw e (put-Assigned id j r p status at s e v)
      ]

Step-Assigned :
    {s t : System} (id : String) (r : IdentityRecord)
    → Step s t
    → Inv s
    → Assigned id r s.store
    → Assigned id r t.store
Step-Assigned id r (call i scope h) v a = a
Step-Assigned {s} id r (enters i scope h) v a =
    enter_cases (λ x. Assigned id r x.1) scope s.store (λ q. a) a a (λ n f. a)
Step-Assigned {s} id r (finish i scope q h) v a =
    commit_cases (λ x. Assigned id r x) scope q s.store a
      (λ is free. insert-Assigned id r q scope s.store free a)
Step-Assigned id r (fail i scope h) v a = a
Step-Assigned {s} id r (leave i scope h) v a =
    rw (release_owned scope s.store (v.owned.held i scope (rw h))) a
Step-Assigned {s} id r (updates j status at) v a = update-Assigned id j r status at s.store a

Reach-Assigned :
    {s t : System} (id : String) (r : IdentityRecord)
    → Inv s
    → Reach s t
    → Assigned id r s.store
    → Assigned id r t.store × Inv t
Reach-Assigned id r v here a = (a, v)
Reach-Assigned id r v (next m st) a =
    let (a', v') = Reach-Assigned id r v m a in (Step-Assigned id r st v' a', Step-Inv st v')

-- Once an identity is assigned to a principal and a Service DID: in every state that can follow,
-- another call for that pair returns it, with the same identifiers, key, times of creation and
-- algorithms; only its status and the time of its update may have changed.
pub identity_stable :
    {s t : System} (id : String) (r : IdentityRecord)
    → Reach start s
    → get id s.store.records ≡ some r
    → Reach s t
    → (q : IdentityRecord) × (enter (scope_of r) t.store ≡ (ok (existing q), t.store))
      × (q ≡ record r { status = q.status; updated_at = q.updated_at })
unfolding enter
identity_stable {s} {t} id r reach h more =
    let ((q, stored, same), v) = Reach-Assigned id r (Reach-Inv reach) more (r, h, refl) in
    let scope_is : scope_of q ≡ scope_of r = rw same refl in
    let at : get (scope_of q) t.store.by_scope ≡ some id = v.indexed.scopes.complete id q stored in
    (q, ground arith, same)
