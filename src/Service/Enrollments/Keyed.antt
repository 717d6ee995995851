-- ===== src/Service/Enrollments/Keyed.antt =====
-- Every stored enrollment stands under its own Agent DID.
use aep_python.Common.{String, ◌≡◌, some, arith, ◌==◌, nat_eq, string_eq, pair_eq, ==_iff, if_cases}
use aep_python.Common.Exec.{Result}
use aep_python.Common.Dict.{get, get-put}
use aep_python.Service.Types.{EnrollmentRecord}
use aep_python.Service.Enrollments.{EnrollmentStore, commit, save}
use aep_python.Service.Enrollments.Tasks.{
  System, start, Step, call, join, admit, finish, fail, leave, saves,
}
use aep_python.Service.Enrollments.Ownership.{enter-existing, enter-admitted, release_owned}
use aep_python.Service.Enrollments.Creation.{Inv, IsTask}

-- the record is stored under its own Agent DID
abbrev pub Keyed : EnrollmentStore → Type 0
Keyed e = (did : String) (r : EnrollmentRecord) → get did e.records ≡ some r → r.agent_did ≡ did

commit-Keyed :
    (did : String) (r : EnrollmentRecord) (e : EnrollmentStore) → Keyed e → Keyed (commit did r e).1
unfolding commit
commit-Keyed did r e k =
    if_cases {A = Result EnrollmentRecord × EnrollmentStore} (λ x. Keyed x.1) (r.agent_did == did)
      (λ good d q h.
        ground (arith, k d q, get-put did d r e.records, ==_iff did d, ==_iff r.agent_did did))
      (λ bad. k)

pub save-Keyed : (r : EnrollmentRecord) (e : EnrollmentStore) → Keyed e → Keyed (save r e)
unfolding save
save-Keyed r e k d q h =
    ground (arith, k d q, get-put r.agent_did d r e.records, ==_iff r.agent_did d)

pub Step-Keyed : {s t : System} (st : Step s t) → IsTask st → Inv s → Keyed s.store → Keyed t.store
Step-Keyed (call i d h) own v k = k
Step-Keyed {s} (join i d r h q) own v k = rw ((enter-existing d s.store r q).0) k
Step-Keyed {s} (admit i d h q) own v k = rw ((enter-admitted d s.store q).0) k
Step-Keyed {s} (finish i d r h) own v k = commit-Keyed d r s.store k
Step-Keyed (fail i d h) own v k = k
Step-Keyed {s} (leave i d h) own v k = rw (release_owned d s.store (v.owned.held i d (rw h))) k
Step-Keyed (saves r) own v k = absurd own

pub start-Keyed : Keyed start.store
unfolding get
start-Keyed did r h = cc
