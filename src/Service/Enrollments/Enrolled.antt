-- ===== src/Service/Enrollments/Enrolled.antt =====
-- A stored enrollment keeps its identifier through the steps of tasks, and through a save that keeps
-- it.
use aep_python.Common.{
  ℕ, String, ◌≡◌, inl, inr, some, arith, ◌==◌, nat_eq, string_eq, pair_eq, ==_iff, if_cases,
  Bool-cases,
}
use aep_python.Common.Exec.{Result}
use aep_python.Common.Dict.{get, get-put}
use aep_python.Service.Types.{EnrollmentRecord}
use aep_python.Service.Enrollments.{EnrollmentStore, commit, release, save}
use aep_python.Service.Enrollments.Tasks.{
  creating, leaving, System, step_task, Step, call, join, admit, finish, fail, leave, saves,
}
use aep_python.Service.Enrollments.Creation.{Inv, IsTask}
use aep_python.Service.Enrollments.Ownership.{enter-existing, enter-admitted, release_owned}

-- the record of `did` is there, with its identifier
abbrev pub Enrolled : String → String → System → Type 0
Enrolled did identifier s =
    (r : EnrollmentRecord) × (get did s.store.records ≡ some r) × (r.enrollment_id ≡ identifier)

module _ (s : System) (v : Inv s) (did identifier : String) where
  finish-Enrolled :
      (i : ℕ) (d : String) (r : EnrollmentRecord)
      → s.tasks i ≡ creating d
      → Enrolled did identifier s
      → Enrolled did identifier (step_task s i (leaving d) (commit d r s.store).1)
  unfolding commit
  finish-Enrolled i d r h (old, stored, same) =
      if_cases {A = Result EnrollmentRecord × EnrollmentStore}
        (λ x. Enrolled did identifier (step_task s i (leaving d) x.1)) (r.agent_did == d)
        (λ good.
          (old, ground (arith, v.fresh i d, get-put d did r s.store.records, ==_iff d did), same))
        λ bad. (old, stored, same)

  pub saves-Enrolled :
      (old r : EnrollmentRecord)
      → get r.agent_did s.store.records ≡ some old
      → r.enrollment_id ≡ old.enrollment_id
      → Enrolled did identifier s
      → Enrolled did identifier (record s { store = save r s.store })
  unfolding save
  saves-Enrolled old r h e (was, stored, same) = elim (Bool-cases (r.agent_did == did)) [
    | inl same_did ↦ (
      r,
      ground (arith, get-put r.agent_did did r s.store.records),
      ground (arith, ==_iff r.agent_did did),
    )
    | inr other ↦ (was, ground (arith, get-put r.agent_did did r s.store.records), same)
  ]

pub Step-Enrolled :
    {s t : System} (did identifier : String)
    → (st : Step s t) → IsTask st
    → Inv s
    → Enrolled did identifier s
    → Enrolled did identifier t
unfolding release
Step-Enrolled did identifier (call i d h) own v e = e
Step-Enrolled {s} did identifier (join i d r h q) own v e = rw ((enter-existing d s.store r q).0) e
Step-Enrolled {s} did identifier (admit i d h q) own v e = rw ((enter-admitted d s.store q).0) e
Step-Enrolled {s} did identifier (finish i d r h) own v e =
    finish-Enrolled s v did identifier i d r h e
Step-Enrolled did identifier (fail i d h) own v e = e
Step-Enrolled {s} did identifier (leave i d h) own v e =
    rw (release_owned d s.store (v.owned.held i d (rw h))) e
Step-Enrolled did identifier (saves r) own v e = absurd own
