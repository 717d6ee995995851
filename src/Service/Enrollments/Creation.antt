-- ===== src/Service/Enrollments/Creation.antt =====
-- No task creates the enrollment of an Agent DID that is stored, as long as records are saved over
-- stored ones alone.
use aep_python.Common.{
  ℕ, String, ◌≡◌, none, some, arith, ◌==◌, nat_eq, string_eq, pair_eq, ==_iff, if_cases,
}
use aep_python.Common.Exec.{Result}
use aep_python.Common.Dict.{Dict, get, get-put}
use aep_python.Common.Flight.{set_task}
use aep_python.Service.Types.{EnrollmentRecord}
use aep_python.Service.Enrollments.{EnrollmentStore, commit, save}
use aep_python.Service.Enrollments.Tasks.{
  Task, asking, creating, leaving, returned, System, start, Step, call, join, admit, finish, fail,
  leave, saves,
}
use aep_python.Service.Enrollments.Ownership.{
  Owners, Step-Owners, start-Owners, enter-existing, enter-admitted, release_owned,
}

-- only tasks whose Agent DID is not stored are creating
abbrev Records : Type 0
Records = Dict String EnrollmentRecord

-- only tasks that were creating before are creating after
abbrev Fresh : Records → (ℕ → Task) → Type 0
Fresh records tasks = (i : ℕ) (did : String) → tasks i ≡ creating did → get did records ≡ none

keep-Fresh :
    (records : Records) (tasks : ℕ → Task) (i : ℕ) (t : Task)
    → Fresh records tasks
    → ((did : String) → ¬ (t ≡ creating did))
    → Fresh records (set_task i t tasks)
keep-Fresh records tasks i t f other j did p = ground (arith, f j did, other did)

-- a step of a task, and no `save`
abbrev pub IsTask : {s t : System} → Step s t → Type 0
IsTask (saves r) = ⊥
IsTask _ = Unit

pub record Inv (s : System) : Type 0 where
  pub owned : Owners s
  pub fresh : Fresh s.store.records s.tasks

finish-Fresh :
    (s : System) (v : Inv s) (i : ℕ) (did : String) (r : EnrollmentRecord)
    → s.tasks i ≡ creating did
    → Fresh (commit did r s.store).1.records (set_task i (leaving did) s.tasks)
unfolding commit
finish-Fresh s v i did r h =
    if_cases {A = Result EnrollmentRecord × EnrollmentStore}
      (λ x. Fresh x.1.records (set_task i (leaving did) s.tasks)) (r.agent_did == did)
      (λ good j d p. ground (
        arith,
        v.fresh j d,
        v.owned.unique i j did,
        ==_iff i j,
        ==_iff did d,
        get-put did d r s.store.records,
      ))
      (λ bad. keep-Fresh s.store.records s.tasks i (leaving did) v.fresh (λ d p. cc))

Step-Fresh : {s t : System} (st : Step s t) → IsTask st → Inv s → Fresh t.store.records t.tasks
Step-Fresh {s} (call i did h) own v =
    keep-Fresh s.store.records s.tasks i (asking did) v.fresh (λ d p. cc)
Step-Fresh {s} (join i did r h e) own v =
    rw ((enter-existing did s.store r e).0)
      (keep-Fresh s.store.records s.tasks i returned v.fresh (λ d p. cc))
Step-Fresh {s} (admit i did h e) own v =
    let (same, absent, free) = enter-admitted did s.store e in
    rw same (λ j d p. ground (arith, v.fresh j d, ==_iff i j))
Step-Fresh {s} (finish i did r h) own v = finish-Fresh s v i did r h
Step-Fresh {s} (fail i did h) own v =
    keep-Fresh s.store.records s.tasks i (leaving did) v.fresh (λ d p. cc)
Step-Fresh {s} (leave i did h) own v =
    rw (release_owned did s.store (v.owned.held i did (rw h)))
      (keep-Fresh s.store.records s.tasks i returned v.fresh (λ d p. cc))
Step-Fresh {s} (saves r) own v = absurd own

pub Step-Inv : {s t : System} (st : Step s t) → IsTask st → Inv s → Inv t
Step-Inv st own v = record { owned = Step-Owners st v.owned; fresh = Step-Fresh st own v }

pub start-Inv : Inv start
start-Inv = record { owned = start-Owners; fresh = λ i did p. cc }

module _ (s : System) (v : Inv s) where
  -- a save over a stored record
  pub saves-Inv :
      (old r : EnrollmentRecord)
      → get r.agent_did s.store.records ≡ some old
      → Inv (record s { store = save r s.store })
  unfolding save
  saves-Inv old r h = record {
    owned = v.owned;
    fresh = λ j d p.
        ground (arith, v.fresh j d, get-put r.agent_did d r s.store.records, ==_iff r.agent_did d);
  }
