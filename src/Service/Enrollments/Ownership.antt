-- ===== src/Service/Enrollments/Ownership.antt =====
-- Who owns which pending event of the enrollment store, whatever is saved in between.
use aep_python.Common.{
  ℕ, String, ◌≡◌, none, some, arith, ◌==◌, nat_eq, string_eq, pair_eq, ==_iff, if_cases,
}
use aep_python.Common.Exec.{Result, ok}
use aep_python.Common.Dict.{Dict, get, put, remove}
use aep_python.Common.Flight.{set_task, Owned, claim-Owned, release-Owned, Owned-ext}
use aep_python.Service.Types.{EnrollmentRecord}
use aep_python.Service.Enrollments.{
  EnrollmentStore, existing, admitted, enter, commit, release, save,
}
use aep_python.Service.Enrollments.Tasks.{
  Task, asking, creating, leaving, returned, owned_key, System, start, step_task, Step, call, join,
  admit, finish, fail, leave, saves, Reach, here, next,
}

-- who owns which pending event
abbrev pub Owners : System → Type 0
Owners s = Owned s.store.pending (λ i. owned_key (s.tasks i))

-- a task that owns nothing before or after its step
keep-Owned :
    (s : System) (i : ℕ) (t : Task)
    → owned_key (s.tasks i) ≡ owned_key t
    → Owned s.store.pending (λ i. owned_key (s.tasks i))
    → Owned s.store.pending (λ j. owned_key (set_task i t s.tasks j))
keep-Owned s i t same o = Owned-ext s.store.pending _ _ (λ j. ground (arith, ==_iff i j)) o

abbrev Records : Type 0
Records = Dict String EnrollmentRecord

pub enter-existing :
    (did : String) (s : EnrollmentStore) (r : EnrollmentRecord)
    → (enter did s).0 ≡ existing r
    → ((enter did s).1 ≡ s) × (get did s.records ≡ some r)
unfolding enter
enter-existing did s r h = (ground arith, ground arith)

pub enter-admitted :
    (did : String) (s : EnrollmentStore)
    → (enter did s).0 ≡ admitted
    → ((enter did s).1 ≡ record s { pending = put did tt s.pending })
      × (get did s.records ≡ none)
      × (get did s.pending ≡ none)
unfolding enter
enter-admitted did s h = (ground arith, ground arith, ground arith)

-- The key of a task that owns it is always there to be popped.
pub release_owned :
    (did : String) (s : EnrollmentStore)
    → get did s.pending ≡ some tt
    → release did s ≡ (ok tt, record s { pending = remove did s.pending })
unfolding release
release_owned did s h = ground arith

admit-Owners :
    (s : System) (i : ℕ) (did : String)
    → Owners s
    → (enter did s.store).0 ≡ admitted
    → Owners (step_task s i (creating did) (enter did s.store).1)
admit-Owners s i did o e =
    let (same, absent, free) = enter-admitted did s.store e in
    rw same (
      Owned-ext (put did tt s.store.pending) (set_task i (some did) (λ j. owned_key (s.tasks j))) _
        (λ j. ground (arith, ==_iff i j))
        (claim-Owned s.store.pending (λ j. owned_key (s.tasks j)) i did o free))

finish-Owners :
    (s : System) (i : ℕ) (did : String) (r : EnrollmentRecord)
    → Owners s
    → s.tasks i ≡ creating did
    → Owners (step_task s i (leaving did) (commit did r s.store).1)
unfolding commit
finish-Owners s i did r o h =
    if_cases {A = Result EnrollmentRecord × EnrollmentStore}
      (λ x. Owners (step_task s i (leaving did) x.1)) (r.agent_did == did)
      (λ good. keep-Owned s i (leaving did) (rw h) o) (λ bad. keep-Owned s i (leaving did) (rw h) o)

leave-Owners :
    (s : System) (i : ℕ) (did : String)
    → Owners s
    → s.tasks i ≡ leaving did
    → Owners (step_task s i returned (release did s.store).1)
leave-Owners s i did o h = rw (release_owned did s.store (o.held i did (rw h))) (
    Owned-ext (remove did s.store.pending) (set_task i none (λ j. owned_key (s.tasks j))) _
      (λ j. ground (arith, ==_iff i j))
      (release-Owned s.store.pending (λ j. owned_key (s.tasks j)) i did o (rw h)))

pub Step-Owners : {s t : System} → Step s t → Owners s → Owners t
unfolding save
Step-Owners {s} (call i did h) o = keep-Owned s i (asking did) (rw h) o
Step-Owners {s} (join i did r h e) o =
    rw ((enter-existing did s.store r e).0) (keep-Owned s i returned (rw h) o)
Step-Owners {s} (admit i did h e) o = admit-Owners s i did o e
Step-Owners {s} (finish i did r h) o = finish-Owners s i did r o h
Step-Owners {s} (fail i did h) o = keep-Owned s i (leaving did) (rw h) o
Step-Owners {s} (leave i did h) o = leave-Owners s i did o h
Step-Owners {s} (saves r) o = o

pub start-Owners : Owners start
start-Owners = record { distinct = tt; unique = λ i j k p q. cc; held = λ i k p. cc }

pub Reach-Owners : {s : System} → Reach start s → Owners s
Reach-Owners here = start-Owners
Reach-Owners (next r st) = Step-Owners st (Reach-Owners r)
