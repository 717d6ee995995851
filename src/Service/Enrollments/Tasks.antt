-- ===== src/Service/Enrollments/Tasks.antt =====
-- Tasks that call `find_or_create` of service/stores.py on one store, in any order of their steps,
-- with `save` of any record in between. A step is one region under the lock.
use aep_python.Common.{ℕ, String, ◌≡◌, Option, none, some, [], nat_eq, string_eq, pair_eq}
use aep_python.Common.Flight.{set_task}
use aep_python.Service.Types.{EnrollmentRecord}
use aep_python.Service.Enrollments.{
  EnrollmentStore, existing, admitted, enter, commit, release, save,
}

pub data Task : Type 0 where
  idle : Task
  asking : String → Task
  creating : String → Task
  leaving : String → Task
  returned : Task

-- the key that the task has pending
abbrev pub owned_key : Task → Option String
owned_key (creating did) = some did
owned_key (leaving did) = some did
owned_key _ = none

pub record System : Type 0 where
  pub store : EnrollmentStore
  pub tasks : ℕ → Task

abbrev pub start : System
start = record { store = record { pending = []; records = [] }; tasks = λ _. idle }

abbrev pub step_task : System → ℕ → Task → EnrollmentStore → System
step_task s i t store = record { store = store; tasks = set_task i t s.tasks }

pub data Step (s : System) : System → Type 0 where
  call : (i : ℕ) (did : String) → s.tasks i ≡ idle → Step s (step_task s i (asking did) s.store)
  join :
      (i : ℕ) (did : String) (r : EnrollmentRecord)
      → s.tasks i ≡ asking did
      → (enter did s.store).0 ≡ existing r
      → Step s (step_task s i returned (enter did s.store).1)
  admit :
      (i : ℕ) (did : String)
      → s.tasks i ≡ asking did
      → (enter did s.store).0 ≡ admitted
      → Step s (step_task s i (creating did) (enter did s.store).1)
  -- the factory returned `r`, and the region that writes it was entered, or its check raised
  finish :
      (i : ℕ) (did : String) (r : EnrollmentRecord)
      → s.tasks i ≡ creating did
      → Step s (step_task s i (leaving did) (commit did r s.store).1)
  -- the factory raised, or the task was cancelled in it
  fail :
      (i : ℕ) (did : String)
      → s.tasks i ≡ creating did
      → Step s (step_task s i (leaving did) s.store)
  -- the `finally` block
  leave :
      (i : ℕ) (did : String)
      → s.tasks i ≡ leaving did
      → Step s (step_task s i returned (release did s.store).1)
  saves : (r : EnrollmentRecord) → Step s (record s { store = save r s.store })

pub data Reach (s : System) : System → Type 0 where
  here : Reach s s
  next : {t u : System} → Reach s t → Step t u → Reach s u
