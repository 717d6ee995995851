-- ===== src/Service/Idempotency/Tasks.antt =====
-- Tasks that call `execute` of service/stores.py on one store, in any order of their steps. A step is
-- one region under the lock; the clock gives any time up to `limit`, in microseconds.
use aep_python.Common.{ℕ, ◌≤◌, ◌≡◌, false, Option, none, some, [], nat_eq, string_eq, pair_eq}
use aep_python.Common.Exec.{Result, ok}
use aep_python.Common.Flight.{set_task}
use aep_python.Service.Time.{DateTime}
use aep_python.Service.Types.{StoredResponse, IdempotencyInput}
use aep_python.Service.Idempotency.{
  Key, key_of, invalid_input, IdempotencyStore, Entry, waits, admitted, enter, commit, release,
}

pub data Task : Type 0 where
  idle : Task
  asking : IdempotencyInput → Task
  running : IdempotencyInput → Task
  leaving : IdempotencyInput → Task
  returned : Task

abbrev pub owned_key : Task → Option Key
owned_key (running v) = some (key_of v)
owned_key (leaving v) = some (key_of v)
owned_key _ = none

pub record System : Type 0 where
  pub store : IdempotencyStore
  pub tasks : ℕ → Task

abbrev pub start : System
start = record { store = record { pending = []; records = [] }; tasks = λ _. idle }

abbrev pub step_task : System → ℕ → Task → IdempotencyStore → System
step_task s i t store = record { store = store; tasks = set_task i t s.tasks }

-- the task after its round of the loop; one that waits asks again when the event is set
abbrev pub after_entry : IdempotencyInput → Result Entry → Task
after_entry v (ok admitted) = running v
after_entry v (ok waits) = asking v
after_entry v _ = returned

pub data Step (limit : ℕ) (s : System) : System → Type 0 where
  call :
      (i : ℕ) (v : IdempotencyInput)
      → s.tasks i ≡ idle
      → invalid_input v ≡ false
      → Step limit s (step_task s i (asking v) s.store)
  enters :
      (i : ℕ) (v : IdempotencyInput) (now : DateTime)
      → s.tasks i ≡ asking v
      → now.micros ≤ limit
      → Step limit s (step_task s i (after_entry v (enter v now s.store).0) (enter v now s.store).1)
  -- the operation returned `r`, and the region that writes it was entered
  finish :
      (i : ℕ) (v : IdempotencyInput) (r : StoredResponse)
      → s.tasks i ≡ running v
      → Step limit s (step_task s i (leaving v) (commit v r s.store))
  -- the operation raised, or the task was cancelled in it
  fail :
      (i : ℕ) (v : IdempotencyInput)
      → s.tasks i ≡ running v
      → Step limit s (step_task s i (leaving v) s.store)
  -- the `finally` block
  leave :
      (i : ℕ) (v : IdempotencyInput)
      → s.tasks i ≡ leaving v
      → Step limit s (step_task s i returned (release v s.store).1)

pub data Reach (limit : ℕ) (s : System) : System → Type 0 where
  here : Reach limit s s
  next : {t u : System} → Reach limit s t → Step limit t u → Reach limit s u
