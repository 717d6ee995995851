-- ===== src/Platform/Identities/Tasks.antt =====
-- Tasks that call `find_or_create` and `update_status` of platform/stores.py on one store, in any
-- order of their steps. A step is one region under the lock.
use aep_python.Common.{ℕ, String, ◌≡◌, Option, none, some, nat_eq, string_eq, pair_eq, list_eq}
use aep_python.Common.Exec.{Result, ok}
use aep_python.Common.Flight.{set_task}
use aep_python.Common.Flight.{set_task}
use aep_python.Service.Time.{DateTime}
use aep_python.Platform.Types.{ManagedAgentStatus, IdentityRecord}
use aep_python.Platform.Identities.{
  Scope, IdentityStore, empty_store, Entry, admitted, waits, enter, commit, release, update_status,
}

pub data Task : Type 0 where
  idle : Task
  asking : Scope → Task
  creating : Scope → Task
  leaving : Scope → Task
  returned : Task

-- the scope that the task has pending
abbrev pub owned_key : Task → Option Scope
owned_key (creating scope) = some scope
owned_key (leaving scope) = some scope
owned_key _ = none

pub record System : Type 0 where
  pub store : IdentityStore
  pub tasks : ℕ → Task

abbrev pub start : System
start = record { store = empty_store; tasks = λ _. idle }

abbrev pub step_task : System → ℕ → Task → IdentityStore → System
step_task s i t store = record { store = store; tasks = set_task i t s.tasks }

-- the task after its round of the loop; one that waits asks again when the event is set
abbrev pub after_entry : Scope → Result Entry → Task
after_entry scope (ok admitted) = creating scope
after_entry scope (ok waits) = asking scope
after_entry scope _ = returned

pub data Step (s : System) : System → Type 0 where
  call : (i : ℕ) (scope : Scope) → s.tasks i ≡ idle → Step s (step_task s i (asking scope) s.store)
  enters :
      (i : ℕ) (scope : Scope)
      → s.tasks i ≡ asking scope
      → Step s (step_task s i (after_entry scope (enter scope s.store).0) (enter scope s.store).1)
  -- the factory returned `r`, and it was written, or a check of it raised
  finish :
      (i : ℕ) (scope : Scope) (r : IdentityRecord)
      → s.tasks i ≡ creating scope
      → Step s (step_task s i (leaving scope) (commit scope r s.store).1)
  -- the factory raised, or the task was cancelled in it
  fail :
      (i : ℕ) (scope : Scope)
      → s.tasks i ≡ creating scope
      → Step s (step_task s i (leaving scope) s.store)
  -- the `finally` block
  leave :
      (i : ℕ) (scope : Scope)
      → s.tasks i ≡ leaving scope
      → Step s (step_task s i returned (release scope s.store).1)
  updates :
      (id : String) (status : ManagedAgentStatus) (at : DateTime)
      → Step s (record s { store = (update_status id status at s.store).1 })

pub data Reach (s : System) : System → Type 0 where
  here : Reach s s
  next : {t u : System} → Reach s t → Step t u → Reach s u
