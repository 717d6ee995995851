-- ===== src/Service/Enrollments/Examples.antt =====
-- The enrollment store at small runs.
use aep_python.Common.{
  ℕ, ◌+◌, String, ◌≡◌, refl, ◌≢◌, true, false, none, [], nat_eq, string_eq, pair_eq,
}
use aep_python.Common.Exec.{ok, blocked, Exec}
use aep_python.Common.Dict.{get}
use aep_python.Service.Time.{DateTime}
use aep_python.Service.Types.{EnrollmentRecord, active}
use aep_python.Service.Enrollments.{empty_store, enter, commit, release, find_or_create}
use aep_python.Service.Enrollments.Tasks.{
  System, start, step_task, asking, creating, leaving, Reach, here, next, call, admit, finish,
}
use aep_python.Service.Enrollments.Stable.{one_creator, leave_pops}
use aep_python.Service.Enrollments.Sequential.{find_or_create_frees}

abbrev noon : DateTime
noon = record { micros = 43_200_000_000; aware = true }

abbrev did : String
did = "did:web:a"

abbrev enrollment : EnrollmentRecord
enrollment = record {
  agent_did = did;
  claims = none;
  created_at = noon;
  enrollment_id = "e1";
  owner_action_required = false;
  requirements_pending = [];
  since = noon;
  status = active;
  updated_at = noon;
  verification_pending = [];
  acknowledged_document_ids = [];
  required_document_ids = [];
}

-- task 0 asks, is admitted, creates the record and leaves
abbrev asked : System
asked = step_task start 0 (asking did) start.store

abbrev making : System
making = step_task asked 0 (creating did) (enter did asked.store).1

abbrev made : System
made = step_task making 0 (leaving did) (commit did enrollment making.store).1

making_reached : Reach start making
unfolding enter get
making_reached = next (next here (call 0 did refl)) (admit 0 did refl refl)

made_reached : Reach start made
made_reached = next making_reached (finish 0 did enrollment refl)

one_creator_example : ◌≡◌ {A = ℕ} 0 0
one_creator_example = one_creator 0 0 did making_reached refl refl

leave_pops_example : (release did made.store).0 ≡ ok tt
leave_pops_example = leave_pops 0 did made_reached refl

abbrev factory : Exec ℕ EnrollmentRecord
factory w = (ok enrollment, w + 1)

find_or_create_frees_example :
    ((find_or_create did factory (0, empty_store)).0 ≢ blocked)
    × ((find_or_create did factory (0, empty_store)).1.1.pending ≡ [])
unfolding empty_store
find_or_create_frees_example = find_or_create_frees did factory 0 empty_store refl (λ p. cc)
