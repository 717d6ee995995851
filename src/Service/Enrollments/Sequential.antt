-- ===== src/Service/Enrollments/Sequential.antt =====
-- One call of `find_or_create` with no other task in between.
use aep_python.Common.{String, ◌≡◌, ◌≢◌, [], arith, nat_eq, string_eq, pair_eq, beq_refl}
use aep_python.Common.Exec.{blocked, Exec}
use aep_python.Common.Dict.{get, put, remove}
use aep_python.Service.Types.{EnrollmentRecord}
use aep_python.Service.Enrollments.{EnrollmentStore, find_or_create}

-- With no event pending and a factory that does not wait for another task, `find_or_create` does not
-- wait either, and no event is pending after it, whether it returns a stored record, a new one, or
-- raises.
pub find_or_create_frees :
    {W : Type 0} (did : String) (factory : Exec W EnrollmentRecord) (w : W) (s : EnrollmentStore)
    → s.pending ≡ []
    → (factory w).0 ≢ blocked
    → ((find_or_create did factory (w, s)).0 ≢ blocked)
      × ((find_or_create did factory (w, s)).1.1.pending ≡ [])
unfolding find_or_create get put remove
find_or_create_frees did factory w s quiet runs =
    (ground (arith, beq_refl did), ground (arith, beq_refl did))
