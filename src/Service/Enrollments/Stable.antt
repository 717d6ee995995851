-- ===== src/Service/Enrollments/Stable.antt =====
-- What every interleaving of `find_or_create` and `save` calls guarantees.
use aep_python.Common.{ℕ, String, ◌≡◌, ap, nat_eq, string_eq, pair_eq}
use aep_python.Common.Exec.{ok}
use aep_python.Service.Enrollments.{release}
use aep_python.Service.Enrollments.Tasks.{creating, leaving, System, start, Reach}
use aep_python.Service.Enrollments.Ownership.{Reach-Owners, release_owned}

-- In every reachable state, two tasks that run the factory for one Agent DID are one task.
pub one_creator :
    {s : System} (i j : ℕ) (did : String)
    → Reach start s
    → s.tasks i ≡ creating did
    → s.tasks j ≡ creating did
    → i ≡ j
one_creator i j did r p q = (Reach-Owners r).unique i j did (rw p) (rw q)

-- In every reachable state, the `pop` of a task that leaves finds its event: it raises no KeyError.
pub leave_pops :
    {s : System} (i : ℕ) (did : String)
    → Reach start s
    → s.tasks i ≡ leaving did
    → (release did s.store).0 ≡ ok tt
leave_pops {s} i did r p =
    ap (λ x. x.0) (release_owned did s.store ((Reach-Owners r).held i did (rw p)))
