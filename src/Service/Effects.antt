-- ===== src/Service/Effects.antt =====
-- What a sequence of calls leaves in the enrollment store: rules for each way to build one.
use aep_python.Common.{
  ◌≡◌, refl, ◌∙◌, Bool, true, false, nat_eq, string_eq, pair_eq, list_eq, if◌then◌else◌,
}
use aep_python.Common.Exec.{Result, ok, raised, blocked, Exec, lift, continue, ◌>>=◌}
use aep_python.Service.Enrollments.{EnrollmentStore}
use aep_python.Service.Settings.{State, on_world}

module _ {W A : Type 0} where
  -- the enrollments stay as they are, whether the call returns or raises
  abbrev pub Quiet : Exec (State W) A → Type 0
  Quiet m = (s : State W) → (m s).1.enrollments ≡ s.enrollments

  -- from the enrollments `e`, those that the call leaves satisfy `Q`
  abbrev pub Leaves : (EnrollmentStore → Type 0) → EnrollmentStore → Exec (State W) A → Type 0
  Leaves Q e m = (s : State W) → s.enrollments ≡ e → Q (m s).1.enrollments

module _ {W : Type 0} (Q : EnrollmentStore → Type 0) (e : EnrollmentStore) (base : Q e) where
  pub Leaves-Quiet : {A : Type 0} (m : Exec (State W) A) → Quiet m → Leaves Q e m
  Leaves-Quiet m quiet s h = rw (quiet s ∙ h) base

  continue-Leaves :
      {A B : Type 0} (r : Result A) (f : A → Exec (State W) B)
      → ((a : A) → Leaves Q e (f a))
      → Leaves Q e (continue r f)
  continue-Leaves (ok a) f rest s h = rest a s h
  continue-Leaves (raised x) f rest s h = rw h base
  continue-Leaves blocked f rest s h = rw h base

  pub Leaves-bind :
      {A B : Type 0} (m : Exec (State W) A) (f : A → Exec (State W) B)
      → Quiet m
      → ((a : A) → Leaves Q e (f a))
      → Leaves Q e (m >>= f)
  Leaves-bind m f quiet rest s h = continue-Leaves (m s).0 f rest (m s).1 (quiet s ∙ h)

  pub Leaves-if :
      {A : Type 0} (b : Bool) (m n : Exec (State W) A)
      → Leaves Q e m
      → Leaves Q e n
      → Leaves Q e (if b then m else n)
  Leaves-if true m n p q = p
  Leaves-if false m n p q = q

pub Quiet-lift : {W A : Type 0} (r : Result A) → Quiet {W = W} (lift r)
Quiet-lift r s = refl

pub Quiet-world : {W A : Type 0} (m : Exec W A) → Quiet (on_world m)
Quiet-world m s = refl

continue-Quiet :
    {W A B : Type 0} (r : Result A) (f : A → Exec (State W) B)
    → ((a : A) → Quiet (f a))
    → Quiet (continue r f)
continue-Quiet (ok a) f rest s = rest a s
continue-Quiet (raised x) f rest s = refl
continue-Quiet blocked f rest s = refl

pub Quiet-bind :
    {W A B : Type 0} (m : Exec (State W) A) (f : A → Exec (State W) B)
    → Quiet m
    → ((a : A) → Quiet (f a))
    → Quiet (m >>= f)
Quiet-bind m f quiet rest s = continue-Quiet (m s).0 f rest (m s).1 ∙ quiet s
