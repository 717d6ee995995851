-- ===== src/Service/Lifecycle/Runs.antt =====
-- Runs of `enroll` of service/service.py by any number of tasks: creations step by step, and updates
-- that read a record and save a changed copy of it later.
use aep_python.Common.{
  ℕ, String, ◌≡◌, sym, ap, ◌∙◌, inl, inr, Option, none, some, arith, ◌==◌, nat_eq, string_eq,
  pair_eq, Bool-cases,
}
use aep_python.Common.Dict.{get}
use aep_python.Common.Flight.{set_task}
use aep_python.Service.Time.{DateTime}
use aep_python.Service.Types.{ClaimValues, EnrollmentRecord}
use aep_python.Service.Enrollments.{save, find}
use aep_python.Service.Enrollments.Tasks.{System, start, Step}
use aep_python.Service.Enrollments.Creation.{Inv, IsTask, Step-Inv, start-Inv, saves-Inv}
use aep_python.Service.Enrollments.Keyed.{Keyed, start-Keyed, save-Keyed, Step-Keyed}
use aep_python.Service.Enrollments.Enrolled.{Enrolled, Step-Enrolled, saves-Enrolled}
use aep_python.Service.Settings.{EnrollmentDecision, EnrollRequest, Settings, Ports}
use aep_python.Service.Lifecycle.{updated_record}

-- the tasks of `find_or_create`, and the record that each update has read and not yet saved
pub record Run : Type 0 where
  pub system : System
  pub reading : ℕ → Option EnrollmentRecord

abbrev pub idle_run : Run
idle_run = record { system = start; reading = λ i. none }

module _ {W : Type 0} (settings : Settings) (ports : Ports W) where
  -- `save` is called with what `_update_enrollment` makes of a record that was read, now or earlier
  pub data Act (s : Run) : Run → Type 0 where
    creates : {t : System} (st : Step s.system t) → IsTask st → Act s (record s { system = t })
    reads :
        (i : ℕ) (did : String) (old : EnrollmentRecord)
        → find did s.system.store ≡ some old
        → Act s (record s { reading = set_task i (some old) s.reading })
    updates :
        (i : ℕ) (old : EnrollmentRecord) (request : EnrollRequest) (decision : EnrollmentDecision)
        (values : ClaimValues) (now : DateTime)
        → s.reading i ≡ some old
        → Act s (record {
          system = record s.system {
            store =
                save (updated_record settings ports request old decision values now) s.system.store;
          };
          reading = set_task i none s.reading;
        })
    -- an update that is refused, raises or is cancelled
    abandons : (i : ℕ) → Act s (record s { reading = set_task i none s.reading })

  pub data Runs (s : Run) : Run → Type 0 where
    here : Runs s s
    next : {t u : Run} → Runs s t → Act t u → Runs s u

  -- what was read is still stored, with its identifier
  abbrev Known : Run → Type 0
  Known s =
      (i : ℕ) (old : EnrollmentRecord)
      → s.reading i ≡ some old
      → Enrolled old.agent_did old.enrollment_id s.system

  record Good (s : Run) : Type 0 where
    inv : Inv s.system
    keyed : Keyed s.system.store
    known : Known s

  Act-Enrolled :
      {s t : Run} (did identifier : String)
      → Act s t
      → Good s
      → Enrolled did identifier s.system
      → Enrolled did identifier t.system
  unfolding updated_record
  Act-Enrolled did identifier (creates st own) v e = Step-Enrolled did identifier st own v.inv e
  Act-Enrolled did identifier (reads i d old h) v e = e
  Act-Enrolled {s} did identifier (updates i old request decision values now h) v e =
      let (q, stored, same) = v.known i old h in
      saves-Enrolled s.system v.inv did identifier q
        (updated_record settings ports request old decision values now) stored (sym same) e
  Act-Enrolled did identifier (abandons i) v e = e

  Act-Known : {s t : Run} → Act s t → Good s → Known t
  unfolding find
  Act-Known {s} (creates st own) v i old h =
      Step-Enrolled old.agent_did old.enrollment_id st own v.inv (v.known i old h)
  Act-Known {s} (reads i d old h) v j q p = elim (Bool-cases (i == j)) [
    | inl is ↦
        let here' : old ≡ q = ground arith in
        let named : old.agent_did ≡ d = v.keyed d old h in
        (
          old,
          ap (λ x. get x s.system.store.records) (ap (λ x. x.agent_did) (sym here') ∙ named) ∙ h,
          ap (λ x. x.enrollment_id) here',
        )
    | inr other ↦ v.known j q (ground arith)
  ]
  Act-Known {s} (updates i old request decision values now h) v j q p =
      let kept : s.reading j ≡ some q = ground arith in
      Act-Enrolled q.agent_did q.enrollment_id (updates i old request decision values now h) v
        (v.known j q kept)
  Act-Known {s} (abandons i) v j q p = v.known j q (ground arith)

  Act-Good : {s t : Run} → Act s t → Good s → Good t
  unfolding updated_record
  Act-Good {s} (creates st own) v = record {
    inv = Step-Inv st own v.inv;
    keyed = Step-Keyed st own v.inv v.keyed;
    known = Act-Known (creates st own) v;
  }
  Act-Good {s} (reads i d old h) v = record {
    inv = v.inv;
    keyed = v.keyed;
    known = Act-Known (reads i d old h) v;
  }
  Act-Good {s} (updates i old request decision values now h) v =
      let (q, stored, same) = v.known i old h in
      record {
        inv =
            saves-Inv s.system v.inv q
              (updated_record settings ports request old decision values now) stored;
        keyed =
            save-Keyed (updated_record settings ports request old decision values now)
              s.system.store v.keyed;
        known = Act-Known (updates i old request decision values now h) v;
      }
  Act-Good {s} (abandons i) v = record {
    inv = v.inv;
    keyed = v.keyed;
    known = Act-Known (abandons i) v;
  }

  Runs-Good : {s : Run} → Runs idle_run s → Good s
  Runs-Good here = record { inv = start-Inv; keyed = start-Keyed; known = λ i old h. cc }
  Runs-Good (next r a) = Act-Good a (Runs-Good r)

  Runs-Enrolled :
      {s t : Run} (did identifier : String)
      → Good s
      → Runs s t
      → Enrolled did identifier s.system
      → Enrolled did identifier t.system × Good t
  Runs-Enrolled did identifier v here e = (e, v)
  Runs-Enrolled did identifier v (next m a) e =
      let (e', v') = Runs-Enrolled did identifier v m e in
      (Act-Enrolled did identifier a v' e', Act-Good a v')

  -- From any state that calls of `enroll` reach, with records saved by `_update_enrollment` alone, and
  -- however such calls go on: a stored enrollment is never replaced by another creation, nor its
  -- identifier by an update, also not by one that read its record long before. Its Agent DID keeps a
  -- record with the same enrollment identifier.
  pub enrollment_stable :
      {s t : Run} (did identifier : String)
      → Runs idle_run s
      → Runs s t
      → Enrolled did identifier s.system
      → Enrolled did identifier t.system
  enrollment_stable did identifier r more e = (Runs-Enrolled did identifier (Runs-Good r) more e).0
