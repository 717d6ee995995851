-- ===== src/Service/Enrollments.antt =====
-- `MemoryEnrollmentStore` of service/stores.py. `enter`, `commit` and `release` are the regions under
-- the lock; `find_or_create` is one call with no other task in between.
mod Examples
pub mod Tasks
pub mod Ownership
pub mod Creation
pub mod Enrolled
pub mod Keyed
pub mod Stable
pub mod Sequential
use aep_python.Common.{
  String, Bool, true, false, Option, none, some, [], ◌==◌, nat_eq, string_eq, pair_eq,
  if◌then◌else◌,
}
use aep_python.Common.Exec.{
  value_error, key_error, Result, ok, raised, blocked, Exec, pure, continue,
}
use aep_python.Common.Dict.{Dict, get, has, put, remove}
use aep_python.Common.Flight.{Pending}
use aep_python.Service.Types.{EnrollmentRecord}

pub record EnrollmentStore : Type 0 where
  pub pending : Pending String
  pub records : Dict String EnrollmentRecord

pub empty_store : EnrollmentStore
empty_store = record { pending = []; records = [] }

unfoldable pub find : String → EnrollmentStore → Option EnrollmentRecord
find agent_did s = get agent_did s.records

-- what the first region under the lock decides
pub data Entry : Type 0 where
  existing : EnrollmentRecord → Entry
  waits : Entry
  admitted : Entry

unfoldable pub enter : String → EnrollmentStore → Entry × EnrollmentStore
enter agent_did s = elim (get agent_did s.records) [
  | some r ↦ (existing r, s)
  | none ↦ elim (get agent_did s.pending) [
    | some event ↦ (waits, s)
    | none ↦ (admitted, record s { pending = put agent_did tt s.pending })
  ]
]

-- after the factory: the check of its result, and the write
unfoldable pub commit : String → EnrollmentRecord → Exec EnrollmentStore EnrollmentRecord
commit agent_did r s =
    if r.agent_did == agent_did
    then (ok r, record s { records = put agent_did r s.records })
    else (raised (value_error "enrollment factory returned a mismatched Agent DID"), s)

-- `self._pending.pop(agent_did).set()` of the `finally` block
pub release : String → Exec EnrollmentStore (Unit {0})
release agent_did s =
    if has agent_did s.pending
    then (ok tt, record s { pending = remove agent_did s.pending })
    else (raised key_error, s)

-- the `finally` block runs whatever came before, and its own exception would replace the other
abbrev pub finally : {A : Type 0} → Result A × EnrollmentStore → String → Result A × EnrollmentStore
finally (r, s) agent_did =
    let (popped, s') = release agent_did s in
    elim popped [ ok _ ↦ (r, s') | raised e ↦ (raised e, s') | blocked ↦ (blocked, s') ]

abbrev pub created_by :
    {W : Type 0}
    → String
    → Result EnrollmentRecord × W
    → EnrollmentStore
    → Result (EnrollmentRecord × Bool) × (W × EnrollmentStore)
created_by agent_did (ok r, w) s =
    let (result, s') = finally (commit agent_did r s) agent_did in
    continue result (λ r. pure (r, true)) (w, s')
created_by agent_did (raised e, w) s =
    let (result, s') = finally {A = EnrollmentRecord × Bool} (raised e, s) agent_did in
    (result, (w, s'))
created_by agent_did (blocked, w) s = (blocked, (w, s))

-- `factory` works on the state outside the store
pub find_or_create :
    {W : Type 0}
    → String
    → Exec W EnrollmentRecord
    → Exec (W × EnrollmentStore) (EnrollmentRecord × Bool)
unfolding enter commit release
find_or_create agent_did factory (w, s) =
    let (entry, s') = enter agent_did s in
    elim entry [
      | existing r ↦ (ok (r, false), (w, s'))
      | waits ↦ (blocked, (w, s'))
      | admitted ↦ created_by agent_did (factory w) s'
    ]

-- `save`, which returns its argument
unfoldable pub save : EnrollmentRecord → EnrollmentStore → EnrollmentStore
save r s = record s { records = put r.agent_did r s.records }
