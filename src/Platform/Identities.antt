-- ===== src/Platform/Identities.antt =====
-- `MemoryIdentityStore` of platform/stores.py: the records by identifier, and three indexes into
-- them. `enter`, `commit` and `release` are the regions of `find_or_create` under the lock.
pub mod Tasks
pub mod Index
pub mod Indexed
pub mod Invariant
pub mod Unique
pub mod Stable
pub mod Again
use aep_python.Common.{
  String, Bool, true, false, not, ◌||◌, Option, none, some, [], Eq, ◌==◌, nat_eq, string_eq,
  pair_eq, list_eq, nonempty, if◌then◌else◌, is_empty,
}
use aep_python.Common.Exec.{
  value_error, key_error, Result, ok, raised, blocked, Exec, pure, continue,
}
use aep_python.Common.Dict.{Dict, get, has, put, remove}
use aep_python.Common.Flight.{Pending}
use aep_python.Common.Flight.{Pending}
use aep_python.Service.Time.{DateTime}
use aep_python.Platform.Types.{ManagedAgentStatus, IdentityRecord}

-- a principal and a Service DID
abbrev pub Scope : Type 0
Scope = String × String

pub record IdentityStore : Type 0 where
  pub pending : Pending Scope
  pub records : Dict String IdentityRecord
  pub by_agent_did : Dict String String
  pub by_agent_did_id : Dict String String
  pub by_scope : Dict Scope String

abbrev pub empty_store : IdentityStore
empty_store = record {
  pending = [];
  records = [];
  by_agent_did = [];
  by_agent_did_id = [];
  by_scope = [];
}

abbrev pub scope_of : IdentityRecord → Scope
scope_of r = (r.principal, r.service_did)

-- `not all(values)`, or no algorithm, another key, or a time without an offset
unfoldable pub invalid_identity : IdentityRecord → Bool
invalid_identity r =
    (not (nonempty r.agent_did)
      || (not (nonempty r.agent_did_id)
          || (not (nonempty r.agent_identity_id)
              || (not (nonempty r.did_document_url)
                  || (not (nonempty r.key_id)
                      || (not (nonempty r.principal) || not (nonempty r.service_did)))))))
    || (is_empty r.signing_algorithms
        || (not (r.key_id == r.agent_did) || (not r.created_at.aware || not r.updated_at.aware)))

unfoldable pub validate_identity_record : IdentityRecord → Result (Unit {0})
validate_identity_record r =
    if invalid_identity r
    then raised (value_error "AEP Platform identity store received an invalid record")
    else ok tt

-- what the first region under the lock decides
pub data Entry : Type 0 where
  existing : IdentityRecord → Entry
  waits : Entry
  admitted : Entry

unfoldable pub enter : Scope → Exec IdentityStore Entry
enter scope s = elim (get scope s.by_scope) [
  | some id ↦ elim (get id s.records) [
    | some r ↦ (ok (existing r), s)
    | none ↦ (raised key_error, s)
  ]
  | none ↦ elim (get scope s.pending) [
    | some event ↦ (ok waits, s)
    | none ↦ (ok admitted, record s { pending = put scope tt s.pending })
  ]
]

-- some part of the new identity is in use
unfoldable pub taken : IdentityRecord → IdentityStore → Bool
taken r s =
    has r.agent_identity_id s.records
    || (has r.agent_did s.by_agent_did || has r.agent_did_id s.by_agent_did_id)

unfoldable pub insert_identity : Scope → IdentityRecord → IdentityStore → IdentityStore
insert_identity scope r s = record s {
  records = put r.agent_identity_id r s.records;
  by_agent_did = put r.agent_did r.agent_identity_id s.by_agent_did;
  by_agent_did_id = put r.agent_did_id r.agent_identity_id s.by_agent_did_id;
  by_scope = put scope r.agent_identity_id s.by_scope;
}

-- the checks of what the factory returned, and the write
unfoldable pub commit : Scope → IdentityRecord → Exec IdentityStore IdentityRecord
commit scope r s =
    if invalid_identity r
    then (raised (value_error "AEP Platform identity store received an invalid record"), s)
    else if not (scope_of r == scope)
    then (raised (value_error "AEP Platform identity does not match its requested scope"), s)
    else if taken r s
    then (raised (value_error "AEP Platform identity material must be unique"), s)
    else (ok r, insert_identity scope r s)

-- `self._pending.pop(scope).set()` of the `finally` block
unfoldable pub release : Scope → Exec IdentityStore (Unit {0})
release scope s =
    if has scope s.pending
    then (ok tt, record s { pending = remove scope s.pending })
    else (raised key_error, s)

-- the `finally` block, whose own exception would replace the result
abbrev pub finally : {A : Type 0} → Scope → Result A × IdentityStore → Result A × IdentityStore
finally scope (r, s) =
    let (popped, s') = release scope s in
    elim popped [ ok _ ↦ (r, s') | raised e ↦ (raised e, s') | blocked ↦ (blocked, s') ]

abbrev pub made :
    {W : Type 0}
    → Scope
    → Result IdentityRecord × W
    → IdentityStore
    → Result (IdentityRecord × Bool) × (W × IdentityStore)
made scope (ok r, w) s =
    let (result, s') = finally scope (commit scope r s) in
    continue result (λ r. pure (r, true)) (w, s')
made scope (raised e, w) s =
    let (result, s') = finally {A = IdentityRecord × Bool} scope (raised e, s) in (result, (w, s'))
made scope (blocked, w) s = (blocked, (w, s))

abbrev pub entered :
    {W : Type 0}
    → Scope
    → Exec W IdentityRecord
    → W
    → Result Entry × IdentityStore
    → Result (IdentityRecord × Bool) × (W × IdentityStore)
entered scope factory w (ok (existing r), s) = (ok (r, false), (w, s))
entered scope factory w (ok waits, s) = (blocked, (w, s))
entered scope factory w (ok admitted, s) = made scope (factory w) s
entered scope factory w (raised e, s) = (raised e, (w, s))
entered scope factory w (blocked, s) = (blocked, (w, s))

-- one call with no other task in between; `factory` works on the state outside the store
unfoldable pub find_or_create :
    {W : Type 0} → Scope → Exec W IdentityRecord → Exec (W × IdentityStore) (IdentityRecord × Bool)
find_or_create scope factory (w, s) =
    if not (nonempty scope.0) || not (nonempty scope.1)
    then (raised (value_error "AEP Platform identity scope must not be empty"), (w, s))
    else entered scope factory w (enter scope s)

-- a record through an index
abbrev pub through :
    {K : Type 0} ⦃e : Eq K⦄ → K → Dict K String → IdentityStore → Option IdentityRecord
through k index s = elim (get k index) [ none ↦ none | some id ↦ get id s.records ]

unfoldable pub find_by_agent_did : String → IdentityStore → Option IdentityRecord
find_by_agent_did did s = through did s.by_agent_did s

unfoldable pub find_by_agent_did_id : String → IdentityStore → Option IdentityRecord
find_by_agent_did_id id s = through id s.by_agent_did_id s

unfoldable pub get_identity : String → IdentityStore → Option IdentityRecord
get_identity id s = get id s.records

-- `replace(current, status=status, updated_at=updated_at)`
abbrev pub updated : ManagedAgentStatus → DateTime → IdentityRecord → IdentityRecord
updated status at r = record r { status = status; updated_at = at }

unfoldable pub update_status :
    String → ManagedAgentStatus → DateTime → Exec IdentityStore (Option IdentityRecord)
update_status id status at s =
    if not at.aware
    then (raised (value_error "AEP Platform identity update is invalid"), s)
    else elim (get id s.records) [
      | none ↦ (ok none, s)
      | some r ↦ (
        ok (some (updated status at r)),
        record s { records = put id (updated status at r) s.records },
      )
    ]
