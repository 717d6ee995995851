-- ===== src/Platform/Idempotency.antt =====
-- `MemoryPlatformIdempotencyStore` of platform/stores.py. `enter`, `commit` and `release` are the
-- regions under the lock; `execute` is one call with no other task in between. The records
-- `StoredResponse` and the result of platform/types.py are those of service/types.py.
pub mod Agreement
use aep_python.Common.{
  ◌+◌, String, Bool, true, false, not, ◌||◌, none, some, ◌==◌, nat_eq, string_eq, pair_eq, list_eq,
  nonempty, leb, if◌then◌else◌,
}
use aep_python.Common.Exec.{value_error, key_error, Result, ok, raised, blocked, Exec}
use aep_python.Common.Dict.{Dict, get, has, put, remove, retain}
use aep_python.Common.Flight.{Pending}
use aep_python.Common.Flight.{Pending}
use aep_python.Service.Time.{DateTime, hour}
use aep_python.Service.Types.{
  StoredResponse, IdempotencyState, conflict, created, replayed, IdempotencyResult,
}

pub data IdempotentOperation : Type 0 where
  hosted_verification provision sign : IdempotentOperation

abbrev pub same_operation : IdempotentOperation → IdempotentOperation → Bool
same_operation hosted_verification hosted_verification = true
same_operation provision provision = true
same_operation sign sign = true
same_operation _ _ = false

pub record PlatformIdempotencyInput : Type 0 where
  pub idempotency_key : String
  pub operation : IdempotentOperation
  pub principal : String
  pub request_hash : String

abbrev pub Key : Type 0
Key = String × String

abbrev pub Stored : Type 0
Stored = PlatformIdempotencyInput × StoredResponse

pub record PlatformIdempotencyStore : Type 0 where
  pub pending : Pending Key
  pub records : Dict Key Stored

abbrev pub key_of : PlatformIdempotencyInput → Key
key_of v = (v.principal, v.idempotency_key)

-- `not all((…))`; an operation is never empty
abbrev pub invalid_input : PlatformIdempotencyInput → Bool
invalid_input v =
    not (nonempty v.principal)
    || (not (nonempty v.idempotency_key) || not (nonempty v.request_hash))

-- `record[1].created_at >= now - timedelta(hours=1)`
abbrev pub recent : DateTime → Stored → Bool
recent now (v, r) = leb now.micros (r.created_at.micros + hour)

-- the reply from a stored response
unfoldable pub answer : PlatformIdempotencyInput → Stored → IdempotencyResult
answer v (previous, response) =
    if not (same_operation previous.operation v.operation)
      || not (previous.request_hash == v.request_hash)
    then record { response = none; state = conflict }
    else record { response = some response; state = replayed }

unfoldable pub purge : DateTime → PlatformIdempotencyStore → PlatformIdempotencyStore
purge now s = record s { records = retain (recent now) s.records }

-- what the first region under the lock decides
pub data Entry : Type 0 where
  answered : IdempotencyResult → Entry
  waits : Entry
  admitted : Entry

unfoldable pub look_up : PlatformIdempotencyInput → Exec PlatformIdempotencyStore Entry
look_up v s = elim (get (key_of v) s.records) [
  | some stored ↦ (ok (answered (answer v stored)), s)
  | none ↦ elim (get (key_of v) s.pending) [
    | some event ↦ (ok waits, s)
    | none ↦ (ok admitted, record s { pending = put (key_of v) tt s.pending })
  ]
]

-- `now` is what the clock gives in this round of the loop
unfoldable pub enter : PlatformIdempotencyInput → DateTime → Exec PlatformIdempotencyStore Entry
enter v now s =
    if not now.aware
    then (raised (value_error "AEP Platform idempotency clock must be offset-aware"), s)
    else look_up v (purge now s)

unfoldable pub commit :
    PlatformIdempotencyInput → StoredResponse → PlatformIdempotencyStore → PlatformIdempotencyStore
commit v r s = record s { records = put (key_of v) (v, r) s.records }

-- `self._pending.pop(key).set()` of the `finally` block
unfoldable pub release : PlatformIdempotencyInput → Exec PlatformIdempotencyStore (Unit {0})
release v s =
    if has (key_of v) s.pending
    then (ok tt, record s { pending = remove (key_of v) s.pending })
    else (raised key_error, s)

module _ {W : Type 0} where
  -- the `finally` block, whose own exception would replace the result
  abbrev pub left :
      {A : Type 0}
      → Result A
      → PlatformIdempotencyInput
      → W
      → PlatformIdempotencyStore
      → Result A × (W × PlatformIdempotencyStore)
  left r v w s =
      let (popped, s') = release v s in
      elim popped [
        | ok _ ↦ (r, (w, s'))
        | raised e ↦ (raised e, (w, s'))
        | blocked ↦ (blocked, (w, s'))
      ]

  abbrev pub ran :
      PlatformIdempotencyInput
      → Result StoredResponse × W
      → PlatformIdempotencyStore
      → Result IdempotencyResult × (W × PlatformIdempotencyStore)
  ran v (ok r, w) s = left (ok (record { response = some r; state = created })) v w (commit v r s)
  ran v (raised e, w) s = left (raised e) v w s
  ran v (blocked, w) s = (blocked, (w, s))

  abbrev pub entered :
      PlatformIdempotencyInput
      → Exec W StoredResponse
      → W
      → Result Entry × PlatformIdempotencyStore
      → Result IdempotencyResult × (W × PlatformIdempotencyStore)
  entered v operation w (ok (answered r), s) = (ok r, (w, s))
  entered v operation w (ok waits, s) = (blocked, (w, s))
  entered v operation w (ok admitted, s) = ran v (operation w) s
  entered v operation w (raised e, s) = (raised e, (w, s))
  entered v operation w (blocked, s) = (blocked, (w, s))

  -- `operation` works on the state outside the store
  unfoldable pub execute :
      PlatformIdempotencyInput
      → DateTime
      → Exec W StoredResponse
      → Exec (W × PlatformIdempotencyStore) IdempotencyResult
  execute v now operation (w, s) =
      if invalid_input v
      then (raised (value_error "AEP Platform idempotency input is invalid"), (w, s))
      else entered v operation w (enter v now s)
