-- ===== src/Service/Idempotency.antt =====
-- `MemoryIdempotencyStore` of service/stores.py. `enter`, `commit` and `release` are the regions under
-- the lock; `execute` is one call with no other task in between. Stored responses are kept an hour.
mod Examples
pub mod Tasks
pub mod Runs
pub mod Replays
use aep_python.Common.{
  ◌+◌, String, Bool, not, ◌||◌, none, some, ◌==◌, nat_eq, string_eq, pair_eq, nonempty, leb,
  if◌then◌else◌,
}
use aep_python.Common.Exec.{value_error, key_error, Result, ok, raised, blocked, Exec}
use aep_python.Common.Dict.{Dict, get, has, put, remove, retain}
use aep_python.Common.Flight.{Pending}
use aep_python.Service.Time.{DateTime, hour}
use aep_python.Service.Types.{
  StoredResponse, IdempotencyInput, IdempotencyState, conflict, created, replayed,
  IdempotencyResult,
}

abbrev pub Key : Type 0
Key = String × String

abbrev pub Stored : Type 0
Stored = IdempotencyInput × StoredResponse

pub record IdempotencyStore : Type 0 where
  pub pending : Pending Key
  pub records : Dict Key Stored

abbrev pub key_of : IdempotencyInput → Key
key_of v = (v.agent_did, v.idempotency_key)

-- `not all((…))`
abbrev pub invalid_input : IdempotencyInput → Bool
invalid_input v =
    not (nonempty v.agent_did)
    || (not (nonempty v.command)
        || (not (nonempty v.idempotency_key) || not (nonempty v.request_hash)))

-- `record[1].created_at >= now - timedelta(hours=1)`
abbrev pub recent : DateTime → Stored → Bool
recent now (v, r) = leb now.micros (r.created_at.micros + hour)

-- the reply from a stored response
unfoldable pub answer : IdempotencyInput → Stored → IdempotencyResult
answer v (previous, response) =
    if not (previous.command == v.command) || not (previous.request_hash == v.request_hash)
    then record { response = none; state = conflict }
    else record { response = some response; state = replayed }

-- only the responses of the last hour stay
unfoldable pub purge : DateTime → IdempotencyStore → IdempotencyStore
purge now s = record s { records = retain (recent now) s.records }

-- what the first region under the lock decides
pub data Entry : Type 0 where
  answered : IdempotencyResult → Entry
  waits : Entry
  admitted : Entry

unfoldable pub look_up : IdempotencyInput → Exec IdempotencyStore Entry
look_up v s = elim (get (key_of v) s.records) [
  | some stored ↦ (ok (answered (answer v stored)), s)
  | none ↦ elim (get (key_of v) s.pending) [
    | some event ↦ (ok waits, s)
    | none ↦ (ok admitted, record s { pending = put (key_of v) tt s.pending })
  ]
]

-- `now` is what the clock gives in this round of the loop
unfoldable pub enter : IdempotencyInput → DateTime → Exec IdempotencyStore Entry
unfolding purge look_up
enter v now s =
    if not now.aware
    then (raised (value_error "AEP idempotency clock must return an offset-aware datetime"), s)
    else look_up v (purge now s)

unfoldable pub commit : IdempotencyInput → StoredResponse → IdempotencyStore → IdempotencyStore
commit v r s = record s { records = put (key_of v) (v, r) s.records }

-- `self._pending.pop(key).set()` of the `finally` block
unfoldable pub release : IdempotencyInput → Exec IdempotencyStore (Unit {0})
release v s =
    if has (key_of v) s.pending
    then (ok tt, record s { pending = remove (key_of v) s.pending })
    else (raised key_error, s)

-- State outside the store, `W`, is what the operation works on.
abbrev pub left :
    {W A : Type 0}
    → Result A
    → IdempotencyInput
    → W
    → IdempotencyStore
    → Result A × (W × IdempotencyStore)
left r v w s =
    let (popped, s') = release v s in
    elim popped [
      | ok _ ↦ (r, (w, s'))
      | raised e ↦ (raised e, (w, s'))
      | blocked ↦ (blocked, (w, s'))
    ]

abbrev pub ran :
    {W : Type 0}
    → IdempotencyInput
    → Result StoredResponse × W
    → IdempotencyStore
    → Result IdempotencyResult × (W × IdempotencyStore)
ran v (ok r, w) s = left (ok (record { response = some r; state = created })) v w (commit v r s)
ran v (raised e, w) s = left (raised e) v w s
ran v (blocked, w) s = (blocked, (w, s))

abbrev pub entered :
    {W : Type 0}
    → IdempotencyInput
    → Exec W StoredResponse
    → W
    → Result Entry × IdempotencyStore
    → Result IdempotencyResult × (W × IdempotencyStore)
entered v operation w (ok (answered r), s) = (ok r, (w, s))
entered v operation w (ok waits, s) = (blocked, (w, s))
entered v operation w (ok admitted, s) = ran v (operation w) s
entered v operation w (raised e, s) = (raised e, (w, s))
entered v operation w (blocked, s) = (blocked, (w, s))

unfoldable pub execute :
    {W : Type 0}
    → IdempotencyInput
    → DateTime
    → Exec W StoredResponse
    → Exec (W × IdempotencyStore) IdempotencyResult
unfolding enter commit release
execute v now operation (w, s) =
    if invalid_input v
    then (raised (value_error "AEP idempotency store received invalid input"), (w, s))
    else entered v operation w (enter v now s)
