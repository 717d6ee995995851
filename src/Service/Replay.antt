-- ===== src/Service/Replay.antt =====
-- `MemoryReplayStore` of service/stores.py: the assertion identifiers that were used, with the
-- second from which each may be forgotten.
mod Examples
pub mod SingleUse
use aep_python.Common.{
  ℕ, String, Bool, true, false, not, ◌||◌, nat_eq, string_eq, pair_eq, nonempty, ltb, leb,
  if◌then◌else◌,
}
use aep_python.Common.Exec.{value_error, ok, raised, Exec}
use aep_python.Common.Dict.{Dict, has, put, retain}

-- `ReplayRecord` of service/types.py
pub record ReplayRecord : Type 0 where
  pub expires_at : ℕ
  pub jwt_id : String
  pub subject : String

abbrev pub ReplayStore : Type 0
ReplayStore = Dict (String × String) ℕ

abbrev pub replay_key : ReplayRecord → String × String
replay_key r = (r.subject, r.jwt_id)

-- the test that raises: an expired record, or an empty subject or identifier
abbrev pub invalid_record : ReplayRecord → ℕ → Bool
invalid_record r now = leb r.expires_at now || (not (nonempty r.subject) || not (nonempty r.jwt_id))

-- `{key: expiry for key, expiry in self._records.items() if expiry > now}`
unfoldable pub live_at : ℕ → ReplayStore → ReplayStore
live_at now records = retain (λ expiry. ltb now expiry) records

-- The purge is written back before the record is looked at, so it stays when the call raises.
unfoldable pub consume : ReplayRecord → ℕ → Exec ReplayStore Bool
consume r now records =
    let live = live_at now records in
    if invalid_record r now
    then (raised (value_error "AEP replay store received an invalid record"), live)
    else if has (replay_key r) live
    then (ok false, live)
    else (ok true, put (replay_key r) r.expires_at live)
