-- ===== src/Service/Revocation.antt =====
-- The `revoke` command of service/service.py.
use aep_python.Common.{
  String, Bool, not, ◌&&◌, Option, none, some, List, [], ◌∷◌, nat_eq, string_eq, pair_eq, list_eq,
  if◌then◌else◌, is_none,
}
use aep_python.Common.Exec.{Exec, pure, lift, ◌>>=◌, ◌>>◌}
use aep_python.Common.Dict.{get}
use aep_python.Service.Types.{EnrollmentRecord}
use aep_python.Service.Enrollments.{find}
use aep_python.Service.Problem.{ErrorCode, ServiceResult, problem_result, plain_problem}
use aep_python.Service.Settings.{
  AssertionOperation, AssertionClaims, CommandOptions, RevokeRequest, Settings, Ports, State,
  on_world, now_of,
}
use aep_python.Service.Assertions.{authenticate_assertion}
use aep_python.Service.Responses.{validate_record, success}
use aep_python.Service.Idempotent.{Wire, Codec, keys, Full, on_state, refuse, valid_key, idempotent}

-- `RevokeResponse`, which has no members
pub data RevokeResponse : Type 0 where
  revoked : RevokeResponse

-- `RevokeRequest.validate_selector` of core/models.py; empty texts are refused by minimal lengths
unfoldable pub valid_selector : RevokeRequest → Bool
valid_selector r =
    if r.all_grant_types
    then is_none r.grant_type && is_none r.credential_id
    else not (is_none r.grant_type)

module _ {W : Type 0} (settings : Settings) (ports : Ports W) (wire : Wire) where
  -- the loop over the grant types, each with its own reading of the clock
  unfoldable pub revoke_each :
      String
      → RevokeRequest
      → EnrollmentRecord
      → List String
      → Exec (State W) (ServiceResult RevokeResponse)
  revoke_each sub request r [] = pure (success revoked)
  revoke_each sub request r (grant_type ∷ more) =
      let rest = revoke_each sub request r more in
      do
        now ← on_world (now_of ports)
        done ← on_world (
            ports.revoke_handler grant_type request (record {
              agent_did = sub;
              enrollment = r;
              grant_type = grant_type;
              current_time = now;
            }))
        rest

  -- the checks of a selector that names a grant type
  abbrev pub selector_problem : RevokeRequest → Option ErrorCode
  selector_problem request = elim request.grant_type [
    | none ↦ none
    | some grant_type ↦ elim (get grant_type settings.grant_types) [
      | none ↦ some ErrorCode.unsupported_grant_type
      | some per_credential ↦
          if not (is_none request.credential_id) && not per_credential
          then some ErrorCode.invalid_request
          else none
    ]
  ]

  abbrev pub selected : RevokeRequest → List String
  selected request =
      if request.all_grant_types
      then wire.sorted (keys settings.grant_types)
      else (elim request.grant_type [ none ↦ [] | some grant_type ↦ grant_type ∷ [] ])

  unfoldable pub revoke_for :
      String → RevokeRequest → EnrollmentRecord → Exec (State W) (ServiceResult RevokeResponse)
  revoke_for sub request r = do
    lift (validate_record r sub)
    elim (selector_problem request) [
      | some code ↦ refuse code 400
      | none ↦ revoke_each sub request r (selected request)
    ]

  unfoldable pub revoke_body :
      String → RevokeRequest → Exec (State W) (ServiceResult RevokeResponse)
  revoke_body sub request s = elim (find sub s.enrollments) [
    | some r ↦ revoke_for sub request r s
    | none ↦ (problem_result (plain_problem ErrorCode.not_recognized 401), s)
  ]

  abbrev pub revoke_checked :
      Codec RevokeResponse
      → String
      → Option RevokeRequest
      → Option String
      → Exec (Full W) (ServiceResult RevokeResponse)
  revoke_checked codec sub (some request) (some key) =
      idempotent settings ports wire codec
        (record {
          agent_did = sub;
          command = "revoke";
          idempotency_key = key;
          request_hash = wire.revoke_hash request;
        })
        (revoke_body sub request)
  revoke_checked codec sub _ _ = refuse ErrorCode.invalid_request 400

  abbrev pub revoke_as :
      Codec RevokeResponse
      → String
      → Option String
      → Option AssertionClaims
      → Exec (Full W) (ServiceResult RevokeResponse)
  revoke_as codec body key none = refuse ErrorCode.not_recognized 401
  revoke_as codec body key (some c) =
      revoke_checked codec c.sub (wire.revoke_request body) (valid_key wire key)

  unfoldable pub revoke :
      Codec RevokeResponse → String → CommandOptions → Exec (Full W) (ServiceResult RevokeResponse)
  revoke codec body options = do
    c ← on_state (authenticate_assertion settings ports options AssertionOperation.revoke none)
    revoke_as codec body options.idempotency_key c
