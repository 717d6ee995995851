-- ===== src/Service/Idempotent.antt =====
-- `_idempotent` of service/service.py: a command body run through the idempotency store, its result
-- stored as text and read back.
use aep_python.Common.{
  ℕ, String, Bool, Option, none, some, List, map, ◌==◌, nat_eq, string_eq, pair_eq, list_eq,
  if◌then◌else◌,
}
use aep_python.Common.Exec.{
  value_error, Result, ok, raised, blocked, Exec, pure, lift, ◌>>=◌, ◌>>◌, raise_if,
}
use aep_python.Common.Dict.{Dict}
use aep_python.Service.Types.{
  StoredResponse, IdempotencyInput, IdempotencyResult, IdempotencyState, conflict, created,
  replayed,
}
use aep_python.Service.Problem.{
  ErrorCode, Problem, ServiceResult, problem_result, plain_problem, problem_media_type,
}
use aep_python.Service.Settings.{
  EnrollRequest, GrantRequest, RevokeRequest, Settings, Ports, State, on_world, now_of,
}
use aep_python.Service.Idempotency.{IdempotencyStore, execute, invalid_input}

-- how requests are read, keys compared and results stored: JSON, pydantic and digests
pub record Wire : Type 0 where
  -- `_parse` for each request model
  pub enroll_request : String → Option EnrollRequest
  pub grant_request : String → Option GrantRequest
  pub revoke_request : String → Option RevokeRequest
  -- `bool(value.strip())`
  pub not_blank : String → Bool
  -- `sha256:` and the digest of the canonical request
  pub enroll_hash : EnrollRequest → String
  pub grant_hash : GrantRequest → String
  pub revoke_hash : RevokeRequest → String
  pub problem_text : Problem → String
  pub problem_of : String → Result Problem
  -- `sorted` on texts
  pub sorted : List String → List String

-- how the body of one command's results is written and read
pub record Codec (B : Type 0) : Type 0 where
  pub body_text : Option B → String
  pub body_of : String → Result B

abbrev pub keys {ℓ κ} : {K : Type ℓ} {V : Type κ} → Dict K V → List K
keys = map (λ e. e.0)

-- the whole state of a Service
abbrev pub Full : Type 0 → Type 0
Full W = State W × IdempotencyStore

abbrev pub on_state : {W A : Type 0} → Exec (State W) A → Exec (Full W) A
on_state m x = let (r, s) = m x.0 in (r, (s, x.1))

-- a problem with no pending members
abbrev pub refuse : {S B : Type 0} → ErrorCode → ℕ → Exec S (ServiceResult B)
refuse code status = lift (problem_result (plain_problem code status))

-- `_valid_idempotency_key`
abbrev pub valid_key : Wire → Option String → Option String
valid_key wire none = none
valid_key wire (some k) = if wire.not_blank k then some k else none

module _ {W : Type 0} (settings : Settings) (ports : Ports W) (wire : Wire) where
  module _ {B : Type 0} (codec : Codec B) where
    abbrev pub stored_body : ServiceResult B → String
    stored_body r = elim r.problem [ none ↦ codec.body_text r.body | some p ↦ wire.problem_text p ]

    -- `store`, the operation that the idempotency store is given
    unfoldable pub store : Exec (State W) (ServiceResult B) → Exec (State W) StoredResponse
    store operation = do
      result ← operation
      now ← on_world (now_of ports)
      pure (record {
        body = stored_body result;
        content_type = result.content_type;
        created_at = now;
        headers = result.headers;
        status = result.status;
      })

    abbrev pub with_problem : StoredResponse → Result Problem → Result (ServiceResult B)
    with_problem r (ok p) = ok (record {
      status = r.status;
      body = none;
      content_type = r.content_type;
      headers = r.headers;
      problem = some p;
    })
    with_problem r (raised e) = raised e
    with_problem r blocked = blocked

    abbrev pub with_body : StoredResponse → Result B → Result (ServiceResult B)
    with_body r (ok b) = ok (record {
      status = r.status;
      body = some b;
      content_type = r.content_type;
      headers = r.headers;
      problem = none;
    })
    with_body r (raised e) = raised e
    with_body r blocked = blocked

    -- a result from a stored response
    unfoldable pub restore : StoredResponse → Result (ServiceResult B)
    restore r =
        if r.content_type == problem_media_type
        then with_problem r (wire.problem_of r.body)
        else with_body r (codec.body_of r.body)

    abbrev pub restored : Option StoredResponse → Result (ServiceResult B)
    restored none = raised (value_error "AEP idempotency store omitted its stored response")
    restored (some r) = restore r

    -- what `_idempotent` makes of the store's answer
    unfoldable pub replied : IdempotencyResult → IdempotencyState → Result (ServiceResult B)
    replied r conflict = problem_result (plain_problem ErrorCode.idempotency_conflict 409)
    replied r created = restored r.response
    replied r replayed = restored r.response

    -- `execute` reads the clock after its check of the input
    unfoldable pub execute_now :
        IdempotencyInput → Exec (State W) StoredResponse → Exec (Full W) IdempotencyResult
    execute_now v operation = do
      raise_if (invalid_input v) (value_error "AEP idempotency store received invalid input")
      now ← on_state (on_world (now_of ports))
      execute v now operation

    -- `_idempotent`
    unfoldable pub idempotent :
        IdempotencyInput → Exec (State W) (ServiceResult B) → Exec (Full W) (ServiceResult B)
    idempotent v operation = do r ← execute_now v (store operation); lift (replied r r.state)
