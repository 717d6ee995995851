-- ===== src/Service/Commands/Outcomes.antt =====
-- The outcomes of the grant command of service/service.py.
use aep_python.Common.{String, ◌≡◌, ◌⊎◌, Option, none, some, nat_eq, string_eq, pair_eq, list_eq}
use aep_python.Common.Exec.{Result, ok, lift, continue}
use aep_python.Common.Dict.{get, retain}
use aep_python.Core.Json.{Json}
use aep_python.Service.Time.{DateTime}
use aep_python.Service.Types.{StoredResponse, EnrollmentRecord, IdempotencyInput, IdempotencyResult}
use aep_python.Service.Enrollments.{find}
use aep_python.Service.Problem.{ServiceResult}
use aep_python.Service.Settings.{
  AssertionOperation, AssertionClaims, CommandOptions, GrantRequest, Settings, Ports, State,
  on_world, now_of,
}
use aep_python.Service.Assertions.{authenticate_assertion}
use aep_python.Service.Idempotency.{recent}
use aep_python.Service.Idempotent.{Wire, Codec, Full, valid_key, store, restore, replied}
use aep_python.Service.Commands.{issue}
use aep_python.Service.Commands.Grants.{Eligible}

module _ {W : Type 0} (settings : Settings) (ports : Ports W) (wire : Wire) (codec : Codec Json)
    (body : String) (options : CommandOptions) (x : Full W) where
  -- the clock is read, and nothing else happens
  abbrev pub read : State W → State W
  read s = (on_world (now_of ports) s).1

  -- at most the clock was read
  abbrev pub Reads : State W → State W → Type 0
  Reads s t = (t ≡ s) ⊎ ((t ≡ read s) ⊎ (t ≡ read (read s)))

  abbrev pub authenticated : Result (Option AssertionClaims) × State W
  authenticated = authenticate_assertion settings ports options AssertionOperation.grant none x.0

  abbrev pub grant_input : AssertionClaims → GrantRequest → String → IdempotencyInput
  grant_input c request key = record {
    agent_did = c.sub;
    command = "grant";
    idempotency_key = key;
    request_hash = wire.grant_hash request;
  }

  -- the handler ran, once, for the stored enrollment of the authenticated Agent, which met the rules
  pub record IsIssued (s : State W) (y : Result (ServiceResult Json) × Full W) : Type 0 where
    pub claims : AssertionClaims
    pub request : GrantRequest
    pub enrollment : EnrollmentRecord
    pub has_claims : authenticated ≡ (ok (some claims), s)
    pub has_request : wire.grant_request body ≡ some request
    pub stored : find claims.sub (read s).enrollments ≡ some enrollment
    pub eligible : Eligible settings request enrollment
    pub ran_once :
        y.1.0
        ≡ (store settings ports wire codec
            (issue settings ports wire claims.sub request enrollment)
            (read s)).1

  -- an answer that was stored in the last hour, for the same Agent, key, command and request
  pub record IsReplayed (s : State W) (result : ServiceResult Json) : Type 0 where
    pub claims : AssertionClaims
    pub request : GrantRequest
    pub key : String
    pub previous : IdempotencyInput
    pub response : StoredResponse
    pub now : DateTime
    pub has_claims : authenticated ≡ (ok (some claims), s)
    pub has_request : wire.grant_request body ≡ some request
    pub has_key : valid_key wire options.idempotency_key ≡ some key
    pub has_time : (on_world (now_of ports) s).0 ≡ ok now
    pub stored : get (claims.sub, key) (retain (recent now) x.1.records) ≡ some (previous, response)
    pub same_command : previous.command ≡ "grant"
    pub same_request : previous.request_hash ≡ wire.grant_hash request
    pub answered : restore settings ports wire codec response ≡ ok result

  -- the handler did not run: at most the clock was read, and there is no credential but a stored one
  pub record IsKept (s : State W) (y : Result (ServiceResult Json) × Full W) : Type 0 where
    pub state : Reads s y.1.0
    pub no_credential :
        (result : ServiceResult Json) → y.0 ≡ ok result → (result.body ≡ none) ⊎ IsReplayed s result

  abbrev pub IsGated : State W → Result (ServiceResult Json) × Full W → Type 0
  IsGated s y = IsIssued s y ⊎ IsKept s y

  -- what `_idempotent` makes of a call of the store
  abbrev pub finished : Result IdempotencyResult × Full W → Result (ServiceResult Json) × Full W
  finished z = continue z.0 (λ r. lift (replied settings ports wire codec r r.state)) z.1
