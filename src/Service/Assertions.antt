-- ===== src/Service/Assertions.antt =====
-- `_authenticate_assertion` and `_valid_assertion` of service/service.py.
pub mod OneUse
use aep_python.Common.{
  ℕ, ◌+◌, String, Bool, true, false, not, ◌&&◌, Option, none, some, ◌==◌, nat_eq, string_eq,
  pair_eq, list_eq, member, nonempty, ltb, leb, if◌then◌else◌,
}
use aep_python.Common.Exec.{
  value_error, assertion_error, authorization_error, key_error, Result, ok, raised, blocked, Exec,
  pure, lift, ◌>>=◌,
}
use aep_python.Service.Time.{DateTime, timestamp}
use aep_python.Service.Replay.{ReplayRecord, consume}
use aep_python.Service.Settings.{
  AssertionOperation, operation_beq, AssertionClaims, JoseHeader, CommandOptions,
  VerificationContext, Settings, Ports, State, on_world, on_replay, now_of,
}
use Prim.Native.Char.{code}

-- `value.partition(chr(sep))[0]`
abbrev pub partition_front : ℕ → String → String
partition_front sep String.[] = String.[]
partition_front sep (String.◌∷◌ c s) =
    if code c == sep then String.[] else String.◌∷◌ c (partition_front sep s)

-- `value.partition(chr(sep))[2]`, and whether the separator is there
abbrev pub partition_back : ℕ → String → Option String
partition_back sep String.[] = none
partition_back sep (String.◌∷◌ c s) = if code c == sep then some s else partition_back sep s

-- `_identity_method`: `did:METHOD` of a text with three parts, and the empty text otherwise
unfoldable pub identity_method : String → String
identity_method value = elim (partition_back b':' value) [
  | none ↦ ""
  | some rest ↦ elim (partition_back b':' rest) [
    | none ↦ ""
    | some identifier ↦
        let method = partition_front b':' rest in
        if partition_front b':' value == "did" && nonempty method
        then Prim.Native.String.◌++◌ "did:" method
        else ""
  ]
]

abbrev pub is_some_of : Option String → (String → Bool) → Bool
is_some_of none p = false
is_some_of (some s) p = p s

-- `ClientAssertionClaims.validate_assertion` of core/models.py, with the minimal lengths of its
-- fields; `resource_ok` is `_require_resource_uri`
unfoldable pub well_formed : (String → Bool) → AssertionClaims → Bool
well_formed resource_ok c =
    (nonempty c.aud && (nonempty c.iss && (nonempty c.jti && nonempty c.sub)))
    && (c.iss == c.sub
        && ((ltb c.iat c.exp && leb c.exp (c.iat + 300)) && (elim c.resource [
          | none ↦ not (operation_beq c.op AssertionOperation.authenticate)
          | some r ↦ operation_beq c.op AssertionOperation.authenticate && resource_ok r
        ])))

abbrev pub succeeds : {A : Type 0} → Result A → Bool
succeeds (ok a) = true
succeeds _ = false

-- `_normalize_resource_uri(claims.resource) == resource`, and no ValueError
abbrev pub same_resource : (String → Result String) → Option String → Option String → Bool
same_resource normalize none none = true
same_resource normalize none (some r) = false
same_resource normalize (some c) none = false
same_resource normalize (some c) (some r) = elim (normalize c) [
  | ok n ↦ n == r
  | raised e ↦ false
  | blocked ↦ false
]

module _ {W : Type 0} (settings : Settings) (ports : Ports W) where
  -- the window of validity, in whole seconds; `current - tolerance` is on the other side here
  unfoldable pub in_window : AssertionClaims → ℕ → Bool
  in_window c current =
      leb c.exp (c.iat + settings.maximum_assertion_lifetime)
      && (leb c.iat (current + settings.clock_tolerance)
          && ltb current (c.exp + settings.clock_tolerance))

  unfoldable pub bound_to_agent : JoseHeader → AssertionClaims → Bool
  bound_to_agent header c =
      is_some_of header.typ (λ t. t == "JWT")
      && (is_some_of header.kid (λ k. partition_front b'#' k == c.sub)
          && is_some_of header.alg (λ a. member a settings.signing_algorithms))

  unfoldable pub valid_assertion :
      JoseHeader → AssertionClaims → AssertionOperation → Option String → DateTime → Bool
  valid_assertion header c operation resource now =
      well_formed (λ r. succeeds (ports.normalize_resource r)) c
      && (bound_to_agent header c
          && ((c.aud == settings.service_did && c.iss == c.sub)
              && (operation_beq c.op operation
                  && (same_resource ports.normalize_resource c.resource resource
                      && (member (identity_method c.sub) settings.identity_methods
                          && in_window c (timestamp now))))))

  -- `except (AepAssertionError, ValueError)` round the verifier and the decoding
  abbrev pub caught : {A : Type 0} → Exec (State W) A → Exec (State W) (Option A)
  caught m s =
      let (r, s') = m s in
      elim r [
        | ok a ↦ (ok (some a), s')
        | raised (value_error x) ↦ (ok none, s')
        | raised (assertion_error x) ↦ (ok none, s')
        | raised (authorization_error x y) ↦ (raised (authorization_error x y), s')
        | raised key_error ↦ (raised key_error, s')
        | blocked ↦ (blocked, s')
      ]

  unfoldable pub verified :
      CommandOptions → VerificationContext → Exec (State W) (JoseHeader × AssertionClaims)
  verified options context = do
    claims ← on_world (ports.verify options.client_assertion context)
    header ← lift (ports.decode_header options.client_assertion)
    pure (header, claims)

  abbrev pub replay_record : AssertionClaims → ReplayRecord
  replay_record c = record {
    expires_at = c.exp + settings.clock_tolerance;
    jwt_id = c.jti;
    subject = c.sub;
  }

  -- the use of the replay store
  unfoldable pub consumed : AssertionClaims → DateTime → Exec (State W) (Option AssertionClaims)
  consumed c now = do
    fresh ← on_replay (consume (replay_record c) (timestamp now))
    pure (if fresh then some c else none)

  unfoldable pub accepted :
      AssertionOperation
      → Option String
      → DateTime
      → Option (JoseHeader × AssertionClaims)
      → Exec (State W) (Option AssertionClaims)
  accepted operation resource now none = pure none
  accepted operation resource now (some (header, c)) =
      if valid_assertion header c operation resource now then consumed c now else pure none

  unfoldable pub authenticate_assertion :
      CommandOptions → AssertionOperation → Option String → Exec (State W) (Option AssertionClaims)
  authenticate_assertion options operation resource =
      if options.client_assertion == "" then pure none else do
        now ← on_world (now_of ports)
        found ← caught (
            verified options (record {
              current_time = now;
              idempotency_key = options.idempotency_key;
              operation = operation;
              resource = resource;
            }))
        accepted operation resource now found
