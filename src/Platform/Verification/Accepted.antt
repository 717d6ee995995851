-- ===== src/Platform/Verification/Accepted.antt =====
-- What a verified answer of `_verify` of platform/platform.py holds.
use aep_python.Common.{
  String, ◌≡◌, refl, sym, ap, ◌∙◌, inl, inr, Bool, true, false, Option, none, some, arith, nat_eq,
  string_eq, pair_eq, list_eq, if◌then◌else◌, Bool-cases, Option-cases,
}
use aep_python.Common.Exec.{
  value_error, assertion_error, authorization_error, key_error, Result, ok, raised, blocked, Exec,
  pure, lift, ◌>>=◌,
}
use aep_python.Common.Exec.{bind_ok, lift_ok, pure_ok}
use aep_python.Core.Assertions.{verify_client_assertion}
use aep_python.Core.Assertions.Rules.{IsVerified}
use aep_python.Core.Assertions.Verified.{verify_sound}
use aep_python.Service.Time.{DateTime, timestamp}
use aep_python.Service.Settings.{AssertionClaims}
use aep_python.Platform.Types.{active, managed_beq, managed_beq_iff, IdentityRecord, RequestContext}
use aep_python.Platform.Settings.{
  PlatformResult, PlatformVerificationRequest, PlatformVerificationResponse, PlatformSettings,
  PlatformPorts, PlatformState, on_world, on_replay, request_time, now_of, require_aware, consume,
  ReplayStore,
}
use aep_python.Platform.Steps.{on_world_ok, on_replay_ok}
use aep_python.Platform.Signing.{expected}
use aep_python.Platform.Verification.{
  unrecognized, recognized, replay_key, from_timestamp, verified_or, caught, read_claims, use_up,
  with_verified, verify_allowed, verify_body,
}

-- an answer says that the assertion is verified
abbrev pub says_verified : PlatformResult PlatformVerificationResponse → Bool
says_verified x = elim x.body [ none ↦ false | some body ↦ body.verified ]

-- the run of `_verify` from `s` to `t` that accepts an assertion: the lifecycle policy allows it, the
-- key store gives the key, the clock is read, the assertion is verified at that time, the clock is
-- read again, and the replay store as it was in `s` accepts the identifier
pub record IsAccepted {W : Type 0} (ports : PlatformPorts W) (r : IdentityRecord)
    (request : PlatformVerificationRequest) (context : RequestContext) (s t : PlatformState W)
    : Type 0 where
  pub allowed : PlatformState W
  pub is_allowed : on_world (ports.can_verify r context) s ≡ (ok true, allowed)
  pub key : String
  pub keyed : PlatformState W
  pub has_key : on_world (ports.verification_key r) allowed ≡ (ok key, keyed)
  pub now : DateTime
  pub timed : PlatformState W
  pub has_time : request_time ports context keyed ≡ (ok now, timed)
  pub claims : AssertionClaims
  pub verified :
      IsVerified ports.normalize_resource
        (expected r request.service_did request.op request.resource (timestamp now))
        ports.jwt
        request.client_assertion
        key
        (timestamp now)
        claims
  pub used_at : DateTime
  pub clocked : PlatformState W
  pub has_clock : request_time ports context timed ≡ (ok used_at, clocked)
  pub used :
      consume
        (replay_key request.service_did request.op r.agent_did claims.jti)
        (from_timestamp claims.exp)
        used_at
        s.replay
      ≡ (ok true, t.replay)
  pub rest : t ≡ record s { world = clocked.world; replay = t.replay }

verified_or-ok : {A : Type 0} (r : Result A) (a : A) → verified_or r ≡ ok (some a) → r ≡ ok a
verified_or-ok (ok b) a h = cc
verified_or-ok (raised (value_error m)) a h = absurd ground arith
verified_or-ok (raised (assertion_error m)) a h = absurd ground arith
verified_or-ok (raised (authorization_error m e)) a h = absurd ground arith
verified_or-ok (raised key_error) a h = absurd ground arith
verified_or-ok blocked a h = absurd ground arith

fresh_or :
    (b : Bool) (request : PlatformVerificationRequest) (r : IdentityRecord)
    (x : PlatformResult PlatformVerificationResponse)
    → (if b then recognized request r else unrecognized request.service_did) ≡ x
    → says_verified x ≡ true
    → (b ≡ true) × (x ≡ recognized request r)
fresh_or true request r x h v = (refl, sym h)
fresh_or false request r x h v = absurd ground arith

caught_ok :
    {S A : Type 0} (m : Exec S A) (s : S) {a : A} {t : S}
    → caught m s ≡ (ok (some a), t)
    → m s ≡ (ok a, t)
caught_ok {S} {A} m s {a} {t} h = go (m s) h
  where
    go :
        (x : Result A × S)
        → ◌≡◌ {A = Result (Option A) × S} (verified_or x.0, x.1) (ok (some a), t)
        → x ≡ (ok a, t)
    go (r, u) e =
        let is : r ≡ ok a = verified_or-ok r a (ap (λ y. y.0) e) in
        let same : u ≡ t = ap (λ y. y.1) e in λ i. (is i, same i)

module _ {W : Type 0} (ports : PlatformPorts W) (context : RequestContext) where
  -- Reading the time changes the world alone.
  request_time_ok :
      (s : PlatformState W) {now : DateTime} {t : PlatformState W}
      → request_time ports context s ≡ (ok now, t)
      → t ≡ record s { world = t.world }
  unfolding request_time now_of
  request_time_ok s {now} {t} h = elim (Option-cases context.current_time) [
    | inr (given, e) ↦
        let h' : lift (require_aware given) s ≡ (ok now, t) = ground arith in
        let same : t ≡ s = (lift_ok (require_aware given) s h').1 in
        same ∙ ap (λ w. record s { world = w }) (ap (λ x. x.world) (sym same))
    | inl e ↦
        let h' : (on_world ports.clock >>= (λ t. lift (require_aware t))) s ≡ (ok now, t) =
          ground arith in
        let (read, u, asked, rest) =
          bind_ok (on_world ports.clock) (λ t. lift (require_aware t)) s h' in
        let same : t ≡ u = (lift_ok (require_aware read) u rest).1 in
        let only : u ≡ record s { world = u.world } = (on_world_ok ports.clock s asked).1 in
        same ∙ only ∙ ap (λ w. record s { world = w }) (ap (λ x. x.world) (sym same))
  ]

module _ {W : Type 0} (settings : PlatformSettings) (ports : PlatformPorts W) (r : IdentityRecord)
    (request : PlatformVerificationRequest) (context : RequestContext)
    (x : PlatformResult PlatformVerificationResponse) (says : says_verified x ≡ true) where
  use_up-Used :
      (c : AssertionClaims) (s t : PlatformState W)
      → use_up settings ports r request context c s ≡ (ok x, t)
      → (x ≡ recognized request r)
        × (used_at : DateTime) × (clocked : PlatformState W) × (request_time ports context s
            ≡ (ok used_at, clocked))
        × (consume
              (replay_key request.service_did request.op r.agent_did c.jti)
              (from_timestamp c.exp)
              used_at
              clocked.replay
            ≡ (ok true, t.replay))
        × (t ≡ record clocked { replay = t.replay })
  unfolding use_up
  use_up-Used c s t h =
      let attempt : DateTime → Exec ReplayStore Bool = λ now.
        consume (replay_key request.service_did request.op r.agent_did c.jti) (from_timestamp c.exp)
          now in
      let reply : Bool → Exec (PlatformState W) (PlatformResult PlatformVerificationResponse) =
        λ fresh. pure (if fresh then recognized request r else unrecognized request.service_did) in
      let with_time : DateTime
          → Exec (PlatformState W) (PlatformResult PlatformVerificationResponse) =
        λ now. on_replay (attempt now) >>= reply in
      let (now, u, clock, h1) =
        bind_ok (request_time ports context) with_time s {b = x} {t = t} h in
      let (fresh, v, asked, h2) = bind_ok (on_replay (attempt now)) reply u {b = x} {t = t} h1 in
      let (said, same) =
        pure_ok (if fresh then recognized request r else unrecognized request.service_did) v {b = x}
          {t = t} h2 in
      let (is_fresh, is) = fresh_or fresh request r x said says in
      let (used, only) = on_replay_ok (attempt now) u {a = fresh} {t = v} asked in
      (
        is,
        now,
        u,
        clock,
        used ∙ ap (λ b. (ok b, v.replay)) is_fresh ∙ ap (λ z. (ok true, z.replay)) (sym same),
        same ∙ only ∙ ap (λ z. record u { replay = z.replay }) (sym same),
      )

  -- what the `try` of `_verify` read
  read_claims-Read :
      (c : AssertionClaims) (s t : PlatformState W)
      → read_claims settings ports r request context s ≡ (ok c, t)
      → (key : String) × (keyed : PlatformState W) × (now : DateTime) × (on_world
            (ports.verification_key r)
            s
          ≡ (ok key, keyed))
        × (request_time ports context keyed ≡ (ok now, t))
        × (verify_client_assertion ports.normalize_resource
              (expected r request.service_did request.op request.resource (timestamp now))
              ports.jwt
              request.client_assertion
              key
              (timestamp now)
            ≡ ok c)
  unfolding read_claims
  read_claims-Read c s t h =
      let result : String → DateTime → Result AssertionClaims = λ key now.
        verify_client_assertion ports.normalize_resource
          (expected r request.service_did request.op request.resource (timestamp now)) ports.jwt
          request.client_assertion key (timestamp now) in
      let with_time : String → DateTime → Exec (PlatformState W) AssertionClaims =
        λ key now. lift (result key now) in
      let with_key : String → Exec (PlatformState W) AssertionClaims =
        λ key. request_time ports context >>= with_time key in
      let (key, u, asked, h1) =
        bind_ok (on_world (ports.verification_key r)) with_key s {b = c} {t = t} h in
      let (now, v, clock, h2) =
        bind_ok (request_time ports context) (with_time key) u {b = c} {t = t} h1 in
      let (is, same) = lift_ok (result key now) v {x = c} {t = t} h2 in
      (key, u, now, asked, clock ∙ ap (λ z. (ok now, z)) (sym same), is)

  read-Accepted :
      (c : AssertionClaims) (s u v t : PlatformState W)
      → on_world (ports.can_verify r context) s ≡ (ok true, u)
      → read_claims settings ports r request context u ≡ (ok c, v)
      → use_up settings ports r request context c v ≡ (ok x, t)
      → (x ≡ recognized request r) × IsAccepted ports r request context s t
  read-Accepted c s u v t allowed read h =
      let (is, used_at, clocked, clock, used, only) = use_up-Used c v t h in
      let (key, keyed, now, asked, time, good) = read_claims-Read c u v read in
      let a : u ≡ record s { world = u.world } =
        (on_world_ok (ports.can_verify r context) s {a = true} {t = u} allowed).1 in
      let b : keyed ≡ record u { world = keyed.world } =
        (on_world_ok (ports.verification_key r) u {a = key} {t = keyed} asked).1 in
      let d : v ≡ record keyed { world = v.world } = request_time_ok ports context keyed time in
      let e : clocked ≡ record v { world = clocked.world } =
        request_time_ok ports context v clock in
      let same : clocked ≡ record s { world = clocked.world } =
        e
        ∙ ap {A = PlatformState W} (λ z. record z { world = clocked.world }) d
        ∙ ap {A = PlatformState W} (λ z. record z { world = clocked.world }) b
        ∙ ap {A = PlatformState W} (λ z. record z { world = clocked.world }) a in
      (
        is,
        record {
          allowed = u;
          is_allowed = allowed;
          key = key;
          keyed = keyed;
          has_key = asked;
          now = now;
          timed = v;
          has_time = time;
          claims = c;
          verified =
              verify_sound ports.normalize_resource
                (expected r request.service_did request.op request.resource (timestamp now))
                ports.jwt request.client_assertion key (timestamp now) c good;
          used_at = used_at;
          clocked = clocked;
          has_clock = clock;
          used =
              ap {A = ReplayStore}
                (λ z.
                  consume (replay_key request.service_did request.op r.agent_did c.jti)
                    (from_timestamp c.exp) used_at z)
                (sym (ap (λ z. z.replay) same))
              ∙ used;
          rest = only ∙ ap {A = PlatformState W} (λ z. record z { replay = t.replay }) same;
        },
      )

  with_verified-Accepted :
      (c : Option AssertionClaims) (s u v t : PlatformState W)
      → on_world (ports.can_verify r context) s ≡ (ok true, u)
      → caught (read_claims settings ports r request context) u ≡ (ok c, v)
      → with_verified settings ports r request context c v ≡ (ok x, t)
      → (x ≡ recognized request r) × IsAccepted ports r request context s t
  with_verified-Accepted none s u v t allowed read h = absurd ground arith
  with_verified-Accepted (some c) s u v t allowed read h =
      read-Accepted c s u v t allowed
        (caught_ok (read_claims settings ports r request context) u {a = c} {t = v} read) h

  verify_allowed-Accepted :
      (s u t : PlatformState W)
      → on_world (ports.can_verify r context) s ≡ (ok true, u)
      → verify_allowed settings ports r request context u ≡ (ok x, t)
      → (x ≡ recognized request r) × IsAccepted ports r request context s t
  unfolding verify_allowed
  verify_allowed-Accepted s u t allowed h =
      let (c, v, read, h1) =
        bind_ok (caught (read_claims settings ports r request context))
          (with_verified settings ports r request context) u {b = x} {t = t} h in
      with_verified-Accepted c s u v t allowed read h1

  -- An answer of `_verify` that says an assertion is verified is the one for this identity, which is
  -- active. The lifecycle policy has allowed it; the assertion is verified, under the key that the
  -- key store then gave and at the time that was then read, as one of its Agent for this Service,
  -- operation and resource; and the replay store as it was before the request has accepted its
  -- identifier, at the time that was read last. Nothing else changes but the state outside.
  pub verify_body-Accepted :
      (s t : PlatformState W)
      → verify_body settings ports r request context s ≡ (ok x, t)
      → (r.status ≡ active) × (x ≡ recognized request r) × IsAccepted ports r request context s t
  unfolding verify_body
  verify_body-Accepted s t h = elim (Bool-cases (managed_beq r.status active)) [
    | inr n ↦ absurd ground arith
    | inl is ↦
        let decide : Bool → Exec (PlatformState W) (PlatformResult PlatformVerificationResponse) =
          λ allowed.
            if allowed
            then verify_allowed settings ports r request context
            else pure (unrecognized request.service_did) in
        let (allowed, u, asked, h1) =
          bind_ok (on_world (ports.can_verify r context)) decide s {b = x} {t = t} (ground arith) in
        let (answer, accepted) = decided allowed u asked h1 in
        ((managed_beq_iff r.status active).0 is, answer, accepted)
  ]
    where
      decided :
          (allowed : Bool) (u : PlatformState W)
          → on_world (ports.can_verify r context) s ≡ (ok allowed, u)
          → (if allowed
                then verify_allowed settings ports r request context
                else pure (unrecognized request.service_did))
              u
            ≡ (ok x, t)
          → (x ≡ recognized request r) × IsAccepted ports r request context s t
      decided true u asked h = verify_allowed-Accepted s u t asked h
      decided false u asked h = absurd ground arith
