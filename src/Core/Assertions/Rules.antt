-- ===== src/Core/Assertions/Rules.antt =====
-- The rules of a verified assertion, as propositions, and the tests of them.
use aep_python.Common.{
  ℕ, ◌+◌, ◌≤◌, ◌<◌, String, ◌≡◌, refl, ◌↔◌, inl, inr, Bool, true, false, Option, none, some, List,
  map, arith, nat_eq, string_eq, pair_eq, list_eq, ==_iff, member, beq_refl, if◌then◌else◌,
  Option-cases,
}
use aep_python.Common.Exec.{
  value_error, assertion_error, authorization_error, key_error, Result, ok, raised, blocked,
}
use aep_python.Service.Settings.{AssertionOperation, operation_beq, AssertionClaims, JoseHeader}
use aep_python.Service.Assertions.{partition_front}
use aep_python.Core.Assertions.{
  NotBefore, absent, invalid, at, Payload, Jwt, VerifyClientAssertionOptions, algorithm_text,
  differs, other_operation, premature, key_id_of, allowed_algorithm, resource_matches,
  resource_checked, check_claims, decoded, refused,
}

-- an expectation is not named, or met
abbrev pub Met : {A : Type 0} → Option A → A → Type 0
Met none actual = Unit
Met (some wanted) actual = wanted ≡ actual

abbrev pub NotEarly : NotBefore → ℕ → Type 0
NotEarly absent now = Unit
NotEarly invalid now = ⊥
NotEarly (at t) now = t ≤ now

-- what a verified assertion is: signed with an allowed algorithm under a key of the Agent who is
-- issuer and subject, within its window, and as expected
pub record IsVerified (normalize : String → Result String) (options : VerifyClientAssertionOptions)
    (jwt : Jwt) (assertion key : String) (now : ℕ) (c : AssertionClaims) : Type 0 where
  pub header : JoseHeader
  pub payload : Payload
  pub key_id : String
  pub alg : String
  pub has_header : jwt.header assertion ≡ some header
  pub is_jwt : header.typ ≡ some "JWT"
  pub has_kid : header.kid ≡ some key_id
  pub has_alg : header.alg ≡ some alg
  pub is_allowed : member alg (map algorithm_text options.algorithms) ≡ true
  pub is_signed : jwt.decode assertion key (map algorithm_text options.algorithms) ≡ some payload
  pub has_claims : payload.claims ≡ some c
  pub bound_key : partition_front b'#' key_id ≡ c.iss
  pub one_agent : c.iss ≡ c.sub
  pub not_early : NotEarly payload.nbf (now + options.clock_tolerance_seconds)
  pub issued : c.iat ≤ now + options.clock_tolerance_seconds
  pub lives : now < c.exp + options.clock_tolerance_seconds
  pub audience_met : Met options.audience c.aud
  pub issuer_met : Met options.issuer c.iss
  pub subject_met : Met options.subject c.sub
  pub operation_met : Met options.operation c.op
  pub resource_met : resource_matches normalize options.resource c.resource ≡ ok true

pub differs-Met :
    (wanted : Option String) (actual : String) → differs wanted actual ≡ false → Met wanted actual
differs-Met none actual h = tt
differs-Met (some w) actual h = ground (arith, ==_iff w actual)

pub Met-differs :
    (wanted : Option String) (actual : String) → Met wanted actual → differs wanted actual ≡ false
Met-differs none actual h = refl
Met-differs (some w) actual h = ground (arith, ==_iff w actual)

pub operation_iff : (a b : AssertionOperation) → (operation_beq a b ≡ true) ↔ (a ≡ b)
operation_iff a b = ground arith

pub other-Met :
    (wanted : Option AssertionOperation) (actual : AssertionOperation)
    → other_operation wanted actual ≡ false
    → Met wanted actual
other-Met none actual h = tt
other-Met (some w) actual h = (operation_iff w actual).0 (ground arith)

pub Met-other :
    (wanted : Option AssertionOperation) (actual : AssertionOperation)
    → Met wanted actual
    → other_operation wanted actual ≡ false
Met-other none actual h = refl
Met-other (some w) actual h =
    let same : operation_beq w actual ≡ true = (operation_iff w actual).1 h in rw same

pub premature-NotEarly : (n : NotBefore) (limit : ℕ) → premature n limit ≡ false → NotEarly n limit
unfolding premature
premature-NotEarly absent limit h = tt
premature-NotEarly invalid limit h = absurd ground arith
premature-NotEarly (at t) limit h = ground arith

pub NotEarly-premature : (n : NotBefore) (limit : ℕ) → NotEarly n limit → premature n limit ≡ false
unfolding premature
NotEarly-premature absent limit h = refl
NotEarly-premature invalid limit h = absurd h
NotEarly-premature (at t) limit h = ground arith

pub resource-ok :
    (x : Result Bool) (c d : AssertionClaims)
    → resource_checked x c ≡ ok d
    → (x ≡ ok true) × (c ≡ d)
resource-ok (ok true) c d h = (refl, ground arith)
resource-ok (ok false) c d h = absurd ground arith
resource-ok (raised (value_error m)) c d h = absurd ground arith
resource-ok (raised (assertion_error m)) c d h = absurd ground arith
resource-ok (raised (authorization_error m e)) c d h = absurd ground arith
resource-ok (raised key_error) c d h = absurd ground arith
resource-ok blocked c d h = absurd ground arith

pub refuse-ok :
    {A : Type 0} (b : Bool) (m : String) (r : Result A) (d : A)
    → (if b then refused m else r) ≡ ok d
    → (b ≡ false) × (r ≡ ok d)
refuse-ok true m r d h = absurd ground arith
refuse-ok false m r d h = (refl, h)

pub key_id-some :
    (h : JoseHeader) (k : String) → key_id_of h ≡ some k → (h.typ ≡ some "JWT") × (h.kid ≡ some k)
unfolding key_id_of
key_id-some h k e = elim (Option-cases h.typ) [
  | inl n ↦ absurd ground arith
  | inr (t, p) ↦ (ground (arith, ==_iff t "JWT"), ground arith)
]

pub some-key_id :
    (h : JoseHeader) (k : String) → h.typ ≡ some "JWT" → h.kid ≡ some k → key_id_of h ≡ some k
unfolding key_id_of
some-key_id h k e f = ground (arith, beq_refl {A = String} "JWT")

pub alg-some :
    (a : Option String) (allowed : List String)
    → allowed_algorithm a allowed ≡ true
    → (alg : String) × (a ≡ some alg) × (member alg allowed ≡ true)
alg-some none allowed h = absurd ground arith
alg-some (some alg) allowed h = (alg, refl, h)

pub claims-some :
    (normalize : String → Result String) (options : VerifyClientAssertionOptions) (key_id : String)
    (p : Option Payload) (now : ℕ) (d : AssertionClaims)
    → decoded normalize options key_id p now ≡ ok d
    → (q : Payload) × (c : AssertionClaims) × (p ≡ some q)
      × (q.claims ≡ some c)
      × (check_claims normalize options key_id q.nbf c now ≡ ok d)
claims-some normalize options key_id none now d h = absurd ground arith
claims-some normalize options key_id (some q) now d h = elim (Option-cases q.claims) [
  | inl n ↦ absurd ground arith
  | inr (c, e) ↦ (q, c, refl, e, ground arith)
]
