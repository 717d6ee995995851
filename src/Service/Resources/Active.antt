-- ===== src/Service/Resources/Active.antt =====
-- Who gets into a protected resource: only an Agent whose stored enrollment is active.
use aep_python.Common.{
  String, ◌≡◌, refl, sym, ap, ◌∙◌, inl, inr, Bool, true, false, not, Option, none, some, List, [],
  ◌∷◌, arith, ◌==◌, nat_eq, string_eq, pair_eq, list_eq, ==_iff, member, if◌then◌else◌,
  Option-cases,
}
use aep_python.Common.Exec.{Exn, ok, raised, Exec, pure, lift, ◌>>=◌, >>=-eq-ok}
use aep_python.Core.Http.{Presentation}
use aep_python.Service.Types.{AgentStatus, status_beq_iff, EnrollmentRecord}
use aep_python.Service.Enrollments.{EnrollmentStore, find}
use aep_python.Service.Problem.{ErrorCode}
use aep_python.Service.Settings.{
  AssertionOperation, AssertionClaims, CommandOptions, Settings, Ports, State, on_world, now_of,
}
use aep_python.Service.Assertions.{authenticate_assertion, accepted, consumed, verified}
use aep_python.Service.Responses.{validate_record}
use aep_python.Service.Effects.{Quiet, Quiet-world, Quiet-lift}
use aep_python.Service.Credentials.{CredentialAuthenticationInput}
use aep_python.Service.Credentials.Handler.{AuthenticatedPrincipal}
use aep_python.Service.Resources.{Headers, normalize_headers, Selection, select_presentation}
use aep_python.Service.Resources.Access.{
  ProtectedResourceRequest, ProtectedResourceResult, Resources, active_record, is_active,
  protected_problem, denied, admit, with_claims, with_assertion, with_principal, invalid_principal,
  try_methods, with_credentials, with_selection, authenticate_protected_resource, let_in, is_aep,
  method_of, jwt_principal,
}

-- the enrollment that lets a principal in
abbrev pub ActiveIn : EnrollmentStore → String → Type 0
ActiveIn e agent_did =
    (r : EnrollmentRecord) × (find agent_did e ≡ some r)
    × (r.agent_did ≡ agent_did)
    × (r.status ≡ AgentStatus.active)

-- a result with a principal names an active one, and no other result claims to be authenticated
abbrev pub Admits : EnrollmentStore → ProtectedResourceResult → Type 0
Admits e x =
    x.authenticated ≡ true
    → (p : AuthenticatedPrincipal) × (x.principal ≡ some p) × ActiveIn e p.agent_did

module _ {W : Type 0} (e : EnrollmentStore) where
  abbrev Sound : Exec (State W) ProtectedResourceResult → Type 0
  Sound m =
      (s : State W) (x : ProtectedResourceResult) → s.enrollments ≡ e → (m s).0 ≡ ok x → Admits e x

  Sound-bind :
      {A : Type 0} (m : Exec (State W) A) (f : A → Exec (State W) ProtectedResourceResult)
      → Quiet m
      → ((a : A) → Sound (f a))
      → Sound (m >>= f)
  Sound-bind m f quiet rest s x h r =
      let (a, _, ran) = >>=-eq-ok m f s r in
      rest a (m s).1 x (quiet s ∙ h) (sym (ap (λ y. y.0) ran) ∙ r)

  Sound-if :
      (b : Bool) (m n : Exec (State W) ProtectedResourceResult)
      → Sound m
      → Sound n
      → Sound (if b then m else n)
  Sound-if true m n p q = p
  Sound-if false m n p q = q

  Sound-raised : (x : Exn) → Sound (lift (raised x))
  Sound-raised x s y h r = absurd cc

active-ActiveIn :
    (e : EnrollmentStore) (agent_did : String)
    → active_record (find agent_did e) agent_did ≡ ok true
    → ActiveIn e agent_did
unfolding active_record validate_record
active-ActiveIn e agent_did h = elim (Option-cases (find agent_did e)) [
  | inl n ↦ absurd ground arith
  | inr (r, f) ↦ (
    r,
    f,
    ground (arith, ==_iff r.agent_did agent_did),
    ground (arith, status_beq_iff r.status AgentStatus.active),
  )
]

module _ {W : Type 0} (settings : Settings) (ports : Ports W) (res : Resources W)
    (e : EnrollmentStore) where
  Sound-denied :
      (code : ErrorCode) (resource : String)
      → Sound {W = W} e (denied settings ports res code resource)
  unfolding protected_problem
  Sound-denied code resource s x h r a = ground arith

  admitted_by :
      (resource : String) (p : AuthenticatedPrincipal) (s : State W) (x : ProtectedResourceResult)
      (b : Bool)
      → s.enrollments ≡ e
      → active_record (find p.agent_did s.enrollments) p.agent_did ≡ ok b
      → ((if b
            then pure (let_in p)
            else denied settings ports res ErrorCode.not_recognized resource)
          s).0
        ≡ ok x
      → Admits e x
  admitted_by resource p s x true h read r a =
      (p, ground arith, active-ActiveIn e p.agent_did (rw (← h) read))
  admitted_by resource p s x false h read r a =
      Sound-denied ErrorCode.not_recognized resource s x h r a

  Sound-admit :
      (resource : String) (p : AuthenticatedPrincipal)
      → Sound e (admit settings ports res resource p)
  unfolding admit
  Sound-admit resource p s x h r =
      let (b, read, ran) =
        >>=-eq-ok (is_active settings ports res p.agent_did)
          (λ b.
            if b
            then pure (let_in p)
            else denied settings ports res ErrorCode.not_recognized resource)
          s r in
      admitted_by resource p s x b h read (sym (ap (λ y. y.0) ran) ∙ r)

  Quiet-assertion :
      (options : CommandOptions) (operation : AssertionOperation) (resource : Option String)
      → Quiet (authenticate_assertion settings ports options operation resource)
  unfolding authenticate_assertion accepted consumed verified now_of
  Quiet-assertion options operation resource s = ground arith

  Sound-claims :
      (resource : String) (c : Option AssertionClaims)
      → Sound e (with_claims settings ports res resource c)
  Sound-claims resource none = Sound-denied ErrorCode.not_recognized resource
  Sound-claims resource (some c) = Sound-admit resource (jwt_principal c.sub)

  Sound-assertion :
      (resource : String) (p : Presentation)
      → Sound e (with_assertion settings ports res resource p)
  unfolding with_assertion
  Sound-assertion resource p =
      Sound-if e _ _ _ (Sound-denied ErrorCode.unsupported_authentication_method resource) (
        Sound-bind e _ _ (Quiet-assertion _ AssertionOperation.authenticate (some resource))
          (Sound-claims resource))

  Sound-principal :
      (resource method : String) (p : Option AuthenticatedPrincipal)
      (rest : Exec (State W) ProtectedResourceResult)
      → Sound e rest
      → Sound e (with_principal settings ports res resource method p rest)
  Sound-principal resource method none rest h = h
  Sound-principal resource method (some p) rest h =
      Sound-if e (invalid_principal method p) _ _ (Sound-raised e _) (Sound-admit resource p)

  Quiet-seen :
      (method : String) (input : CredentialAuthenticationInput) (presented : Bool)
      → Quiet {W = W}
          (if presented then pure true else on_world (res.has_presentation method input))
  Quiet-seen method input true s = refl
  Quiet-seen method input false s = refl

  Sound-methods :
      (resource : String) (input : CredentialAuthenticationInput) (methods : List String)
      (presented : Bool)
      → Sound e (try_methods settings ports res resource input methods presented)
  unfolding try_methods
  Sound-methods resource input [] presented = Sound-denied _ resource
  Sound-methods resource input (method ∷ methods) presented =
      Sound-if e (method == "aep-jwt")
        (try_methods settings ports res resource input methods presented)
        (seen >>= λ b. asked >>= answer b) (Sound-methods resource input methods presented)
        (Sound-bind e seen (λ b. asked >>= answer b) (Quiet-seen method input presented)
          λ b. Sound-bind e asked (answer b) (Quiet-world (res.authenticate method input)) λ p.
            Sound-principal resource method p
              (try_methods settings ports res resource input methods b)
              (Sound-methods resource input methods b))
    where
      seen : Exec (State W) Bool
      seen = if presented then pure true else on_world (res.has_presentation method input)

      asked : Exec (State W) (Option AuthenticatedPrincipal)
      asked = on_world (res.authenticate method input)

      answer : Bool → Option AuthenticatedPrincipal → Exec (State W) ProtectedResourceResult
      answer b p =
          with_principal settings ports res resource method p
            (try_methods settings ports res resource input methods b)

  Sound-credentials :
      (request : ProtectedResourceRequest) (headers : Headers) (resource : String)
      (presented : Bool)
      → Sound e (with_credentials settings ports res request headers resource presented)
  unfolding with_credentials
  Sound-credentials request headers resource presented =
      Sound-bind e _ _ (Quiet-world (now_of ports))
        λ now. Sound-methods resource _ res.authentication_methods presented

  Sound-selection :
      (request : ProtectedResourceRequest) (headers : Headers) (resource : String)
      (selection : Selection)
      → Sound e (with_selection settings ports res request headers resource selection)
  Sound-selection request headers resource (p, false) =
      Sound-denied ErrorCode.not_recognized resource
  Sound-selection request headers resource (none, true) =
      Sound-credentials request headers resource false
  Sound-selection request headers resource (some p, true) =
      Sound-if e (is_aep p.scheme) _ _ (Sound-assertion resource p) (
        Sound-if e (not (member (method_of p.scheme) res.authentication_methods)) _ _
          (Sound-denied ErrorCode.unsupported_authentication_method resource)
          (Sound-credentials request headers resource true))

-- Whatever the presentation, the verifier and the authenticators of the application answer: a
-- request that is authenticated has a principal, whose Agent DID has a stored enrollment under that
-- very DID, and its status is active.
pub authenticated_is_active :
    {W : Type 0} (settings : Settings) (ports : Ports W) (res : Resources W)
    (request : ProtectedResourceRequest) (s : State W) (x : ProtectedResourceResult)
    → (authenticate_protected_resource settings ports res request s).0 ≡ ok x
    → x.authenticated ≡ true
    → (p : AuthenticatedPrincipal) × (x.principal ≡ some p) × ActiveIn s.enrollments p.agent_did
unfolding authenticate_protected_resource
authenticated_is_active settings ports res request s x r =
    Sound-bind s.enrollments (lift (res.resource_uri request.url)) _
      (Quiet-lift (res.resource_uri request.url))
      (λ resource.
        Sound-bind s.enrollments (lift (select_presentation (normalize_headers request.headers [])))
          _ (Quiet-lift (select_presentation (normalize_headers request.headers [])))
          (Sound-selection settings ports res s.enrollments request _ resource))
      s x refl r
