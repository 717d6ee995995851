-- ===== src/Platform/Requests/Owner.antt =====
-- Whom `_authorized_identity` of platform/platform.py lets work on an identity.
use aep_python.Common.{
  String, ◌≡◌, sym, ap, ◌∙◌, inl, inr, Bool, true, false, not, ◌||◌, Option, none, some, arith,
  ◌==◌, nat_eq, string_eq, pair_eq, list_eq, ==_iff, nonempty, if◌then◌else◌, Bool-cases,
  Option-cases,
}
use aep_python.Common.Exec.{Result, ok, Exec, pure, lift, ◌>>=◌, ◌>>◌}
use aep_python.Common.Dict.{has}
use aep_python.Common.Exec.{bind_ok, check_ok, pure_ok}
use aep_python.Platform.Types.{IdentityRecord, RequestContext}
use aep_python.Platform.Identities.{validate_identity_record, invalid_identity}
use aep_python.Platform.Identities
use aep_python.Platform.Settings.{
  AuthorizationRequest, PlatformSettings, PlatformPorts, PlatformState, on_world,
}
use aep_python.Platform.Steps.{on_world_ok}
use aep_python.Platform.Requests.{mismatched, with_principal, authorized_identity}

-- the caller's own identity, in a state that only the application's answer has changed
pub record IsAllowed {W : Type 0} (ports : PlatformPorts W) (id : String)
    (request : IdentityRecord → AuthorizationRequest) (context : RequestContext)
    (s : PlatformState W) (r : IdentityRecord) (t : PlatformState W) : Type 0 where
  pub stored : Identities.get_identity id s.identities ≡ some r
  pub is_valid : invalid_identity r ≡ false
  pub is_named : r.agent_identity_id ≡ id
  pub has_principal : nonempty context.principal ≡ true
  pub is_owner : r.principal ≡ context.principal
  pub is_allowed : ports.authorize (request r) context s.world ≡ (ok true, t.world)
  pub only_world : t ≡ record s { world = t.world }

pub valid_record :
    (r : IdentityRecord) {x : Unit} → validate_identity_record r ≡ ok x → invalid_identity r ≡ false
unfolding validate_identity_record
valid_record r h = ground arith

allowed_if :
    (b : Bool) (r q : IdentityRecord) → (if b then some r else none) ≡ some q → (b ≡ true) × (r ≡ q)
allowed_if b r q h = ground arith

pub named_if :
    (a b : String) → (if a == b then ok tt else mismatched {A = Unit {0}}) ≡ ok tt → a ≡ b
named_if a b h = ground (arith, ==_iff a b)

module _ {W : Type 0} (settings : PlatformSettings) (ports : PlatformPorts W)
    (context : RequestContext) where
  with_principal-Allowed :
      (request : AuthorizationRequest) (r q : IdentityRecord) (s t : PlatformState W)
      → with_principal settings ports request context r s ≡ (ok (some q), t)
      → (r ≡ q)
        × (nonempty context.principal ≡ true)
        × (r.principal ≡ context.principal)
        × (ports.authorize request context s.world ≡ (ok true, t.world))
        × (t ≡ record s { world = t.world })
  with_principal-Allowed request r q s t h =
      elim (Bool-cases
        (not (nonempty context.principal) || not (r.principal == context.principal))) [
          | inl b ↦ absurd ground arith
          | inr b ↦
              let h' : (on_world (ports.authorize request context)
                      >>= (λ allowed. pure (if allowed then some r else none)))
                    s
                  ≡ (ok (some q), t) =
                ground arith in
              let (allowed, u, asked, done) =
                bind_ok (on_world (ports.authorize request context))
                  (λ allowed. pure (if allowed then some r else none)) s h' in
              let (same, same_state) = pure_ok (if allowed then some r else none) u done in
              let (yes', is) = allowed_if allowed r q same in
              let (told, only) = on_world_ok (ports.authorize request context) s asked in
              (is, ground arith, ground (arith, ==_iff r.principal context.principal), cc, cc)
        ]

  -- An identity that `_authorized_identity` returns is the stored and valid record under the given
  -- identifier; its principal is that of the caller and is not empty; the application has allowed the
  -- request; and nothing but the state outside has changed.
  pub authorized_identity-Allowed :
      (id : String) (request : IdentityRecord → AuthorizationRequest) (r : IdentityRecord)
      (s t : PlatformState W)
      → authorized_identity settings ports id request context s ≡ (ok (some r), t)
      → IsAllowed ports id request context s r t
  unfolding authorized_identity
  authorized_identity-Allowed id request r s t h =
      elim (Option-cases (Identities.get_identity id s.identities)) [
        | inl n ↦ absurd ground arith
        | inr (q, e) ↦
            let body : Exec (PlatformState W) (Option IdentityRecord) =
              with_principal settings ports (request q) context q in
            let named : Result (Unit {0}) =
              if q.agent_identity_id == id then ok tt else mismatched in
            let (is_valid, h2) =
              check_ok (validate_identity_record q) (lift named >> body) s {t = t} (ground arith) in
            let (is_named, h3) = check_ok named body s h2 in
            let (is, has, owner, told, only) = with_principal-Allowed (request q) q r s t h3 in
            record {
              stored = e ∙ ap some is;
              is_valid = rw (← is) (valid_record q is_valid);
              is_named = rw (← is) (named_if q.agent_identity_id id is_named);
              has_principal = has;
              is_owner = sym (ap (λ x. x.principal) is) ∙ owner;
              is_allowed = rw (← is) told;
              only_world = only;
            }
      ]
