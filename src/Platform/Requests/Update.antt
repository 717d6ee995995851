-- ===== src/Platform/Requests/Update.antt =====
-- What `update_identity` of platform/platform.py may change.
use aep_python.Common.{
  String, ◌≡◌, refl, sym, ap, ◌∙◌, ◌⊎◌, inl, inr, Bool, true, false, not, ◌||◌, Option, none, some,
  ◌==◌, nat_eq, string_eq, pair_eq, list_eq, if_cases, nonempty, if◌then◌else◌,
}
use aep_python.Common.Exec.{Result, ok, raised, blocked, Exec, pure, lift, continue, ◌>>=◌, ◌>>◌}
use aep_python.Service.Time.{DateTime}
use aep_python.Platform.Types.{ManagedAgentStatus, IdentityRecord, RequestContext}
use aep_python.Platform.Identities.{IdentityStore, update_status, validate_identity_record}
use aep_python.Platform.Identities
use aep_python.Platform.Settings.{
  AuthorizationRequest, success, problem, PlatformSettings, PlatformPorts, PlatformState, on_world,
  on_identities, now_of, require_aware, identity_response,
}
use aep_python.Platform.Requests.{
  mismatched, is_lifecycle_update, with_principal, authorized_record, check_update, lifecycle_error,
  answer_identity, authorized_identity, update_allowed, update_authorized, update_identity,
}
use aep_python.Platform.Requests.Owner.{IsAllowed, authorized_identity-Allowed}

module _ {W : Type 0} where
  -- the store after a step, an exception included
  abbrev pub Keeps : {A : Type 0} → Exec (PlatformState W) A → Type 0
  Keeps {A} m = (s : PlatformState W) → (m s).1.identities ≡ s.identities

  on_world-Keeps : {A : Type 0} (m : Exec W A) → Keeps (on_world m)
  on_world-Keeps m s = refl

  then-Keeps :
      {A B : Type 0} (m : Exec (PlatformState W) A) (f : A → Exec (PlatformState W) B)
      → Keeps m
      → ((a : A) → Keeps (f a))
      → Keeps (m >>= f)
  then-Keeps {A} m f k l s = go (m s) (k s)
    where
      go :
          (x : Result A × PlatformState W)
          → x.1.identities ≡ s.identities
          → (continue x.0 f x.1).1.identities ≡ s.identities
      go (ok a, t) e = l a t ∙ e
      go (raised e', t) e = e
      go (blocked, t) e = e

module _ {W : Type 0} (settings : PlatformSettings) (ports : PlatformPorts W) where
  answer-Keeps : (r : Option IdentityRecord) → Keeps (answer_identity settings ports r)
  answer-Keeps none s = refl
  answer-Keeps (some r) s =
      then-Keeps (lift (ports.identity_model (identity_response r)))
        (λ body. pure (success 200 body)) (λ t. refl) (λ b t. refl) s

  check-Keeps :
      {A : Type 0} (r : Result (Unit {0})) (n : Exec (PlatformState W) A)
      → Keeps n
      → Keeps (lift r >> n)
  check-Keeps r n k = then-Keeps (lift r) (λ _. n) (λ s. refl) (λ _. k)

  now_of-Keeps : Keeps (now_of ports)
  unfolding now_of
  now_of-Keeps =
      then-Keeps (on_world ports.clock) (λ t. lift (require_aware t)) (λ s. refl) (λ t s. refl)

  with_principal-Keeps :
      (request : AuthorizationRequest) (context : RequestContext) (r : IdentityRecord)
      → Keeps (with_principal settings ports request context r)
  with_principal-Keeps request context r s =
      if_cases {A = Exec (PlatformState W) (Option IdentityRecord)}
        (λ m. (m s).1.identities ≡ s.identities)
        (not (nonempty context.principal) || not (r.principal == context.principal)) (λ t. refl)
        (λ f.
          then-Keeps (on_world (ports.authorize request context))
            (λ allowed. pure (if allowed then some r else none)) (λ u. refl) (λ a u. refl) s)

  authorized_record-Keeps :
      (id : String) (request : IdentityRecord → AuthorizationRequest) (context : RequestContext)
      (r : Option IdentityRecord)
      → Keeps (authorized_record settings ports id request context r)
  authorized_record-Keeps id request context none s = refl
  authorized_record-Keeps id request context (some r) s =
      let named : Result (Unit {0}) = if r.agent_identity_id == id then ok tt else mismatched in
      let body : Exec (PlatformState W) (Option IdentityRecord) =
        with_principal settings ports (request r) context r in
      check-Keeps (validate_identity_record r) (lift named >> body)
        (check-Keeps named body (with_principal-Keeps (request r) context r)) s

  check_update-Keeps :
      (status : ManagedAgentStatus) (r : IdentityRecord) (q : Option IdentityRecord)
      → Keeps (check_update settings ports status r q)
  check_update-Keeps status r none s = refl
  check_update-Keeps status r (some q) s =
      let same : Result (Unit {0}) = if is_lifecycle_update r q status then ok tt else mismatched in
      check-Keeps (validate_identity_record q)
        (lift same >> answer_identity settings ports (some q))
        (check-Keeps same (answer_identity settings ports (some q)) (answer-Keeps (some q))) s

  authorized_identity-Keeps :
      (id : String) (request : IdentityRecord → AuthorizationRequest) (context : RequestContext)
      → Keeps (authorized_identity settings ports id request context)
  unfolding authorized_identity
  authorized_identity-Keeps id request context s =
      authorized_record-Keeps id request context (Identities.get_identity id s.identities) s

  -- the store is as before, or as after the update of the status
  abbrev pub Written : String → ManagedAgentStatus → IdentityStore → IdentityStore → Type 0
  Written id status before after =
      (after ≡ before) ⊎ ((now : DateTime) × (after ≡ (update_status id status now before).1))

  update_allowed-Written :
      (id : String) (status : ManagedAgentStatus) (r : IdentityRecord) (s : PlatformState W)
      → Written id status s.identities (update_allowed settings ports id status r s).1.identities
  unfolding update_allowed
  update_allowed-Written id status r s = go (now_of ports s) (now_of-Keeps s)
    where
      write : DateTime → Exec (PlatformState W) (Option IdentityRecord)
      write now = on_identities (update_status id status now)

      go :
          (x : Result DateTime × PlatformState W)
          → x.1.identities ≡ s.identities
          → Written id status s.identities
              (continue x.0
                (λ now. write now >>= check_update settings ports status r)
                x.1).1.identities
      go (ok now, t) e =
          inr (now, wrote now (write now t) refl ∙ ap (λ y. (update_status id status now y).1) e)
        where
          wrote :
              (now : DateTime)
              → (x : Result (Option IdentityRecord) × PlatformState W)
              → x.1.identities ≡ (update_status id status now t.identities).1
              → (continue x.0 (check_update settings ports status r) x.1).1.identities
                ≡ (update_status id status now t.identities).1
          wrote now (ok q, u) f = check_update-Keeps status r q u ∙ f
          wrote now (raised e', u) f = f
          wrote now (blocked, u) f = f
      go (raised e', t) e = inl e
      go (blocked, t) e = inl e

  -- who may write an update: the caller owns the identity, and the application and the lifecycle
  -- policy allow it
  pub record IsPermitted (id : String) (status : ManagedAgentStatus) (context : RequestContext)
      (s : PlatformState W) : Type 0 where
    pub identity : IdentityRecord
    pub asked : PlatformState W
    pub transition : W
    pub authorized :
        IsAllowed ports id
          (λ r. AuthorizationRequest.update_identity r status)
          context
          s
          identity
          asked
    pub permitted : ports.can_transition identity status context asked.world ≡ (ok true, transition)

  module _ (id : String) (status : ManagedAgentStatus) (context : RequestContext)
      (s : PlatformState W) where
    -- the store is as before, or the caller was permitted to update it
    abbrev pub IsUpdated : {A : Type 0} → Result A × PlatformState W → Type 0
    IsUpdated (x, t) =
        (t.identities ≡ s.identities)
        ⊎ (IsPermitted id status context s
            × ((now : DateTime) × (t.identities ≡ (update_status id status now s.identities).1)))

    abbrev pub requested : IdentityRecord → AuthorizationRequest
    requested r = AuthorizationRequest.update_identity r status

    transition-Updated :
        (r : IdentityRecord) (t : PlatformState W) (x : Result Bool × W)
        → IsAllowed ports id requested context s r t
        → ports.can_transition r status context t.world ≡ x
        → IsUpdated (
            continue x.0
              (λ allowed.
                if allowed
                then update_allowed settings ports id status r
                else pure (problem 403 (lifecycle_error r.status)))
              (record t { world = x.1 }))
    transition-Updated r t (ok true, w) v e =
        let same : t.identities ≡ s.identities = ap (λ y. y.identities) v.only_world in
        let permitted : IsPermitted id status context s = record {
          identity = r;
          asked = t;
          transition = w;
          authorized = v;
          permitted = e;
        } in
        elim (update_allowed-Written id status r (record t { world = w })) [
          | inl f ↦ inl (f ∙ same)
          | inr (now, f) ↦
              inr (permitted, (now, f ∙ ap (λ y. (update_status id status now y).1) same))
        ]
    transition-Updated r t (ok false, w) v e = inl (ap (λ y. y.identities) v.only_world)
    transition-Updated r t (raised e', w) v e = inl (ap (λ y. y.identities) v.only_world)
    transition-Updated r t (blocked, w) v e = inl (ap (λ y. y.identities) v.only_world)

    unchanged :
        (x : Result (Option IdentityRecord) × PlatformState W)
        → authorized_identity settings ports id requested context s ≡ x
        → x.1.identities ≡ s.identities
    unchanged x e =
        ap (λ y. y.1.identities) (sym e) ∙ authorized_identity-Keeps id requested context s

    authorized-Updated :
        (x : Result (Option IdentityRecord) × PlatformState W)
        → authorized_identity settings ports id requested context s ≡ x
        → IsUpdated (continue x.0 (update_authorized settings ports id status context) x.1)
    authorized-Updated (ok (some r), t) e =
        transition-Updated r t (ports.can_transition r status context t.world)
          (authorized_identity-Allowed settings ports context id requested r s t e) refl
    authorized-Updated (ok none, t) e = inl (unchanged (ok none, t) e)
    authorized-Updated (raised e', t) e = inl (unchanged (raised e', t) e)
    authorized-Updated (blocked, t) e = inl (unchanged (blocked, t) e)

    -- Whatever `update_identity` answers, an exception included: the identity store is as before, or
    -- the status of the one named identity is set in it; and then that identity is the caller's own,
    -- and the application and the lifecycle policy have both allowed the change.
    pub update_identity-Updated : IsUpdated (update_identity settings ports id status context s)
    unfolding update_identity
    update_identity-Updated =
        authorized-Updated (authorized_identity settings ports id requested context s) refl
