-- ===== src/Service/Lifecycle/Identity.antt =====
-- Enrolling again: what an update may change in the enrollment store.
use mathlib.Core.Path.{ap₂, subst}
use aep_python.Common.{
  String, ◌≡◌, refl, sym, ap, ◌∙◌, ◌≢◌, ◌⊎◌, inl, inr, not, ◌||◌, Option, some, List, arith, ◌==◌,
  nat_eq, string_eq, pair_eq, list_eq, eq_of_beq, Bool-cases, is_empty,
}
use aep_python.Common.Exec.{Result, ok, raised, blocked, lift, continue, ◌>>=◌}
use aep_python.Common.Dict.{get-put}
use aep_python.Service.Time.{DateTime}
use aep_python.Service.Types.{ClaimValues, EnrollmentRecord, post_init}
use aep_python.Service.Enrollments.{EnrollmentStore, find, save}
use aep_python.Service.Settings.{
  EnrollRequest, EnrollmentDecision, Settings, Ports, State, on_world, now_of,
}
use aep_python.Service.Effects.{Quiet, Leaves, Leaves-bind, Leaves-if, Quiet-bind}
use aep_python.Service.Responses.{
  lifecycle_response, validate_record, is_rejected, validate_decision, enrollment_result, saving,
  update,
}
use aep_python.Service.Lifecycle.{
  required_claims, update_enrollment, accepted_claims, updated_record, save_update,
  missing_unless_declared,
}
use aep_python.Core.Claims.{missing_required_claim_names, supplied}

some_path : {A : Type 0} (a b : A) → some a ≡ some b → a ≡ b
some_path a b p = cc

-- what no update changes in a record
pub record SameEnrollment (old new : EnrollmentRecord) : Type 0 where
  pub agent_did : new.agent_did ≡ old.agent_did
  pub enrollment_id : new.enrollment_id ≡ old.enrollment_id
  pub created_at : new.created_at ≡ old.created_at
  pub since : new.since ≡ old.since
  pub status : new.status ≡ old.status

module _ {W : Type 0} (settings : Settings) (ports : Ports W) (request : EnrollRequest)
    (existing : EnrollmentRecord) (e : EnrollmentStore) where
  -- the store as it was, or with one changed copy of the record
  abbrev Updated : EnrollmentStore → Type 0
  Updated t = (t ≡ e) ⊎ ((r : EnrollmentRecord) × SameEnrollment existing r × (t ≡ save r e))

  enrollment_result-Quiet :
      (r : EnrollmentRecord) (did : String) (declared : Option (List String))
      → Quiet {W = W} (enrollment_result r did declared)
  unfolding enrollment_result
  enrollment_result-Quiet r did declared =
      Quiet-bind (lift (validate_record r did)) _ (λ s. refl)
        λ _. Quiet-bind (lift (lifecycle_response _)) _ (λ s. refl) λ b s. refl

  post_init-same : (r r' : EnrollmentRecord) → post_init r ≡ ok r' → r' ≡ r
  unfolding post_init
  post_init-same r r' h = ground arith

  saved-Leaves :
      (r0 : EnrollmentRecord) (o : Result EnrollmentRecord) (did : String)
      (declared : Option (List String))
      → SameEnrollment existing r0
      → post_init r0 ≡ o
      → Leaves Updated e
          (continue o (λ r. saving {W = W} r >>= λ _. enrollment_result r did declared))
  saved-Leaves r0 (ok r) did declared same h s p = inr (
    r0,
    same,
    enrollment_result-Quiet r did declared (record s { enrollments = save r s.enrollments })
        ∙ ap₂ save (post_init-same r0 r h) p,
  )
  saved-Leaves r0 (raised x) did declared same h s p = inl p
  saved-Leaves r0 blocked did declared same h s p = inl p

  updated_record-same :
      (decision : EnrollmentDecision) (now : DateTime) (values : ClaimValues)
      → SameEnrollment existing (updated_record settings ports request existing decision values now)
  unfolding updated_record
  updated_record-same decision now values = record {
    agent_did = refl;
    enrollment_id = refl;
    created_at = refl;
    since = refl;
    status = refl;
  }

  save_update-Leaves :
      (decision : EnrollmentDecision) (now : DateTime) (values : ClaimValues)
      → Leaves Updated e (save_update settings ports request existing decision now values)
  unfolding save_update
  save_update-Leaves decision now values =
      Leaves-if Updated e (inl refl)
        (not
            (is_empty (missing_required_claim_names (required_claims settings ports) (some values)))
          || not (
              is_empty (
                missing_unless_declared settings ports (some existing)
                  request.acknowledged_document_ids)))
        _ _ (λ s p. inl p)
        λ s p.
          saved-Leaves (updated_record settings ports request existing decision values now) _
            request.agent_did request.acknowledged_document_ids
            (updated_record-same decision now values) refl s p

  update_enrollment-Leaves : Leaves Updated e (update_enrollment settings ports request existing)
  unfolding update_enrollment
  update_enrollment-Leaves =
      Leaves-bind Updated e (inl refl) (lift (validate_record existing request.agent_did)) _
        (λ s. refl)
        λ _.
          Leaves-bind Updated e (inl refl) (on_world (now_of ports)) _ (λ s. refl)
            λ now.
              Leaves-bind Updated e (inl refl) (on_world (ports.decide request now)) _ (λ s. refl)
                λ decision.
                  Leaves-bind Updated e (inl refl) (lift (validate_decision decision)) _ (λ s. refl)
                    λ _.
                      Leaves-if Updated e (inl refl) (is_rejected decision.status) _ _
                        (λ s p. inl p)
                        (Leaves-if Updated e (inl refl) (not decision.update_existing) _ _
                          (λ s p. inl (
                            enrollment_result-Quiet existing request.agent_did
                              request.acknowledged_document_ids s
                            ∙ p))
                          (Leaves-bind Updated e (inl refl)
                            (lift (accepted_claims settings ports request.claims)) _ (λ s. refl)
                            λ given.
                              Leaves-bind Updated e (inl refl)
                                (lift (
                                  ports.claim_values
                                    (update (supplied existing.claims) (supplied given))))
                                _ (λ s. refl) λ values. save_update-Leaves decision now values))

  same_record : (r : EnrollmentRecord) → SameEnrollment r r
  same_record r = record {
    agent_did = refl;
    enrollment_id = refl;
    created_at = refl;
    since = refl;
    status = refl;
  }

  Updated-find :
      (t : EnrollmentStore) (did : String) (r : EnrollmentRecord)
      → Updated t
      → find existing.agent_did e ≡ some existing
      → find did e ≡ some r
      → (r' : EnrollmentRecord) × (find did t ≡ some r')
        × SameEnrollment r r'
        × (did ≢ existing.agent_did → r' ≡ r)
  unfolding find save
  Updated-find t did r (inl same) stored h = (r, rw same h, same_record r, λ _. refl)
  Updated-find t did r (inr (new, kept, saved)) stored h =
      elim (Bool-cases (new.agent_did == did)) [
        | inl mine ↦
            let its : new.agent_did ≡ did = eq_of_beq new.agent_did did mine in
            let is : existing ≡ r =
              some_path existing r (sym stored ∙ ap find' (sym kept.agent_did ∙ its) ∙ h) in
            (
              new,
              rw saved (ground (arith, get-put new.agent_did did new e.records)),
              subst (λ x. SameEnrollment x new) is kept,
              λ other. absurd (other (sym its ∙ kept.agent_did)),
            )
        | inr other ↦ (
          r,
          rw saved (ground (arith, get-put new.agent_did did new e.records)),
          same_record r,
          λ _. refl,
        )
      ]
    where
      find' : String → Option EnrollmentRecord
      find' k = find k e

-- Enrolling an Agent that has a record, on every path, raised errors included: every stored record is
-- still stored with the same Agent DID, enrollment identifier, creation time, status and time of its
-- status, and the records of other Agents are unchanged. So no enroll request and no decision of the
-- policy makes a suspended or rejected enrollment active again.
pub update_keeps_status :
    {W : Type 0} (settings : Settings) (ports : Ports W) (request : EnrollRequest)
    (existing : EnrollmentRecord) (s : State W) (did : String) (r : EnrollmentRecord)
    → find existing.agent_did s.enrollments ≡ some existing
    → find did s.enrollments ≡ some r
    → (r' : EnrollmentRecord) × (find did
          (update_enrollment settings ports request existing s).1.enrollments
        ≡ some r')
      × SameEnrollment r r'
      × (did ≢ existing.agent_did → r' ≡ r)
update_keeps_status settings ports request existing s did r stored h =
    Updated-find settings ports request existing s.enrollments _ did r
      (update_enrollment-Leaves settings ports request existing s.enrollments s refl) stored h
