-- ===== src/Service/Commands/Stored.antt =====
-- A grant body that is run through the idempotency store, or answered from it.
use aep_python.Common.{
  ℕ, String, ◌≡◌, refl, sym, ap, ◌∙◌, ◌⊎◌, inl, inr, none, some, arith, ◌==◌, nat_eq, string_eq,
  pair_eq, list_eq, ==_iff, Bool-cases, Option-cases, not, ◌||◌,
}
use aep_python.Common.Exec.{Result, ok, raised, blocked, pure, continue}
use aep_python.Common.Dict.{get, retain, has}
use aep_python.Core.Json.{Json}
use aep_python.Service.Time.{DateTime}
use aep_python.Service.Types.{StoredResponse, IdempotencyInput, IdempotencyResult, created}
use aep_python.Service.Problem.{
  ErrorCode, Problem, ServiceResult, plain_problem, problem_media_type,
}
use aep_python.Service.Settings.{CommandOptions, Settings, Ports, State, on_world, now_of}
use aep_python.Service.Idempotency.{
  IdempotencyStore, answered, recent, answer, purge, look_up, enter, release, commit, left, ran,
  key_of,
}
use aep_python.Service.Idempotent.{
  Wire, Codec, Full, refuse, stored_body, with_problem, restore, replied,
}
use aep_python.Service.Commands.Grants.{IsProblem, problem_no_body}
use aep_python.Service.Commands.Outcomes.{read, Reads, IsKept, finished}

module _ {W : Type 0} (settings : Settings) (ports : Ports W) (wire : Wire) (codec : Codec Json)
    (body : String) (options : CommandOptions) (x : Full W) where
  pub refused-Kept :
      (s : State W) (i : IdempotencyStore) (code : ErrorCode) (status : ℕ)
      → IsKept settings ports wire codec body options x s (refuse code status (s, i))
  refused-Kept s i code status = record {
    state = inl refl;
    no_credential = λ result h. inl (problem_no_body (plain_problem code status) result h).0;
  }

  left-state :
      {A : Type 0} (r : Result A) (v : IdempotencyInput) (t : State W) (i : IdempotencyStore)
      → (left r v t i).1.0 ≡ t
  unfolding release
  left-state r v t i = ground arith

  left-ok :
      {A : Type 0} (r : Result A) (v : IdempotencyInput) (t : State W) (i : IdempotencyStore)
      (a : A)
      → (left r v t i).0 ≡ ok a
      → r ≡ ok a
  unfolding release
  left-ok r v t i a h = elim (Bool-cases (has (key_of v) i.pending)) [
    | inl e ↦ ground arith
    | inr e ↦ absurd ground arith
  ]

  pub ran-state :
      (v : IdempotencyInput) (o : Result StoredResponse) (t : State W) (i : IdempotencyStore)
      → (ran v (o, t) i).1.0 ≡ t
  ran-state v (ok r) t i = left-state _ v t (commit v r i)
  ran-state v (raised e) t i = left-state {A = IdempotencyResult} (raised e) v t i
  ran-state v blocked t i = refl

  pub finished-state :
      (z : Result IdempotencyResult × Full W)
      → (finished settings ports wire codec body options x z).1.0 ≡ z.1.0
  finished-state (ok r, t) = refl
  finished-state (raised e, t) = refl
  finished-state (blocked, t) = refl

  pub finished-ok :
      (z : Result IdempotencyResult × Full W) (result : ServiceResult Json)
      → (finished settings ports wire codec body options x z).0 ≡ ok result
      → (r : IdempotencyResult) × (z.0 ≡ ok r)
        × (replied settings ports wire codec r r.state ≡ ok result)
  finished-ok (ok r, t) result h = (r, refl, h)
  finished-ok (raised e, t) result h = absurd ground arith
  finished-ok (blocked, t) result h = absurd ground arith

  with_problem-none :
      (response : StoredResponse) (p : Result Problem) (result : ServiceResult Json)
      → with_problem settings ports wire codec response p ≡ ok result
      → result.body ≡ none
  with_problem-none response (ok p) result h = ground arith
  with_problem-none response (raised e) result h = absurd ground arith
  with_problem-none response blocked result h = absurd ground arith

  -- a problem that was stored is read back as a problem
  problem-restored :
      (response : StoredResponse) (result : ServiceResult Json)
      → response.content_type ≡ problem_media_type
      → restore settings ports wire codec response ≡ ok result
      → result.body ≡ none
  unfolding restore
  problem-restored response result e h =
      with_problem-none response (wire.problem_of response.body) result
        (ground (arith, ==_iff response.content_type problem_media_type))

  ran-ok :
      (v : IdempotencyInput) (o : Result StoredResponse) (t : State W) (i : IdempotencyStore)
      (r : IdempotencyResult)
      → (ran v (o, t) i).0 ≡ ok r
      → (response : StoredResponse) × (o ≡ ok response)
        × (r ≡ record { response = some response; state = created })
  ran-ok v (ok response) t i r h =
      let made : IdempotencyResult = record { response = some response; state = created } in
      let is : ok made ≡ ok r = left-ok (ok made) v t (commit v response i) r h in
      (response, refl, cc)
  ran-ok v (raised e) t i r h =
      let is : ◌≡◌ {A = Result IdempotencyResult} (raised e) (ok r) =
        left-ok (raised e) v t i r h in
      absurd ground arith
  ran-ok v blocked t i r h = absurd ground arith

  replied-created :
      (response : StoredResponse) (r : IdempotencyResult) (result : ServiceResult Json)
      → r ≡ record { response = some response; state = created }
      → replied settings ports wire codec r r.state ≡ ok result
      → restore settings ports wire codec response ≡ ok result
  unfolding replied
  replied-created response r result e h =
      sym (ap (λ z. replied settings ports wire codec z z.state) e) ∙ h

  abbrev stamp : ServiceResult Json → DateTime → StoredResponse
  stamp result now = record {
    body = stored_body settings ports wire codec result;
    content_type = result.content_type;
    created_at = now;
    headers = result.headers;
    status = result.status;
  }

  abbrev stamped_at :
      ServiceResult Json → Result DateTime × State W → Result StoredResponse × State W
  stamped_at result z = continue z.0 (λ now. pure (stamp result now)) z.1

  stamped_at-state :
      (result : ServiceResult Json) (z : Result DateTime × State W) → (stamped_at result z).1 ≡ z.1
  stamped_at-state result (ok now, t) = refl
  stamped_at-state result (raised e, t) = refl
  stamped_at-state result (blocked, t) = refl

  stamped_at-ok :
      (result : ServiceResult Json) (z : Result DateTime × State W) (response : StoredResponse)
      → (stamped_at result z).0 ≡ ok response
      → response.content_type ≡ result.content_type
  stamped_at-ok result (ok now, t) response h =
      let is : stamp result now ≡ response = cc in sym (ap (λ r. r.content_type) is)
  stamped_at-ok result (raised e, t) response h = absurd ground arith
  stamped_at-ok result (blocked, t) response h = absurd ground arith

  -- the end of `store`, when the operation has returned
  abbrev pub stamped : Result (ServiceResult Json) × State W → Result StoredResponse × State W
  stamped z = continue z.0 (λ result s. stamped_at result (on_world (now_of ports) s)) z.1

  stamped-state :
      (o : Result (ServiceResult Json)) (t : State W)
      → ((stamped (o, t)).1 ≡ t)
        ⊎ ((stamped (o, t)).1 ≡ read settings ports wire codec body options x t)
  stamped-state (ok result) t = inr (stamped_at-state result (on_world (now_of ports) t))
  stamped-state (raised e) t = inl refl
  stamped-state blocked t = inl refl

  stamped-problem :
      (o : Result (ServiceResult Json)) (t : State W) (response : StoredResponse)
      → ((result : ServiceResult Json) → o ≡ ok result → IsProblem result)
      → (stamped (o, t)).0 ≡ ok response
      → response.content_type ≡ problem_media_type
  stamped-problem (ok result) t response h e =
      stamped_at-ok result (on_world (now_of ports) t) response e ∙ (h result refl).1
  stamped-problem (raised y) t response h e = absurd ground arith
  stamped-problem blocked t response h e = absurd ground arith

  -- an operation that leaves the state and answers without a credential, run through the store
  pub quiet-Kept :
      (s : State W) (v : IdempotencyInput) (z : Result (ServiceResult Json) × State W)
      (i : IdempotencyStore)
      → z.1 ≡ read settings ports wire codec body options x s
      → ((result : ServiceResult Json) → z.0 ≡ ok result → IsProblem result)
      → IsKept settings ports wire codec body options x s
          (finished settings ports wire codec body options x (ran v (stamped z) i))
  quiet-Kept s v (o, t) i same none_issued =
      let w : Result StoredResponse × State W = stamped (o, t) in
      let kept : (finished settings ports wire codec body options x (ran v w i)).1.0 ≡ w.1 =
        finished-state (ran v w i) ∙ ran-state v w.0 w.1 i in
      record {
        state =
            elim (stamped-state o t)
              as (λ _.
                Reads settings ports wire codec body options x s
                  (finished settings ports wire codec body options x (ran v w i)).1.0) [
                    | inl e ↦ inr (inl (kept ∙ e ∙ same))
                    | inr e ↦
                        inr
                          (inr (kept ∙ e ∙ ap (read settings ports wire codec body options x) same))
                  ];
        no_credential = λ result h.
            let (r, done, said) = finished-ok (ran v w i) result h in
            let (response, e, made) = ran-ok v w.0 w.1 i r done in
            inl (
              problem-restored response result (stamped-problem o t response none_issued e)
                (replied-created response r result made said));
      }

  pub looked_up :
      (v : IdempotencyInput) (now : DateTime) (i : IdempotencyStore) (r : IdempotencyResult)
      → (enter v now i).0 ≡ ok (answered r)
      → (stored : IdempotencyInput × StoredResponse) × (get
            (key_of v)
            (retain (recent now) i.records)
          ≡ some stored)
        × (r ≡ answer v stored)
  unfolding enter look_up purge
  looked_up v now i r h = elim (Option-cases (get (key_of v) (retain (recent now) i.records))) [
    | inr (stored, e) ↦ (stored, e, ground arith)
    | inl n ↦ absurd ground arith
  ]

  pub answered-Replayed :
      (v previous : IdempotencyInput) (response : StoredResponse) (result : ServiceResult Json)
      → replied settings ports wire codec
          (answer v (previous, response))
          (answer v (previous, response)).state
        ≡ ok result
      → (result.body ≡ none)
        ⊎ ((previous.command ≡ v.command)
            × (previous.request_hash ≡ v.request_hash)
            × (restore settings ports wire codec response ≡ ok result))
  unfolding answer replied
  answered-Replayed v previous response result h =
      elim (Bool-cases
        (not (previous.command == v.command) || not (previous.request_hash == v.request_hash))) [
          | inl differs ↦
              inl
                (problem_no_body (plain_problem ErrorCode.idempotency_conflict 409) result
                  (ground arith)).0
          | inr same ↦ inr (
            ground (arith, ==_iff previous.command v.command),
            ground (arith, ==_iff previous.request_hash v.request_hash),
            ground arith,
          )
        ]
