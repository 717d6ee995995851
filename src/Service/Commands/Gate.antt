-- ===== src/Service/Commands/Gate.antt =====
-- When the grant command of service/service.py runs the handler, and what it answers when it does not.
use aep_python.Common.{
  String, ◌≡◌, refl, sym, ap, ◌∙◌, ◌⊎◌, inl, inr, Option, none, some, arith, nat_eq, string_eq,
  pair_eq, list_eq, Bool-cases, Option-cases, if_cases,
}
use aep_python.Common.Exec.{value_error, Result, ok, raised, blocked, continue}
use aep_python.Common.Dict.{get}
use aep_python.Core.Json.{Json}
use aep_python.Service.Time.{DateTime}
use aep_python.Service.Types.{StoredResponse, EnrollmentRecord, IdempotencyResult}
use aep_python.Service.Enrollments.{find}
use aep_python.Service.Problem.{ErrorCode, problem_result, plain_problem}
use aep_python.Service.Settings.{
  AssertionClaims, CommandOptions, GrantRequest, Settings, Ports, State, on_world, now_of,
}
use aep_python.Service.Idempotency.{
  IdempotencyStore, Entry, answered, waits, admitted, answer, enter, ran, entered, execute,
  invalid_input,
}
use aep_python.Service.Idempotent.{
  Wire, Codec, Full, valid_key, store, replied, execute_now, idempotent,
}
use aep_python.Service.Commands.{grant_body, grant_checked, grant_as, grant, grant_for}
use aep_python.Service.Commands.Grants.{problem_no_body, grant_gate}
use aep_python.Service.Commands.Outcomes.{
  read, Reads, authenticated, grant_input, IsGated, finished,
}
use aep_python.Service.Commands.Stored.{
  refused-Kept, ran-state, finished-state, finished-ok, stamped, quiet-Kept, looked_up,
  answered-Replayed,
}

module _ {W : Type 0} (settings : Settings) (ports : Ports W) (wire : Wire) (codec : Codec Json)
    (body : String) (options : CommandOptions) (x : Full W) where
  module _ (s : State W) (c : AssertionClaims) (request : GrantRequest) (key : String)
      (has_claims : authenticated settings ports wire codec body options x ≡ (ok (some c), s))
      (has_request : wire.grant_request body ≡ some request)
      (has_key : valid_key wire options.idempotency_key ≡ some key) where
    abbrev operation : State W → Result StoredResponse × State W
    operation = store settings ports wire codec (grant_body settings ports wire c.sub request)

    for_record :
        (r : EnrollmentRecord) (i : IdempotencyStore)
        → find c.sub (read settings ports wire codec body options x s).enrollments ≡ some r
        → IsGated settings ports wire codec body options x s (
            finished settings ports wire codec body options x (
              ran
                (grant_input settings ports wire codec body options x c request key)
                (stamped settings ports wire codec body options x (
                  grant_for settings ports wire c.sub request r
                    (read settings ports wire codec body options x s)))
                i))
    unfolding store
    for_record r i e =
        elim (grant_gate settings ports wire c.sub request r
          (read settings ports wire codec body options x s)) [
            | inr (same, none_issued) ↦ inr (
                quiet-Kept settings ports wire codec body options x s
                  (grant_input settings ports wire codec body options x c request key)
                  (grant_for settings ports wire c.sub request r
                    (read settings ports wire codec body options x s))
                  i same none_issued)
            | inl (eligible, runs) ↦
                let w : Result StoredResponse × State W =
                  stamped settings ports wire codec body options x (
                    grant_for settings ports wire c.sub request r
                      (read settings ports wire codec body options x s)) in
                inl (record {
                  claims = c;
                  request = request;
                  enrollment = r;
                  has_claims = has_claims;
                  has_request = has_request;
                  stored = e;
                  eligible = eligible;
                  ran_once =
                      finished-state settings ports wire codec body options x (
                        ran (grant_input settings ports wire codec body options x c request key) w
                          i)
                      ∙ ran-state settings ports wire codec body options x
                          (grant_input settings ports wire codec body options x c request key) w.0
                          w.1 i
                      ∙ ap (λ z. (stamped settings ports wire codec body options x z).1) runs;
                })
          ]

    operation-Gated :
        (i : IdempotencyStore)
        → IsGated settings ports wire codec body options x s (
            finished settings ports wire codec body options x (
              ran
                (grant_input settings ports wire codec body options x c request key)
                (operation (read settings ports wire codec body options x s))
                i))
    unfolding store grant_body find get
    operation-Gated i =
        elim (Option-cases
          (find c.sub (read settings ports wire codec body options x s).enrollments)) [
            | inr (r, e) ↦ rw e (for_record r i e)
            | inl n ↦ rw n (
                inr (
                  quiet-Kept settings ports wire codec body options x s
                    (grant_input settings ports wire codec body options x c request key)
                    (
                      problem_result (plain_problem ErrorCode.not_recognized 401),
                      read settings ports wire codec body options x s,
                    )
                    i refl (problem_no_body (plain_problem ErrorCode.not_recognized 401))))
          ]

    entered-Gated :
        (now : DateTime) (z : Result Entry × IdempotencyStore)
        → (on_world (now_of ports) s).0 ≡ ok now
        → enter (grant_input settings ports wire codec body options x c request key) now x.1 ≡ z
        → IsGated settings ports wire codec body options x s (
            finished settings ports wire codec body options x (
              entered
                (grant_input settings ports wire codec body options x c request key)
                operation
                (read settings ports wire codec body options x s)
                z))
    entered-Gated now (ok (answered r), i) time e =
        let (stored, found, is) =
          looked_up settings ports wire codec body options x
            (grant_input settings ports wire codec body options x c request key) now x.1 r
            (ap (λ y. y.0) e) in
        inr (record {
          state = inr (
              inl (
                finished-state settings ports wire codec body options x
                  (ok r, (read settings ports wire codec body options x s, i))));
          no_credential = λ result h.
              let said : replied settings ports wire codec
                    (answer (grant_input settings ports wire codec body options x c request key)
                      stored)
                    (answer (grant_input settings ports wire codec body options x c request key)
                      stored).state
                  ≡ ok result =
                ap (λ y. replied settings ports wire codec y y.state) (sym is) ∙ h in
              elim (answered-Replayed settings ports wire codec body options x
                (grant_input settings ports wire codec body options x c request key) stored.0
                stored.1 result said) [
                  | inl no_body ↦ inl no_body
                  | inr (command, hash, restored) ↦ inr (record {
                    claims = c;
                    request = request;
                    key = key;
                    previous = stored.0;
                    response = stored.1;
                    now = now;
                    has_claims = has_claims;
                    has_request = has_request;
                    has_key = has_key;
                    has_time = time;
                    stored = found;
                    same_command = command;
                    same_request = hash;
                    answered = restored;
                  })
                ];
        })
    entered-Gated now (ok waits, i) time e =
        inr (record { state = inr (inl refl); no_credential = λ result h. absurd ground arith })
    entered-Gated now (ok admitted, i) time e = operation-Gated i
    entered-Gated now (raised y, i) time e =
        inr (record { state = inr (inl refl); no_credential = λ result h. absurd ground arith })
    entered-Gated now (blocked, i) time e =
        inr (record { state = inr (inl refl); no_credential = λ result h. absurd ground arith })

    raised-Kept :
        (o : Result IdempotencyResult) (i : IdempotencyStore) (t : State W)
        → ((t ≡ s)
            ⊎ ((t ≡ read settings ports wire codec body options x s)
                ⊎ (t
                    ≡ read settings ports wire codec body options x
                        (read settings ports wire codec body options x s))))
        → ((r : IdempotencyResult) → ¬ (o ≡ ok r))
        → IsGated settings ports wire codec body options x s
            (finished settings ports wire codec body options x (o, (t, i)))
    raised-Kept o i t same none_returned = inr (record {
      state =
          elim same
            as (λ _.
              Reads settings ports wire codec body options x s
                (finished settings ports wire codec body options x (o, (t, i))).1.0) [
                  | inl e ↦
                      inl (finished-state settings ports wire codec body options x (o, (t, i)) ∙ e)
                  | inr (inl e) ↦ inr (
                      inl (finished-state settings ports wire codec body options x (o, (t, i)) ∙ e))
                  | inr (inr e) ↦ inr (
                      inr (finished-state settings ports wire codec body options x (o, (t, i)) ∙ e))
                ];
      no_credential = λ result h.
          let (r, e, _) =
            finished-ok settings ports wire codec body options x (o, (t, i)) result h in
          absurd (none_returned r e);
    })

    execute-Gated :
        (now : DateTime)
        → (on_world (now_of ports) s).0 ≡ ok now
        → IsGated settings ports wire codec body options x s (
            finished settings ports wire codec body options x (
              execute
                (grant_input settings ports wire codec body options x c request key)
                now
                operation
                (read settings ports wire codec body options x s, x.1)))
    unfolding execute
    execute-Gated now time =
        if_cases {A = Result IdempotencyResult × Full W}
          (λ z.
            IsGated settings ports wire codec body options x s
              (finished settings ports wire codec body options x z))
          (invalid_input (grant_input settings ports wire codec body options x c request key))
          (λ _.
            raised-Kept (raised _) x.1 (read settings ports wire codec body options x s)
              (inr (inl refl)) (λ r h. absurd ground arith))
          (λ _.
            entered-Gated now
              (enter (grant_input settings ports wire codec body options x c request key) now x.1)
              time refl)

    timed-Gated :
        (n : Result DateTime)
        → (on_world (now_of ports) s).0 ≡ n
        → IsGated settings ports wire codec body options x s (
            finished settings ports wire codec body options x (
              continue n
                (λ now.
                  execute
                    (grant_input settings ports wire codec body options x c request key)
                    now
                    operation)
                (read settings ports wire codec body options x s, x.1)))
    timed-Gated (ok now) time = execute-Gated now time
    timed-Gated (raised e) time =
        raised-Kept (raised e) x.1 (read settings ports wire codec body options x s)
          (inr (inl refl)) (λ r h. absurd ground arith)
    timed-Gated blocked time =
        raised-Kept blocked x.1 (read settings ports wire codec body options x s) (inr (inl refl))
          (λ r h. absurd ground arith)

    idempotent-Gated : IsGated settings ports wire codec body options x s (
        idempotent settings ports wire codec
          (grant_input settings ports wire codec body options x c request key)
          (grant_body settings ports wire c.sub request)
          (s, x.1))
    unfolding idempotent execute_now
    idempotent-Gated =
        elim (Bool-cases
          (invalid_input (grant_input settings ports wire codec body options x c request key))) [
            | inl invalid ↦ rw invalid (
                raised-Kept (raised (value_error "AEP idempotency store received invalid input"))
                  x.1 s (inl refl) (λ r h. absurd ground arith))
            | inr valid ↦ rw valid (timed-Gated (on_world (now_of ports) s).0 refl)
          ]

  grant_checked-Gated :
      (s : State W) (c : AssertionClaims) (request : Option GrantRequest) (key : Option String)
      → authenticated settings ports wire codec body options x ≡ (ok (some c), s)
      → wire.grant_request body ≡ request
      → valid_key wire options.idempotency_key ≡ key
      → IsGated settings ports wire codec body options x s
          (grant_checked settings ports wire codec c.sub request key (s, x.1))
  grant_checked-Gated s c (some request) (some key) e f g = idempotent-Gated s c request key e f g
  grant_checked-Gated s c (some request) none e f g =
      inr
        (refused-Kept settings ports wire codec body options x s x.1 ErrorCode.invalid_request 400)
  grant_checked-Gated s c none (some key) e f g =
      inr
        (refused-Kept settings ports wire codec body options x s x.1 ErrorCode.invalid_request 400)
  grant_checked-Gated s c none none e f g =
      inr
        (refused-Kept settings ports wire codec body options x s x.1 ErrorCode.invalid_request 400)

  authenticated-Gated :
      (a : Result (Option AssertionClaims) × State W)
      → authenticated settings ports wire codec body options x ≡ a
      → IsGated settings ports wire codec body options x a.1 (
          continue a.0 (grant_as settings ports wire codec body options.idempotency_key) (a.1, x.1))
  authenticated-Gated (ok (some c), s) e =
      grant_checked-Gated s c (wire.grant_request body) (valid_key wire options.idempotency_key) e
        refl refl
  authenticated-Gated (ok none, s) e =
      inr (refused-Kept settings ports wire codec body options x s x.1 ErrorCode.not_recognized 401)
  authenticated-Gated (raised y, s) e =
      inr (record { state = inl refl; no_credential = λ result h. absurd ground arith })
  authenticated-Gated (blocked, s) e =
      inr (record { state = inl refl; no_credential = λ result h. absurd ground arith })

  -- The grant command as a whole, from the state `s` that authentication leaves. Either it runs the
  -- grant handler, once and for the stored enrollment of the authenticated Agent, which then is
  -- active, in a grant type that is offered, with every required claim given and every required
  -- document acknowledged. Or no handler runs and at most the clock is read; and then an answer has a
  -- credential only if it is replayed: the idempotency store held it for this Agent and key, from
  -- the last hour and a grant with the same request hash. A replay does not look at the enrollment.
  pub grant-Gated :
      IsGated settings ports wire codec body options x
        (authenticated settings ports wire codec body options x).1
        (grant settings ports wire codec body options x)
  unfolding grant
  grant-Gated = authenticated-Gated (authenticated settings ports wire codec body options x) refl
