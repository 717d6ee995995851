-- ===== src/Platform/Idempotency/Agreement.antt =====
-- The idempotency store of the Platform does what that of the Service does, with the principal in
-- place of the Agent DID and the operation in place of the command. Only the texts of exceptions
-- differ.
use aep_python.Common.{
  String, ◌≡◌, refl, inl, inr, true, false, none, some, [], ◌∷◌, map, arith, ◌==◌, nat_eq,
  string_eq, pair_eq, list_eq, nonempty, Option-cases,
}
use aep_python.Common.Exec.{Exn, value_error, Result, ok, raised, blocked, Exec}
use aep_python.Common.Dict.{Dict, get, put, retain}
use aep_python.Service.Time.{DateTime}
use aep_python.Service.Types.{StoredResponse, IdempotencyInput}
use aep_python.Service.Idempotency.{IdempotencyStore}
use aep_python.Service.Idempotency
use aep_python.Platform.Idempotency.{
  IdempotentOperation, hosted_verification, provision, sign, same_operation,
  PlatformIdempotencyInput, PlatformIdempotencyStore, Key, Stored, key_of, invalid_input, recent,
  answer, purge, Entry, answered, waits, admitted, look_up, enter, commit, release, left, ran,
  entered, execute,
}

-- the value of `IdempotentOperation`
abbrev pub operation_text : IdempotentOperation → String
operation_text hosted_verification = "hosted_verification"
operation_text provision = "provision"
operation_text sign = "sign"

abbrev pub as_input : PlatformIdempotencyInput → IdempotencyInput
as_input v = record {
  agent_did = v.principal;
  command = operation_text v.operation;
  idempotency_key = v.idempotency_key;
  request_hash = v.request_hash;
}

abbrev pub as_stored : Stored → Idempotency.Stored
as_stored (v, r) = (as_input v, r)

abbrev pub as_store : PlatformIdempotencyStore → IdempotencyStore
as_store s = record { pending = s.pending; records = map (λ e. (e.0, as_stored e.1)) s.records }

get-as_stored :
    (k : Key) (d : Dict Key Stored)
    → get k (map (λ e. (e.0, as_stored e.1)) d)
      ≡ elim (get k d) [ none ↦ none | some x ↦ some (as_stored x) ]
unfolding get
get-as_stored k [] = refl
get-as_stored k ((j, x) ∷ d) = ground (arith, get-as_stored k d)

put-as_stored :
    (k : Key) (x : Stored) (d : Dict Key Stored)
    → put k (as_stored x) (map (λ e. (e.0, as_stored e.1)) d)
      ≡ map (λ e. (e.0, as_stored e.1)) (put k x d)
unfolding put
put-as_stored k x [] = refl
put-as_stored k x ((j, y) ∷ d) = ground (arith, put-as_stored k x d)

retain-as_stored :
    (now : DateTime) (d : Dict Key Stored)
    → retain (Idempotency.recent now) (map (λ e. (e.0, as_stored e.1)) d)
      ≡ map (λ e. (e.0, as_stored e.1)) (retain (recent now) d)
unfolding retain
retain-as_stored now [] = refl
retain-as_stored now ((j, y) ∷ d) = ground (arith, retain-as_stored now d)

same_text :
    (a b : IdempotentOperation) → (operation_text a == operation_text b) ≡ same_operation a b
same_text hosted_verification hosted_verification = refl
same_text hosted_verification provision = refl
same_text hosted_verification sign = refl
same_text provision hosted_verification = refl
same_text provision provision = refl
same_text provision sign = refl
same_text sign hosted_verification = refl
same_text sign provision = refl
same_text sign sign = refl

answer-as_stored :
    (v : PlatformIdempotencyInput) (x : Stored)
    → Idempotency.answer (as_input v) (as_stored x) ≡ answer v x
unfolding answer Idempotency.answer
answer-as_stored v (p, r) = rw (same_text p.operation v.operation)

abbrev pub as_entry : Result Entry → Result Idempotency.Entry
as_entry (ok (answered r)) = ok (Idempotency.answered r)
as_entry (ok waits) = ok Idempotency.waits
as_entry (ok admitted) = ok Idempotency.admitted
as_entry (raised e) =
    raised (value_error "AEP idempotency clock must return an offset-aware datetime")
as_entry blocked = blocked

look_up-as_store :
    (v : PlatformIdempotencyInput) (s : PlatformIdempotencyStore)
    → Idempotency.look_up (as_input v) (as_store s)
      ≡ (as_entry (look_up v s).0, as_store (look_up v s).1)
unfolding look_up Idempotency.look_up
look_up-as_store v s = elim (Option-cases (get (key_of v) s.records)) [
  | inr (x, e) ↦ ground (arith, get-as_stored (key_of v) s.records, answer-as_stored v x)
  | inl n ↦ ground (arith, get-as_stored (key_of v) s.records)
]

enter-as_store :
    (v : PlatformIdempotencyInput) (now : DateTime) (s : PlatformIdempotencyStore)
    → now.aware ≡ true
    → Idempotency.enter (as_input v) now (as_store s)
      ≡ (as_entry (enter v now s).0, as_store (enter v now s).1)
unfolding enter Idempotency.enter purge Idempotency.purge
enter-as_store v now s h =
    ground (arith, retain-as_stored now s.records, look_up-as_store v (purge now s))

release-as_store :
    (v : PlatformIdempotencyInput) (s : PlatformIdempotencyStore)
    → Idempotency.release (as_input v) (as_store s) ≡ ((release v s).0, as_store (release v s).1)
unfolding release Idempotency.release
release-as_store v s = ground arith

commit-as_store :
    (v : PlatformIdempotencyInput) (r : StoredResponse) (s : PlatformIdempotencyStore)
    → Idempotency.commit (as_input v) r (as_store s) ≡ as_store (commit v r s)
unfolding commit Idempotency.commit
commit-as_store v r s = rw (put-as_stored (key_of v) (v, r) s.records)

enter_returns :
    (v : PlatformIdempotencyInput) (now : DateTime) (s : PlatformIdempotencyStore)
    → now.aware ≡ true
    → (e : Exn) → ¬ ((enter v now s).0 ≡ raised e)
unfolding enter look_up
enter_returns v now s h e p = ground arith

nonempty-operation : (o : IdempotentOperation) → nonempty (operation_text o) ≡ true
nonempty-operation hosted_verification = refl
nonempty-operation provision = refl
nonempty-operation sign = refl

same_inputs :
    (v : PlatformIdempotencyInput)
    → invalid_input v ≡ false
    → Idempotency.invalid_input (as_input v) ≡ false
same_inputs v h = ground (arith, nonempty-operation v.operation)

module _ {W : Type 0} where
  -- the state outside the store, and the store
  abbrev pub as_state :
      {A : Type 0} → Result A × (W × PlatformIdempotencyStore) → Result A × (W × IdempotencyStore)
  as_state (r, (w, s)) = (r, (w, as_store s))

  left-as_state :
      {A : Type 0} (r : Result A) (v : PlatformIdempotencyInput) (w : W)
      (s : PlatformIdempotencyStore)
      → Idempotency.left r (as_input v) w (as_store s) ≡ as_state (left r v w s)
  left-as_state r v w s = ground (arith, release-as_store v s)

  ran-as_state :
      (v : PlatformIdempotencyInput) (x : Result StoredResponse × W) (s : PlatformIdempotencyStore)
      → Idempotency.ran (as_input v) x (as_store s) ≡ as_state (ran v x s)
  ran-as_state v (ok r, w) s = rw (commit-as_store v r s) (left-as_state _ v w (commit v r s))
  ran-as_state v (raised e, w) s = left-as_state (raised e) v w s
  ran-as_state v (blocked, w) s = refl

  entered-as_state :
      (v : PlatformIdempotencyInput) (operation : Exec W StoredResponse) (w : W) (x : Result Entry)
      (s : PlatformIdempotencyStore)
      → ((e : Exn) → ¬ (x ≡ raised e))
      → Idempotency.entered (as_input v) operation w (as_entry x, as_store s)
        ≡ as_state (entered v operation w (x, s))
  entered-as_state v operation w (ok (answered r)) s h = refl
  entered-as_state v operation w (ok waits) s h = refl
  entered-as_state v operation w (ok admitted) s h = ran-as_state v (operation w) s
  entered-as_state v operation w (raised e) s h = absurd (h e refl)
  entered-as_state v operation w blocked s h = refl

  -- On a valid input, with a clock that has an offset, a call of the Platform's store with any
  -- operation is the call of the Service's store on the same contents, with the principal as Agent
  -- DID and the operation as command: the same result or exception, the same effect outside the
  -- store, and the same contents after it.
  pub execute_agrees :
      (v : PlatformIdempotencyInput) (now : DateTime) (operation : Exec W StoredResponse) (w : W)
      (s : PlatformIdempotencyStore)
      → invalid_input v ≡ false
      → now.aware ≡ true
      → Idempotency.execute (as_input v) now operation (w, as_store s)
        ≡ as_state (execute v now operation (w, s))
  unfolding execute Idempotency.execute
  execute_agrees v now operation w s valid h =
      rw (valid, same_inputs v valid, enter-as_store v now s h)
        (entered-as_state v operation w (enter v now s).0 (enter v now s).1
          (enter_returns v now s h))
