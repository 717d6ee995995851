-- ===== src/Service/Idempotency/Replays.antt =====
-- A stored response answers its key for an hour, whatever the other tasks do.
use aep_python.Common.{
  ℕ, ◌+◌, ◌≤◌, ◌≡◌, ap, ◌∙◌, inl, inr, true, ◌&&◌, none, some, arith, ◌==◌, nat_eq, string_eq,
  pair_eq, ==_iff, if◌then◌else◌,
}
use aep_python.Common.Exec.{ok}
use aep_python.Common.Dict.{get, IsDict, get-put, get-retain}
use aep_python.Service.Time.{DateTime, hour}
use aep_python.Service.Types.{StoredResponse, IdempotencyInput, conflict, replayed}
use aep_python.Service.Idempotency.{
  key_of, IdempotencyStore, answered, enter, commit, recent, answer, purge,
}
use aep_python.Service.Idempotency.Tasks.{
  System, start, Step, call, enters, finish, fail, leave, Reach, here, next,
}
use aep_python.Service.Idempotency.Runs.{
  Inv, Reach-Inv, Step-Inv, enter-returned, enter-asking, enter-running, entry_cases, release_owned,
}

abbrev pub IsStored : IdempotencyInput → StoredResponse → IdempotencyStore → Type 0
IsStored v r s = get (key_of v) s.records ≡ some (v, r)

module _ (v : IdempotencyInput) (r : StoredResponse) (limit : ℕ)
    (young : limit ≤ r.created_at.micros + hour) where
  purge-IsStored :
      (now : DateTime) (s : IdempotencyStore)
      → IsDict s.records
      → now.micros ≤ limit
      → IsStored v r s
      → IsStored v r (purge now s)
  unfolding purge
  purge-IsStored now s u early h = ground (arith, get-retain (recent now) (key_of v) s.records u)

  enter-IsStored :
      (w : IdempotencyInput) (now : DateTime) (s : IdempotencyStore)
      → IsDict s.records
      → now.micros ≤ limit
      → IsStored v r s
      → IsStored v r (enter w now s).1
  enter-IsStored w now s u early h = elim (entry_cases w (enter w now s).0) [
    | inl done ↦ elim (enter-returned w now s done) [
      | inl same ↦ rw same h
      | inr purged ↦ rw purged (purge-IsStored now s u early h)
    ]
    | inr (inl again) ↦ rw (enter-asking w now s again) (purge-IsStored now s u early h)
    | inr (inr runs) ↦ rw ((enter-running w now s runs).0) (purge-IsStored now s u early h)
  ]

  commit-IsStored :
      (w : IdempotencyInput) (q : StoredResponse) (s : IdempotencyStore)
      → get (key_of w) s.records ≡ none
      → IsStored v r s
      → IsStored v r (commit w q s)
  unfolding commit
  commit-IsStored w q s free h =
      ground (arith, get-put (key_of w) (key_of v) (w, q) s.records, ==_iff (key_of w) (key_of v))

  Step-IsStored :
      {s t : System} → Step limit s t → Inv s → IsStored v r s.store → IsStored v r t.store
  Step-IsStored (call i w h valid) inv e = e
  Step-IsStored {s} (enters i w now h early) inv e =
      enter-IsStored w now s.store inv.distinct early e
  Step-IsStored {s} (finish i w q h) inv e = commit-IsStored w q s.store (inv.fresh i w h) e
  Step-IsStored (fail i w h) inv e = e
  Step-IsStored {s} (leave i w h) inv e =
      rw (release_owned w s.store (inv.owned.held i (key_of w) (rw h))) e

  Reach-IsStored :
      {s t : System} → Inv s → Reach limit s t → IsStored v r s.store → IsStored v r t.store × Inv t
  Reach-IsStored inv here e = (e, inv)
  Reach-IsStored inv (next m st) e =
      let (e', inv') = Reach-IsStored inv m e in (Step-IsStored st inv' e', Step-Inv st inv')

answer_lem :
    (v w : IdempotencyInput) (r : StoredResponse)
    → answer w (v, r) ≡ (
        if (v.command == w.command) && (v.request_hash == w.request_hash)
        then record { response = some r; state = replayed }
        else record { response = none; state = conflict })
unfolding answer
answer_lem v w r = ground arith

enter-stored :
    (v w : IdempotencyInput) (r : StoredResponse) (now : DateTime) (s : IdempotencyStore)
    → IsStored v r (purge now s)
    → key_of w ≡ key_of v
    → now.aware ≡ true
    → (enter w now s).0 ≡ ok (answered (answer w (v, r)))
unfolding enter
enter-stored v w r now s h same aware = ground arith

-- Once a response is stored, and while the clock stays within an hour of it: after any steps of any
-- tasks, a call under the same Agent DID and key is answered from it and runs nothing. The answer is
-- the stored response if command and request hash are the same, and a conflict if not.
pub replayed_for_an_hour :
    {limit : ℕ} {s t : System} (v w : IdempotencyInput) (r : StoredResponse) (now : DateTime)
    → Reach limit start s
    → Reach limit s t
    → IsStored v r s.store
    → limit ≤ r.created_at.micros + hour
    → now.micros ≤ limit
    → now.aware ≡ true
    → key_of w ≡ key_of v
    → (enter w now t.store).0
      ≡ ok (
          answered (
            if (v.command == w.command) && (v.request_hash == w.request_hash)
            then record { response = some r; state = replayed }
            else record { response = none; state = conflict }))
replayed_for_an_hour {limit} {s} {t} v w r now start_s more e young early aware same =
    let (e', inv) = Reach-IsStored v r limit young (Reach-Inv start_s) more e in
    enter-stored v w r now t.store
      (purge-IsStored v r limit young now t.store inv.distinct early e') same aware
    ∙ ap (λ x. ok (answered x)) (answer_lem v w r)
