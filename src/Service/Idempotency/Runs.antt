-- ===== src/Service/Idempotency/Runs.antt =====
-- One task at a time runs the operation of a key, and every event is popped.
use aep_python.Common.{
  ℕ, ◌≡◌, refl, sym, ap, ◌∙◌, ◌⊎◌, inl, inr, none, some, arith, ◌==◌, nat_eq, string_eq, pair_eq,
  ==_iff, Bool-cases,
}
use aep_python.Common.Exec.{Result, ok}
use aep_python.Common.Dict.{
  Dict, get, put, remove, IsDict, get-put, get-retain, put-IsDict, retain-IsDict,
}
use aep_python.Common.Flight.{set_task, Owned, keep_task, claim_task, release_task}
use aep_python.Service.Time.{DateTime}
use aep_python.Service.Types.{StoredResponse, IdempotencyInput}
use aep_python.Service.Idempotency.{
  Key, Stored, key_of, IdempotencyStore, Entry, enter, commit, release, recent, purge,
}
use aep_python.Service.Idempotency.Tasks.{
  Task, asking, running, leaving, returned, owned_key, System, start, step_task, after_entry, Step,
  call, enters, finish, fail, leave, Reach, here, next,
}

pub record Inv (s : System) : Type 0 where
  pub owned : Owned s.store.pending (λ i. owned_key (s.tasks i))
  pub fresh :
      (i : ℕ) (v : IdempotencyInput) → s.tasks i ≡ running v → get (key_of v) s.store.records ≡ none
  pub distinct : IsDict s.store.records

abbrev Records : Type 0
Records = Dict Key Stored

-- what a round of the loop leaves behind, by the task's next state
pub enter-returned :
    (v : IdempotencyInput) (now : DateTime) (s : IdempotencyStore)
    → after_entry v (enter v now s).0 ≡ returned
    → ((enter v now s).1 ≡ s) ⊎ ((enter v now s).1 ≡ purge now s)
unfolding enter
enter-returned v now s h = ground arith

pub enter-asking :
    (v : IdempotencyInput) (now : DateTime) (s : IdempotencyStore)
    → after_entry v (enter v now s).0 ≡ asking v
    → (enter v now s).1 ≡ purge now s
unfolding enter
enter-asking v now s h = ground arith

pub enter-running :
    (v : IdempotencyInput) (now : DateTime) (s : IdempotencyStore)
    → after_entry v (enter v now s).0 ≡ running v
    → ((enter v now s).1 ≡ record (purge now s) { pending = put (key_of v) tt s.pending })
      × (get (key_of v) (purge now s).records ≡ none)
      × (get (key_of v) s.pending ≡ none)
unfolding enter
enter-running v now s h = (ground arith, ground arith, ground arith)

pub entry_cases :
    (v : IdempotencyInput) (r : Result Entry)
    → (after_entry v r ≡ returned) ⊎ ((after_entry v r ≡ asking v) ⊎ (after_entry v r ≡ running v))
entry_cases v r = ground arith

abbrev Fresh : Records → (ℕ → Task) → Type 0
Fresh records tasks =
    (i : ℕ) (v : IdempotencyInput) → tasks i ≡ running v → get (key_of v) records ≡ none

keep-Fresh :
    (records : Records) (tasks : ℕ → Task) (i : ℕ) (t : Task)
    → Fresh records tasks
    → ((v : IdempotencyInput) → ¬ (t ≡ running v))
    → Fresh records (set_task i t tasks)
keep-Fresh records tasks i t f other j v p = ground (arith, f j v, other v)

get-purge-none :
    (k : Key) (now : DateTime) (s : IdempotencyStore)
    → IsDict s.records
    → get k s.records ≡ none
    → get k (purge now s).records ≡ none
unfolding purge
get-purge-none k now s u h = ground (arith, get-retain (recent now) k s.records u)

-- The key of a task that owns it is always there to be popped.
pub release_owned :
    (v : IdempotencyInput) (s : IdempotencyStore)
    → get (key_of v) s.pending ≡ some tt
    → release v s ≡ (ok tt, record s { pending = remove (key_of v) s.pending })
unfolding release
release_owned v s h = ground arith

module _ (s : System) (v : Inv s) where
  -- a step of a task that owns nothing, which may purge
  quiet-Inv :
      (i : ℕ) (t : Task) (store : IdempotencyStore)
      → owned_key (s.tasks i) ≡ none
      → owned_key t ≡ none
      → store.pending ≡ s.store.pending
      → IsDict store.records
      → ((k : Key) → get k s.store.records ≡ none → get k store.records ≡ none)
      → Inv (step_task s i t store)
  quiet-Inv i t store before after same u less = record {
    owned = rw same (keep_task owned_key s.store.pending s.tasks i t (before ∙ sym after) v.owned);
    fresh =
        λ j w p. less (key_of w) (keep-Fresh s.store.records s.tasks i t v.fresh (λ x q. cc) j w p);
    distinct = u;
  }

  purge-Inv :
      (i : ℕ) (t : Task) (now : DateTime)
      → owned_key (s.tasks i) ≡ none
      → owned_key t ≡ none
      → Inv (step_task s i t (purge now s.store))
  unfolding purge
  purge-Inv i t now before after =
      quiet-Inv i t (purge now s.store) before after refl
        (retain-IsDict (recent now) s.store.records v.distinct)
        (λ k h. get-purge-none k now s.store v.distinct h)

  running-Fresh :
      (i : ℕ) (w : IdempotencyInput) (now : DateTime)
      → get (key_of w) (purge now s.store).records ≡ none
      → Fresh (purge now s.store).records (set_task i (running w) s.tasks)
  running-Fresh i w now absent j x p = elim (Bool-cases (i == j)) [
    | inl mine ↦ ground arith
    | inr other ↦ get-purge-none (key_of x) now s.store v.distinct (v.fresh j x (ground arith))
  ]

  finish-Inv :
      (i : ℕ) (w : IdempotencyInput) (r : StoredResponse)
      → s.tasks i ≡ running w
      → Inv (step_task s i (leaving w) (commit w r s.store))
  unfolding commit
  finish-Inv i w r h = record {
    owned = keep_task owned_key s.store.pending s.tasks i (leaving w) (rw h) v.owned;
    fresh = λ j x p. ground (
      arith,
      v.fresh j x,
      v.owned.unique i j (key_of w),
      ==_iff i j,
      ==_iff (key_of w) (key_of x),
      get-put (key_of w) (key_of x) (w, r) s.store.records,
    );
    distinct = put-IsDict (key_of w) (w, r) s.store.records v.distinct;
  }

  fail-Inv :
      (i : ℕ) (w : IdempotencyInput)
      → s.tasks i ≡ running w
      → Inv (step_task s i (leaving w) s.store)
  fail-Inv i w h = record {
    owned = keep_task owned_key s.store.pending s.tasks i (leaving w) (rw h) v.owned;
    fresh = keep-Fresh s.store.records s.tasks i (leaving w) v.fresh (λ x q. cc);
    distinct = v.distinct;
  }

  leave-Inv :
      (i : ℕ) (w : IdempotencyInput)
      → s.tasks i ≡ leaving w
      → Inv (step_task s i returned (release w s.store).1)
  leave-Inv i w h = rw (release_owned w s.store (v.owned.held i (key_of w) (rw h))) (record {
    owned =
        release_task owned_key s.store.pending s.tasks i returned (key_of w) (rw h) refl v.owned;
    fresh = keep-Fresh s.store.records s.tasks i returned v.fresh (λ x q. cc);
    distinct = v.distinct;
  })

  enters-Inv :
      (i : ℕ) (w : IdempotencyInput) (now : DateTime)
      → s.tasks i ≡ asking w
      → Inv (step_task s i (after_entry w (enter w now s.store).0) (enter w now s.store).1)
  enters-Inv i w now h = elim (entry_cases w (enter w now s.store).0) [
    | inl done ↦ rw done (elim (enter-returned w now s.store done) [
      | inl same ↦ rw same (quiet-Inv i returned s.store (rw h) refl refl v.distinct (λ k n. n))
      | inr purged ↦ rw purged (purge-Inv i returned now (rw h) refl)
    ])
    | inr (inl again) ↦
        rw again (rw (enter-asking w now s.store again) (purge-Inv i (asking w) now (rw h) refl))
    | inr (inr runs) ↦
        let (same, absent, free) = enter-running w now s.store runs in
        rw runs (
          rw same (record {
            owned =
                claim_task owned_key s.store.pending s.tasks i (running w) (key_of w) refl free
                  v.owned;
            fresh = λ j x p. running-Fresh i w now absent j x p;
            distinct = unfold purge in retain-IsDict (recent now) s.store.records v.distinct;
          }))
  ]

pub Step-Inv : {limit : ℕ} {s t : System} → Step limit s t → Inv s → Inv t
Step-Inv {s = s} (call i w h valid) v =
    quiet-Inv s v i (asking w) s.store (rw h) refl refl v.distinct (λ k n. n)
Step-Inv {s = s} (enters i w now h early) v = enters-Inv s v i w now h
Step-Inv {s = s} (finish i w r h) v = finish-Inv s v i w r h
Step-Inv {s = s} (fail i w h) v = fail-Inv s v i w h
Step-Inv {s = s} (leave i w h) v = leave-Inv s v i w h

start-Inv : Inv start
start-Inv = record {
  owned = record { distinct = tt; unique = λ i j k p q. cc; held = λ i k p. cc };
  fresh = λ i w p. cc;
  distinct = tt;
}

pub Reach-Inv : {limit : ℕ} {s : System} → Reach limit start s → Inv s
Reach-Inv here = start-Inv
Reach-Inv (next r st) = Step-Inv st (Reach-Inv r)

-- In every reachable state, two tasks that run the operation under one Agent DID and one idempotency
-- key are one task.
pub one_runner :
    {limit : ℕ} {s : System} (i j : ℕ) (v w : IdempotencyInput)
    → Reach limit start s
    → s.tasks i ≡ running v
    → s.tasks j ≡ running w
    → key_of v ≡ key_of w
    → i ≡ j
one_runner i j v w r p q same =
    (Reach-Inv r).owned.unique i j (key_of w) (rw p (ap some same)) (rw q)
