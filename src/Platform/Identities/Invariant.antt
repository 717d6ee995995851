-- ===== src/Platform/Identities/Invariant.antt =====
-- The indexes agree with the records in every interleaving, and no scope is created twice.
use aep_python.Common.{
  ℕ, String, ◌≡◌, refl, inl, inr, false, not, none, some, arith, ◌==◌, nat_eq, string_eq, pair_eq,
  list_eq, ==_iff, if_cases, eq_of_beq, Option-cases,
}
use aep_python.Common.Exec.{key_error, Result, ok, raised}
use aep_python.Common.Dict.{Dict, get, put, remove, get-put}
use aep_python.Common.Flight.{Pending, set_task, Owned, keep_task, claim_task, release_task}
use aep_python.Common.Flight.{set_task, Pending, Owned, keep_task, claim_task, release_task}
use aep_python.Service.Time.{DateTime}
use aep_python.Platform.Types.{ManagedAgentStatus, IdentityRecord}
use aep_python.Platform.Identities.{
  Scope, IdentityStore, scope_of, invalid_identity, taken, insert_identity, Entry, existing,
  admitted, waits, enter, commit, release, update_status,
}
use aep_python.Platform.Identities.Tasks.{
  Task, asking, creating, leaving, returned, owned_key, System, start, step_task, after_entry, Step,
  call, enters, finish, fail, leave, updates, Reach, here, next,
}
use aep_python.Platform.Identities.Indexed.{Indexed, insert-Indexed, update-Indexed}

abbrev Fresh : Dict Scope String → (ℕ → Task) → Type 0
Fresh index tasks = (i : ℕ) (scope : Scope) → tasks i ≡ creating scope → get scope index ≡ none

pub record Inv (s : System) : Type 0 where
  pub owned : Owned s.store.pending (λ i. owned_key (s.tasks i))
  pub fresh : Fresh s.store.by_scope s.tasks
  pub indexed : Indexed s.store

keep-Fresh :
    (index : Dict Scope String) (tasks : ℕ → Task) (i : ℕ) (t : Task)
    → Fresh index tasks
    → ((scope : Scope) → ¬ (t ≡ creating scope))
    → Fresh index (set_task i t tasks)
keep-Fresh index tasks i t f other j scope p = ground (arith, f j scope, other scope)

-- the pending events and who owns them do not matter to the indexes
pending-Indexed :
    (pending : Pending Scope) (s : IdentityStore)
    → Indexed s
    → Indexed (record s { pending = pending })
pending-Indexed pending s v = record {
  keyed = v.keyed;
  scopes = v.scopes;
  dids = v.dids;
  did_ids = v.did_ids;
}

-- The key of a task that owns it is there to be popped.
pub release_owned :
    (scope : Scope) (s : IdentityStore)
    → get scope s.pending ≡ some tt
    → release scope s ≡ (ok tt, record s { pending = remove scope s.pending })
unfolding release
release_owned scope s h = ground arith

-- what `commit` leaves: the store, or a store with the new identity
pub commit_cases :
    (P : IdentityStore → Type 0) (scope : Scope) (r : IdentityRecord) (s : IdentityStore)
    → P s
    → (scope_of r ≡ scope → taken r s ≡ false → P (insert_identity scope r s))
    → P (commit scope r s).1
unfolding commit
commit_cases P scope r s same new =
    if_cases {A = Result IdentityRecord × IdentityStore} (λ x. P x.1) (invalid_identity r)
      (λ _. same)
      λ _.
        if_cases {A = Result IdentityRecord × IdentityStore} (λ x. P x.1)
          (not (scope_of r == scope)) (λ _. same)
          λ is.
            if_cases {A = Result IdentityRecord × IdentityStore} (λ x. P x.1) (taken r s)
              (λ _. same) λ free. new (eq_of_beq (scope_of r) scope (ground arith)) free

update_pending :
    (id : String) (status : ManagedAgentStatus) (at : DateTime) (s : IdentityStore)
    → (update_status id status at s).1.pending ≡ s.pending
unfolding update_status
update_pending id status at s = ground arith

update_by_scope :
    (id : String) (status : ManagedAgentStatus) (at : DateTime) (s : IdentityStore)
    → (update_status id status at s).1.by_scope ≡ s.by_scope
unfolding update_status
update_by_scope id status at s = ground arith

enter_known :
    (scope : Scope) (id : String) (s : IdentityStore)
    → get scope s.by_scope ≡ some id
    → enter scope s
      ≡ elim (get id s.records) [ some r ↦ (ok (existing r), s) | none ↦ (raised key_error, s) ]
unfolding enter
enter_known scope id s e = ground arith

enter_new :
    (scope : Scope) (s : IdentityStore)
    → get scope s.by_scope ≡ none
    → enter scope s ≡ elim (get scope s.pending) [
      | some event ↦ (ok waits, s)
      | none ↦ (ok admitted, record s { pending = put scope tt s.pending })
    ]
unfolding enter
enter_new scope s e = ground arith

-- what the first region decides
pub enter_cases :
    (P : Result Entry × IdentityStore → Type 0) (scope : Scope) (s : IdentityStore)
    → ((r : IdentityRecord) → P (ok (existing r), s))
    → P (raised key_error, s)
    → P (ok waits, s)
    → (get scope s.by_scope ≡ none
        → get scope s.pending ≡ none
        → P (ok admitted, record s { pending = put scope tt s.pending }))
    → P (enter scope s)
enter_cases P scope s old lost wait new = elim (Option-cases (get scope s.by_scope)) [
  | inr (id, e) ↦ elim (Option-cases (get id s.records)) [
    | inr (r, f) ↦ rw (enter_known scope id s e, f) (old r)
    | inl n ↦ rw (enter_known scope id s e, n) lost
  ]
  | inl absent ↦ elim (Option-cases (get scope s.pending)) [
    | inr (event, f) ↦ rw (enter_new scope s absent, f) wait
    | inl free ↦ rw (enter_new scope s absent, free) (new absent free)
  ]
]

module _ (s : System) (v : Inv s) where
  quiet-Inv :
      (i : ℕ) (t : Task)
      → owned_key (s.tasks i) ≡ owned_key t
      → ((scope : Scope) → ¬ (t ≡ creating scope))
      → Inv (step_task s i t s.store)
  quiet-Inv i t same other = record {
    owned = keep_task owned_key s.store.pending s.tasks i t same v.owned;
    fresh = keep-Fresh s.store.by_scope s.tasks i t v.fresh other;
    indexed = v.indexed;
  }

  admit-Inv :
      (i : ℕ) (scope : Scope)
      → s.tasks i ≡ asking scope
      → get scope s.store.by_scope ≡ none
      → get scope s.store.pending ≡ none
      → Inv (
          step_task s i
            (creating scope)
            (record s.store { pending = put scope tt s.store.pending }))
  admit-Inv i scope h absent free = record {
    owned = claim_task owned_key s.store.pending s.tasks i (creating scope) scope refl free v.owned;
    fresh = λ j k p. ground (arith, v.fresh j k, ==_iff i j);
    indexed = pending-Indexed (put scope tt s.store.pending) s.store v.indexed;
  }

  enters-Inv :
      (i : ℕ) (scope : Scope)
      → s.tasks i ≡ asking scope
      → Inv (step_task s i (after_entry scope (enter scope s.store).0) (enter scope s.store).1)
  enters-Inv i scope h =
      enter_cases (λ x. Inv (step_task s i (after_entry scope x.0) x.1)) scope s.store
        (λ r. quiet-Inv i returned (rw h) (λ k p. cc)) (quiet-Inv i returned (rw h) (λ k p. cc))
        (quiet-Inv i (asking scope) (rw h) (λ k p. cc)) (admit-Inv i scope h)

  insert-Inv :
      (i : ℕ) (scope : Scope) (r : IdentityRecord)
      → s.tasks i ≡ creating scope
      → scope_of r ≡ scope
      → taken r s.store ≡ false
      → Inv (step_task s i (leaving scope) (insert_identity scope r s.store))
  unfolding insert_identity
  insert-Inv i scope r h is free = record {
    owned = keep_task owned_key s.store.pending s.tasks i (leaving scope) (rw h) v.owned;
    fresh = λ j k p. ground (
      arith,
      v.fresh j k,
      v.owned.unique i j scope,
      ==_iff i j,
      ==_iff scope k,
      get-put scope k r.agent_identity_id s.store.by_scope,
    );
    indexed = rw (← is) (insert-Indexed r s.store v.indexed free (rw is (v.fresh i scope h)));
  }

  leave-Inv :
      (i : ℕ) (scope : Scope)
      → s.tasks i ≡ leaving scope
      → Inv (step_task s i returned (release scope s.store).1)
  leave-Inv i scope h = rw (release_owned scope s.store (v.owned.held i scope (rw h))) (record {
    owned = release_task owned_key s.store.pending s.tasks i returned scope (rw h) refl v.owned;
    fresh = keep-Fresh s.store.by_scope s.tasks i returned v.fresh (λ k p. cc);
    indexed = pending-Indexed (remove scope s.store.pending) s.store v.indexed;
  })

  updates-Inv :
      (id : String) (status : ManagedAgentStatus) (at : DateTime)
      → Inv (record s { store = (update_status id status at s.store).1 })
  updates-Inv id status at = record {
    owned = rw (update_pending id status at s.store) v.owned;
    fresh = rw (update_by_scope id status at s.store) v.fresh;
    indexed = update-Indexed id status at s.store v.indexed;
  }

pub Step-Inv : {s t : System} → Step s t → Inv s → Inv t
Step-Inv {s} (call i scope h) v = quiet-Inv s v i (asking scope) (rw h) (λ k p. cc)
Step-Inv {s} (enters i scope h) v = enters-Inv s v i scope h
Step-Inv {s} (finish i scope r h) v =
    commit_cases (λ x. Inv (step_task s i (leaving scope) x)) scope r s.store
      (quiet-Inv s v i (leaving scope) (rw h) (λ k p. cc)) (insert-Inv s v i scope r h)
Step-Inv {s} (fail i scope h) v = quiet-Inv s v i (leaving scope) (rw h) (λ k p. cc)
Step-Inv {s} (leave i scope h) v = leave-Inv s v i scope h
Step-Inv {s} (updates id status at) v = updates-Inv s v id status at

start-Inv : Inv start
unfolding get
start-Inv = record {
  owned = record { distinct = tt; unique = λ i j k p q. cc; held = λ i k p. cc };
  fresh = λ i scope p. cc;
  indexed = record {
    keyed = λ id r p. cc;
    scopes = record { sound = λ k id p. absurd (cc); complete = λ id r p. absurd (cc) };
    dids = record { sound = λ k id p. absurd (cc); complete = λ id r p. absurd (cc) };
    did_ids = record { sound = λ k id p. absurd (cc); complete = λ id r p. absurd (cc) };
  };
}

pub Reach-Inv : {s : System} → Reach start s → Inv s
Reach-Inv here = start-Inv
Reach-Inv (next r st) = Step-Inv st (Reach-Inv r)
